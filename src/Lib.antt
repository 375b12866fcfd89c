-- ===== src/Lib.antt =====
-- Apteryx, a centralised configuration database: a server (apteryxd.c) that keeps a tree of values
-- (database.c) and lists of callbacks, and a library (apteryx.c) by which clients set, get and
-- search paths, watch them, and provide their values.
--
-- The parts, and the files that model them:
-- - Prelude: names of the libraries, Boolean tests, lists measured by native numbers, and the
--   results of code that may fault (out of bounds, use after free, an unset pointer, a NULL
--   pointer, a recursion without end).
-- - CString: C strings as lists of bytes without the terminator, with strcmp, strncmp and strchr.
-- - Database: database.c. Heap has the nodes as numbered cells (`struct database_node`); Walk has
--   db_path_to_node, db_node_to_path, db_get and db_search, and Walk/Tokens the in-place cutting
--   of the path; Update has db_node_add, db_init, db_parent_get and db_add; Delete has
--   db_node_delete, db_delete and db_shutdown. GLib's hash table is the interface of Table, which
--   Table/Assoc fills with an association list. View is what a client sees, a map from paths as
--   lists of keys, with the invariant IsTree of the heap; its children relate the two. Add states
--   what db_add does to that map, and its children prove it. Remove does that for db_delete of a
--   path with none below it, and Search for db_search.
-- - Registry: `cb_info_t`, cb_info_find and the list part of apteryx__watch and apteryx__provide in
--   apteryxd.c; its children read the list as a finite map.
-- - Matching: the tests of notify_watchers and provide_get in apteryxd.c that choose the callbacks
--   for a path, against declarative relations.
-- - Server: the rest of apteryxd.c over those three: Notify (notify_watchers), Provide
--   (provide_get), Prune (_prune) and Handlers (the six requests). The state is the record Server;
--   what leaves the server is a list of events; what other processes do is the parameter World,
--   which may answer differently each time.
-- - Rpc: rpc.c: Header (pack_header and unpack_header), Framing (conn_callback), Requests (the bytes
--   that invoke_client_service sends), Sending (the send loops) and Callbacks (add_cb and
--   delete_cb); Messages, Packing and Chunks relate them. Buffer is the interface of protobuf-c's buffer, with
--   what that library documents. Response has the way back, from
--   server_connection_response_closure to the end of invoke_client_service, and Workers the main
--   loop of rpc_provide_service with its workers, as steps in any order. What protoc generates to
--   pack and unpack a message is a parameter.
-- - Client: apteryx.c: Requests has the functions of the interface over Transport, the generated
--   calls; Lifetime has apteryx_init, apteryx_shutdown and the thread, which may come late; System joins the client to
--   the server's handlers; Strings has apteryx_set_string and apteryx_get_string;
--   Service has the client's own service, by which the server reaches its callbacks; Numbers has
--   apteryx_set_int and apteryx_get_int, and Dump apteryx_dump.
-- - Logging: bytes_to_string of internal.h, which apteryx_set and apteryx_get call if debug is on.
-- - Command: apteryxc.c, the command line client: its options, its modes and its callbacks.
-- - Examples: runs of the code, and the theorems at concrete inputs.
--
-- Fuel: db_add has one round for each byte of the path and one more, and its theorem shows that
-- this is enough. db_node_to_path takes the node's number, since a parent is older than its
-- children. db_delete and _prune take a bound by the number of nodes ever made; their theorems show
-- that it is enough, for db_delete of a path with none below it. Where it would not be, the model
-- faults.
--
-- apteryx_dump takes fuel for the depth of the tree, and ends the process where it is not enough.
--
-- The counters wrap at 2 ^ 64. Lengths and the reference count do not wrap in the model.
--
-- The loop of conn_callback takes at least a header each time, so the bytes of the buffer bound it.
--
-- Not modelled: how the sockets of rpc.c are set up, its loop without workers and its end. System does
-- not go through rpc.c: requests reach the handlers one at a time and whole. Further the locks of the
-- server and the database; failed allocations; lua.c and the main function of apteryxd.c. A callback
-- in the server's own process is taken not to change the server. The log of the server
-- and of the client's own service is not modelled, nor are the other descriptors of the process.
--
-- A server is called good for a path where its database is a tree, no watched path is empty or is the
-- path with a '/' behind it, and unset pointers hold NULL. A path is canonical where it is spelled as
-- keys without '/', each of a byte or more and with a '/' in front.
pub mod Prelude
pub mod CString
pub mod Registry
pub mod Matching
pub mod Database
pub mod Server
pub mod Rpc
pub mod Client
pub mod Logging
pub mod Command
pub mod Examples

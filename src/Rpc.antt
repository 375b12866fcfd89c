-- ===== src/Rpc.antt =====
-- rpc.c: the messages on the wire, and how the bytes of a connection are cut into them.
pub mod Header
pub mod Buffer
pub mod Framing
pub mod Messages
pub mod Chunks
pub mod Packing
pub mod Requests
pub mod Sending
pub mod Callbacks
pub mod Workers
pub mod Response

-- ===== src/Database.antt =====
-- database.c: the tree of nodes behind the server, on a heap of nodes.
pub mod Table
pub mod Heap
pub mod Walk
pub mod Update
pub mod Delete
pub mod View
pub mod Add
pub mod Remove
pub mod Search

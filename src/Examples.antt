-- ===== src/Examples.antt =====
-- Runs of the definitions, and the theorems applied to concrete inputs.
pub mod Runs
pub mod Stores
pub mod Serving
pub mod Clients
pub mod Buffers
pub mod Wire
pub mod Deletions
pub mod Threads
pub mod Commands
pub mod Prunes

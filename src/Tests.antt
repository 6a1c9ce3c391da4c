-- ===== src/Tests.antt =====
-- Concrete inputs, and the theorems applied to them.
pub mod Toys
pub mod Money
pub mod Chain
pub mod Pools
pub mod Rules
pub mod Manager
pub mod Sockets
pub mod Book
pub mod Nodes
pub mod Disk
pub mod Rpc

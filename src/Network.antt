-- ===== src/Network.antt =====
-- The network part: what is exchanged between nodes, and what a node does with it.
pub mod Socket
pub mod Message
pub mod Handshake
pub mod GetBlocks
pub mod Inventory
pub mod PeerAddress
pub mod Clock
pub mod AddressBook
pub mod Node

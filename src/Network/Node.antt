-- ===== src/Network/Node.antt =====
-- network/Node.cpp: a node. Each handler and each round of a loop is one step on the state, which
-- answers with the messages that it sends.
pub mod State
pub mod Peers
pub mod Sync
pub mod Handlers
pub mod Rounds
pub mod Connections
pub mod Single
pub mod Invariant
pub mod Relay
pub mod Exchange
pub mod Crossing
pub mod Silence
pub mod Finish
pub mod Stall

-- ===== src/Consensus.antt =====
-- consensus/: proof of work, difficulty, timestamps and coinbase amounts.
pub mod Params
pub mod Target
pub mod Difficulty
pub mod Timestamp
pub mod Coinbase
pub mod Mining

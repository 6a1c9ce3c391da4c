-- ===== src/Chain.antt =====
-- chain/ChainManager: the chain, the ledger and the pools of a node behind one interface. The
-- mutexes are left out: every public function holds them from its first access to its last.
pub mod State
pub mod Apply
pub mod Reorg
pub mod Submit
pub mod Invariant
pub mod Queries

-- ===== src/Core.antt =====
-- core/: transactions, blocks, the ledger, and the chain.
pub mod Wire
pub mod Transaction
pub mod Block
pub mod Ledger
pub mod Blockchain
pub mod Mempool
pub mod OrphanPool
pub mod ForkResolution
pub mod BlockLocator

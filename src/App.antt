-- ===== src/App.antt =====
-- The code under src/app.
pub mod Orchestrator
pub mod RpcServer
pub mod ParseNumber
pub mod Wallet

-- ===== src/App/Orchestrator.antt =====
-- app/Orchestrator.cpp: the start of a node on a storage, in which every stored block is restored.
pub mod Restart
use forgechain.Prelude.{ℕ, zero, suc, ◌-◌, Bool, Option, none, some, if◌then◌else◌}
use forgechain.Prelude.Outcome.{Outcome, ok, fault, ◌>>=◌}
use forgechain.Crypto.{OpenSsl}
use forgechain.Consensus.Difficulty.{Doubles}
use forgechain.Consensus.Params.{ConsensusParams}
use forgechain.Chain.State
use forgechain.Chain.State.{ChainManager}
use forgechain.Chain.Submit.{restore_block}
use forgechain.Storage.{Sqlite, Call, done, thrown, load_block, block_count, perform_all}

-- A call whose exception nothing catches.
abbrev pub uncaught : {Db : Type 0} → Call Db → Outcome Db
uncaught (done db) = ok db
uncaught (thrown db) = fault

module _ ⦃ssl : OpenSsl⦄ ⦃doubles : Doubles⦄ ⦃sql : Sqlite⦄ where
  -- The loop over the heights from `i` on, so many of them.
  unfoldable pub restore_blocks : ℕ → ℕ → sql.Db → ChainManager → Outcome ChainManager
  restore_blocks zero i db cm = ok cm
  restore_blocks (suc n) i db cm = load_block i db >>= λ loaded. elim loaded [
    | none ↦ fault
    | some b ↦ restore_block b cm >>= λ restored.
        let rest = restore_blocks n (suc i) db restored.1 in if restored.0 then rest else fault
  ]

  -- The constructor: the manager with a storage, which writes the genesis block to an empty one, and
  -- then the stored blocks above the genesis block.
  unfoldable pub new : ℕ → ConsensusParams → sql.Db → Outcome (ChainManager × sql.Db)
  unfolding restore_blocks
  new max_pending params db = do
    count ← block_count db
    let cm = State.new max_pending params (some count)
    db' ← uncaught (perform_all cm.writes db)
    size ← block_count db'
    cm' ← restore_blocks (size - 1) 1 db' cm
    ok (cm', db')

-- ===== src/Storage/Served.antt =====
-- chain/ChainManager.cpp, storage/Storage.cpp: a call of a manager together with its storage. The
-- call of the storage is the last thing that a call of the manager does (`submit_block` and
-- `try_reorg`), so that when it throws, the exception leaves the manager as it is in memory then.
use forgechain.Prelude.{ap, ℕ, ◌<◌, ◌≡◌, ◌≢◌, refl, true, false, All, length, drop, if◌then◌else◌}
use forgechain.Prelude.Outcome.{ok, fault, ◌>>=◌, on_branches}
use forgechain.Crypto.{OpenSsl}
use forgechain.Core.Block.{Block}
use forgechain.Core.Blockchain
use forgechain.Core.Blockchain.{BlockValidation, classify_new_block}
use forgechain.Consensus.Difficulty.{Doubles}
use forgechain.Chain.State.{ChainManager, BlockOutcome}
use forgechain.Chain.Apply.{verdict}
use forgechain.Chain.Submit.{submit_block}
use forgechain.Chain.Submit.Totality.{Returns, submit_block-Returns}
use forgechain.Storage.{Sqlite, Call, done, thrown, perform_all}
use forgechain.Storage.Calls.{Request, submits_block, serve}

-- The call returned, or its call of the storage threw; or it threw before that.
pub data Served (Db : Type 0) : Type 0 where
  returned stopped : ChainManager → Db → Served Db
  threw : Served Db

abbrev pub stored : {Db : Type 0} → ChainManager → Call Db → Served Db
stored cm (done db) = returned cm db
stored cm (thrown db) = stopped cm db

module _ ⦃ssl : OpenSsl⦄ ⦃doubles : Doubles⦄ ⦃sql : Sqlite⦄ where
  unfoldable pub serve_on : Request → ChainManager → sql.Db → Served sql.Db
  unfolding serve perform_all
  serve_on request cm db = elim (serve request cm) [
    | fault ↦ threw
    | ok cm' ↦
        if cm.has_storage
        then stored cm' (perform_all (drop (length cm.writes) cm'.writes) db)
        else returned cm' db
  ]

  -- How a call ends that takes the manager from `cm` to `cm'` and does not throw itself: by what its
  -- call of the storage, if there is one, does to the database.
  pub data Ends (cm cm' : ChainManager) (db : sql.Db) : Served sql.Db → Type 0 where
    unstored : cm.has_storage ≡ false → Ends cm cm' db (returned cm' db)
    saved :
        (db' : sql.Db)
        → cm.has_storage ≡ true
        → perform_all (drop (length cm.writes) cm'.writes) db ≡ done db'
        → Ends cm cm' db (returned cm' db')
    failed :
        (db' : sql.Db)
        → cm.has_storage ≡ true
        → perform_all (drop (length cm.writes) cm'.writes) db ≡ thrown db'
        → Ends cm cm' db (stopped cm' db')

  stored-Ends :
      (cm cm' : ChainManager) (db : sql.Db) (call : Call sql.Db)
      → cm.has_storage ≡ true
      → perform_all (drop (length cm.writes) cm'.writes) db ≡ call
      → Ends cm cm' db (stored cm' call)
  stored-Ends cm cm' db (done db') h e = saved db' h e
  stored-Ends cm cm' db (thrown db') h e = failed db' h e

  serve_on-Ends :
      (request : Request) (cm cm' : ChainManager) (db : sql.Db)
      → serve request cm ≡ ok cm'
      → Ends cm cm' db (serve_on request cm db)
  unfolding serve_on
  serve_on-Ends request cm cm' db e =
      rw (serve_on, e)
        (on_branches (Ends cm cm' db) cm.has_storage _ _ (λ h. stored-Ends cm cm' db _ h refl)
          unstored)

  -- If the chain is not empty, the public keys of the block's transactions can be checked, and the
  -- block is no fork candidate, then `submit_block` has an outcome, and returns it if there is no
  -- storage or the storage's call does not throw; the only exception that leaves it is that of the
  -- storage's call, and it leaves the manager as it would have returned.
  pub serve_on-submit_block :
      (now : ℕ) (block : Block) (cm : ChainManager) (db : sql.Db)
      → 0 < Blockchain.size cm.blockchain
      → All (λ tx. Returns (verdict tx)) block.transactions
      → classify_new_block cm.blockchain block ≢ ok BlockValidation.fork_candidate
      → (outcome : BlockOutcome) × (cm' : ChainManager) × (submit_block now block cm
          ≡ ok (outcome, cm'))
        × Ends cm cm' db (serve_on (submits_block now block) cm db)
  unfolding serve
  serve_on-submit_block now block cm db some_block decoded no_fork =
      let (answer, e) = submit_block-Returns now block cm some_block decoded no_fork in
      let served : serve (submits_block now block) cm ≡ ok answer.1 =
        ap (λ o. o >>= λ p. ok p.1) e in
      (answer.0, answer.1, e, serve_on-Ends (submits_block now block) cm answer.1 db served)

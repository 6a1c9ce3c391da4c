-- ===== src/Storage/Atomic.antt =====
-- What is left of a replacement of blocks that throws.
use forgechain.Prelude.{ℕ, ◌≡◌, ◌⊎◌, none}
use forgechain.Core.Block
use forgechain.Core.Block.{Block}
use forgechain.Storage.{Sqlite, Call, done, thrown}

-- The database after a call, however it ended.
abbrev after : {Db : Type 0} → Call Db → Db
after (done db) = db
after (thrown db) = db

module _ ⦃sql : Sqlite⦄ where
  -- The call leaves alone what a ROLLBACK brings back, and whether a transaction is open.
  record Remembers (db : sql.Db) (call : Call sql.Db) : Type 0 where
    rows : (i : ℕ) → sql.before i (after call) ≡ sql.before i db
    open_still : sql.in_transaction (after call) ≡ sql.in_transaction db

  -- How the rows stand after a replacement that threw.
  abbrev pub TakenBack : sql.Db → sql.Db → Type 0
  TakenBack db db' =
      ((i : ℕ) → sql.row i db' ≡ sql.row i db) ⊎ (sql.rollback db' ≡ none) ⊎ (sql.commit db' ≡ none)

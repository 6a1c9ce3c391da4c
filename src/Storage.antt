-- ===== src/Storage.antt =====
-- storage/Storage.hpp, storage/Storage.cpp: the table of blocks in a SQLite database. The table of
-- balances, which no other part of the program uses, is left out. Heights are below 2^63, so that
-- their cast to `int64_t` keeps them.
pub mod Mirror
pub mod Log
pub mod Calls
pub mod Refinement
pub mod Atomic
pub mod Served
use forgechain.Prelude.{
  ℕ, suc, ◌+◌, ◌<◌, ◌≤◌, ◌≡◌, ◌≢◌, Option, none, some, List, [], ◌∷◌, Bytes, bytes_eq, ltb, ◌==◌,
  if◌then◌else◌, Bool, true,
}
use forgechain.Prelude.Outcome.{Outcome, ok, fault}
use forgechain.Crypto.{OpenSsl}
use forgechain.Core.Block
use forgechain.Core.Block.{Block}
use forgechain.Chain.State
use forgechain.Chain.State.{Write}

-- The columns `hash` and `serialized` of a row.
abbrev pub Row : Type 0
Row = Bytes × Bytes

-- A row of another hash: `hash` is UNIQUE, so that INSERT OR REPLACE deletes a row with the same one.
abbrev pub unless_hash : Bytes → Option Row → Option Row
unless_hash hash none = none
unless_hash hash (some row) = if bytes_eq row.0 hash then none else some row

-- SQLite, with the statements that the storage prepares; `none` where a statement cannot be prepared
-- or its step is not SQLITE_DONE, and then the database is as it was. A SELECT of a block is `fault`
-- where it cannot be prepared, and has no bytes where its step is not SQLITE_ROW. `row` is the row
-- with a height, `before` that of the last BEGIN, and `in_transaction` says that a transaction is open.
-- The laws are what SQLite's documentation says of these statements; a ROLLBACK can fail, and brings
-- back rows only inside a transaction.
pub record Sqlite : Type 1 where
  pub Db : Type 0
  pub row : ℕ → Db → Option Row
  pub before : ℕ → Db → Option Row
  pub in_transaction : Db → Bool
  pub insert_block : ℕ → Bytes → Bytes → Db → Option Db
  pub delete_from : ℕ → Db → Option Db
  pub begin : Db → Option Db
  pub commit : Db → Option Db
  pub rollback : Db → Option Db
  pub select_block : ℕ → Db → Outcome (Option Bytes)
  pub count_blocks : Db → Option ℕ
  pub row-insert_block :
      (height : ℕ) (hash serialized : Bytes) (db db' : Db) (i : ℕ)
      → insert_block height hash serialized db ≡ some db'
      → row i db' ≡ (if i == height then some (hash, serialized) else unless_hash hash (row i db))
  pub row-delete_from :
      (height : ℕ) (db db' : Db) (i : ℕ)
      → delete_from height db ≡ some db'
      → row i db' ≡ (if ltb i height then row i db else none)
  pub row-begin : (db db' : Db) (i : ℕ) → begin db ≡ some db' → row i db' ≡ row i db
  pub row-commit : (db db' : Db) (i : ℕ) → commit db ≡ some db' → row i db' ≡ row i db
  pub row-rollback :
      (db db' : Db) (i : ℕ)
      → in_transaction db ≡ true
      → rollback db ≡ some db'
      → row i db' ≡ before i db
  pub row-select_block :
      (height : ℕ) (db : Db) (serialized : Bytes)
      → select_block height db ≡ ok (some serialized)
      → (hash : Bytes) × (row height db ≡ some (hash, serialized))
  pub in_transaction-begin : (db db' : Db) → begin db ≡ some db' → in_transaction db' ≡ true
  pub in_transaction-insert_block :
      (height : ℕ) (hash serialized : Bytes) (db db' : Db)
      → insert_block height hash serialized db ≡ some db'
      → in_transaction db' ≡ in_transaction db
  pub in_transaction-delete_from :
      (height : ℕ) (db db' : Db)
      → delete_from height db ≡ some db'
      → in_transaction db' ≡ in_transaction db
  pub before-begin : (db db' : Db) (i : ℕ) → begin db ≡ some db' → before i db' ≡ row i db
  pub before-insert_block :
      (height : ℕ) (hash serialized : Bytes) (db db' : Db) (i : ℕ)
      → insert_block height hash serialized db ≡ some db'
      → before i db' ≡ before i db
  pub before-delete_from :
      (height : ℕ) (db db' : Db) (i : ℕ)
      → delete_from height db ≡ some db'
      → before i db' ≡ before i db
  pub count_blocks-exact :
      (db : Db) (n m : ℕ)
      → count_blocks db ≡ some m
      → ((i : ℕ) → i < n → row i db ≢ none)
      → ((i : ℕ) → n ≤ i → row i db ≡ none)
      → m ≡ n

-- A call that returned, or threw an exception, with the database after it.
pub data Call (Db : Type 0) : Type 0 where
  done thrown : Db → Call Db

abbrev pub or_throw : {Db : Type 0} → Db → Option Db → Call Db
or_throw db none = thrown db
or_throw db (some db') = done db'

infixl 5 ◌>>=◌
abbrev pub ◌>>=◌ : {Db : Type 0} → Call Db → (Db → Call Db) → Call Db
done db >>= f = f db
thrown db >>= f = thrown db

module _ ⦃sql : Sqlite⦄ where
  unfoldable pub save_block : Block → ℕ → sql.Db → Call sql.Db
  save_block block height db =
      or_throw db (sql.insert_block height block.hash (Block.serialize block) db)

  unfoldable pub block_count : sql.Db → Outcome ℕ
  block_count db = elim (sql.count_blocks db) [ none ↦ fault | some n ↦ ok n ]

  unfoldable pub delete_blocks_from : ℕ → sql.Db → Call sql.Db
  delete_blocks_from height db = or_throw db (sql.delete_from height db)

  -- The loop that saves the blocks one above the other.
  unfoldable pub save_blocks : List Block → ℕ → sql.Db → Call sql.Db
  unfolding save_block
  save_blocks [] height db = done db
  save_blocks (b ∷ bs) height db = save_block b height db >>= save_blocks bs (suc height)

  -- ROLLBACK, whose result is not looked at, and the exception goes on.
  abbrev pub undo : Call sql.Db → Call sql.Db
  undo (done db) = done db
  undo (thrown db) = thrown (elim (sql.rollback db) [ none ↦ db | some db' ↦ db' ])

  unfoldable pub replace_blocks_from : ℕ → List Block → sql.Db → Call sql.Db
  unfolding delete_blocks_from save_blocks
  replace_blocks_from height blocks db =
      or_throw db (sql.begin db)
      >>= (λ started. undo (delete_blocks_from height started >>= save_blocks blocks height))
      >>= λ saved. or_throw saved (sql.commit saved)

  -- The calls that a manager made, in order.
  unfoldable pub perform : Write → sql.Db → Call sql.Db
  unfolding save_block replace_blocks_from
  perform (State.save_block block height) db = save_block block height db
  perform (State.replace_blocks_from height blocks) db = replace_blocks_from height blocks db

  unfoldable pub perform_all : List Write → sql.Db → Call sql.Db
  unfolding perform
  perform_all [] db = done db
  perform_all (w ∷ ws) db = perform w db >>= perform_all ws

module _ ⦃ssl : OpenSsl⦄ ⦃sql : Sqlite⦄ where
  unfoldable pub load_block : ℕ → sql.Db → Outcome (Option Block)
  load_block height db = elim (sql.select_block height db) [
    | fault ↦ fault
    | ok none ↦ ok none
    | ok (some serialized) ↦ ok (Block.deserialize serialized)
  ]

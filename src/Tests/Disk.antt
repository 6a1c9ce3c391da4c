-- ===== src/Tests/Disk.antt =====
-- Theorems on storages at concrete inputs, with a small instance of SQLite.
use mathlib.Core.Option.{some-injective}
use forgechain.Prelude.{
  Bytes, bytes_eq, ℕ, zero, suc, ◌<◌, ◌≤◌, ◌≡◌, ◌≢◌, refl, Bool, sym, ◌∙◌, ap, true, false,
  Option-cases, inl, inr, Option, none, some, List, [], ◌∷◌, ltb, ◌==◌, if◌then◌else◌, arith,
  Bool-cases,
}
use forgechain.Prelude.Outcome.{ok, ok-injective}
use forgechain.Core.Wire
use forgechain.Crypto.{double_sha_256, sha256}
use forgechain.Core.Block
use forgechain.Core.Block.{Block, compute_hash}
use forgechain.Core.Blockchain
use forgechain.Core.Blockchain.{add_block, weighed, classify_new_block}
use forgechain.Core.Blockchain.Index.{hash_at}
use forgechain.Core.Ledger
use forgechain.Consensus.Params.{test_params}
use forgechain.Consensus.Target.{meets_target}
use forgechain.Consensus.Coinbase.{validate_coinbase_amount}
use forgechain.Consensus.Timestamp.{timestamp_is_valid, median_time_past, window_timestamps}
use forgechain.Consensus.Difficulty.{next_difficulty}
use forgechain.Chain.State
use forgechain.Chain.State.{ChainManager, BlockOutcome}
use forgechain.Chain.Submit
use forgechain.Chain.Submit.{accept}
use forgechain.Chain.Apply.{apply_block_to_ledger}
use forgechain.Storage.Mirror.{row_at, Distinct, Mirrors}
use forgechain.Storage.Calls.{serve, submits_block}
use forgechain.Storage.Refinement.{serve-Mirrors}
use forgechain.App.Orchestrator
use forgechain.App.Orchestrator.Restart.{Answers, IsStorable, new-restarts}
use forgechain.Tests.Toys.{toy_ssl, genesis, bytes_eq-differ}
use forgechain.Tests.Rules.{toy_doubles}
use forgechain.Storage.Served.{Ends, serve_on, serve_on-submit_block}
use forgechain.Tests.Manager.{mined, manager_is_not_empty, mined_is_no_fork}
use forgechain.Storage.{Row, unless_hash, Sqlite, perform_all}

-- The rows, those of the last BEGIN, and whether a transaction is open.
record Disk : Type 0 where
  now : ℕ → Option Row
  earlier : ℕ → Option Row
  is_open : Bool

-- The first height without a row, below a bound.
abbrev first_gap : ℕ → ℕ → (ℕ → Option Row) → Option ℕ
first_gap zero i rows = none
first_gap (suc fuel) i rows = elim (rows i) [
  | none ↦ some i
  | some row ↦ first_gap fuel (suc i) rows
]

first_gap-exact :
    (fuel i n m : ℕ) (rows : ℕ → Option Row)
    → i ≤ n
    → first_gap fuel i rows ≡ some m
    → ((j : ℕ) → j < n → rows j ≢ none)
    → ((j : ℕ) → n ≤ j → rows j ≡ none)
    → m ≡ n
first_gap-exact zero i n m rows low e full free = cc
first_gap-exact (suc fuel) i n m rows low e full free = elim (Option-cases (rows i)) [
  | inl gap ↦
      let e' : some i ≡ some m = rw (first_gap, gap) at e in
      let at_end : n ≤ i = elim (Bool-cases (ltb i n)) [
        | inl below ↦ absurd (full i (ground arith) gap)
        | inr above ↦ ground arith
      ] in
      omega (arith, some-injective i m e')
  | inr (row, there) ↦
      let next : i < n = elim (Bool-cases (ltb i n)) [
        | inl below ↦ ground arith
        | inr above ↦ cc (there, free i (let h : n ≤ i = ground arith in h))
      ] in
      first_gap-exact fuel (suc i) n m rows (omega (arith, next)) (rw (first_gap, there) at e) full
        free
]

in_reach :
    (reached : Bool) (db : Disk) {db' : Disk}
    → (if reached then some db else none) ≡ some db'
    → db ≡ db'
in_reach true db e = some-injective _ _ e
in_reach false db e = cc

serialized_of : Option Row → Option Bytes
serialized_of none = none
serialized_of (some row) = some row.1

has_row :
    (row : Option Row) (serialized : Bytes)
    → ok (serialized_of row) ≡ ok (some serialized)
    → (hash : Bytes) × (row ≡ some (hash, serialized))
unfolding serialized_of
has_row none serialized e = cc
has_row (some (hash, bytes)) serialized e =
    (hash, ap (λ s. some (hash, s)) (some-injective _ _ (ok-injective _ _ e)))

rolled_back :
    (db db' : Disk)
    → (if db.is_open then some (record db { now = db.earlier; is_open = false }) else none)
      ≡ some db'
    → (i : ℕ) → db'.now i ≡ db.earlier i
rolled_back db db' e i = ap (λ (d : Disk). d.now i) (sym (in_reach db.is_open _ e))

-- A COMMIT always succeeds; an INSERT or DELETE at a height of 9 or more fails.
instance abbrev toy_sql : Sqlite
toy_sql = record {
  Db = Disk;
  row = λ i db. db.now i;
  before = λ i db. db.earlier i;
  in_transaction = λ db. db.is_open;
  insert_block = λ height hash serialized db.
      if ltb height 9
      then some (record db {
        now = λ i. if i == height then some (hash, serialized) else unless_hash hash (db.now i);
      })
      else none;
  delete_from = λ height db.
      if ltb height 9
      then some (record db { now = λ i. if ltb i height then db.now i else none })
      else none;
  begin = λ db. some (record db { earlier = db.now; is_open = true });
  commit = λ db. some (record db { is_open = false });
  rollback =
      λ db. if db.is_open then some (record db { now = db.earlier; is_open = false }) else none;
  select_block = λ height db. ok (serialized_of (db.now height));
  count_blocks = λ db. first_gap 9 0 db.now;
  row-insert_block = λ height hash serialized db db' i e.
      ap (λ (d : Disk). d.now i) (sym (in_reach (ltb height 9) _ e));
  row-delete_from =
      λ height db db' i e. ap (λ (d : Disk). d.now i) (sym (in_reach (ltb height 9) _ e));
  row-begin = λ db db' i e. ap (λ (d : Disk). d.now i) (sym (some-injective _ _ e));
  row-commit = λ db db' i e. ap (λ (d : Disk). d.now i) (sym (some-injective _ _ e));
  row-rollback = λ db db' i opened e. rolled_back db db' e i;
  row-select_block = λ height db serialized e. has_row (db.now height) serialized e;
  in_transaction-begin = λ db db' e. ap (λ (d : Disk). d.is_open) (sym (some-injective _ _ e));
  in_transaction-insert_block = λ height hash serialized db db' e.
      ap (λ (d : Disk). d.is_open) (sym (in_reach (ltb height 9) _ e));
  in_transaction-delete_from =
      λ height db db' e. ap (λ (d : Disk). d.is_open) (sym (in_reach (ltb height 9) _ e));
  before-begin = λ db db' i e. ap (λ (d : Disk). d.earlier i) (sym (some-injective _ _ e));
  before-insert_block = λ height hash serialized db db' i e.
      ap (λ (d : Disk). d.earlier i) (sym (in_reach (ltb height 9) _ e));
  before-delete_from =
      λ height db db' i e. ap (λ (d : Disk). d.earlier i) (sym (in_reach (ltb height 9) _ e));
  count_blocks-exact =
      λ db n m e full free. first_gap-exact 9 0 n m db.now (omega arith) e full free;
}

abbrev blank : Disk
blank = record { now = λ i. none; earlier = λ i. none; is_open = false }

-- A manager with a storage, and the database once it has its genesis block.
abbrev keeper : ChainManager
keeper = State.new 2 test_params (some 0)

abbrev first_row : Disk
first_row = record { now = row_at (genesis ∷ []); earlier = λ i. none; is_open = false }

first_row-Mirrors : Mirrors keeper.blockchain.blocks first_row
unfolding State.new Blockchain.new
first_row-Mirrors = record { rows = λ i. refl }

abbrev grown : ChainManager
grown = accept mined Ledger.empty keeper

mined_is_served : serve (submits_block 51 mined) keeper ≡ ok grown
unfolding serve State.new Blockchain.new Block.new Submit.submit_block meets_target compute_hash
    double_sha_256 Block.serialize Wire.to_le validate_coinbase_amount classify_new_block bytes_eq
    timestamp_is_valid median_time_past window_timestamps Blockchain.at next_difficulty
    apply_block_to_ledger
mined_is_served = refl

serve_on-submit_block_example :
    (outcome : BlockOutcome) × (cm' : ChainManager) × (Submit.submit_block 51 mined keeper
      ≡ ok (outcome, cm'))
    × Ends keeper cm' first_row (serve_on (submits_block 51 mined) keeper first_row)
unfolding State.new Block.new
serve_on-submit_block_example =
    serve_on-submit_block 51 mined keeper first_row manager_is_not_empty tt mined_is_no_fork

two-Distinct : (a b : Block) → a.hash ≢ b.hash → Distinct (a ∷ b ∷ [])
unfolding hash_at
two-Distinct a b d zero zero h e f = refl
two-Distinct a b d zero (suc zero) h e f = absurd (d (some-injective _ _ (e ∙ sym f)))
two-Distinct a b d zero (suc (suc j)) h e f = cc
two-Distinct a b d (suc zero) zero h e f = absurd (d (some-injective _ _ (f ∙ sym e)))
two-Distinct a b d (suc zero) (suc zero) h e f = refl
two-Distinct a b d (suc zero) (suc (suc j)) h e f = cc
two-Distinct a b d (suc (suc i)) j h e f = cc

mined_is_other : bytes_eq genesis.hash mined.hash ≡ false
unfolding Block.new compute_hash double_sha_256 sha256 Block.serialize Block.merkle_bytes
    Block.serialize_transactions Wire.to_le bytes_eq
mined_is_other = refl

grown-Distinct : Distinct grown.blockchain.blocks
unfolding State.new Blockchain.new add_block
grown-Distinct = two-Distinct genesis _ (bytes_eq-differ genesis.hash mined.hash mined_is_other)

abbrev two_rows : Disk
two_rows = record {
  now = λ i.
      if i == 1
      then some (mined.hash, Block.serialize mined)
      else unless_hash mined.hash (first_row.now i);
  earlier = λ i. none;
  is_open = false;
}

serve-Mirrors_example : Mirrors grown.blockchain.blocks two_rows
unfolding State.new perform_all Blockchain.new add_block
serve-Mirrors_example =
    serve-Mirrors (submits_block 51 mined) keeper grown first_row two_rows refl mined_is_served
      grown-Distinct first_row-Mirrors refl

-- The tenth row cannot be saved, and the two before it are taken back.
abbrev too_high : List Block
too_high = genesis ∷ genesis ∷ []

abbrev taken_back : Disk
taken_back = record first_row { earlier = first_row.now }

-- A chain of the genesis block and a block without transactions.
abbrev stored : Block
stored = weighed 0 mined

stored-IsStorable : IsStorable stored
unfolding Block.new double_sha_256 sha256 Block.merkle_bytes compute_hash Block.serialize Wire.to_le
stored-IsStorable = record {
  fits = record {
    version = omega arith;
    prev_hash = refl;
    merkle_root = refl;
    timestamp = omega arith;
    difficulty = omega arith;
    nonce = omega arith;
    count = omega arith;
    transactions = tt;
  };
  hashed = refl;
}

abbrev two_stored : Disk
two_stored = record { now = row_at (genesis ∷ stored ∷ []); earlier = λ i. none; is_open = false }

two_are_counted : toy_sql.count_blocks two_stored ≡ some 2
unfolding row_at
two_are_counted = refl

two_are_selected : (i : ℕ) → 1 ≤ i → i ≤ 1 → Answers two_stored i
unfolding row_at serialized_of
two_are_selected zero low high = absurd (omega arith)
two_are_selected (suc zero) low high = (Block.serialize stored, refl)
two_are_selected (suc (suc i)) low high = absurd (omega arith)

stored_is_applied : apply_block_to_ledger stored Ledger.empty ≡ ok (true, Ledger.empty)
unfolding apply_block_to_ledger Block.new
stored_is_applied = refl

genesis_is_first : Blockchain.new.blocks ≡ genesis ∷ []
unfolding Blockchain.new
genesis_is_first = refl

genesis_is_light : genesis.cumulative_work ≡ 0
unfolding Block.new
genesis_is_light = refl

new-restarts_example :
    (cm : ChainManager) × (Orchestrator.new 2 test_params two_stored ≡ ok (cm, two_stored))
    × (cm.blockchain.blocks ≡ genesis ∷ stored ∷ [])
    × (cm.ledger ≡ Ledger.empty)
unfolding Block.block_work
new-restarts_example =
    new-restarts 2 test_params genesis (stored ∷ []) two_stored Ledger.empty genesis_is_first
      (genesis_is_light, (refl, tt)) (stored-IsStorable, tt) (Ledger.empty, stored_is_applied, refl)
      (record { rows = λ i. refl }) (λ e. cc (two_are_counted, e)) two_are_selected

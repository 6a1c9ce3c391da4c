-- ===== src/App/Orchestrator/Restart.antt =====
-- A node that is started on the storage of another has its chain.
use mathlib.Core.List.{append_assoc, append-nil}
use mathlib.Core.Option.{some-injective}
use forgechain.Prelude.{
  ◌+◌, subst, some, Bytes, length-append, get_last?-append_one, ℕ, zero, suc, ◌-◌, ◌<◌, ◌≤◌, ◌≡◌,
  ◌≢◌, refl, sym, ◌∙◌, ap, true, false, Option-cases, inl, inr, none, some, List, [], ◌∷◌, ◌++◌,
  All, add64, length, ◌==◌, get_elem?, arith,
}
use forgechain.Prelude.Outcome.{ok, ◌>>=◌}
use forgechain.Crypto.{OpenSsl}
use forgechain.Core.Block
use forgechain.Core.Block.{Block, block_work, compute_hash}
use forgechain.Core.Block.RoundTrip
use forgechain.Core.Block.RoundTrip.{received, deserialize-serialize_block}
use forgechain.Core.Blockchain
use forgechain.Core.Blockchain.{Blockchain, tip_work, weighed, add_block}
use forgechain.Core.Blockchain.Work.{WeighedFrom, IsWeighed}
use forgechain.Core.Ledger
use forgechain.Core.Ledger.{Ledger}
use forgechain.Consensus.Difficulty.{Doubles}
use forgechain.Consensus.Params.{ConsensusParams}
use forgechain.Chain.State
use forgechain.Chain.State.{ChainManager}
use forgechain.Chain.Apply.{apply_block_to_ledger}
use forgechain.Chain.Submit.{restore_block}
use forgechain.Storage.{Row, Sqlite, load_block, block_count, perform_all}
use forgechain.Storage.Mirror.{row_of, row_at, Mirrors}
use forgechain.App.Orchestrator
use forgechain.App.Orchestrator.{restore_blocks}

module _ ⦃ssl : OpenSsl⦄ where
  -- A block that comes back from the storage unchanged, but for its work.
  pub record IsStorable (b : Block) : Type 0 where
    pub fits : RoundTrip.Fits b
    pub hashed : b.hash ≡ compute_hash b

  -- Each block's transactions can be applied to the ledger that those below leave.
  abbrev pub Pays : List Block → Ledger → Ledger → Type 0
  Pays [] l l' = l ≡ l'
  Pays (b ∷ bs) l l' = (m : Ledger) × (apply_block_to_ledger b l ≡ ok (true, m)) × Pays bs m l'

  weighed-received :
      (w : ℕ) (b : Block)
      → b.hash ≡ compute_hash b
      → b.cumulative_work ≡ add64 (block_work b) w
      → weighed w (received b) ≡ b
  unfolding compute_hash block_work Block.serialize
  weighed-received w b eh ew =
      ap (λ n. record b { cumulative_work = n; hash = compute_hash b }) (sym ew)
      ∙ ap (λ h. record b { hash = h }) (sym eh)

get_elem?-middle :
    {A : Type 0} (xs : List A) (y : A) (ys : List A) → get_elem? (xs ++ y ∷ ys) (length xs) ≡ some y
get_elem?-middle [] y ys = refl
get_elem?-middle (x ∷ xs) y ys = get_elem?-middle xs y ys

row_at-inside : (bs : List Block) (i : ℕ) → i < length bs → row_at bs i ≢ none
unfolding row_at
row_at-inside [] i low = absurd (omega arith)
row_at-inside (b ∷ bs) zero low = λ e. cc
row_at-inside (b ∷ bs) (suc i) low = row_at-inside bs i (omega arith)

row_at-outside : (bs : List Block) (i : ℕ) → length bs ≤ i → row_at bs i ≡ none
unfolding row_at
row_at-outside [] i high = refl
row_at-outside (b ∷ bs) zero high = absurd (omega arith)
row_at-outside (b ∷ bs) (suc i) high = row_at-outside bs i (omega arith)

-- The SELECT of the block at a height can be prepared, and its step is SQLITE_ROW.
abbrev pub Answers : ⦃sql : Sqlite⦄ → sql.Db → ℕ → Type 0
Answers ⦃sql⦄ db i = (serialized : Bytes) × (sql.select_block i db ≡ ok (some serialized))

module _ ⦃ssl : OpenSsl⦄ ⦃sql : Sqlite⦄ where
  load_block-Mirrors :
      (below : List Block) (b : Block) (above : List Block) (db : sql.Db)
      → RoundTrip.Fits b
      → Answers db (length below)
      → Mirrors (below ++ b ∷ above) db
      → load_block (length below) db ≡ ok (some (received b))
  unfolding load_block row_at
  load_block-Mirrors below b above db f (serialized, answer) m =
      let found : row_at (below ++ b ∷ above) (length below) ≡ some (row_of b) =
        rw (row_at, get_elem?-middle below b above) refl in
      let (hash, there) = sql.row-select_block (length below) db serialized answer in
      let same : (hash, serialized) ≡ row_of b =
        some-injective _ _ (sym there ∙ m.rows (length below) ∙ found) in
      let bytes : serialized ≡ Block.serialize b = ap (λ (r : Row). r.1) same in
      rw (load_block, answer, bytes) (ap ok (deserialize-serialize_block b f))

module _ ⦃ssl : OpenSsl⦄ ⦃doubles : Doubles⦄ ⦃sql : Sqlite⦄ where
  -- The manager after a block of the storage is restored.
  abbrev with_block : Block → Ledger → ChainManager → ChainManager
  with_block b l cm = record cm {
    ledger = l;
    blockchain = add_block (received b) cm.blockchain;
    tip_version = add64 cm.tip_version 1;
  }

  restore_block-received :
      (b : Block) (cm : ChainManager) (l : Ledger)
      → apply_block_to_ledger b cm.ledger ≡ ok (true, l)
      → restore_block (received b) cm ≡ ok (true, with_block b l cm)
  unfolding restore_block apply_block_to_ledger
  restore_block-received b cm l p = rw (p, restore_block) refl

  blocks-with_block :
      (below : List Block) (b : Block) (cm : ChainManager) (l : Ledger)
      → cm.blockchain.blocks ≡ below
      → b.hash ≡ compute_hash b
      → b.cumulative_work ≡ add64 (block_work b) (tip_work below)
      → (with_block b l cm).blockchain.blocks ≡ below ++ b ∷ []
  unfolding add_block
  blocks-with_block below b cm l e eh ew =
      ap (λ bs. bs ++ weighed (tip_work bs) (received b) ∷ []) e
      ∙ ap (λ x. below ++ x ∷ []) (weighed-received (tip_work below) b eh ew)

  restore_blocks-rebuilds :
      (below above : List Block) (db : sql.Db) (cm : ChainManager) (l : Ledger)
      → Mirrors (below ++ above) db
      → ((i : ℕ) → i < length above → Answers db (length below + i))
      → cm.blockchain.blocks ≡ below
      → All IsStorable above
      → WeighedFrom (tip_work below) above
      → Pays above cm.ledger l
      → (cm' : ChainManager) × (restore_blocks (length above) (length below) db cm ≡ ok cm')
        × (cm'.blockchain.blocks ≡ below ++ above)
        × (cm'.ledger ≡ l)
  unfolding restore_blocks
  restore_blocks-rebuilds below [] db cm l m answers e s w p =
      (cm, refl, e ∙ sym (append-nil below), p)
  restore_blocks-rebuilds below (b ∷ above) db cm l m answers e (s, ss) (w, ws) (after, p, ps) =
      let cm1 = with_block b after cm in
      let here : Answers db (length below) =
        subst (Answers db) (omega arith) (answers 0 (omega arith)) in
      let assoc : (below ++ b ∷ []) ++ above ≡ below ++ b ∷ above =
        append_assoc below (b ∷ []) above in
      let long : length (below ++ b ∷ []) ≡ suc (length below) =
        omega (arith, length-append below (b ∷ [])) in
      let tip : tip_work (below ++ b ∷ []) ≡ b.cumulative_work =
        ap (λ x. elim x [ none ↦ 0 | some y ↦ y.cumulative_work ]) (get_last?-append_one below b) in
      let (cm', run, blocks, ledger) =
        restore_blocks-rebuilds (below ++ b ∷ []) above db cm1 l (rw assoc m)
          (λ i low. subst (Answers db) (omega (arith, long)) (answers (suc i) (omega arith)))
          (blocks-with_block below b cm after e s.hashed w) ss (rw tip ws) ps in
      (
        cm',
        rw
            (
              restore_blocks,
              load_block-Mirrors below b above db s.fits here m,
              restore_block-received b cm after p,
            )
            (rw long at run),
        blocks ∙ assoc,
        ledger,
      )

  counted :
      (bs : List Block) (db : sql.Db)
      → Mirrors bs db
      → sql.count_blocks db ≢ none
      → block_count db ≡ ok (length bs)
  unfolding block_count
  counted bs db m counts = elim (Option-cases (sql.count_blocks db)) [
    | inl e ↦ absurd (counts e)
    | inr (n, e) ↦
        rw (block_count, e)
          (ap ok (
            sql.count_blocks-exact db (length bs) n e
              (λ i low h. row_at-inside bs i low (sym (m.rows i) ∙ h))
              λ i high. m.rows i ∙ row_at-outside bs i high))
  ]

  new-counted :
      (max_pending : ℕ) (params : ConsensusParams) (n : ℕ) (db : sql.Db)
      → block_count db ≡ ok (suc n)
      → Orchestrator.new max_pending params db ≡ (
          restore_blocks n 1 db (State.new max_pending params (some (suc n))) >>= λ cm. ok (cm, db))
  unfolding Orchestrator.new State.new perform_all
  new-counted max_pending params n db e =
      let some_block : (suc n == 0) ≡ false = ground arith in
      let left : suc n - 1 ≡ n = omega arith in rw (Orchestrator.new, e, some_block, e, left) refl

  -- The storage of a node holds a chain with the right cumulative work, whose blocks above the genesis
  -- block fit their byte format, have the hashes of their bytes, and have transactions that can be
  -- applied in order, from an empty ledger to `l`. If SQLite can count the rows, and the SELECT of each
  -- height above the genesis block can be prepared and answers with a row, a node that is started on
  -- the storage leaves it alone, and has this very chain, with its hashes and its cumulative work, and
  -- the ledger `l`.
  pub new-restarts :
      (max_pending : ℕ) (params : ConsensusParams) (genesis : Block) (bs : List Block) (db : sql.Db)
      (l : Ledger)
      → Blockchain.new.blocks ≡ genesis ∷ []
      → IsWeighed (genesis ∷ bs)
      → All IsStorable bs
      → Pays bs Ledger.empty l
      → Mirrors (genesis ∷ bs) db
      → sql.count_blocks db ≢ none
      → ((i : ℕ) → 1 ≤ i → i ≤ length bs → Answers db i)
      → (cm : ChainManager) × (Orchestrator.new max_pending params db ≡ ok (cm, db))
        × (cm.blockchain.blocks ≡ genesis ∷ bs)
        × (cm.ledger ≡ l)
  unfolding State.new
  new-restarts max_pending params genesis bs db l start w s p m counts answers =
      let cm0 = State.new max_pending params (some (suc (length bs))) in
      let light : WeighedFrom genesis.cumulative_work bs = rw (w.0) w.1 in
      let (cm, run, blocks, ledger) =
        restore_blocks-rebuilds (genesis ∷ []) bs db cm0 l m
          (λ i low. answers (1 + i) (omega arith) (omega arith)) start s light p in
      (
        cm,
        new-counted max_pending params (length bs) db (counted (genesis ∷ bs) db m counts)
            ∙ ap (λ r. r >>= λ cm. ok (cm, db)) run,
        blocks,
        ledger,
      )

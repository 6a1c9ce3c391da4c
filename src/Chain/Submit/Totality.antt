-- ===== src/Chain/Submit/Totality.antt =====
-- A block that does not start a fork is answered without an exception.
use forgechain.Prelude.{
  ℕ, zero, suc, ◌-◌, ◌%◌, ◌<◌, ◌≡◌, ◌≢◌, ◌||◌, inl, inr, true, refl, some, List, [], ◌∷◌, All,
  length, get_elem?, get_last?-none, ltb, leb, ◌==◌, Bool-cases, Option-cases, arith, ap,
}
use forgechain.Prelude.Outcome.{Outcome, ok, fault, Outcome-cases}
use forgechain.Crypto.{OpenSsl}
use forgechain.Core.Transaction.{Transaction}
use forgechain.Core.Block.{Block}
use forgechain.Core.Blockchain
use forgechain.Core.Blockchain.{Blockchain, BlockValidation, classify_new_block, latest}
use forgechain.Core.Ledger.{Ledger, apply_transaction}
use forgechain.Consensus.Params.{ConsensusParams}
use forgechain.Consensus.Target.{meets_target}
use forgechain.Consensus.Coinbase.{validate_coinbase_amount}
use forgechain.Consensus.Difficulty.{Doubles, next_difficulty}
use forgechain.Consensus.Timestamp.{
  window_start, window_timestamps, median_time_past, timestamp_is_valid,
}
use forgechain.Consensus.Timestamp.Median.{
  timestamps_from-ok, median-half, median_time_past-eq, timestamp_is_valid-eq,
}
use forgechain.Chain.State.{ChainManager}
use forgechain.Chain.Apply.{verdict, apply_all, apply_block_to_ledger}
use forgechain.Chain.Submit.{extend, submit_block}

-- A call that ends without an exception.
abbrev pub Returns {ℓ} : {A : Type ℓ} → Outcome A → Type ℓ
Returns m = (a : _) × (m ≡ ok a)

-- A chain that answers below a height.
abbrev Answers : ℕ → (ℕ → Outcome Block) → Type 0
Answers height block_at = (i : ℕ) → i < height → Returns (block_at i)

get_elem?-Returns :
    (bs : List Block) (i : ℕ) → i < length bs → (b : Block) × (get_elem? bs i ≡ some b)
get_elem?-Returns [] i h = absurd (omega arith)
get_elem?-Returns (b ∷ bs) zero h = (b, refl)
get_elem?-Returns (b ∷ bs) (suc i) h = get_elem?-Returns bs i (omega arith)

at-Answers : (chain : Blockchain) → Answers (Blockchain.size chain) (Blockchain.at chain)
unfolding Blockchain.at
at-Answers chain i h =
    let (b, e) = get_elem?-Returns chain.blocks i h in (b, rw (Blockchain.at, e) refl)

median_time_past-Returns :
    (height window : ℕ) (block_at : ℕ → Outcome Block)
    → Answers height block_at
    → Returns (median_time_past height window block_at)
unfolding median_time_past window_timestamps
median_time_past-Returns height window block_at answers =
    elim (Bool-cases (height == 0 || window == 0)) [
      | inl e ↦ (0, rw (median_time_past, e) refl)
      | inr e ↦
          let start = window_start height window in
          let (ts, at, len) =
            timestamps_from-ok (height - start) start height block_at (ground arith) answers in
          let (m, is_median, _) = median-half 0 ts (ground arith) in
          (
            m,
            median_time_past-eq height window block_at ts m (ground arith) (ground arith) at
                is_median,
          )
    ]

module _ ⦃doubles : Doubles⦄ where
  next_difficulty-Returns :
      (height : ℕ) (params : ConsensusParams) (block_at : ℕ → Outcome Block)
      → Answers height block_at
      → Returns (next_difficulty height params block_at)
  unfolding next_difficulty
  next_difficulty-Returns height params block_at answers =
      elim (Bool-cases (ltb params.retarget_interval 2 || leb height params.retarget_interval)) [
        | inl e ↦ rw (next_difficulty, e) (_, refl)
        | inr e ↦
            let (parent, at_parent) = answers (height - 1) (ground arith) in
            let (first, at_first) = answers (height - params.retarget_interval) (ground arith) in
            elim (Bool-cases (height % params.retarget_interval == 0)) [
              | inl f ↦ rw (next_difficulty, e, at_parent, f, at_first) (_, refl)
              | inr f ↦ rw (next_difficulty, e, at_parent, f) (_, refl)
            ]
      ]

module _ ⦃ssl : OpenSsl⦄ where
  apply_all-Returns :
      (txs done : List Transaction) (l : Ledger)
      → All (λ tx. Returns (verdict tx)) txs
      → Returns (apply_all txs done l)
  unfolding apply_all
  apply_all-Returns [] done l h = (_, refl)
  apply_all-Returns (tx ∷ txs) done l ((good, e), hs) = elim (Bool-cases good) [
    | inr bad ↦ rw (apply_all, e, bad) (_, refl)
    | inl fine ↦ elim (Bool-cases (apply_transaction tx l).0) [
      | inr refused ↦ rw (apply_all, e, fine, refused) (_, refl)
      | inl applied ↦
          rw (apply_all, e, fine, applied)
            (apply_all-Returns txs (tx ∷ done) (apply_transaction tx l).1 hs)
    ]
  ]

module _ ⦃ssl : OpenSsl⦄ ⦃doubles : Doubles⦄ where
  extend-Returns :
      (now : ℕ) (block : Block) (cm : ChainManager)
      → All (λ tx. Returns (verdict tx)) block.transactions
      → Returns (extend now block cm)
  unfolding extend apply_block_to_ledger
  extend-Returns now block cm decoded =
      let height = Blockchain.size cm.blockchain in
      let block_at = Blockchain.at cm.blockchain in
      let answers = at-Answers cm.blockchain in
      let (past, m) = median_time_past-Returns height cm.params.mtp_window block_at answers in
      let timely = timestamp_is_valid-eq block height now cm.params block_at past m in
      let (expected, work) = next_difficulty-Returns height cm.params block_at answers in
      let (applied, e) = apply_all-Returns block.transactions [] cm.ledger decoded in
      elim (Outcome-cases (timestamp_is_valid block height now cm.params block_at)) [
        | inl f ↦ cc (timely, f)
        | inr (timely_now, f) ↦ elim (Bool-cases timely_now) [
          | inr early ↦ rw (extend, f, early) (_, refl)
          | inl late ↦ elim (Bool-cases (block.difficulty == expected)) [
            | inr other ↦ rw (extend, f, late, work, other) (_, refl)
            | inl same ↦ elim (Bool-cases applied.0) [
              | inl good ↦
                  rw (extend, f, late, work, same, apply_block_to_ledger, e, good) (_, refl)
              | inr bad ↦ rw (extend, f, late, work, same, apply_block_to_ledger, e, bad) (_, refl)
            ]
          ]
        ]
      ]

  classify-some :
      (chain : Blockchain) (block tip : Block)
      → latest chain ≡ some tip
      → classify_new_block chain block ≢ fault
  unfolding classify_new_block
  classify-some chain block tip e = λ f. ground arith

  classify-Returns :
      (chain : Blockchain) (block : Block)
      → 0 < Blockchain.size chain
      → Returns (classify_new_block chain block)
  unfolding classify_new_block
  classify-Returns chain block some_block = elim (Option-cases (latest chain)) [
    | inl e ↦ absurd (omega (arith, ap length (get_last?-none chain.blocks e)))
    | inr (tip, e) ↦ elim (Outcome-cases (classify_new_block chain block)) [
      | inl f ↦ absurd (classify-some chain block tip e f)
      | inr answer ↦ answer
    ]
  ]

  by_status-Returns :
      (now : ℕ) (block : Block) (cm : ChainManager)
      → All (λ tx. Returns (verdict tx)) block.transactions
      → classify_new_block cm.blockchain block ≢ ok BlockValidation.fork_candidate
      → meets_target block.hash block.difficulty ≡ true
      → validate_coinbase_amount block.transactions ≡ true
      → (status : BlockValidation) → classify_new_block cm.blockchain block ≡ ok status
      → Returns (submit_block now block cm)
  unfolding submit_block
  by_status-Returns now block cm decoded no_fork e f BlockValidation.valid g =
      rw (submit_block, e, f, g) (extend-Returns now block cm decoded)
  by_status-Returns now block cm decoded no_fork e f BlockValidation.fork_candidate g =
      absurd (no_fork g)
  by_status-Returns now block cm decoded no_fork e f BlockValidation.invalid g =
      rw (submit_block, e, f, g) (_, refl)

  -- If the chain is not empty, the public keys of the block's transactions can be checked, and the
  -- block is no fork candidate, then `submit_block` answers, but for what its storage may throw.
  pub submit_block-Returns :
      (now : ℕ) (block : Block) (cm : ChainManager)
      → 0 < Blockchain.size cm.blockchain
      → All (λ tx. Returns (verdict tx)) block.transactions
      → classify_new_block cm.blockchain block ≢ ok BlockValidation.fork_candidate
      → Returns (submit_block now block cm)
  unfolding submit_block
  submit_block-Returns now block cm some_block decoded no_fork =
      elim (Bool-cases (meets_target block.hash block.difficulty)) [
        | inr e ↦ rw (submit_block, e) (_, refl)
        | inl e ↦ elim (Bool-cases (validate_coinbase_amount block.transactions)) [
          | inr f ↦ rw (submit_block, e, f) (_, refl)
          | inl f ↦
              let (status, g) = classify-Returns cm.blockchain block some_block in
              by_status-Returns now block cm decoded no_fork e f status g
        ]
      ]

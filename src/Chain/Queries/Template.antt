-- ===== src/Chain/Queries/Template.antt =====
-- A block that is mined from a template is accepted.
use forgechain.Prelude.{
  ℕ, ◌+◌, ◌^◌, ◌<◌, ◌≤◌, ◌≡◌, inl, inr, true, false, refl, some, [], ◌∷◌, All, Bytes, max, add64,
  ◌==◌, Option-cases, arith, subst, sym, ap, ◌∙◌,
}
use forgechain.Prelude.Outcome.{ok, fault, >>=-eq-ok, ok-injective}
use forgechain.Crypto.{OpenSsl}
use forgechain.Core.Transaction.{is_coinbase, has_valid_signature}
use forgechain.Core.Block.{Block, compute_hash}
use forgechain.Core.Blockchain
use forgechain.Core.Blockchain.{
  Blockchain, BlockValidation, latest, add_block, any_coinbase, misplaced_coinbase,
  classify_new_block,
}
use forgechain.Core.Ledger.{Ledger}
use forgechain.Consensus.Target.{meets_target}
use forgechain.Consensus.Coinbase.{validate_coinbase_amount}
use forgechain.Consensus.Difficulty.{Doubles}
use forgechain.Consensus.Timestamp.{median_time_past, timestamp_is_valid}
use forgechain.Consensus.Timestamp.Median.{passes, timestamp_is_valid-eq}
use forgechain.Chain.State.{ChainManager, BlockOutcome, BlockTemplate, Status, rejection}
use forgechain.Chain.Apply.{select_transactions, apply_all, apply_block_to_ledger}
use forgechain.Chain.Apply.Selection.{select_transactions-apply}
use forgechain.Chain.Reorg.Heavier.{write-blockchain}
use forgechain.Chain.Submit.{accept, extend, submit_block}
use forgechain.Chain.Queries.Plain.{
  All-map, signed-plain, plain-misplaced_coinbase, select_transactions-All, plain-validate,
  classify-valid,
}
use forgechain.Chain.Queries.{chain_height, latest_hash, next_block_difficulty, block_template}

module _ ⦃doubles : Doubles⦄ where
  -- What a template holds.
  record Template (now max_txs : ℕ) (cm : ChainManager) (t : BlockTemplate) : Type 0 where
    past : ℕ
    tip : latest_hash cm ≡ ok t.prev_hash
    work : next_block_difficulty cm ≡ ok t.difficulty
    middle :
        median_time_past (chain_height cm) cm.params.mtp_window (Blockchain.at cm.blockchain)
        ≡ ok past
    time : t.timestamp ≡ max now (add64 past 1)
    content : t.transactions ≡ select_transactions max_txs cm.mempool cm.ledger

  block_template-Template :
      (now max_txs : ℕ) (cm : ChainManager) (t : BlockTemplate)
      → block_template now max_txs cm ≡ ok t
      → Template now max_txs cm t
  unfolding block_template
  block_template-Template now max_txs cm t h =
      let (prev_hash, tip, h₁) = >>=-eq-ok (latest_hash cm) _ h in
      let (difficulty, work, h₂) = >>=-eq-ok (next_block_difficulty cm) _ h₁ in
      let (past, median, h₃) = >>=-eq-ok (median_time_past _ _ _) _ h₂ in
      let same = ok-injective _ t h₃ in
      record {
        past = past;
        tip = tip ∙ ap (λ (u : BlockTemplate). ok u.prev_hash) same;
        work = work ∙ ap (λ (u : BlockTemplate). ok u.difficulty) same;
        middle = median;
        time = sym (ap (λ (u : BlockTemplate). u.timestamp) same);
        content = sym (ap (λ (u : BlockTemplate). u.transactions) same);
      }

-- `latest_hash` answers the hash of the tip.
latest_hash-tip :
    (cm : ChainManager) (hash : Bytes)
    → latest_hash cm ≡ ok hash
    → (tip : Block) × (latest cm.blockchain ≡ some tip) × (tip.hash ≡ hash)
unfolding latest_hash
latest_hash-tip cm hash h = elim (Option-cases (latest cm.blockchain)) [
  | inl e ↦ let bad : fault ≡ ok hash = rw (latest_hash, e) at h in cc bad
  | inr (tip, e) ↦ (tip, e, ok-injective tip.hash hash (rw (latest_hash, e) at h))
]

same_difficulty : (d : ℕ) → (d == d) ≡ true
same_difficulty d = ground arith

passes-late :
    (t now now' drift past : ℕ)
    → now ≤ now'
    → t ≤ now + drift
    → past + 1 < 2 ^ 64
    → t ≡ max now (add64 past 1)
    → passes t now' drift past ≡ true
passes-late t now now' drift past later near small is_max = ground arith

-- A block that carries a template's fields, and whose hash is its own and meets its difficulty.
pub record IsMinedFrom ⦃ssl : OpenSsl⦄ (t : BlockTemplate) (b : Block) : Type 0 where
  pub prev_hash : t.prev_hash ≡ b.prev_hash
  pub timestamp : t.timestamp ≡ b.timestamp
  pub difficulty : t.difficulty ≡ b.difficulty
  pub transactions : t.transactions ≡ b.transactions
  pub hashed : b.hash ≡ compute_hash b
  pub meets : meets_target b.hash b.difficulty ≡ true

-- The outcome of a block that was put on the chain.
abbrev pub acceptance : Block → BlockOutcome
acceptance b = record rejection { status = Status.accepted; to_broadcast = b.hash ∷ [] }

module _ ⦃ssl : OpenSsl⦄ ⦃doubles : Doubles⦄ where
  extend-accepts :
      (now : ℕ) (b : Block) (cm : ChainManager) (l : Ledger)
      → timestamp_is_valid b (chain_height cm) now cm.params (Blockchain.at cm.blockchain) ≡ ok true
      → next_block_difficulty cm ≡ ok b.difficulty
      → apply_block_to_ledger b cm.ledger ≡ ok (true, l)
      → extend now b cm ≡ ok (acceptance b, accept b l cm)
  unfolding extend
  extend-accepts now b cm l timely work applied =
      rw (extend, timely, work, same_difficulty b.difficulty, applied) refl

  submit_block-valid :
      (now : ℕ) (b : Block) (cm : ChainManager)
      → meets_target b.hash b.difficulty ≡ true
      → validate_coinbase_amount b.transactions ≡ true
      → classify_new_block cm.blockchain b ≡ ok BlockValidation.valid
      → submit_block now b cm ≡ extend now b cm
  unfolding submit_block
  submit_block-valid now b cm met paid valid = rw (submit_block, met, paid, valid) refl

  -- Over a pool of validly signed transactions: a block that is mined from a template, without a
  -- coinbase, is accepted by a manager that has not changed since, at the time of the template or
  -- later, and is put on top of the chain; provided that the template's timestamp is within the
  -- allowed drift and that the median of the past timestamps is not the largest `uint64_t`.
  pub submit_block-block_template :
      (now now' max_txs : ℕ) (cm : ChainManager) (t : BlockTemplate) (b : Block)
      → All (λ tx. has_valid_signature tx ≡ ok true) cm.mempool.pending
      → block_template now max_txs cm ≡ ok t
      → IsMinedFrom t b
      → now ≤ now'
      → t.timestamp ≤ now + cm.params.max_future_drift
      → ((past : ℕ)
          → median_time_past (chain_height cm) cm.params.mtp_window (Blockchain.at cm.blockchain)
            ≡ ok past
          → past + 1 < 2 ^ 64)
      → (cm' : ChainManager) × (submit_block now' b cm ≡ ok (acceptance b, cm'))
        × (cm'.blockchain ≡ add_block b cm.blockchain)
  unfolding apply_block_to_ledger
  submit_block-block_template now now' max_txs cm t b signed templated mined later near small =
      let f = block_template-Template now max_txs cm t templated in
      let content = sym mined.transactions ∙ f.content in
      let plain =
        select_transactions-All (λ tx. is_coinbase tx ≡ false) max_txs cm.mempool cm.ledger
          (All-map _ _ signed-plain cm.mempool.pending signed) in
      let plain_b : All (λ tx. is_coinbase tx ≡ false) b.transactions =
        subst (All (λ tx. is_coinbase tx ≡ false)) (sym content) plain in
      let (tip, last, is_tip) = latest_hash-tip cm t.prev_hash f.tip in
      let (l, applied) = select_transactions-apply max_txs cm.mempool cm.ledger signed in
      let applied_b : apply_block_to_ledger b cm.ledger ≡ ok (true, l) =
        subst (λ txs. apply_all txs [] cm.ledger ≡ ok (true, l)) (sym content) applied in
      let near_b : b.timestamp ≤ now + cm.params.max_future_drift =
        omega (arith, mined.timestamp) in
      let time_b : b.timestamp ≡ max now (add64 f.past 1) = sym mined.timestamp ∙ f.time in
      let timely : timestamp_is_valid b (chain_height cm) now' cm.params
            (Blockchain.at cm.blockchain)
          ≡ ok true =
        timestamp_is_valid-eq b (chain_height cm) now' cm.params (Blockchain.at cm.blockchain)
          f.past f.middle
        ∙ ap ok (
            passes-late b.timestamp now now' cm.params.max_future_drift f.past later near_b
              (small f.past f.middle) time_b) in
      let valid =
        classify-valid cm.blockchain b tip mined.hashed
          (plain-misplaced_coinbase b.transactions plain_b) last (is_tip ∙ mined.prev_hash) in
      (
        accept b l cm,
        submit_block-valid now' b cm mined.meets (plain-validate b.transactions plain_b) valid
            ∙ extend-accepts now' b cm l timely (f.work ∙ ap ok mined.difficulty) applied_b,
        write-blockchain _ _,
      )

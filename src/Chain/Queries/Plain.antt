-- ===== src/Chain/Queries/Plain.antt =====
-- Transactions without a coinbase among them pass the tests on coinbases.
use forgechain.Prelude.{
  ℕ, ◌≡◌, inl, inr, true, false, refl, some, List, [], ◌∷◌, All, All-take, bytes_eq_iff, Bool-cases,
  arith,
}
use forgechain.Prelude.Outcome.{ok}
use forgechain.Crypto.{OpenSsl}
use forgechain.Core.Transaction.{Transaction, coinbase_sender, is_coinbase, has_valid_signature}
use forgechain.Core.Transaction.Authenticity.{has_valid_signature-eq-true}
use forgechain.Core.Block.{Block, compute_hash}
use forgechain.Core.Blockchain.{
  Blockchain, BlockValidation, latest, any_coinbase, misplaced_coinbase, classify_new_block,
}
use forgechain.Core.Mempool.{Mempool, get_transactions_for_block}
use forgechain.Core.Ledger.{Ledger, apply_transaction}
use forgechain.Consensus.Coinbase.{validate_coinbase_amount}
use forgechain.Consensus.Coinbase.Amount.{find_coinbase-plain}
use forgechain.Chain.Apply.{accepted, select_transactions}

pub All-map :
    (P Q : Transaction → Type 0)
    → ((tx : Transaction) → P tx → Q tx)
    → (txs : List Transaction) → All P txs
    → All Q txs
All-map P Q f [] h = tt
All-map P Q f (tx ∷ txs) (h, hs) = (f tx h, All-map P Q f txs hs)

module _ ⦃ssl : OpenSsl⦄ where
  pub signed-plain : (tx : Transaction) → has_valid_signature tx ≡ ok true → is_coinbase tx ≡ false
  signed-plain tx h =
      let owns = ((has_valid_signature-eq-true tx).0 h).0 in
      ground (arith, owns.not_coinbase, bytes_eq_iff tx.sender coinbase_sender)

  plain-any_coinbase :
      (txs : List Transaction) → All (λ tx. is_coinbase tx ≡ false) txs → any_coinbase txs ≡ false
  plain-any_coinbase [] h = refl
  plain-any_coinbase (tx ∷ txs) (h, hs) = ground (arith, plain-any_coinbase txs hs)

  pub plain-misplaced_coinbase :
      (txs : List Transaction)
      → All (λ tx. is_coinbase tx ≡ false) txs
      → misplaced_coinbase txs ≡ false
  plain-misplaced_coinbase [] h = refl
  plain-misplaced_coinbase (tx ∷ txs) (h, hs) = plain-any_coinbase txs hs

  accepted-All :
      (P : Transaction → Type 0) (txs : List Transaction) (l : Ledger)
      → All P txs
      → All P (accepted txs l)
  unfolding accepted
  accepted-All P [] l h = tt
  accepted-All P (tx ∷ txs) l (h, hs) = elim (Bool-cases (apply_transaction tx l).0) [
    | inl e ↦ rw (accepted, e) (h, accepted-All P txs (apply_transaction tx l).1 hs)
    | inr e ↦ rw (accepted, e) (accepted-All P txs (apply_transaction tx l).1 hs)
  ]

  pub select_transactions-All :
      (P : Transaction → Type 0) (limit : ℕ) (pool : Mempool) (l : Ledger)
      → All P pool.pending
      → All P (select_transactions limit pool l)
  unfolding select_transactions get_transactions_for_block
  select_transactions-All P limit pool l h =
      accepted-All P (get_transactions_for_block pool limit) l (All-take P _ pool.pending h)

  pub plain-validate :
      (txs : List Transaction)
      → All (λ tx. is_coinbase tx ≡ false) txs
      → validate_coinbase_amount txs ≡ true
  unfolding validate_coinbase_amount
  plain-validate txs h = rw (validate_coinbase_amount, find_coinbase-plain txs 0 h) refl

  pub classify-valid :
      (chain : Blockchain) (b tip : Block)
      → b.hash ≡ compute_hash b
      → misplaced_coinbase b.transactions ≡ false
      → latest chain ≡ some tip
      → tip.hash ≡ b.prev_hash
      → classify_new_block chain b ≡ ok BlockValidation.valid
  unfolding classify_new_block
  classify-valid chain b tip hashed placed last parent =
      ground (arith, bytes_eq_iff b.hash (compute_hash b), bytes_eq_iff b.prev_hash tip.hash)

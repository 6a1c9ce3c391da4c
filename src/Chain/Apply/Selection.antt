-- ===== src/Chain/Apply/Selection.antt =====
-- The transactions that a block template takes can be applied.
use forgechain.Prelude.{
  ℕ, arith, ◌≡◌, inl, inr, true, refl, List, [], ◌∷◌, All, All-take, Bool-cases,
}
use forgechain.Prelude.Outcome.{ok}
use forgechain.Crypto.{OpenSsl}
use forgechain.Core.Transaction.{Transaction, has_valid_signature}
use forgechain.Core.Mempool.{Mempool, get_transactions_for_block}
use forgechain.Core.Ledger.{Ledger, apply_transaction}
use forgechain.Core.Ledger.Nonce.{apply-rejected}
use forgechain.Chain.Apply.{accepted, select_transactions, verdict, apply_all}

module _ ⦃ssl : OpenSsl⦄ where
  accepted-apply :
      (txs done : List Transaction) (l : Ledger)
      → All (λ tx. verdict tx ≡ ok true) txs
      → (l' : Ledger) × (apply_all (accepted txs l) done l ≡ ok (true, l'))
  unfolding accepted apply_all
  accepted-apply [] done l h = (l, refl)
  accepted-apply (tx ∷ txs) done l (h, hs) = elim (Bool-cases (apply_transaction tx l).0) [
    | inl e ↦
        let (l', eq) = accepted-apply txs (tx ∷ done) (apply_transaction tx l).1 hs in
        (l', rw (accepted, e, apply_all, h, e) eq)
    | inr e ↦
        let (l', eq) = accepted-apply txs done l hs in
        (l', rw (accepted, e, apply-rejected tx l e) eq)
  ]

  verdict-signed :
      (txs : List Transaction)
      → All (λ tx. has_valid_signature tx ≡ ok true) txs
      → All (λ tx. verdict tx ≡ ok true) txs
  unfolding verdict
  verdict-signed [] h = tt
  verdict-signed (tx ∷ txs) (h, hs) = (ground arith, verdict-signed txs hs)

  -- The transactions that are selected from a pool of validly signed ones can be applied, all of them
  -- and in that order, to the ledger that they were selected for.
  pub select_transactions-apply :
      (limit : ℕ) (pool : Mempool) (l : Ledger)
      → All (λ tx. has_valid_signature tx ≡ ok true) pool.pending
      → (l' : Ledger) × (apply_all (select_transactions limit pool l) [] l ≡ ok (true, l'))
  unfolding select_transactions get_transactions_for_block
  select_transactions-apply limit pool l signed =
      accepted-apply (get_transactions_for_block pool limit) [] l
        (All-take (λ tx. verdict tx ≡ ok true) _ pool.pending (verdict-signed pool.pending signed))

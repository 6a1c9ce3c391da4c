-- ===== src/Core/Mempool/Removal.antt =====
-- `remove_transaction` keeps the invariant of the pool.
use forgechain.Prelude.{
  ◌≤◌, ◌≡◌, ◌≢◌, true, Bytes, bytes_eq, All, List, [], ◌∷◌, length, Bool-cases, inl, inr, arith,
}
use forgechain.Prelude.Outcome.{ok}
use forgechain.Crypto.{OpenSsl}
use forgechain.Core.Transaction.{Transaction, compute_hash, has_valid_signature}
use forgechain.Core.Mempool.{Mempool, erase_first, remove_transaction}
use forgechain.Core.Mempool.Order.{IsSorted}
use forgechain.Core.Mempool.Admission.{IsDistinct, IsValid}

module _ ⦃ssl : OpenSsl⦄ where
  erase_first-All :
      (P : Transaction → Type 0) (hash : Bytes) (ts : List Transaction)
      → All P ts
      → All P (erase_first hash ts)
  unfolding erase_first
  erase_first-All P hash [] h = tt
  erase_first-All P hash (t ∷ ts) (h, hs) = elim (Bool-cases (bytes_eq hash (compute_hash t))) [
    | inl same ↦ rw same hs
    | inr other ↦ rw other (h, erase_first-All P hash ts hs)
  ]

  erase_first-IsSorted :
      (hash : Bytes) (ts : List Transaction) → IsSorted ts → IsSorted (erase_first hash ts)
  unfolding erase_first
  erase_first-IsSorted hash [] h = tt
  erase_first-IsSorted hash (t ∷ ts) (h, hs) = elim (Bool-cases (bytes_eq hash (compute_hash t))) [
    | inl same ↦ rw same hs
    | inr other ↦
        rw other (erase_first-All (λ u. u.fee ≤ t.fee) hash ts h, erase_first-IsSorted hash ts hs)
  ]

  erase_first-IsDistinct :
      (hash : Bytes) (ts : List Transaction) → IsDistinct ts → IsDistinct (erase_first hash ts)
  unfolding erase_first
  erase_first-IsDistinct hash [] h = tt
  erase_first-IsDistinct hash (t ∷ ts) (h, hs) =
      elim (Bool-cases (bytes_eq hash (compute_hash t))) [
        | inl same ↦ rw same hs
        | inr other ↦ rw other (
          erase_first-All (λ u. compute_hash u ≢ compute_hash t) hash ts h,
          erase_first-IsDistinct hash ts hs,
        )
      ]

  length-erase_first :
      (hash : Bytes) (ts : List Transaction) → length (erase_first hash ts) ≤ length ts
  unfolding erase_first
  length-erase_first hash [] = omega arith
  length-erase_first hash (t ∷ ts) = ground (arith, length-erase_first hash ts)

  pub remove_transaction-IsValid :
      (tx : Transaction) (p : Mempool) → IsValid p → IsValid (remove_transaction tx p)
  unfolding remove_transaction
  remove_transaction-IsValid tx p v = record {
    sorted = erase_first-IsSorted (compute_hash tx) p.pending v.sorted;
    distinct = erase_first-IsDistinct (compute_hash tx) p.pending v.distinct;
    authentic =
        erase_first-All (λ t. has_valid_signature t ≡ ok true) (compute_hash tx) p.pending
          v.authentic;
    bounded = omega (arith, length-erase_first (compute_hash tx) p.pending, v.bounded);
  }

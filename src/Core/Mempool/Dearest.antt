-- ===== src/Core/Mempool/Dearest.antt =====
-- core/Mempool: what a block gets of a pool, whatever was added to the pool and removed from it.
use forgechain.Prelude.{
  ℕ, ◌≤◌, ◌≡◌, Bool, true, List, ◌++◌, arith, All, length, drop, take-append-drop, length-take, min,
}
use forgechain.Prelude.Outcome.{ok}
use forgechain.Crypto.{OpenSsl}
use forgechain.Core.Transaction.{Transaction, has_valid_signature}
use forgechain.Core.Mempool.{
  Mempool, new, size, add_transaction, remove_transaction, get_transactions_for_block,
}
use forgechain.Core.Mempool.Order.{All-take, take-drop-dominates}
use forgechain.Core.Mempool.Admission.{IsValid, add_transaction-IsValid}
use forgechain.Core.Mempool.Removal.{remove_transaction-IsValid}

module _ ⦃ssl : OpenSsl⦄ where
  -- A pool of some size after calls that add transactions, successfully or not, and remove them.
  pub data Reach (max_size : ℕ) : Mempool → Type 0 where
    starts : Reach max_size (new max_size)
    adds :
        (tx : Transaction) {p p' : Mempool} {done : Bool}
        → Reach max_size p
        → add_transaction tx p ≡ ok (done, p')
        → Reach max_size p'
    removes :
        (tx : Transaction) {p : Mempool}
        → Reach max_size p
        → Reach max_size (remove_transaction tx p)

  reached-IsValid : (max_size : ℕ) {p : Mempool} → Reach max_size p → IsValid p
  reached-IsValid max_size starts = record {
    sorted = tt;
    distinct = tt;
    authentic = tt;
    bounded = omega arith;
  }
  reached-IsValid max_size (adds tx {p} before e) =
      add_transaction-IsValid tx p (reached-IsValid max_size before) e
  reached-IsValid max_size (removes tx {p} before) =
      remove_transaction-IsValid tx p (reached-IsValid max_size before)

  -- Whatever was added to an empty pool and removed from it, in any order: the transactions for a block
  -- are as many as the limit and the pool allow, each has a valid signature, and no transaction of the
  -- pool that is left out pays more than one that is taken.
  pub get_transactions_for_block-dearest :
      (max_size limit : ℕ) (p : Mempool)
      → Reach max_size p
      → let taken = get_transactions_for_block p limit in
        (left : List Transaction) × (taken ++ left ≡ p.pending)
        × (length taken ≡ min limit (size p))
        × All (λ t. has_valid_signature t ≡ ok true) taken
        × All (λ t. All (λ u. u.fee ≤ t.fee) left) taken
  unfolding get_transactions_for_block
  get_transactions_for_block-dearest max_size limit p reached =
      let n = min limit (size p) in
      let v = reached-IsValid max_size reached in
      (
        drop n p.pending,
        take-append-drop n p.pending,
        length-take n p.pending (omega arith),
        All-take _ n p.pending v.authentic,
        take-drop-dominates n p.pending v.sorted,
      )

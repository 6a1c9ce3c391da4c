-- ===== src/Core/Mempool/Admission.antt =====
-- `add_transaction`, on every branch, and the invariant that it keeps.
use forgechain.Prelude.{
  ◌+◌, ◌≤◌, ◌<◌, ◌≡◌, ◌≢◌, ◌↔◌, ap, sym, Bool, true, false, List, [], ◌∷◌, arith, bytes_eq_iff, All,
  length, get_last?, get_last?-none, ltb, leb, some, Bool-cases, Option-cases, inl, inr,
}
use forgechain.Prelude.Outcome.{ok, fault, >>=-eq-ok, Outcome-cases}
use forgechain.Crypto.{OpenSsl}
use forgechain.Core.Transaction.{Transaction, compute_hash, has_valid_signature}
use forgechain.Core.Mempool.{
  Mempool, insert, erase_last, size, holds, has_transaction, admit, add_transaction,
}
use forgechain.Core.Mempool.Order.{
  IsSorted, insert-All, erase_last-All, insert-IsSorted, erase_last-IsSorted,
}

length-insert : (tx : Transaction) (ts : List Transaction) → length (insert tx ts) ≡ length ts + 1
unfolding insert
length-insert tx [] = omega arith
length-insert tx (t ∷ ts) = ground (arith, length-insert tx ts)

length-erase_last :
    (ts : List Transaction) {c : Transaction}
    → get_last? ts ≡ some c
    → length (erase_last ts) + 1 ≡ length ts
unfolding erase_last
length-erase_last [] e = cc
length-erase_last (t ∷ []) e = omega arith
length-erase_last (t ∷ u ∷ ts) e = omega (arith, length-erase_last (u ∷ ts) e)

module _ ⦃ssl : OpenSsl⦄ where
  abbrev Differs : Transaction → Transaction → Type 0
  Differs t u = compute_hash u ≢ compute_hash t

  -- No two transactions have one hash.
  abbrev pub IsDistinct : List Transaction → Type 0
  IsDistinct [] = Unit
  IsDistinct (t ∷ ts) = All (λ u. compute_hash u ≢ compute_hash t) ts × IsDistinct ts

  pub record IsValid (p : Mempool) : Type 0 where
    pub sorted : IsSorted p.pending
    pub distinct : IsDistinct p.pending
    pub authentic : All (λ t. has_valid_signature t ≡ ok true) p.pending
    pub bounded : size p ≤ p.max_size

  holds-false :
      (tx : Transaction) (ts : List Transaction)
      → holds (compute_hash tx) ts ≡ false
      → All (λ u. compute_hash u ≢ compute_hash tx) ts
  unfolding holds
  holds-false tx [] h = tt
  holds-false tx (t ∷ ts) h = (
    ground (arith, bytes_eq_iff (compute_hash t) (compute_hash tx)),
    holds-false tx ts (ground arith),
  )

  insert-IsDistinct :
      (tx : Transaction) (ts : List Transaction)
      → IsDistinct ts
      → All (λ u. compute_hash u ≢ compute_hash tx) ts
      → IsDistinct (insert tx ts)
  unfolding insert
  insert-IsDistinct tx [] d new = (tt, tt)
  insert-IsDistinct tx (t ∷ ts) d new = elim (Bool-cases (ltb t.fee tx.fee)) [
    | inl dearer ↦ rw (dearer, insert) (new, d)
    | inr cheaper ↦
        rw (cheaper, insert)
          (
            insert-All (λ u. compute_hash u ≢ compute_hash t) tx ts (λ e. new.0 (sym e)) d.0,
            insert-IsDistinct tx ts d.1 new.1,
          )
  ]

  erase_last-IsDistinct : (ts : List Transaction) → IsDistinct ts → IsDistinct (erase_last ts)
  unfolding erase_last
  erase_last-IsDistinct [] d = tt
  erase_last-IsDistinct (t ∷ []) d = tt
  erase_last-IsDistinct (t ∷ u ∷ ts) d = (
    erase_last-All (λ x. compute_hash x ≢ compute_hash t) (u ∷ ts) d.0,
    erase_last-IsDistinct (u ∷ ts) d.1,
  )

  -- How `add_transaction` ends: it refuses and changes nothing, it inserts, or it inserts in place of
  -- the cheapest, which paid less.
  pub data Added (tx : Transaction) (p : Mempool) (done : Bool) (p' : Mempool) : Type 0 where
    refused : done ≡ false → p' ≡ p → Added tx p done p'
    inserted :
        done ≡ true
        → has_valid_signature tx ≡ ok true
        → has_transaction p (compute_hash tx) ≡ false
        → size p < p.max_size
        → p' ≡ record p { pending = insert tx p.pending }
        → Added tx p done p'
    replaced :
        (cheapest : Transaction)
        → done ≡ true
        → has_valid_signature tx ≡ ok true
        → has_transaction p (compute_hash tx) ≡ false
        → get_last? p.pending ≡ some cheapest
        → cheapest.fee < tx.fee
        → p' ≡ record p { pending = insert tx (erase_last p.pending) }
        → Added tx p done p'

  Added-judged :
      (tx : Transaction) (p : Mempool) (valid : Bool) {done : Bool} {p' : Mempool}
      → has_valid_signature tx ≡ ok valid
      → admit valid tx p ≡ ok (done, p')
      → Added tx p done p'
  unfolding admit
  Added-judged tx p false judged h = refused (ground arith) (ground arith)
  Added-judged tx p true judged h = elim (Bool-cases (has_transaction p (compute_hash tx))) [
    | inl there ↦ refused (ground arith) (ground arith)
    | inr missing ↦ elim (Bool-cases (leb p.max_size (size p))) [
      | inr roomy ↦ inserted (ground arith) judged missing (ground arith) (ground arith)
      | inl full ↦ elim (Option-cases (get_last? p.pending)) [
        | inl empty ↦ ground arith
        | inr (cheapest, last) ↦ elim (Bool-cases (ltb cheapest.fee tx.fee)) [
          | inl dearer ↦
              replaced cheapest (ground arith) judged missing last (ground arith) (ground arith)
          | inr cheaper ↦ refused (ground arith) (ground arith)
        ]
      ]
    ]
  ]

  pub add_transaction-Added :
      (tx : Transaction) (p : Mempool) {done : Bool} {p' : Mempool}
      → add_transaction tx p ≡ ok (done, p')
      → Added tx p done p'
  unfolding add_transaction
  add_transaction-Added tx p {done} {p'} h =
      let (valid, judged, rest) = >>=-eq-ok (has_valid_signature tx) _ h in
      Added-judged tx p valid judged rest

  insert-IsValid :
      (tx : Transaction) (p : Mempool)
      → IsValid p
      → has_valid_signature tx ≡ ok true
      → All (λ u. compute_hash u ≢ compute_hash tx) p.pending
      → size p < p.max_size
      → IsValid (record p { pending = insert tx p.pending })
  insert-IsValid tx p v signed new room = record {
    sorted = insert-IsSorted tx p.pending v.sorted;
    distinct = insert-IsDistinct tx p.pending v.distinct new;
    authentic = insert-All (λ t. has_valid_signature t ≡ ok true) tx p.pending signed v.authentic;
    bounded = omega (arith, length-insert tx p.pending);
  }

  erase_last-IsValid :
      (p : Mempool) {c : Transaction}
      → IsValid p
      → get_last? p.pending ≡ some c
      → IsValid (record p { pending = erase_last p.pending })
  erase_last-IsValid p v last = record {
    sorted = erase_last-IsSorted p.pending v.sorted;
    distinct = erase_last-IsDistinct p.pending v.distinct;
    authentic = erase_last-All (λ t. has_valid_signature t ≡ ok true) p.pending v.authentic;
    bounded = omega (arith, length-erase_last p.pending last, v.bounded);
  }

  -- A pool that is sorted by falling fee, within its limit, without repetition and with valid
  -- signatures only stays so when `add_transaction` returns, whatever it was offered and answered.
  pub add_transaction-IsValid :
      (tx : Transaction) (p : Mempool) {done : Bool} {p' : Mempool}
      → IsValid p
      → add_transaction tx p ≡ ok (done, p')
      → IsValid p'
  unfolding has_transaction
  add_transaction-IsValid tx p v h = elim (add_transaction-Added tx p h) [
    | refused _ same ↦ rw same v
    | inserted _ signed missing room e ↦
        rw e (insert-IsValid tx p v signed (holds-false tx p.pending missing) room)
    | replaced c _ signed missing last dearer e ↦ rw e (
        insert-IsValid tx (record p { pending = erase_last p.pending })
          (erase_last-IsValid p v last) signed
          (erase_last-All (λ u. compute_hash u ≢ compute_hash tx) p.pending
            (holds-false tx p.pending missing))
          (omega (arith, length-erase_last p.pending last, v.bounded)))
  ]

  admit-ne-fault :
      (valid : Bool) (tx : Transaction) (p : Mempool) → 0 < p.max_size → admit valid tx p ≢ fault
  unfolding admit
  admit-ne-fault valid tx p room h = elim (Option-cases (get_last? p.pending)) [
    | inl none_last ↦ ground (arith, ap length (get_last?-none p.pending none_last))
    | inr (c, last) ↦ ground arith
  ]

  -- In a pool with room for one transaction at least, `add_transaction` throws exactly if the
  -- signature check throws: eviction never meets an empty pool.
  pub add_transaction-eq-fault :
      (tx : Transaction) (p : Mempool)
      → 0 < p.max_size
      → (add_transaction tx p ≡ fault) ↔ (has_valid_signature tx ≡ fault)
  unfolding add_transaction
  add_transaction-eq-fault tx p room = elim (Outcome-cases (has_valid_signature tx)) [
    | inl thrown ↦ (λ _. thrown, λ _. rw (thrown, add_transaction))
    | inr (valid, judged) ↦
        (λ h. absurd (admit-ne-fault valid tx p room (rw (judged, add_transaction) at h)), λ h. cc)
  ]

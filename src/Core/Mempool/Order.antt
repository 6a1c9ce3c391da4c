-- ===== src/Core/Mempool/Order.antt =====
-- The pool is sorted by falling fee, so a block takes the transactions that pay most.
use forgechain.Prelude.{
  ℕ, zero, suc, ◌≤◌, ◌≡◌, List, [], ◌∷◌, arith, All, get_last?, take, drop, ltb, some, Bool-cases,
  inl, inr,
}
use forgechain.Core.Transaction.{Transaction}
use forgechain.Core.Mempool.{insert, erase_last}

-- No transaction pays more than one before it.
abbrev pub IsSorted : List Transaction → Type 0
IsSorted [] = Unit
IsSorted (t ∷ ts) = All (λ u. u.fee ≤ t.fee) ts × IsSorted ts

pub insert-All :
    (P : Transaction → Type 0) (tx : Transaction) (ts : List Transaction)
    → P tx
    → All P ts
    → All P (insert tx ts)
unfolding insert
insert-All P tx [] p h = (p, tt)
insert-All P tx (t ∷ ts) p h = elim (Bool-cases (ltb t.fee tx.fee)) [
  | inl dearer ↦ rw (dearer, insert) (p, h)
  | inr cheaper ↦ rw (cheaper, insert) (h.0, insert-All P tx ts p h.1)
]

pub erase_last-All :
    (P : Transaction → Type 0) (ts : List Transaction) → All P ts → All P (erase_last ts)
unfolding erase_last
erase_last-All P [] h = tt
erase_last-All P (t ∷ []) h = tt
erase_last-All P (t ∷ u ∷ ts) h = (h.0, erase_last-All P (u ∷ ts) h.1)

All-map :
    (P Q : Transaction → Type 0)
    → ((t : Transaction) → P t → Q t)
    → (ts : List Transaction) → All P ts
    → All Q ts
All-map P Q f [] h = tt
All-map P Q f (t ∷ ts) h = (f t h.0, All-map P Q f ts h.1)

pub insert-IsSorted :
    (tx : Transaction) (ts : List Transaction) → IsSorted ts → IsSorted (insert tx ts)
unfolding insert
insert-IsSorted tx [] h = (tt, tt)
insert-IsSorted tx (t ∷ ts) h = elim (Bool-cases (ltb t.fee tx.fee)) [
  | inl dearer ↦
      rw (dearer, insert)
        (
          (
            ground arith,
            All-map (λ u. u.fee ≤ t.fee) (λ u. u.fee ≤ tx.fee) (λ u le. ground arith) ts h.0,
          ),
          h,
        )
  | inr cheaper ↦
      rw (cheaper, insert)
        (insert-All (λ u. u.fee ≤ t.fee) tx ts (ground arith) h.0, insert-IsSorted tx ts h.1)
]

pub erase_last-IsSorted : (ts : List Transaction) → IsSorted ts → IsSorted (erase_last ts)
unfolding erase_last
erase_last-IsSorted [] h = tt
erase_last-IsSorted (t ∷ []) h = tt
erase_last-IsSorted (t ∷ u ∷ ts) h =
    (erase_last-All (λ x. x.fee ≤ t.fee) (u ∷ ts) h.0, erase_last-IsSorted (u ∷ ts) h.1)

-- The last transaction pays least.
pub last-cheapest :
    (ts : List Transaction) (c : Transaction)
    → IsSorted ts
    → get_last? ts ≡ some c
    → All (λ t. c.fee ≤ t.fee) ts
last-cheapest [] c h e = tt
last-cheapest (t ∷ []) c h e = (ground arith, tt)
last-cheapest (t ∷ u ∷ ts) c h e =
    let rest = last-cheapest (u ∷ ts) c h.1 e in (omega (arith, rest.0, h.0.0), rest)

pub All-take :
    (P : Transaction → Type 0) (n : ℕ) (ts : List Transaction) → All P ts → All P (take n ts)
All-take P zero ts h = tt
All-take P (suc n) [] h = tt
All-take P (suc n) (t ∷ ts) h = (h.0, All-take P n ts h.1)

All-drop : (P : Transaction → Type 0) (n : ℕ) (ts : List Transaction) → All P ts → All P (drop n ts)
All-drop P zero ts h = h
All-drop P (suc n) [] h = tt
All-drop P (suc n) (t ∷ ts) h = All-drop P n ts h.1

pub take-drop-dominates :
    (n : ℕ) (ts : List Transaction)
    → IsSorted ts
    → All (λ t. All (λ u. u.fee ≤ t.fee) (drop n ts)) (take n ts)
take-drop-dominates zero ts h = tt
take-drop-dominates (suc n) [] h = tt
take-drop-dominates (suc n) (t ∷ ts) h =
    (All-drop (λ u. u.fee ≤ t.fee) n ts h.0, take-drop-dominates n ts h.1)

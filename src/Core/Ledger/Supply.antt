-- ===== src/Core/Ledger/Supply.antt =====
-- The sum of all balances: what a transaction burns, what a coinbase mints, and what happens where
-- `amount + fee` wraps around.
use forgechain.Prelude.{
  ℕ, ◌+◌, ◌≤◌, ◌<◌, ◌^◌, ◌≡◌, true, false, [], ◌∷◌, arith, Bytes, add64, sub64, if◌then◌else◌, inl,
  inr, Bool-cases,
}
use forgechain.Prelude.Dict.{Dict, lookup, insert, get_or}
use forgechain.Core.Transaction.{Transaction, is_coinbase}
use forgechain.Core.Ledger.{
  Ledger, balance, deposit, withdraw, set_nonce, charge, apply_transaction,
}
use forgechain.Core.Ledger.Undo.{IsValid, IsWord, HasRoom, apply-shape, funds-cover}

sum : Dict ℕ → ℕ
sum [] = 0
sum ((a, x) ∷ d) = x + sum d

sum-insert :
    (k : Bytes) (v : ℕ) (d : Dict ℕ) → sum (insert k v d) + get_or 0 (lookup k d) ≡ sum d + v
unfolding sum insert lookup
sum-insert k v [] = omega arith
sum-insert k v ((j, w) ∷ d) = ground (arith, sum-insert k v d)

get_or-le-sum : (k : Bytes) (d : Dict ℕ) → get_or 0 (lookup k d) ≤ sum d
unfolding sum lookup
get_or-le-sum k [] = omega arith
get_or-le-sum k ((j, w) ∷ d) = ground (arith, get_or-le-sum k d)

-- The sum of all balances.
unfoldable pub total : Ledger → ℕ
unfolding sum
total l = sum l.balances

pub balance-le-total : (l : Ledger) (a : Bytes) → balance l a ≤ total l
unfolding total
balance-le-total l a = get_or-le-sum a l.balances

total-deposit :
    (a : Bytes) (x : ℕ) (l : Ledger)
    → total (deposit a x l) + balance l a ≡ total l + add64 (balance l a) x
unfolding total deposit
total-deposit a x l = sum-insert a (add64 (balance l a) x) l.balances

pub total-charge :
    (tx : Transaction) (l : Ledger)
    → total (charge tx l) + balance l tx.sender
      ≡ total l + sub64 (balance l tx.sender) (add64 tx.amount tx.fee)
unfolding total charge withdraw set_nonce
total-charge tx l =
    sum-insert tx.sender (sub64 (balance l tx.sender) (add64 tx.amount tx.fee)) l.balances

-- What a coinbase adds, and what any other transaction takes out.
abbrev pub minted : Transaction → ℕ
minted tx = if is_coinbase tx then tx.amount else 0

abbrev pub burnt : Transaction → ℕ
burnt tx = if is_coinbase tx then 0 else tx.fee

module _ (tx : Transaction) (l : Ledger) (v : IsValid l) (w : IsWord tx) (room : HasRoom tx l)
    (applied : (apply_transaction tx l).0 ≡ true) where
  -- The total after a payment, in terms of the charge that the sender was tested for.
  total-paid :
      is_coinbase tx ≡ false
      → total (apply_transaction tx l).1 + add64 tx.amount tx.fee ≡ total l + tx.amount
  total-paid c =
      rw (apply-shape tx l applied, c)
        (ground (
          arith,
          v.balances tx.sender,
          (funds-cover tx l applied c).0,
          total-deposit tx.recipient tx.amount (charge tx l),
          total-charge tx l,
        ))

  total-minted : is_coinbase tx ≡ true → total (apply_transaction tx l).1 ≡ total l + tx.amount
  total-minted c =
      rw (apply-shape tx l applied, c) (ground (arith, total-deposit tx.recipient tx.amount l))

  -- A transaction that is applied burns its fee, and a coinbase mints its amount: nothing else is
  -- made or lost, provided that all numbers are `uint64_t`s and that neither the charge nor the
  -- recipient's balance overflows.
  pub total-apply :
      tx.amount + tx.fee < 2 ^ 64
      → total (apply_transaction tx l).1 + burnt tx ≡ total l + minted tx
  total-apply fits = elim (Bool-cases (is_coinbase tx)) [
    | inl c ↦ rw c (ground (arith, total-minted c))
    | inr c ↦ rw c (ground (arith, total-paid c))
  ]

  -- Where the `amount + fee` of a transaction that is applied and is no coinbase wraps around, it
  -- makes 2^64 units less its fee out of nothing, under the same conditions on the numbers and on the
  -- recipient's balance.
  pub total-apply_overflow :
      is_coinbase tx ≡ false
      → 2 ^ 64 ≤ tx.amount + tx.fee
      → total (apply_transaction tx l).1 + tx.fee ≡ total l + 2 ^ 64
  total-apply_overflow c wraps = ground (arith, total-paid c)

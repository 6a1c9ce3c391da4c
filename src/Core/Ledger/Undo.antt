-- ===== src/Core/Ledger/Undo.antt =====
-- `reverse_transaction` takes back what `apply_transaction` did.
use forgechain.Prelude.{
  refl, ap, ℕ, Option, none, some, ◌⊎◌, sym, ◌+◌, ◌≤◌, ◌<◌, ◌^◌, ◌≡◌, true, false, arith, Bytes,
  bytes_eq, bytes_eq_iff, bytes_eq_refl, add64, if◌then◌else◌, inl, inr, Bool-cases,
}
use forgechain.Prelude.Dict.{lookup, get_or, is_some}
use forgechain.Core.Transaction.{Transaction, is_coinbase}
use forgechain.Core.Ledger.Views.{
  balance-deposit, balance-withdraw, known-deposit, known-withdraw, next_nonce-deposit,
  next_nonce-withdraw, balance-charge, known-charge, next_nonce-charge, balance-refund,
  known-refund, next_nonce-refund,
}
use forgechain.Core.Ledger.{
  Ledger, get_balance, balance, known, next_nonce, deposit, withdraw, charge, refund,
  apply_transaction, reverse_transaction,
}

-- `m` shows what `l` shows. It may hold more accounts, at a balance of 0.
pub record Shadows (l m : Ledger) : Type 0 where
  pub balances : (a : Bytes) → balance l a ≡ balance m a
  pub nonces : (a : Bytes) → next_nonce l a ≡ next_nonce m a
  pub known : (a : Bytes) → known l a ≡ true → known m a ≡ true

-- A balance as `get_balance` answers it: the same, or 0 where there was no account.
abbrev pub IsRestored : Option ℕ → Option ℕ → Type 0
IsRestored before after = (after ≡ before) ⊎ ((before ≡ none) × (after ≡ some 0))

-- `m` answers what `l` answers, but for accounts that `l` does not know, which `m` may know with 0.
pub record Restores (l m : Ledger) : Type 0 where
  pub balances : (a : Bytes) → IsRestored (get_balance l a) (get_balance m a)
  pub nonces : (a : Bytes) → next_nonce l a ≡ next_nonce m a

restored :
    (x y : Option ℕ)
    → get_or 0 x ≡ get_or 0 y
    → (is_some x ≡ true → is_some y ≡ true)
    → IsRestored x y
restored none none e known_still = inl refl
restored none (some k) e known_still = inr (refl, ap (λ n. some n) (sym e))
restored (some n) none e known_still = cc (known_still refl)
restored (some n) (some k) e known_still = inl (ap (λ i. some i) (sym e))

pub Shadows-Restores : {l m : Ledger} → Shadows l m → Restores l m
unfolding get_balance
Shadows-Restores {l} {m} s = record {
  balances = λ a. restored (lookup a l.balances) (lookup a m.balances) (s.balances a) (s.known a);
  nonces = s.nonces;
}

-- Every number in the ledger is a `uint64_t`.
pub record IsValid (l : Ledger) : Type 0 where
  pub balances : (a : Bytes) → balance l a < 2 ^ 64
  pub nonces : (a : Bytes) → next_nonce l a < 2 ^ 64

-- The numbers of a transaction are `uint64_t`s.
pub record IsWord (tx : Transaction) : Type 0 where
  pub amount : tx.amount < 2 ^ 64
  pub fee : tx.fee < 2 ^ 64
  pub nonce : tx.nonce < 2 ^ 64

-- The ledger just before the recipient is paid.
abbrev pub charged : Transaction → Ledger → Ledger
charged tx l = if is_coinbase tx then l else charge tx l

-- The recipient can be paid without an overflow.
abbrev pub HasRoom : Transaction → Ledger → Type 0
HasRoom tx l = balance (charged tx l) tx.recipient + tx.amount < 2 ^ 64

-- The ledger just before an undone payment is taken from the recipient.
abbrev pub refunded : Transaction → Ledger → Ledger
refunded tx l = if is_coinbase tx then l else refund tx l

pub apply-shape :
    (tx : Transaction) (l : Ledger)
    → (apply_transaction tx l).0 ≡ true
    → (apply_transaction tx l).1 ≡ deposit tx.recipient tx.amount (charged tx l)
unfolding apply_transaction
apply-shape tx l h = ground arith

pub reverse-shape :
    (tx : Transaction) (l : Ledger)
    → (reverse_transaction tx l).0 ≡ true
    → (reverse_transaction tx l).1 ≡ withdraw tx.recipient tx.amount (refunded tx l)
unfolding reverse_transaction
reverse-shape tx l h = ground arith

-- What the tests of `apply_transaction` leave known.
pub funds-cover :
    (tx : Transaction) (l : Ledger)
    → (apply_transaction tx l).0 ≡ true
    → is_coinbase tx ≡ false
    → (add64 tx.amount tx.fee ≤ balance l tx.sender) × (tx.nonce ≡ next_nonce l tx.sender)
unfolding apply_transaction
funds-cover tx l h c = ground arith

-- A transaction that was applied can be reversed.
pub reverse-apply_accepts :
    (tx : Transaction) (l : Ledger)
    → IsValid l
    → IsWord tx
    → HasRoom tx l
    → (apply_transaction tx l).0 ≡ true
    → (reverse_transaction tx (apply_transaction tx l).1).0 ≡ true
unfolding apply_transaction reverse_transaction
reverse-apply_accepts tx l v w room h = ground (
  arith,
  balance-deposit tx.recipient tx.amount (charge tx l) tx.recipient,
  balance-deposit tx.recipient tx.amount l tx.recipient,
  known-deposit tx.recipient tx.amount (charge tx l) tx.recipient,
  known-deposit tx.recipient tx.amount l tx.recipient,
  next_nonce-deposit tx.recipient tx.amount (charge tx l) tx.sender,
  next_nonce-charge tx l tx.sender,
  bytes_eq_refl tx.recipient,
  bytes_eq_refl tx.sender,
)

module _ (tx : Transaction) (l : Ledger) (v : IsValid l) (w : IsWord tx) (room : HasRoom tx l)
    (applied : (apply_transaction tx l).0 ≡ true) where
  abbrev undone : Ledger
  undone = (reverse_transaction tx (apply_transaction tx l).1).1

  abbrev paid : Ledger
  paid = deposit tx.recipient tx.amount (charged tx l)

  undone_lem : undone ≡ withdraw tx.recipient tx.amount (refunded tx paid)
  undone_lem =
      rw (← apply-shape tx l applied)
        (reverse-shape tx (apply_transaction tx l).1 (reverse-apply_accepts tx l v w room applied))

  balance-refund_paid :
      is_coinbase tx ≡ false
      → (a : Bytes)
      → balance (refund tx (deposit tx.recipient tx.amount (charge tx l))) a
        ≡ (if bytes_eq tx.recipient a then add64 (balance l a) tx.amount else balance l a)
  balance-refund_paid c a = ground (
    arith,
    v.balances tx.sender,
    (funds-cover tx l applied c).0,
    balance-refund tx (deposit tx.recipient tx.amount (charge tx l)) a,
    balance-deposit tx.recipient tx.amount (charge tx l) a,
    balance-deposit tx.recipient tx.amount (charge tx l) tx.sender,
    balance-charge tx l a,
    balance-charge tx l tx.sender,
    balance-charge tx l tx.recipient,
    bytes_eq_iff tx.recipient a,
    bytes_eq_iff tx.sender a,
    bytes_eq_iff tx.recipient tx.sender,
    bytes_eq_iff tx.sender tx.recipient,
    bytes_eq_refl tx.sender,
  )

  -- The sender's share: what was taken is given back, the recipient's payment aside.
  balance-refunded-paid :
      (a : Bytes)
      → balance (refunded tx paid) a
        ≡ (if bytes_eq tx.recipient a then add64 (balance l a) tx.amount else balance l a)
  balance-refunded-paid a = elim (Bool-cases (is_coinbase tx)) [
    | inl c ↦
        rw c
          (ground (arith, balance-deposit tx.recipient tx.amount l a, bytes_eq_iff tx.recipient a))
    | inr c ↦ rw c (balance-refund_paid c a)
  ]

  balance-undone : (a : Bytes) → balance l a ≡ balance undone a
  balance-undone a = rw undone_lem ground (
    arith,
    v.balances a,
    balance-withdraw tx.recipient tx.amount (refunded tx paid) a,
    balance-refunded-paid a,
    balance-refunded-paid tx.recipient,
    bytes_eq_iff tx.recipient a,
    bytes_eq_refl tx.recipient,
  )

  next_nonce-undone : (a : Bytes) → next_nonce l a ≡ next_nonce undone a
  next_nonce-undone a = rw undone_lem elim (Bool-cases (is_coinbase tx)) [
    | inl c ↦ rw c (
        ground (
          arith,
          next_nonce-withdraw tx.recipient tx.amount (deposit tx.recipient tx.amount l) a,
          next_nonce-deposit tx.recipient tx.amount l a,
        ))
    | inr c ↦ rw c (
        ground (
          arith,
          (funds-cover tx l applied c).1,
          next_nonce-withdraw tx.recipient tx.amount
              (refund tx (deposit tx.recipient tx.amount (charge tx l))) a,
          next_nonce-refund tx (deposit tx.recipient tx.amount (charge tx l)) a,
          next_nonce-deposit tx.recipient tx.amount (charge tx l) a,
          next_nonce-charge tx l a,
          bytes_eq_iff tx.sender a,
        ))
  ]

  known-undone : (a : Bytes) → known l a ≡ true → known undone a ≡ true
  known-undone a = rw undone_lem elim (Bool-cases (is_coinbase tx)) [
    | inl c ↦ rw c (
        ground (
          arith,
          known-withdraw tx.recipient tx.amount (deposit tx.recipient tx.amount l) a,
          known-deposit tx.recipient tx.amount l a,
        ))
    | inr c ↦ rw c (
        ground (
          arith,
          known-withdraw tx.recipient tx.amount
              (refund tx (deposit tx.recipient tx.amount (charge tx l))) a,
          known-refund tx (deposit tx.recipient tx.amount (charge tx l)) a,
          known-deposit tx.recipient tx.amount (charge tx l) a,
          known-charge tx l a,
        ))
  ]

pub reverse-Shadows-apply :
    (tx : Transaction) (l : Ledger)
    → IsValid l
    → IsWord tx
    → HasRoom tx l
    → (apply_transaction tx l).0 ≡ true
    → let (reversed, l') = reverse_transaction tx (apply_transaction tx l).1 in
      (reversed ≡ true) × Shadows l l'
reverse-Shadows-apply tx l v w room h = (
  reverse-apply_accepts tx l v w room h,
  record {
    balances = balance-undone tx l v w room h;
    nonces = next_nonce-undone tx l v w room h;
    known = known-undone tx l v w room h;
  },
)

-- Reversing a transaction that was applied succeeds, and every nonce is what it was, and so is every
-- balance that `get_balance` answers, but that an account which did not exist may stand with 0 after;
-- provided that the ledger's and the transaction's numbers are `uint64_t`s and that paying the
-- recipient did not overflow.
pub reverse-apply :
    (tx : Transaction) (l : Ledger)
    → IsValid l
    → IsWord tx
    → HasRoom tx l
    → (apply_transaction tx l).0 ≡ true
    → let (reversed, l') = reverse_transaction tx (apply_transaction tx l).1 in
      (reversed ≡ true) × Restores l l'
reverse-apply tx l v w room h =
    let (reversed, shadows) = reverse-Shadows-apply tx l v w room h in
    (reversed, Shadows-Restores shadows)

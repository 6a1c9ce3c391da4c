-- ===== src/Core/Ledger/Views.antt =====
-- What each update of the ledger does to the three things that can be seen of it: whether an address
-- is known, its balance, and its next nonce.
use forgechain.Prelude.{ℕ, ◌≡◌, refl, ◌||◌, arith, Bytes, bytes_eq, add64, sub64, if◌then◌else◌}
use forgechain.Prelude.Dict.{lookup-insert}
use forgechain.Core.Transaction.{Transaction}
use forgechain.Core.Ledger.{
  Ledger, balance, known, next_nonce, deposit, withdraw, set_nonce, charge, refund,
}

module _ (a : Bytes) (x : ℕ) (l : Ledger) (b : Bytes) where
  pub balance-deposit :
      balance (deposit a x l) b ≡ (if bytes_eq a b then add64 (balance l a) x else balance l b)
  unfolding deposit
  balance-deposit = ground (arith, lookup-insert a b (add64 (balance l a) x) l.balances)

  pub balance-withdraw :
      balance (withdraw a x l) b ≡ (if bytes_eq a b then sub64 (balance l a) x else balance l b)
  unfolding withdraw
  balance-withdraw = ground (arith, lookup-insert a b (sub64 (balance l a) x) l.balances)

  pub known-deposit : known (deposit a x l) b ≡ (bytes_eq a b || known l b)
  unfolding deposit
  known-deposit = ground (arith, lookup-insert a b (add64 (balance l a) x) l.balances)

  pub known-withdraw : known (withdraw a x l) b ≡ (bytes_eq a b || known l b)
  unfolding withdraw
  known-withdraw = ground (arith, lookup-insert a b (sub64 (balance l a) x) l.balances)

  pub next_nonce-deposit : next_nonce (deposit a x l) b ≡ next_nonce l b
  unfolding deposit
  next_nonce-deposit = refl

  pub next_nonce-withdraw : next_nonce (withdraw a x l) b ≡ next_nonce l b
  unfolding withdraw
  next_nonce-withdraw = refl

  next_nonce-set_nonce :
      next_nonce (set_nonce a x l) b ≡ (if bytes_eq a b then x else next_nonce l b)
  unfolding set_nonce
  next_nonce-set_nonce = ground (arith, lookup-insert a b x l.nonces)

module _ (tx : Transaction) (l : Ledger) (b : Bytes) where
  pub balance-charge : balance (charge tx l) b ≡ (
      if bytes_eq tx.sender b
      then sub64 (balance l tx.sender) (add64 tx.amount tx.fee)
      else balance l b)
  unfolding charge set_nonce
  balance-charge = balance-withdraw tx.sender (add64 tx.amount tx.fee) l b

  pub known-charge : known (charge tx l) b ≡ (bytes_eq tx.sender b || known l b)
  unfolding charge set_nonce
  known-charge = known-withdraw tx.sender (add64 tx.amount tx.fee) l b

  pub next_nonce-charge :
      next_nonce (charge tx l) b
      ≡ (if bytes_eq tx.sender b then add64 tx.nonce 1 else next_nonce l b)
  unfolding charge
  next_nonce-charge = ground (
    arith,
    next_nonce-set_nonce tx.sender (add64 tx.nonce 1)
        (withdraw tx.sender (add64 tx.amount tx.fee) l) b,
    next_nonce-withdraw tx.sender (add64 tx.amount tx.fee) l b,
  )

  pub balance-refund : balance (refund tx l) b ≡ (
      if bytes_eq tx.sender b
      then add64 (balance l tx.sender) (add64 tx.amount tx.fee)
      else balance l b)
  unfolding refund set_nonce
  balance-refund = balance-deposit tx.sender (add64 tx.amount tx.fee) l b

  pub known-refund : known (refund tx l) b ≡ (bytes_eq tx.sender b || known l b)
  unfolding refund set_nonce
  known-refund = known-deposit tx.sender (add64 tx.amount tx.fee) l b

  pub next_nonce-refund :
      next_nonce (refund tx l) b ≡ (if bytes_eq tx.sender b then tx.nonce else next_nonce l b)
  unfolding refund
  next_nonce-refund = ground (
    arith,
    next_nonce-set_nonce tx.sender tx.nonce (deposit tx.sender (add64 tx.amount tx.fee) l) b,
    next_nonce-deposit tx.sender (add64 tx.amount tx.fee) l b,
  )

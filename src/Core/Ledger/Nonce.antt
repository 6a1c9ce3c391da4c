-- ===== src/Core/Ledger/Nonce.antt =====
-- Replay protection, and what a transaction leaves alone.
use forgechain.Prelude.{
  ◌≡◌, ◌≢◌, true, false, arith, Bytes, bytes_eq, bytes_eq_iff, bytes_eq_refl, add64, if◌then◌else◌,
}
use forgechain.Core.Transaction.{Transaction, is_coinbase}
use forgechain.Core.Ledger.{Ledger, balance, next_nonce, charge, apply_transaction}
use forgechain.Core.Ledger.Views.{
  balance-deposit, balance-charge, next_nonce-deposit, next_nonce-charge,
}
use forgechain.Core.Ledger.Undo.{IsWord, apply-shape}

-- A rejected transaction changes nothing.
pub apply-rejected :
    (tx : Transaction) (l : Ledger)
    → (apply_transaction tx l).0 ≡ false
    → (apply_transaction tx l).1 ≡ l
unfolding apply_transaction
apply-rejected tx l h = ground arith

module _ (tx : Transaction) (l : Ledger) (applied : (apply_transaction tx l).0 ≡ true) where
  -- Only the sender's nonce moves, and only if the transaction is no coinbase.
  pub next_nonce-apply :
      (a : Bytes)
      → next_nonce (apply_transaction tx l).1 a ≡ (
          if is_coinbase tx
          then next_nonce l a
          else if bytes_eq tx.sender a
          then add64 tx.nonce 1
          else next_nonce l a)
  next_nonce-apply a = rw (apply-shape tx l applied) (
      ground (
        arith,
        next_nonce-deposit tx.recipient tx.amount (charge tx l) a,
        next_nonce-deposit tx.recipient tx.amount l a,
        next_nonce-charge tx l a,
      ))

  -- A transaction that is applied moves no third account's balance.
  pub balance-apply_others :
      (a : Bytes)
      → tx.sender ≢ a
      → tx.recipient ≢ a
      → balance (apply_transaction tx l).1 a ≡ balance l a
  balance-apply_others a s r = rw (apply-shape tx l applied) (
      ground (
        arith,
        balance-deposit tx.recipient tx.amount (charge tx l) a,
        balance-deposit tx.recipient tx.amount l a,
        balance-charge tx l a,
        bytes_eq_iff tx.sender a,
        bytes_eq_iff tx.recipient a,
      ))

-- Once the sender's nonce has moved past it, a transaction is refused.
stale-rejected :
    (tx : Transaction) (l : Ledger)
    → IsWord tx
    → is_coinbase tx ≡ false
    → next_nonce l tx.sender ≡ add64 tx.nonce 1
    → apply_transaction tx l ≡ (false, l)
unfolding apply_transaction
stale-rejected tx l w c moved = ground (arith, w.nonce)

-- A transaction of `uint64_t`s that was applied, and is no coinbase, is refused when it is played
-- again, and the second attempt changes nothing.
pub apply-replay :
    (tx : Transaction) (l : Ledger)
    → IsWord tx
    → is_coinbase tx ≡ false
    → (apply_transaction tx l).0 ≡ true
    → let l' = (apply_transaction tx l).1 in apply_transaction tx l' ≡ (false, l')
apply-replay tx l w c applied =
    stale-rejected tx (apply_transaction tx l).1 w c
      (ground (arith, next_nonce-apply tx l applied tx.sender, bytes_eq_refl tx.sender))

-- ===== src/Core/Ledger/Transfer.antt =====
-- What can be reversed in one ledger can be reversed in another that shows the same.
use forgechain.Prelude.{ℕ, ◌≡◌, true, arith, Bytes, inl, inr, Bool-cases}
use forgechain.Core.Transaction.{Transaction, is_coinbase}
use forgechain.Core.Ledger.Views.{
  balance-withdraw, known-withdraw, next_nonce-withdraw, balance-refund, known-refund,
  next_nonce-refund,
}
use forgechain.Core.Ledger.{Ledger, withdraw, refund, reverse_transaction}
use forgechain.Core.Ledger.Undo.{Shadows, refunded, reverse-shape}

module _ (a : Bytes) (x : ℕ) {l m : Ledger} (s : Shadows l m) where
  Shadows-withdraw : Shadows (withdraw a x l) (withdraw a x m)
  Shadows-withdraw = record {
    balances = λ b.
        ground
          (arith, s.balances a, s.balances b, balance-withdraw a x l b, balance-withdraw a x m b);
    nonces =
        λ b. ground (arith, s.nonces b, next_nonce-withdraw a x l b, next_nonce-withdraw a x m b);
    known = λ b. ground (arith, s.known b, known-withdraw a x l b, known-withdraw a x m b);
  }

Shadows-refund :
    (tx : Transaction) {l m : Ledger} → Shadows l m → Shadows (refund tx l) (refund tx m)
Shadows-refund tx {l} {m} s = record {
  balances = λ b.
      ground
        (arith, s.balances tx.sender, s.balances b, balance-refund tx l b, balance-refund tx m b);
  nonces = λ b. ground (arith, s.nonces b, next_nonce-refund tx l b, next_nonce-refund tx m b);
  known = λ b. ground (arith, s.known b, known-refund tx l b, known-refund tx m b);
}

Shadows-refunded :
    (tx : Transaction) {l m : Ledger} → Shadows l m → Shadows (refunded tx l) (refunded tx m)
Shadows-refunded tx {l} {m} s = elim (Bool-cases (is_coinbase tx)) [
  | inl c ↦ rw c s
  | inr c ↦ rw c (Shadows-refund tx s)
]

-- What can be reversed in one ledger can be reversed in another that shows the same.
reverse-Shadows_accepts :
    (tx : Transaction) {l m : Ledger}
    → Shadows l m
    → (reverse_transaction tx l).0 ≡ true
    → (reverse_transaction tx m).0 ≡ true
unfolding reverse_transaction
reverse-Shadows_accepts tx {l} {m} s h =
    ground (arith, s.balances tx.recipient, s.nonces tx.sender, s.known tx.recipient)

pub reverse-Shadows :
    (tx : Transaction) {l m : Ledger}
    → Shadows l m
    → (reverse_transaction tx l).0 ≡ true
    → ((reverse_transaction tx m).0 ≡ true)
      × Shadows (reverse_transaction tx l).1 (reverse_transaction tx m).1
reverse-Shadows tx {l} {m} s h =
    let h' = reverse-Shadows_accepts tx s h in
    (
      h',
      rw (reverse-shape tx l h, reverse-shape tx m h')
          (Shadows-withdraw tx.recipient tx.amount (Shadows-refunded tx s)),
    )

-- ===== src/Tests/Money.antt =====
-- Ledger and transaction theorems at concrete inputs.
use forgechain.Prelude.{
  ℕ, ◌+◌, ◌^◌, ◌<◌, ◌≡◌, ◌-◌, refl, true, false, [], ◌∷◌, arith, Bytes, bytes_eq,
}
use forgechain.Prelude.Dict.{lookup, insert}
use forgechain.Crypto.{derive_address}
use forgechain.Core.Transaction.{Transaction, is_coinbase}
use forgechain.Core.Ledger.{charge, withdraw, set_nonce, apply_transaction, reverse_transaction}
use forgechain.Core.Ledger.Undo.{Restores, IsValid, IsWord, HasRoom, reverse-apply}
use forgechain.Core.Ledger.Supply.{total, total-apply_overflow}
use forgechain.Core.Ledger.Nonce.{apply-replay}
use forgechain.Tests.Toys.{toy_ssl, alice, payment, before_payment}

-- The ledger of one account.
one_account-IsValid :
    (a : Bytes) (x : ℕ) → x < 2 ^ 64 → IsValid (record { balances = (a, x) ∷ []; nonces = [] })
unfolding lookup
one_account-IsValid a x h = record { balances = λ b. ground arith; nonces = λ b. ground arith }

pub before-IsValid : IsValid before_payment
before-IsValid = one_account-IsValid alice 100 (omega arith)

pub payment-IsWord : IsWord payment
payment-IsWord = record { amount = omega arith; fee = omega arith; nonce = omega arith }

payment-HasRoom : HasRoom payment before_payment
unfolding lookup insert charge withdraw set_nonce derive_address
payment-HasRoom = omega arith

payment-applied : (apply_transaction payment before_payment).0 ≡ true
unfolding apply_transaction lookup insert derive_address
payment-applied = refl

reverse-apply_example :
    let (reversed, l') = reverse_transaction payment (apply_transaction payment before_payment).1 in
    (reversed ≡ true) × Restores before_payment l'
reverse-apply_example =
    reverse-apply payment before_payment before-IsValid payment-IsWord payment-HasRoom
      payment-applied

-- A payment whose amount and fee wrap around to 1.
abbrev wrapping : Transaction
wrapping = record payment { amount = 2 ^ 64 - 1 }

wrapping-IsWord : IsWord wrapping
wrapping-IsWord = record { amount = omega arith; fee = omega arith; nonce = omega arith }

wrapping-HasRoom : HasRoom wrapping before_payment
unfolding lookup insert charge withdraw set_nonce derive_address
wrapping-HasRoom = omega arith

wrapping-applied : (apply_transaction wrapping before_payment).0 ≡ true
unfolding apply_transaction lookup insert derive_address
wrapping-applied = refl

payment-plain : is_coinbase payment ≡ false
unfolding derive_address bytes_eq
payment-plain = refl

wrapping-plain : is_coinbase wrapping ≡ false
unfolding derive_address bytes_eq
wrapping-plain = refl

total-apply_overflow_example :
    total (apply_transaction wrapping before_payment).1 + wrapping.fee
    ≡ total before_payment + 2 ^ 64
total-apply_overflow_example =
    total-apply_overflow wrapping before_payment before-IsValid wrapping-IsWord wrapping-HasRoom
      wrapping-applied wrapping-plain (omega arith)

apply-replay_example :
    let l' = (apply_transaction payment before_payment).1 in
    apply_transaction payment l' ≡ (false, l')
apply-replay_example =
    apply-replay payment before_payment payment-IsWord payment-plain payment-applied

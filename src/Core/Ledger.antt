-- ===== src/Core/Ledger.antt =====
-- core/Ledger: account balances and nonces.
pub mod Views
pub mod Undo
pub mod Transfer
pub mod Supply
pub mod Nonce
use forgechain.Prelude.{
  ℕ, ◌+◌, ◌≡◌, Bool, true, false, not, Option, none, some, List, [], ◌∷◌, Bytes, bytes_eq, ltb,
  ◌==◌, add64, sub64, if◌then◌else◌,
}
use forgechain.Prelude.Dict.{Dict, lookup, contains, insert, get_or}
use forgechain.Core.Transaction.{Transaction, is_coinbase}

pub record Ledger : Type 0 where
  pub balances : Dict ℕ
  pub nonces : Dict ℕ

abbrev pub empty : Ledger
empty = record { balances = []; nonces = [] }

unfoldable pub set_balance : Bytes → ℕ → Ledger → Ledger
set_balance address amount l = record l { balances = insert address amount l.balances }

unfoldable pub get_balance : Ledger → Bytes → Option ℕ
get_balance l address = lookup address l.balances

-- `balances_[address]` as a value: a missing entry counts as 0.
abbrev pub balance : Ledger → Bytes → ℕ
balance l address = get_or 0 (lookup address l.balances)

-- `balances_.contains(address)`
abbrev pub known : Ledger → Bytes → Bool
known l address = contains address l.balances

abbrev pub next_nonce : Ledger → Bytes → ℕ
next_nonce l address = get_or 0 (lookup address l.nonces)

unfoldable pub all_balances : Ledger → List (Bytes × ℕ)
all_balances l = l.balances

-- `balances_[address] += amount` and `-= amount`
unfoldable pub deposit : Bytes → ℕ → Ledger → Ledger
deposit address amount l = record l {
  balances = insert address (add64 (balance l address) amount) l.balances;
}

unfoldable pub withdraw : Bytes → ℕ → Ledger → Ledger
withdraw address amount l = record l {
  balances = insert address (sub64 (balance l address) amount) l.balances;
}

-- `nonces_[address] = nonce`
unfoldable pub set_nonce : Bytes → ℕ → Ledger → Ledger
set_nonce address nonce l = record l { nonces = insert address nonce l.nonces }

-- The sender's side of a transaction, once it has passed the tests.
unfoldable pub charge : Transaction → Ledger → Ledger
charge tx l = set_nonce tx.sender (add64 tx.nonce 1) (withdraw tx.sender (add64 tx.amount tx.fee) l)

unfoldable pub apply_transaction : Transaction → Ledger → Bool × Ledger
apply_transaction tx l =
    if is_coinbase tx
    then (true, deposit tx.recipient tx.amount l)
    else if not (known l tx.sender)
    then (false, l)
    else if ltb (balance l tx.sender) (add64 tx.amount tx.fee)
    then (false, l)
    else if not (tx.nonce == next_nonce l tx.sender)
    then (false, l)
    else (true, deposit tx.recipient tx.amount (charge tx l))

-- The sender's side of an undone transaction.
unfoldable pub refund : Transaction → Ledger → Ledger
refund tx l = set_nonce tx.sender tx.nonce (deposit tx.sender (add64 tx.amount tx.fee) l)

unfoldable pub reverse_transaction : Transaction → Ledger → Bool × Ledger
reverse_transaction tx l =
    if not (known l tx.recipient)
    then (false, l)
    else if ltb (balance l tx.recipient) tx.amount
    then (false, l)
    else if is_coinbase tx
    then (true, withdraw tx.recipient tx.amount l)
    else if not (next_nonce l tx.sender == add64 tx.nonce 1)
    then (false, l)
    else (true, withdraw tx.recipient tx.amount (refund tx l))

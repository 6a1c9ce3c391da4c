-- ===== src/Consensus/Coinbase.antt =====
-- `validate_coinbase_amount`.
pub mod Amount
use forgechain.Prelude.{
  ℕ, zero, suc, ◌+◌, Bool, true, false, Option, none, some, List, [], ◌∷◌, get_elem?, add64, leb,
  ◌==◌, if◌then◌else◌,
}
use forgechain.Core.Transaction.{Transaction, is_coinbase}
use forgechain.Consensus.Params.{mining_reward}

-- The first loop. `none` is its early `return false`, for a second coinbase; otherwise the index of
-- the coinbase, if there is one.
unfoldable pub find_coinbase : List Transaction → ℕ → Option ℕ → Option (Option ℕ)
find_coinbase [] i found = some found
find_coinbase (tx ∷ txs) i none =
    find_coinbase txs (i + 1) (if is_coinbase tx then some i else none)
find_coinbase (tx ∷ txs) i (some index) =
    let next = find_coinbase txs (i + 1) (some index) in if is_coinbase tx then none else next

-- The second loop: the fees of all transactions but the one at `index`.
unfoldable pub sum_fees : List Transaction → ℕ → ℕ → ℕ → ℕ
sum_fees [] i index fees_total = fees_total
sum_fees (tx ∷ txs) i index fees_total =
    sum_fees txs (i + 1) index (if i == index then fees_total else add64 fees_total tx.fee)

-- The amount that the coinbase at `index` claims.
abbrev pub amount_at : List Transaction → ℕ → ℕ
amount_at txs index = elim (get_elem? txs index) [ none ↦ 0 | some tx ↦ tx.amount ]

unfoldable pub validate_coinbase_amount : List Transaction → Bool
unfolding find_coinbase sum_fees
validate_coinbase_amount txs = elim (find_coinbase txs 0 none) [
  | none ↦ false
  | some found ↦ elim found [
    | none ↦ true
    | some index ↦ leb (amount_at txs index) (add64 mining_reward (sum_fees txs 0 index 0))
  ]
]

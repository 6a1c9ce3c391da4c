-- ===== src/Chain/Apply.antt =====
-- chain/ChainManager.cpp: `apply_block_to_ledger` and `select_transactions`.
pub mod Rollback
pub mod Selection
use forgechain.Prelude.{ℕ, ◌≡◌, Bool, true, false, List, [], ◌∷◌, ◌++◌, if◌then◌else◌}
use forgechain.Prelude.Outcome.{Outcome, ok, fault, ◌>>=◌}
use forgechain.Crypto.{OpenSsl}
use forgechain.Core.Transaction.{Transaction, is_coinbase, has_valid_signature}
use forgechain.Core.Block.{Block}
use forgechain.Core.Mempool.{Mempool, get_transactions_for_block}
use forgechain.Core.Ledger.{Ledger, apply_transaction, reverse_transaction}

-- The rollback loop, over the transactions that were applied, the last one first. The result of
-- `reverse_transaction` is not looked at.
unfoldable pub roll_back : List Transaction → Ledger → Ledger
roll_back [] l = l
roll_back (tx ∷ done) l = roll_back done (reverse_transaction tx l).1

-- The transactions that the ledger accepts one after the other.
unfoldable pub accepted : List Transaction → Ledger → List Transaction
accepted [] simulated = []
accepted (tx ∷ txs) simulated =
    let rest = accepted txs (apply_transaction tx simulated).1 in
    if (apply_transaction tx simulated).0 then tx ∷ rest else rest

unfoldable pub select_transactions : ℕ → Mempool → Ledger → List Transaction
unfolding accepted
select_transactions limit pool l = accepted (get_transactions_for_block pool limit) l

module _ ⦃ssl : OpenSsl⦄ where
  -- `tx.sender_ == core::kCoinbaseSender || core::has_valid_signature(tx)`
  unfoldable pub verdict : Transaction → Outcome Bool
  verdict tx = if is_coinbase tx then ok true else has_valid_signature tx

  -- The loop, with the transactions that are done, the last one first.
  unfoldable pub apply_all : List Transaction → List Transaction → Ledger → Outcome (Bool × Ledger)
  unfolding verdict roll_back
  apply_all [] done l = ok (true, l)
  apply_all (tx ∷ txs) done l =
      let next = apply_all txs (tx ∷ done) (apply_transaction tx l).1 in
      verdict tx >>= λ good.
      if good
      then if (apply_transaction tx l).0
        then next
        else ok (false, roll_back done (apply_transaction tx l).1)
      else ok (false, roll_back done l)

  unfoldable pub apply_block_to_ledger : Block → Ledger → Outcome (Bool × Ledger)
  unfolding apply_all
  apply_block_to_ledger block l = apply_all block.transactions [] l

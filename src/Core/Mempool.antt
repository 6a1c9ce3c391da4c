-- ===== src/Core/Mempool.antt =====
-- core/Mempool: pending transactions by falling fee, bounded in number.
pub mod Order
pub mod Admission
pub mod Removal
pub mod Dearest
use forgechain.Prelude.{
  ℕ, zero, suc, ◌≡◌, Bool, true, false, not, ◌||◌, Option, none, some, List, [], ◌∷◌, Bytes,
  bytes_eq, length, get_last?, take, min, ltb, leb, ◌==◌, if◌then◌else◌,
}
use forgechain.Prelude.Outcome.{Outcome, ok, fault, ◌>>=◌}
use forgechain.Crypto.{OpenSsl}
use forgechain.Core.Transaction.{Transaction, compute_hash, has_valid_signature}

-- `pending` is the multiset in its order: by falling fee, equal fees in order of insertion.
pub record Mempool : Type 0 where
  pub pending : List Transaction
  pub max_size : ℕ

abbrev pub new : ℕ → Mempool
new max_size = record { pending = []; max_size = max_size }

abbrev pub size : Mempool → ℕ
size p = length p.pending

unfoldable pub empty : Mempool → Bool
empty p = size p == 0

-- `pending_.insert(tx)`: behind every element of at least that fee.
unfoldable pub insert : Transaction → List Transaction → List Transaction
insert tx [] = tx ∷ []
insert tx (t ∷ ts) = if ltb t.fee tx.fee then tx ∷ t ∷ ts else t ∷ insert tx ts

-- `pending_.erase(std::prev(pending_.end()))`
unfoldable pub erase_last : List Transaction → List Transaction
erase_last [] = []
erase_last (t ∷ []) = []
erase_last (t ∷ u ∷ ts) = t ∷ erase_last (u ∷ ts)

unfoldable pub get_transactions_for_block : Mempool → ℕ → List Transaction
get_transactions_for_block p limit = take (min limit (size p)) p.pending

-- The eviction: the cheapest has to go for a dearer one; an equal fee is not enough. There is no
-- `rbegin` in an empty pool.
unfoldable pub make_room : Transaction → Mempool → Outcome (Bool × Mempool)
unfolding erase_last
make_room tx p =
    if leb p.max_size (size p)
    then elim (get_last? p.pending) [
      | none ↦ fault
      | some cheapest ↦
          if ltb cheapest.fee tx.fee
          then ok (true, record p { pending = erase_last p.pending })
          else ok (false, p)
    ]
    else ok (true, p)

module _ ⦃ssl : OpenSsl⦄ where
  holds : Bytes → List Transaction → Bool
  holds hash [] = false
  holds hash (t ∷ ts) = bytes_eq (compute_hash t) hash || holds hash ts

  unfoldable pub has_transaction : Mempool → Bytes → Bool
  unfolding holds
  has_transaction p hash = holds hash p.pending

  find_in : Bytes → List Transaction → Option Transaction
  find_in hash [] = none
  find_in hash (t ∷ ts) = if bytes_eq (compute_hash t) hash then some t else find_in hash ts

  unfoldable pub find : Mempool → Bytes → Option Transaction
  unfolding find_in
  find p hash = find_in hash p.pending

  erase_first : Bytes → List Transaction → List Transaction
  erase_first hash [] = []
  erase_first hash (t ∷ ts) = if bytes_eq hash (compute_hash t) then ts else t ∷ erase_first hash ts

  unfoldable pub remove_transaction : Transaction → Mempool → Mempool
  unfolding erase_first
  remove_transaction tx p = record p { pending = erase_first (compute_hash tx) p.pending }

  -- `add_transaction` from the verdict on the signature on.
  unfoldable pub admit : Bool → Transaction → Mempool → Outcome (Bool × Mempool)
  unfolding make_room insert
  admit valid tx p = if not valid || has_transaction p (compute_hash tx) then ok (false, p) else do
    (room, p') ← make_room tx p
    ok (room, if room then record p' { pending = insert tx p'.pending } else p')

  unfoldable pub add_transaction : Transaction → Mempool → Outcome (Bool × Mempool)
  unfolding admit
  add_transaction tx p = do valid ← has_valid_signature tx; admit valid tx p

-- ===== src/Tests/Pools.antt =====
-- Pool theorems at concrete inputs.
use forgechain.Prelude.{
  true, bytes_eq, ℕ, ◌≤◌, ◌≡◌, ◌↔◌, refl, List, [], ◌∷◌, ◌++◌, arith, All, length, min,
}
use forgechain.Prelude.Dict.{lookup}
use forgechain.Prelude.Outcome.{ok, fault}
use forgechain.Crypto.{verify, derive_address, double_sha_256, sha256}
use forgechain.Core.Wire
use forgechain.Core.Transaction
use forgechain.Core.Transaction.{Transaction, compute_hash, has_valid_signature}
use forgechain.Core.OrphanPool
use forgechain.Core.OrphanPool.{
  OrphanPool, Entry, find_orphan, has_orphan, orphan_count, add_orphan, remove_orphan,
}
use forgechain.Core.OrphanPool.Bound
use forgechain.Core.OrphanPool.Bound.{mem, remove_orphan-IsValid}
use forgechain.Core.Mempool
use forgechain.Core.Mempool.{
  has_transaction, Mempool, size, add_transaction, get_transactions_for_block,
}
use forgechain.Core.Mempool.Dearest.{starts, adds, get_transactions_for_block-dearest}
use forgechain.Core.Mempool.Admission
use forgechain.Core.Mempool.Admission.{add_transaction-IsValid, add_transaction-eq-fault}
use forgechain.Tests.Toys.{toy_ssl, payment, first}

pub empty_pool-IsValid : (n : ℕ) → Bound.IsValid (OrphanPool.new n)
unfolding lookup
empty_pool-IsValid n = record {
  distinct = tt;
  listed = λ h. refl;
  keyed = λ h e k. cc;
  placed = λ h e k. cc;
  bounded = omega arith;
}

-- A pool for one orphan, which is full with `first`.
abbrev full : OrphanPool
full = record {
  order = first.hash ∷ [];
  orphan_pool = (first.hash, record { block = first; pos = first.hash }) ∷ [];
  max_size = 1;
}

add_transaction-eq-fault_example :
    (add_transaction payment (Mempool.new 2) ≡ fault) ↔ (has_valid_signature payment ≡ fault)
add_transaction-eq-fault_example = add_transaction-eq-fault payment (Mempool.new 2) (omega arith)

-- Two pending payments, of which the dearer one came later.
abbrev dearer : Transaction
dearer = record payment {
  sender = derive_address (8 ∷ []);
  sender_public_key = 8 ∷ [];
  signature = 8 ∷ [];
  fee = 5;
}

abbrev one_pending : Mempool
one_pending = record { pending = payment ∷ []; max_size = 3 }

abbrev two_pending : Mempool
two_pending = record { pending = dearer ∷ payment ∷ []; max_size = 3 }

payment_is_added : add_transaction payment (Mempool.new 3) ≡ ok (true, one_pending)
unfolding add_transaction has_transaction has_valid_signature verify derive_address bytes_eq
payment_is_added = refl

dearer_is_added : add_transaction dearer one_pending ≡ ok (true, two_pending)
unfolding add_transaction has_transaction has_valid_signature verify derive_address bytes_eq
    compute_hash double_sha_256 sha256 Transaction.serialize Wire.to_le Wire.write_field
dearer_is_added = refl

no_pending-IsValid : Admission.IsValid (Mempool.new 3)
no_pending-IsValid = record { sorted = tt; distinct = tt; authentic = tt; bounded = omega arith }

add_transaction-IsValid_example : Admission.IsValid one_pending
add_transaction-IsValid_example =
    add_transaction-IsValid payment (Mempool.new 3) no_pending-IsValid payment_is_added

get_transactions_for_block-dearest_example :
    let taken = get_transactions_for_block two_pending 1 in
    (left : List Transaction) × (taken ++ left ≡ two_pending.pending)
    × (length taken ≡ min 1 (size two_pending))
    × All (λ t. has_valid_signature t ≡ ok true) taken
    × All (λ t. All (λ u. u.fee ≤ t.fee) left) taken
get_transactions_for_block-dearest_example =
    get_transactions_for_block-dearest 3 1 two_pending
      (adds dearer (adds payment starts payment_is_added) dearer_is_added)

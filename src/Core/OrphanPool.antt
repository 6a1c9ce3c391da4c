-- ===== src/Core/OrphanPool.antt =====
-- core/OrphanPool: blocks that do not extend the main chain yet, bounded in number.
pub mod Bound
pub mod Fifo
use forgechain.Prelude.{
  ℕ, ◌≡◌, Bool, true, false, Option, none, some, List, [], ◌∷◌, ◌++◌, Bytes, bytes_eq, length, leb,
  if◌then◌else◌,
}
use forgechain.Prelude.Outcome.{Outcome, ok, fault}
use forgechain.Prelude.Dict.{Dict, lookup, contains, insert, erase}
use forgechain.Core.Block.{Block}

-- `pos` is an iterator to the node of `order` that holds the entry's hash. There is one such node
-- (`IsValid` below), so the iterator is that hash.
pub record Entry : Type 0 where
  pub block : Block
  pub pos : Bytes

-- `order` lists the hashes from the oldest on.
pub record OrphanPool : Type 0 where
  pub order : List Bytes
  pub orphan_pool : Dict Entry
  pub max_size : ℕ

-- `kDefaultMaxOrphans`
abbrev pub default_max_orphans : ℕ
default_max_orphans = 1000

abbrev pub new : ℕ → OrphanPool
new max_size = record { order = []; orphan_pool = []; max_size = max_size }

abbrev pub orphan_count : OrphanPool → ℕ
orphan_count p = length p.orphan_pool

abbrev pub has_orphan : OrphanPool → Bytes → Bool
has_orphan p hash = contains hash p.orphan_pool

unfoldable pub find_orphan : OrphanPool → Bytes → Option Block
find_orphan p hash = elim (lookup hash p.orphan_pool) [ none ↦ none | some e ↦ some e.block ]

-- The blocks of the entries whose parent has the hash.
unfoldable pub with_parent : Bytes → Dict Entry → List Block
with_parent hash [] = []
with_parent hash ((k, e) ∷ d) =
    let rest = with_parent hash d in
    if bytes_eq e.block.prev_hash hash then e.block ∷ rest else rest

unfoldable pub children_of : OrphanPool → Bytes → List Block
unfolding with_parent
children_of p hash = with_parent hash p.orphan_pool

-- The first of them in the order in which the map is walked.
unfoldable pub find_orphan_by_prev_hash : OrphanPool → Bytes → Option Block
unfolding with_parent
find_orphan_by_prev_hash p prev_hash = elim (with_parent prev_hash p.orphan_pool) [
  | [] ↦ none
  | b ∷ bs ↦ some b
]

-- `order_.erase(pos)`
unfoldable pub erase_node : Bytes → List Bytes → List Bytes
erase_node k [] = []
erase_node k (j ∷ order) = if bytes_eq j k then order else j ∷ erase_node k order

-- Eviction of the oldest. `front` of an empty list is undefined.
unfoldable pub evict : OrphanPool → Outcome OrphanPool
evict p = elim p.order [
  | [] ↦ fault
  | oldest ∷ order ↦ ok (record p { order = order; orphan_pool = erase oldest p.orphan_pool })
]

-- The new entry at the back.
unfoldable pub append : Block → OrphanPool → OrphanPool
append b p = record p {
  order = p.order ++ b.hash ∷ [];
  orphan_pool = insert b.hash (record { block = b; pos = b.hash }) p.orphan_pool;
}

unfoldable pub add_orphan : Block → OrphanPool → Outcome OrphanPool
unfolding evict append
add_orphan b p = elim (lookup b.hash p.orphan_pool) [
  | some e ↦ ok (record p { orphan_pool = insert b.hash (record e { block = b }) p.orphan_pool })
  | none ↦
      if leb p.max_size (orphan_count p)
      then elim (evict p) [ fault ↦ fault | ok p' ↦ ok (append b p') ]
      else ok (append b p)
]

unfoldable pub remove_orphan : Bytes → OrphanPool → OrphanPool
unfolding erase_node
remove_orphan hash p = elim (lookup hash p.orphan_pool) [
  | none ↦ p
  | some e ↦ record p { order = erase_node e.pos p.order; orphan_pool = erase hash p.orphan_pool }
]

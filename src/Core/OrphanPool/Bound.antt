-- ===== src/Core/OrphanPool/Bound.antt =====
-- The pool's invariant, its size limit, and first-in first-out eviction.
use forgechain.Prelude.{
  ◌+◌, ◌≤◌, ◌<◌, ◌≡◌, refl, Bool, true, false, ◌||◌, some, List, [], ◌∷◌, ◌++◌, arith, Bytes,
  bytes_eq, bytes_eq_iff, bytes_eq_refl, length, if◌then◌else◌, Option-cases, inl, inr,
}
use forgechain.Prelude.Outcome.{ok}
use forgechain.Prelude.Dict.{Dict, lookup, contains, insert, erase, lookup-insert, lookup-erase}
use forgechain.Core.Block.{Block}
use forgechain.Core.OrphanPool.{
  Entry, OrphanPool, new, orphan_count, has_orphan, erase_node, evict, append, remove_orphan,
}

abbrev pub mem : Bytes → List Bytes → Bool
mem h [] = false
mem h (k ∷ ks) = bytes_eq k h || mem h ks

-- No hash stands twice.
abbrev pub IsDistinct : List Bytes → Type 0
IsDistinct [] = Unit
IsDistinct (k ∷ ks) = (mem k ks ≡ false) × IsDistinct ks

pub record IsValid (p : OrphanPool) : Type 0 where
  -- `order` lists the hashes of the pool, each once
  pub distinct : IsDistinct p.order
  pub listed : (h : Bytes) → has_orphan p h ≡ mem h p.order
  -- an entry is filed under the hash of its block, and its iterator is at that hash
  pub keyed : (h : Bytes) (e : Entry) → lookup h p.orphan_pool ≡ some e → e.block.hash ≡ h
  pub placed : (h : Bytes) (e : Entry) → lookup h p.orphan_pool ≡ some e → e.pos ≡ h
  pub bounded : orphan_count p ≤ p.max_size

mem-append_one :
    (h : Bytes) (ks : List Bytes) (k : Bytes) → mem h (ks ++ k ∷ []) ≡ (mem h ks || bytes_eq k h)
mem-append_one h [] k = ground arith
mem-append_one h (j ∷ ks) k = ground (arith, mem-append_one h ks k)

IsDistinct-append_one :
    (ks : List Bytes) (k : Bytes) → IsDistinct ks → mem k ks ≡ false → IsDistinct (ks ++ k ∷ [])
IsDistinct-append_one [] k d new = (refl, tt)
IsDistinct-append_one (j ∷ ks) k d new = ground (
  arith,
  IsDistinct-append_one ks k d.1,
  mem-append_one j ks k,
  bytes_eq_iff j k,
  bytes_eq_iff k j,
)

mem-erase_node :
    (h k : Bytes) (ks : List Bytes)
    → IsDistinct ks
    → mem h (erase_node k ks) ≡ (if bytes_eq k h then false else mem h ks)
unfolding erase_node
mem-erase_node h k [] d = ground arith
mem-erase_node h k (j ∷ ks) d =
    ground (arith, mem-erase_node h k ks d.1, bytes_eq_iff j k, bytes_eq_iff j h, bytes_eq_iff k h)

IsDistinct-erase_node : (k : Bytes) (ks : List Bytes) → IsDistinct ks → IsDistinct (erase_node k ks)
unfolding erase_node
IsDistinct-erase_node k [] d = tt
IsDistinct-erase_node k (j ∷ ks) d =
    ground (arith, IsDistinct-erase_node k ks d.1, mem-erase_node j k ks d.1)

-- How the number of entries moves.
length-insert_le :
    {V : Type 0} (k : Bytes) (v : V) (d : Dict V) → length (insert k v d) ≤ length d + 1
unfolding insert
length-insert_le k v [] = omega arith
length-insert_le k v ((j, w) ∷ d) = ground (arith, length-insert_le k v d)

length-insert_known :
    {V : Type 0} (k : Bytes) (v : V) (d : Dict V)
    → contains k d ≡ true
    → length (insert k v d) ≡ length d
unfolding insert lookup
length-insert_known k v [] h = cc
length-insert_known k v ((j, w) ∷ d) h = ground (arith, length-insert_known k v d)

length-erase_le : {V : Type 0} (k : Bytes) (d : Dict V) → length (erase k d) ≤ length d
unfolding erase
length-erase_le k [] = omega arith
length-erase_le k ((j, w) ∷ d) = ground (arith, length-erase_le k d)

pub length-erase_known :
    {V : Type 0} (k : Bytes) (d : Dict V) → contains k d ≡ true → length (erase k d) < length d
unfolding erase lookup
length-erase_known k [] h = cc
length-erase_known k ((j, w) ∷ d) h = ground (arith, length-erase_known k d, length-erase_le k d)

-- The pool with one block filed anew under its hash, which is there already.
unfoldable pub replace : Block → Entry → OrphanPool → OrphanPool
replace b e p = record p { orphan_pool = insert b.hash (record e { block = b }) p.orphan_pool }

pub replace-IsValid :
    (b : Block) (e : Entry) (p : OrphanPool)
    → IsValid p
    → lookup b.hash p.orphan_pool ≡ some e
    → IsValid (replace b e p)
unfolding replace
replace-IsValid b e p v found =
    let e' = record e { block = b } in
    record {
      distinct = v.distinct;
      listed = λ h.
          ground
            (arith, v.listed h, lookup-insert b.hash h e' p.orphan_pool, bytes_eq_iff b.hash h);
      keyed = λ h x at_h.
          ground
            (arith, v.keyed h x, lookup-insert b.hash h e' p.orphan_pool, bytes_eq_iff b.hash h);
      placed = λ h x at_h. ground (
        arith,
        v.placed h x,
        v.placed b.hash e found,
        lookup-insert b.hash h e' p.orphan_pool,
        bytes_eq_iff b.hash h,
      );
      bounded = ground (arith, v.bounded, length-insert_known b.hash e' p.orphan_pool);
    }

pub append-IsValid :
    (b : Block) (p : OrphanPool)
    → IsValid p
    → has_orphan p b.hash ≡ false
    → orphan_count p < p.max_size
    → IsValid (append b p)
unfolding append
append-IsValid b p v unknown room =
    let e' : Entry = record { block = b; pos = b.hash } in
    record {
      distinct = IsDistinct-append_one p.order b.hash v.distinct (ground (arith, v.listed b.hash));
      listed = λ h. ground (
        arith,
        v.listed h,
        lookup-insert b.hash h e' p.orphan_pool,
        mem-append_one h p.order b.hash,
        bytes_eq_iff b.hash h,
      );
      keyed = λ h x at_h.
          ground
            (arith, v.keyed h x, lookup-insert b.hash h e' p.orphan_pool, bytes_eq_iff b.hash h);
      placed = λ h x at_h.
          ground
            (arith, v.placed h x, lookup-insert b.hash h e' p.orphan_pool, bytes_eq_iff b.hash h);
      bounded = ground (arith, length-insert_le b.hash e' p.orphan_pool);
    }

-- The pool without a hash.
unfoldable pub without : Bytes → OrphanPool → OrphanPool
without h p = record p { order = erase_node h p.order; orphan_pool = erase h p.orphan_pool }

pub without-IsValid : (h : Bytes) (p : OrphanPool) → IsValid p → IsValid (without h p)
unfolding without
without-IsValid h p v = record {
  distinct = IsDistinct-erase_node h p.order v.distinct;
  listed = λ k.
      ground
        (arith, v.listed k, lookup-erase h k p.orphan_pool, mem-erase_node k h p.order v.distinct);
  keyed = λ k x at_k. ground (arith, v.keyed k x, lookup-erase h k p.orphan_pool);
  placed = λ k x at_k. ground (arith, v.placed k x, lookup-erase h k p.orphan_pool);
  bounded = ground (arith, v.bounded, length-erase_le h p.orphan_pool);
}

remove_orphan-without :
    (h : Bytes) (p : OrphanPool)
    → IsValid p
    → has_orphan p h ≡ true
    → remove_orphan h p ≡ without h p
unfolding remove_orphan without
remove_orphan-without h p v known = elim (Option-cases (lookup h p.orphan_pool)) [
  | inl missing ↦ ground arith
  | inr (e, found) ↦ rw (found, v.placed h e found, remove_orphan)
]

-- Removing a hash keeps the invariant.
pub remove_orphan-IsValid : (h : Bytes) (p : OrphanPool) → IsValid p → IsValid (remove_orphan h p)
unfolding remove_orphan
remove_orphan-IsValid h p v = elim (Option-cases (lookup h p.orphan_pool)) [
  | inl missing ↦ rw (missing, remove_orphan) v
  | inr (e, found) ↦ rw (remove_orphan-without h p v (ground arith)) (without-IsValid h p v)
]

pub evict-without :
    (p : OrphanPool) (oldest : Bytes) (order : List Bytes)
    → p.order ≡ oldest ∷ order
    → evict p ≡ ok (without oldest p)
unfolding evict without erase_node
evict-without p oldest order e = rw (e, evict) (ground (arith, bytes_eq_refl oldest))

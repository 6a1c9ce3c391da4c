-- ===== src/Core/OrphanPool/Fifo.antt =====
-- `add_orphan`: it never meets an empty list, the block is found afterwards, and the oldest goes first.
use forgechain.Prelude.{
  ◌≤◌, ◌<◌, ◌≡◌, refl, ap, ◌∙◌, true, false, none, some, List, [], ◌∷◌, ◌++◌, arith, Bytes,
  bytes_eq, bytes_eq_refl, length, leb, if◌then◌else◌, Option-cases, Bool-cases, List-cases, inl,
  inr,
}
use forgechain.Prelude.Outcome.{ok}
use forgechain.Prelude.Dict.{Dict, lookup, contains, lookup-insert, lookup-erase}
use forgechain.Core.Block.{Block}
use forgechain.Core.OrphanPool.{
  Entry, OrphanPool, orphan_count, has_orphan, find_orphan, erase_node, append, add_orphan,
}
use forgechain.Core.OrphanPool.Bound.{
  mem, IsValid, replace, replace-IsValid, append-IsValid, without, without-IsValid, evict-without,
  length-erase_known,
}

module _ (b : Block) (p : OrphanPool) where
  add-known :
      {e : Entry} → lookup b.hash p.orphan_pool ≡ some e → add_orphan b p ≡ ok (replace b e p)
  unfolding add_orphan replace
  add-known found = rw (found, add_orphan)

  add-room :
      lookup b.hash p.orphan_pool ≡ none
      → orphan_count p < p.max_size
      → add_orphan b p ≡ ok (append b p)
  unfolding add_orphan
  add-room missing room = rw (missing, add_orphan) (ground arith)

  add-full :
      {oldest : Bytes} {order : List Bytes}
      → lookup b.hash p.orphan_pool ≡ none
      → p.max_size ≤ orphan_count p
      → p.order ≡ oldest ∷ order
      → add_orphan b p ≡ ok (append b (without oldest p))
  unfolding add_orphan
  add-full {oldest} {order} missing full e =
      rw (missing, evict-without p oldest order e, add_orphan) (ground arith)

  find-replace : (e : Entry) → find_orphan (replace b e p) b.hash ≡ some b
  unfolding find_orphan replace
  find-replace e = ground (
    arith,
    lookup-insert b.hash b.hash (record e { block = b }) p.orphan_pool,
    bytes_eq_refl b.hash,
  )

  find-append :
      (h : Bytes)
      → find_orphan (append b p) h ≡ (if bytes_eq b.hash h then some b else find_orphan p h)
  unfolding find_orphan append
  find-append h =
      ground (arith, lookup-insert b.hash h (record { block = b; pos = b.hash }) p.orphan_pool)

find-without :
    (k : Bytes) (p : OrphanPool) (h : Bytes)
    → find_orphan (without k p) h ≡ (if bytes_eq k h then none else find_orphan p h)
unfolding find_orphan without
find-without k p h = ground (arith, lookup-erase k h p.orphan_pool)

first_key : (d : Dict Entry) → 0 < length d → (k : Bytes) × (contains k d ≡ true)
unfolding lookup
first_key [] h = absurd (omega arith)
first_key ((k, e) ∷ d) h = (k, ground (arith, bytes_eq_refl k))

module _ (b : Block) (p : OrphanPool) (v : IsValid p) (some_room : 0 < p.max_size) where
  -- A full pool has an oldest hash, which is in the pool.
  oldest-known :
      p.max_size ≤ orphan_count p
      → (oldest : Bytes) × (order : List Bytes) × (p.order ≡ oldest ∷ order)
        × (has_orphan p oldest ≡ true)
  oldest-known full = elim (List-cases p.order) [
    | inl empty ↦
        let (k, held) = first_key p.orphan_pool (omega arith) in
        let listed : has_orphan p k ≡ false = v.listed k ∙ ap (mem k) empty in cc
    | inr (oldest, order, e) ↦ (
      oldest,
      order,
      e,
      v.listed oldest ∙ ap (mem oldest) e ∙ ground (arith, bytes_eq_refl oldest),
    )
  ]

  without-roomy :
      (oldest : Bytes) → has_orphan p oldest ≡ true → orphan_count (without oldest p) < p.max_size
  unfolding without
  without-roomy oldest held = omega (arith, v.bounded, length-erase_known oldest p.orphan_pool held)

  without-lacks :
      (oldest : Bytes)
      → lookup b.hash p.orphan_pool ≡ none
      → has_orphan (without oldest p) b.hash ≡ false
  unfolding without
  without-lacks oldest missing = ground (arith, lookup-erase oldest b.hash p.orphan_pool)

-- With room for one block at least, `add_orphan` succeeds, whether the block is known, there is room,
-- or the oldest has to go. Afterwards the pool is valid, so within its limit, and finds the block.
pub add_orphan-total :
    (b : Block) (p : OrphanPool)
    → IsValid p
    → 0 < p.max_size
    → (p' : OrphanPool) × (add_orphan b p ≡ ok p')
      × IsValid p'
      × (find_orphan p' b.hash ≡ some b)
      × (p'.max_size ≡ p.max_size)
unfolding append without replace
add_orphan-total b p v room = elim (Option-cases (lookup b.hash p.orphan_pool)) [
  | inr (e, found) ↦
      (replace b e p, add-known b p found, replace-IsValid b e p v found, find-replace b p e, refl)
  | inl missing ↦ elim (Bool-cases (leb p.max_size (orphan_count p))) [
    | inr roomy ↦ (
      append b p,
      add-room b p missing (ground arith),
      append-IsValid b p v (ground arith) (ground arith),
      find-append b p b.hash ∙ ground (arith, bytes_eq_refl b.hash),
      refl,
    )
    | inl full ↦
        let (oldest, order, e, held) = oldest-known b p v room (ground arith) in
        (
          append b (without oldest p),
          add-full b p missing (ground arith) e,
          append-IsValid b (without oldest p) (without-IsValid oldest p v)
              (without-lacks b p v room oldest missing) (without-roomy b p v room oldest held),
          find-append b (without oldest p) b.hash ∙ ground (arith, bytes_eq_refl b.hash),
          refl,
        )
  ]
]

-- A new block that finds the pool full drives out the oldest block and nothing else, and is the
-- youngest from then on.
pub add_orphan-evicts :
    (b : Block) (p : OrphanPool) {oldest : Bytes} {order : List Bytes}
    → has_orphan p b.hash ≡ false
    → p.max_size ≤ orphan_count p
    → p.order ≡ oldest ∷ order
    → (p' : OrphanPool) × (add_orphan b p ≡ ok p')
      × (p'.order ≡ order ++ b.hash ∷ [])
      × ((h : Bytes)
          → find_orphan p' h ≡ (
              if bytes_eq b.hash h
              then some b
              else if bytes_eq oldest h
              then none
              else find_orphan p h))
unfolding append without erase_node
add_orphan-evicts b p {oldest} {order} missing full e = (
  append b (without oldest p),
  add-full b p (ground arith) full e,
  ap (λ ks. erase_node oldest ks ++ b.hash ∷ []) e ∙ ground (arith, bytes_eq_refl oldest),
  λ h. find-append b (without oldest p) h ∙ ground (arith, find-without oldest p h),
)

-- A block that is there already is replaced, and keeps its age.
pub add_orphan-keeps_age :
    (b : Block) (p : OrphanPool)
    → has_orphan p b.hash ≡ true
    → (p' : OrphanPool) × (add_orphan b p ≡ ok p') × (p'.order ≡ p.order)
unfolding replace
add_orphan-keeps_age b p known = elim (Option-cases (lookup b.hash p.orphan_pool)) [
  | inl missing ↦ ground arith
  | inr (e, found) ↦ (replace b e p, add-known b p found, refl)
]

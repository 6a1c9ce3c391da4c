-- ===== src/Core/Blockchain/Index.antt =====
-- The index of hashes is exact: it names a height exactly if the block there has that hash.
use forgechain.Prelude.{
  ℕ, zero, suc, ◌+◌, ◌-◌, ◌≤◌, ◌<◌, ◌≡◌, ◌↔◌, refl, ◌∙◌, ap, Bool, true, false, ◌||◌, Option, none,
  some, List, [], ◌∷◌, ◌++◌, arith, Bytes, bytes_eq, bytes_eq_iff, length, get_elem?, take, drop,
  ltb, ◌==◌, if◌then◌else◌, Option-cases, Bool-cases, inl, inr,
}
use forgechain.Prelude.Dict.{Dict, lookup, erase, lookup-insert, lookup-erase}
use forgechain.Core.Block.{Block}
use forgechain.Core.Blockchain.{
  Blockchain, ForkChain, size, has_block, find_height, find, tip_work, weighed, add_block,
  add_blocks, erase_hashes, truncate, reorganize_to,
}

-- The hash of the block at a height.
unfoldable pub hash_at : List Block → ℕ → Option Bytes
hash_at bs i = elim (get_elem? bs i) [ none ↦ none | some b ↦ some b.hash ]

pub record IsIndexed (c : Blockchain) : Type 0 where
  pub exact : (h : Bytes) (i : ℕ) → (find_height c h ≡ some i) ↔ (hash_at c.blocks i ≡ some h)

hash_at-append_one :
    (bs : List Block) (b : Block) (i : ℕ)
    → hash_at (bs ++ b ∷ []) i
      ≡ (if ltb i (length bs) then hash_at bs i else if i == length bs then some b.hash else none)
unfolding hash_at
hash_at-append_one [] b zero = refl
hash_at-append_one [] b (suc i) = ground arith
hash_at-append_one (x ∷ bs) b zero = ground arith
hash_at-append_one (x ∷ bs) b (suc i) = ground (arith, hash_at-append_one bs b i)

hash_at-lt : (bs : List Block) (i : ℕ) {h : Bytes} → hash_at bs i ≡ some h → i < length bs
unfolding hash_at
hash_at-lt [] i e = cc
hash_at-lt (x ∷ bs) zero e = omega arith
hash_at-lt (x ∷ bs) (suc i) e = omega (arith, hash_at-lt bs i e)

-- Appending a block whose hash is new keeps the index exact.
pub add_block-IsIndexed :
    (b : Block) (c : Blockchain)
    → IsIndexed c
    → has_block c b.hash ≡ false
    → IsIndexed (add_block b c)
unfolding add_block find_height
add_block-IsIndexed b c x new = record {
  exact = λ h i. ground (
    arith,
    x.exact h i,
    x.exact b.hash i,
    lookup-insert b.hash h (size c) c.height_by_hash,
    hash_at-append_one c.blocks (weighed (tip_work c.blocks) b) i,
    bytes_eq_iff b.hash h,
    λ (e : hash_at c.blocks i ≡ some h). hash_at-lt c.blocks i e,
  );
}

-- Some block of the list has the hash.
holds : Bytes → List Block → Bool
holds h [] = false
holds h (b ∷ bs) = bytes_eq b.hash h || holds h bs

lookup-erase_hashes :
    (h : Bytes) (bs : List Block) (d : Dict ℕ)
    → lookup h (erase_hashes bs d) ≡ (if holds h bs then none else lookup h d)
unfolding erase_hashes holds
lookup-erase_hashes h [] d = refl
lookup-erase_hashes h (b ∷ bs) d =
    ground (arith, lookup-erase_hashes h bs (erase b.hash d), lookup-erase b.hash h d)

holds-hash_at : (h : Bytes) (bs : List Block) (j : ℕ) → hash_at bs j ≡ some h → holds h bs ≡ true
unfolding hash_at holds
holds-hash_at h [] j e = cc
holds-hash_at h (b ∷ bs) zero e = ground (arith, bytes_eq_iff b.hash h)
holds-hash_at h (b ∷ bs) (suc j) e = ground (arith, holds-hash_at h bs j e)

hash_at-holds :
    (h : Bytes) (bs : List Block) → holds h bs ≡ true → (j : ℕ) × (hash_at bs j ≡ some h)
unfolding hash_at holds
hash_at-holds h [] e = cc
hash_at-holds h (b ∷ bs) e = elim (Bool-cases (bytes_eq b.hash h)) [
  | inl same ↦ (0, ap some ((bytes_eq_iff b.hash h).0 same))
  | inr other ↦ let (j, found) = hash_at-holds h bs (ground arith) in (suc j, found)
]

hash_at-take :
    (n : ℕ) (bs : List Block) (i : ℕ)
    → hash_at (take n bs) i ≡ (if ltb i n then hash_at bs i else none)
unfolding hash_at
hash_at-take zero bs i = ground arith
hash_at-take (suc n) [] i = ground arith
hash_at-take (suc n) (b ∷ bs) zero = ground arith
hash_at-take (suc n) (b ∷ bs) (suc i) = ground (arith, hash_at-take n bs i)

hash_at-drop : (n : ℕ) (bs : List Block) (j : ℕ) → hash_at (drop n bs) j ≡ hash_at bs (n + j)
unfolding hash_at
hash_at-drop zero bs j = ap (hash_at bs) (omega arith)
hash_at-drop (suc n) [] j = refl
hash_at-drop (suc n) (b ∷ bs) j =
    hash_at-drop n bs j ∙ ap (hash_at (b ∷ bs)) (let e : suc (n + j) ≡ suc n + j = omega arith in e)

module _ (height : ℕ) (c : Blockchain) (x : IsIndexed c) (h : Bytes) (i : ℕ) where
  truncate_sound :
      find_height (truncate height c) h ≡ some i → hash_at (truncate height c).blocks i ≡ some h
  unfolding truncate find_height
  truncate_sound e = ground (
    arith,
    x.exact h i,
    lookup-erase_hashes h (drop (suc height) c.blocks) c.height_by_hash,
    hash_at-take (suc height) c.blocks i,
    holds-hash_at h (drop (suc height) c.blocks) (i - suc height),
    hash_at-drop (suc height) c.blocks (i - suc height),
    λ (far : suc height ≤ i).
        ap (hash_at c.blocks) (let e : suc height + (i - suc height) ≡ i = omega arith in e),
  )

  truncate_complete :
      hash_at (truncate height c).blocks i ≡ some h → find_height (truncate height c) h ≡ some i
  unfolding truncate find_height
  truncate_complete e = elim (Bool-cases (holds h (drop (suc height) c.blocks))) [
    | inl again ↦
        let (j, at_j) = hash_at-holds h (drop (suc height) c.blocks) again in
        ground (
          arith,
          x.exact h i,
          x.exact h (suc height + j),
          hash_at-drop (suc height) c.blocks j,
          hash_at-take (suc height) c.blocks i,
        )
    | inr kept ↦ ground (
      arith,
      x.exact h i,
      lookup-erase_hashes h (drop (suc height) c.blocks) c.height_by_hash,
      hash_at-take (suc height) c.blocks i,
    )
  ]

-- Cutting the chain off keeps the index exact.
pub truncate-IsIndexed : (height : ℕ) (c : Blockchain) → IsIndexed c → IsIndexed (truncate height c)
truncate-IsIndexed height c x = record {
  exact = λ h i. (truncate_sound height c x h i, truncate_complete height c x h i);
}

-- The blocks can be appended one after the other, each with a hash that is new by then.
abbrev pub Fresh : List Block → Blockchain → Type 0
Fresh [] c = Unit
Fresh (b ∷ bs) c = (has_block c b.hash ≡ false) × Fresh bs (add_block b c)

add_blocks-IsIndexed :
    (bs : List Block) (c : Blockchain) → Fresh bs c → IsIndexed c → IsIndexed (add_blocks bs c)
unfolding add_blocks
add_blocks-IsIndexed [] c f x = x
add_blocks-IsIndexed (b ∷ bs) c f x =
    add_blocks-IsIndexed bs (add_block b c) f.1 (add_block-IsIndexed b c x f.0)

-- A reorganization keeps the index exact, if every block of the branch is new to the chain that was
-- cut off at the ancestor.
pub reorganize_to-IsIndexed :
    (fork : ForkChain) (c : Blockchain)
    → IsIndexed c
    → ((height : ℕ)
        → find_height c fork.common_ancestor.hash ≡ some height
        → Fresh fork.blocks (truncate height c))
    → IsIndexed (reorganize_to fork c).1
unfolding reorganize_to
reorganize_to-IsIndexed fork c x fresh =
    elim (Option-cases (find_height c fork.common_ancestor.hash)) [
      | inl missing ↦ rw (missing, reorganize_to) x
      | inr (height, found) ↦
          rw (found, reorganize_to)
            (add_blocks-IsIndexed fork.blocks (truncate height c) (fresh height found)
              (truncate-IsIndexed height c x))
    ]

-- In an indexed chain `find` returns the block with the hash that was asked for, and fails exactly
-- if the index does not know the hash: it never reads outside the chain.
pub find-hash :
    (c : Blockchain) (h : Bytes)
    → IsIndexed c
    → ((find c h ≡ none) ↔ (has_block c h ≡ false)) × ((b : Block) → find c h ≡ some b → b.hash ≡ h)
unfolding find find_height hash_at
find-hash c h x = elim (Option-cases (find_height c h)) [
  | inl missing ↦ ground arith
  | inr (i, found) ↦ ground (arith, x.exact h i)
]

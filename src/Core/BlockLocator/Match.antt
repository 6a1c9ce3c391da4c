-- ===== src/Core/BlockLocator/Match.antt =====
-- A locator goes down from the tip to the genesis block, so two chains with one genesis block match.
use forgechain.Prelude.{
  ℕ, zero, suc, ◌+◌, ◌-◌, ◌<◌, ◌≤◌, ◌≡◌, inl, inr, refl, some, List, [], ◌∷◌, Bytes, length,
  get_elem?, ltb, arith, Bool-cases, Option-cases, sym, ◌∙◌,
}
use forgechain.Prelude.Outcome.{ok}
use forgechain.Core.Block.{Block}
use forgechain.Core.Blockchain
use forgechain.Core.Blockchain.{Blockchain, find_height}
use forgechain.Core.Blockchain.Index.{IsIndexed, hash_at}
use forgechain.Core.BlockLocator.{
  next_step, locator_heights, hashes_at, build_locator, find_locator_match,
}

-- Heights that fall from `h` to 0.
pub data Falls : ℕ → List ℕ → Type 0 where
  ends : Falls 0 (0 ∷ [])
  falls : (h k : ℕ) (hs : List ℕ) → k < h → Falls k hs → Falls h (h ∷ hs)

locator_heights-Falls :
    (fuel h step count : ℕ)
    → h ≤ fuel
    → 0 < step
    → (hs : List ℕ) × (locator_heights fuel h step count ≡ some hs) × Falls h hs
unfolding locator_heights
locator_heights-Falls fuel zero step count enough pos = (0 ∷ [], refl, ends)
locator_heights-Falls zero (suc h) step count enough pos = absurd (omega arith)
locator_heights-Falls (suc fuel) (suc h) step count enough pos =
    let step' = next_step count step in
    elim (Bool-cases (ltb (suc h) step')) [
      | inl e ↦ (
        suc h ∷ 0 ∷ [],
        rw (locator_heights, e) refl,
        falls (suc h) 0 (0 ∷ []) (omega arith) ends,
      )
      | inr e ↦
          let (hs, eq, f) =
            locator_heights-Falls fuel (suc h - step') step' (count + 1) (ground arith)
              (ground arith) in
          (
            suc h ∷ hs,
            rw (locator_heights, e, eq) refl,
            falls (suc h) (suc h - step') hs (ground arith) f,
          )
    ]

-- The hashes of the blocks at the heights.
pub data HashesAt (chain : Blockchain) : List ℕ → List Bytes → Type 0 where
  done : HashesAt chain [] []
  next :
      (h : ℕ) (hs : List ℕ) (x : Bytes) (xs : List Bytes)
      → hash_at chain.blocks h ≡ some x
      → HashesAt chain hs xs
      → HashesAt chain (h ∷ hs) (x ∷ xs)

get_elem?-some : (bs : List Block) (i : ℕ) → i < length bs → (b : Block) × (get_elem? bs i ≡ some b)
get_elem?-some [] i h = absurd (omega arith)
get_elem?-some (b ∷ bs) zero h = (b, refl)
get_elem?-some (b ∷ bs) (suc i) h = get_elem?-some bs i (omega arith)

at-get :
    (chain : Blockchain) (h : ℕ) {b : Block}
    → get_elem? chain.blocks h ≡ some b
    → Blockchain.at chain h ≡ ok b
unfolding Blockchain.at
at-get chain h e = rw (Blockchain.at, e) refl

hash_at-get :
    (bs : List Block) (h : ℕ) {b : Block} → get_elem? bs h ≡ some b → hash_at bs h ≡ some b.hash
unfolding hash_at
hash_at-get bs h e = rw (hash_at, e) refl

hashes_at-HashesAt :
    (chain : Blockchain) {h : ℕ} {hs : List ℕ}
    → Falls h hs
    → h < Blockchain.size chain
    → (xs : List Bytes) × (hashes_at chain hs ≡ ok xs) × HashesAt chain hs xs
unfolding hashes_at
hashes_at-HashesAt chain ends small =
    let (b, at) = get_elem?-some chain.blocks 0 small in
    (
      b.hash ∷ [],
      rw (hashes_at, at-get chain 0 at) refl,
      next 0 [] b.hash [] (hash_at-get chain.blocks 0 at) done,
    )
hashes_at-HashesAt chain (falls h k hs below f) small =
    let (b, at) = get_elem?-some chain.blocks h small in
    let (xs, eq, more) = hashes_at-HashesAt chain f (omega arith) in
    (
      b.hash ∷ xs,
      rw (hashes_at, at-get chain h at, eq) refl,
      next h hs b.hash xs (hash_at-get chain.blocks h at) more,
    )

build_locator-eq :
    (chain : Blockchain) (hs : List ℕ)
    → 0 < Blockchain.size chain
    → locator_heights (Blockchain.size chain - 1) (Blockchain.size chain - 1) 1 0 ≡ some hs
    → build_locator chain ≡ hashes_at chain hs
unfolding build_locator
build_locator-eq chain hs some_block e = ground arith

-- The locator of a chain that is not empty is found, with no exception and within the fuel: it holds
-- the hashes of the blocks at heights that fall from the tip's to 0.
pub build_locator-Falls :
    (chain : Blockchain)
    → 0 < Blockchain.size chain
    → (hs : List ℕ) × (xs : List Bytes) × (build_locator chain ≡ ok xs)
      × Falls (Blockchain.size chain - 1) hs
      × HashesAt chain hs xs
unfolding build_locator
build_locator-Falls chain some_block =
    let n = Blockchain.size chain - 1 in
    let (hs, eq, f) = locator_heights-Falls n n 1 0 (omega arith) (omega arith) in
    let (xs, eq', at) = hashes_at-HashesAt chain f (omega arith) in
    (hs, xs, build_locator-eq chain hs some_block eq ∙ eq', f, at)

-- A chain finds the first hash of a locator that it knows; the last one is the genesis block's.
match-shared :
    (c d : Blockchain) {h : ℕ} {hs : List ℕ} {xs : List Bytes}
    → IsIndexed c
    → hash_at c.blocks 0 ≡ hash_at d.blocks 0
    → Falls h hs
    → HashesAt d hs xs
    → (i : ℕ) × (j : ℕ) × (find_locator_match c xs ≡ some i)
      × (j ≤ h)
      × (hash_at c.blocks i ≡ hash_at d.blocks j)
unfolding find_locator_match
match-shared c d x same ends (next _ _ hash _ at done) =
    let found = (x.exact hash 0).1 (same ∙ at) in
    (0, 0, rw (find_locator_match, found) refl, omega arith, same)
match-shared c d x same (falls h k hs below f) (next _ _ hash xs at more) =
    elim (Option-cases (find_height c hash)) [
      | inr (i, e) ↦
          (i, h, rw (find_locator_match, e) refl, omega arith, (x.exact hash i).0 e ∙ sym at)
      | inl e ↦
          let (i, j, eq, le, shared) = match-shared c d x same f more in
          (i, j, rw (find_locator_match, e) eq, omega arith, shared)
    ]

-- If two chains have one genesis block, the first with an exact index and the second not empty, the
-- locator of the second makes the first find a height at which it has a block of the second.
pub find_locator_match-build_locator :
    (c d : Blockchain)
    → IsIndexed c
    → 0 < Blockchain.size d
    → hash_at c.blocks 0 ≡ hash_at d.blocks 0
    → (xs : List Bytes) × (i : ℕ) × (j : ℕ) × (build_locator d ≡ ok xs)
      × (find_locator_match c xs ≡ some i)
      × (j < Blockchain.size d)
      × (hash_at c.blocks i ≡ hash_at d.blocks j)
find_locator_match-build_locator c d x some_block same =
    let (hs, xs, eq, f, at) = build_locator-Falls d some_block in
    let (i, j, found, le, shared) = match-shared c d x same f at in
    (xs, i, j, eq, found, omega arith, shared)

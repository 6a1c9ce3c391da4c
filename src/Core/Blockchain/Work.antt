-- ===== src/Core/Blockchain/Work.antt =====
-- Cumulative work along the chain, and what a reorganization leaves of the chain.
use mathlib.Core.List.{append_assoc, append-nil}
use forgechain.Prelude.{
  ℕ, zero, suc, ◌≡◌, refl, ap, sym, ◌∙◌, Option, none, some, List, [], ◌∷◌, ◌++◌, map, Bytes, take,
  drop, take-append-drop, add64, Option-cases, inl, inr, arith,
}
use forgechain.Core.Block.{Block, block_work}
use forgechain.Core.Blockchain.{
  Blockchain, ForkChain, find_height, tip_work, weighed, add_block, add_blocks, truncate,
  reorganize_to,
}

-- Every block's cumulative work is its own on top of the block below.
abbrev pub WeighedFrom : ℕ → List Block → Type 0
WeighedFrom w [] = Unit
WeighedFrom w (b ∷ bs) =
    (b.cumulative_work ≡ add64 (block_work b) w) × WeighedFrom b.cumulative_work bs

-- The genesis block counts for nothing, and each block above it adds its work.
abbrev pub IsWeighed : List Block → Type 0
IsWeighed [] = ⊥
IsWeighed (genesis ∷ bs) = (genesis.cumulative_work ≡ 0) × WeighedFrom 0 bs

WeighedFrom-append_one :
    (w : ℕ) (g : Block) (bs : List Block) (b : Block)
    → g.cumulative_work ≡ w
    → WeighedFrom w bs
    → WeighedFrom w (bs ++ weighed (tip_work (g ∷ bs)) b ∷ [])
unfolding block_work
WeighedFrom-append_one w g [] b e h = (ap (add64 (block_work b)) e, tt)
WeighedFrom-append_one w g (x ∷ bs) b e h =
    (h.0, WeighedFrom-append_one x.cumulative_work x bs b refl h.1)

IsWeighed-append_one :
    (bs : List Block) (b : Block) → IsWeighed bs → IsWeighed (bs ++ weighed (tip_work bs) b ∷ [])
IsWeighed-append_one [] b h = absurd h
IsWeighed-append_one (g ∷ bs) b h = (h.0, WeighedFrom-append_one 0 g bs b h.0 h.1)

pub add_block-IsWeighed :
    (b : Block) (c : Blockchain) → IsWeighed c.blocks → IsWeighed (add_block b c).blocks
unfolding add_block
add_block-IsWeighed b c h = IsWeighed-append_one c.blocks b h

WeighedFrom-take : (w n : ℕ) (bs : List Block) → WeighedFrom w bs → WeighedFrom w (take n bs)
WeighedFrom-take w zero bs h = tt
WeighedFrom-take w (suc n) [] h = tt
WeighedFrom-take w (suc n) (b ∷ bs) h = (h.0, WeighedFrom-take b.cumulative_work n bs h.1)

truncate-IsWeighed :
    (height : ℕ) (c : Blockchain) → IsWeighed c.blocks → IsWeighed (truncate height c).blocks
unfolding truncate
truncate-IsWeighed height c h = go c.blocks h
  where
    go : (bs : List Block) → IsWeighed bs → IsWeighed (take (suc height) bs)
    go [] h = h
    go (g ∷ bs) h = (h.0, WeighedFrom-take 0 height bs h.1)

add_blocks-IsWeighed :
    (bs : List Block) (c : Blockchain) → IsWeighed c.blocks → IsWeighed (add_blocks bs c).blocks
unfolding add_blocks
add_blocks-IsWeighed [] c h = h
add_blocks-IsWeighed (b ∷ bs) c h =
    add_blocks-IsWeighed bs (add_block b c) (add_block-IsWeighed b c h)

-- A reorganization, also one that is refused, leaves the cumulative work of every block right.
pub reorganize_to-IsWeighed :
    (fork : ForkChain) (c : Blockchain)
    → IsWeighed c.blocks
    → IsWeighed (reorganize_to fork c).1.blocks
unfolding reorganize_to
reorganize_to-IsWeighed fork c h = elim (Option-cases (find_height c fork.common_ancestor.hash)) [
  | inl missing ↦ rw (missing, reorganize_to) h
  | inr (height, found) ↦
      rw (found, reorganize_to)
        (add_blocks-IsWeighed fork.blocks (truncate height c) (truncate-IsWeighed height c h))
]

-- The hashes of a list of blocks.
abbrev pub hashes : List Block → List Bytes
hashes = map (λ b. b.hash)

hashes-append_one :
    (bs : List Block) (b b' : Block)
    → b'.hash ≡ b.hash
    → hashes (bs ++ b' ∷ []) ≡ hashes bs ++ b.hash ∷ []
hashes-append_one [] b b' e = ap (λ h. h ∷ []) e
hashes-append_one (x ∷ bs) b b' e = ap (λ t. x.hash ∷ t) (hashes-append_one bs b b' e)

hashes-add_blocks :
    (bs : List Block) (c : Blockchain)
    → hashes (add_blocks bs c).blocks ≡ hashes c.blocks ++ hashes bs
unfolding add_blocks add_block
hashes-add_blocks [] c = sym (append-nil (hashes c.blocks))
hashes-add_blocks (b ∷ bs) c =
    hashes-add_blocks bs (add_block b c)
    ∙ ap (λ t. t ++ hashes bs) (hashes-append_one c.blocks b (weighed (tip_work c.blocks) b) refl)
    ∙ append_assoc (hashes c.blocks) (b.hash ∷ []) (hashes bs)

pub reorganize_to-missing :
    (fork : ForkChain) (c : Blockchain)
    → find_height c fork.common_ancestor.hash ≡ none
    → reorganize_to fork c ≡ (none, c)
unfolding reorganize_to
reorganize_to-missing fork c missing = rw (missing, reorganize_to)

pub reorganize_to-found :
    (fork : ForkChain) (c : Blockchain) (height : ℕ)
    → find_height c fork.common_ancestor.hash ≡ some height
    → reorganize_to fork c
      ≡ (some (drop (suc height) c.blocks), add_blocks fork.blocks (truncate height c))
unfolding reorganize_to
reorganize_to-found fork c height found = rw (found, reorganize_to)

-- The chain after a reorganization is the part up to the ancestor with the branch on top, and what
-- was cut off is handed back: put behind that part it gives the old chain.
pub reorganize_to-splits :
    (fork : ForkChain) (c : Blockchain) {discarded : List Block} {c' : Blockchain}
    → reorganize_to fork c ≡ (some discarded, c')
    → (kept : List Block) × (kept ++ discarded ≡ c.blocks)
      × (hashes c'.blocks ≡ hashes kept ++ hashes fork.blocks)
unfolding truncate
reorganize_to-splits fork c {discarded} {c'} e =
    elim (Option-cases (find_height c fork.common_ancestor.hash)) [
      | inl missing ↦ ground (arith, reorganize_to-missing fork c missing)
      | inr (height, found) ↦
          let same = sym e ∙ reorganize_to-found fork c height found in
          let cut : discarded ≡ drop (suc height) c.blocks = ground arith in
          (
            take (suc height) c.blocks,
            ap (λ d. take (suc height) c.blocks ++ d) cut ∙ take-append-drop (suc height) c.blocks,
            ap (λ (r : Option (List Block) × Blockchain). hashes r.1.blocks) same
                ∙ hashes-add_blocks fork.blocks (truncate height c),
          )
    ]

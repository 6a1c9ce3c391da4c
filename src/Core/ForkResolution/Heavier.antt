-- ===== src/Core/ForkResolution/Heavier.antt =====
-- A reorganization onto a heavier branch raises the work of the tip.
use forgechain.Prelude.{
  ◌<◌, ◌≡◌, refl, ap, ◌∙◌, true, some, List, [], ◌∷◌, arith, get_elem?, get_last?-append_one,
  get_last?-take, add64, Option-cases, inl, inr,
}
use forgechain.Prelude.Outcome.{ok}
use forgechain.Core.Block.{Block, block_work}
use forgechain.Core.Blockchain.{
  Blockchain, ForkChain, find_height, find, tip_work, weighed, add_block, add_blocks, truncate,
  reorganize_to,
}
use forgechain.Core.Blockchain.Work.{reorganize_to-found}
use forgechain.Core.ForkResolution.{add_work, fork_work, is_fork_heavier}

tip_work-add_block :
    (b : Block) (c : Blockchain)
    → tip_work (add_block b c).blocks ≡ add64 (tip_work c.blocks) (block_work b)
unfolding add_block
tip_work-add_block b c =
    rw (get_last?-append_one c.blocks (weighed (tip_work c.blocks) b), tip_work) (omega arith)

tip_work-add_blocks :
    (bs : List Block) (c : Blockchain)
    → tip_work (add_blocks bs c).blocks ≡ add_work (tip_work c.blocks) bs
unfolding add_blocks add_work
tip_work-add_blocks [] c = refl
tip_work-add_blocks (b ∷ bs) c =
    tip_work-add_blocks bs (add_block b c) ∙ ap (λ w. add_work w bs) (tip_work-add_block b c)

-- If the branch grows from a block of the chain, the work of the new tip is the work that the branch
-- was weighed by.
pub reorganize_to-work :
    (fork : ForkChain) (c : Blockchain)
    → find c fork.common_ancestor.hash ≡ some fork.common_ancestor
    → tip_work (reorganize_to fork c).1.blocks ≡ fork_work fork
unfolding find fork_work truncate
reorganize_to-work fork c at_fork = elim (Option-cases (find_height c fork.common_ancestor.hash)) [
  | inl missing ↦ ground arith
  | inr (height, found) ↦
      let anchor : get_elem? c.blocks height ≡ some fork.common_ancestor = ground arith in
      rw (
        reorganize_to-found fork c height found,
        tip_work-add_blocks fork.blocks (truncate height c),
        get_last?-take height c.blocks anchor,
        tip_work,
      )
]

-- If the branch is judged heavier, the tip of the reorganized chain has more work than the tip that
-- it replaces: equal work is never enough.
pub reorganize_to-raises_work :
    (fork : ForkChain) (c : Blockchain)
    → find c fork.common_ancestor.hash ≡ some fork.common_ancestor
    → is_fork_heavier c fork ≡ ok true
    → tip_work c.blocks < tip_work (reorganize_to fork c).1.blocks
unfolding is_fork_heavier
reorganize_to-raises_work fork c at_fork heavier =
    rw (reorganize_to-work fork c at_fork) (ground arith)

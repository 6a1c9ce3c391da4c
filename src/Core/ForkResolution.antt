-- ===== src/Core/ForkResolution.antt =====
-- core/ForkResolution: a branch is traced back to the main chain, and weighed against it.
pub mod Branch
pub mod Heavier
use forgechain.Prelude.{
  ℕ, zero, suc, Bool, Option, none, some, List, [], ◌∷◌, Bytes, ltb, add64, get_last?,
}
use forgechain.Prelude.Outcome.{Outcome, ok, fault}
use forgechain.Core.Block.{Block, block_work}
use forgechain.Core.Blockchain
use forgechain.Core.Blockchain.{Blockchain, ForkChain, latest}
use forgechain.Core.OrphanPool.{OrphanPool, find_orphan}

-- `kMaxForkDepth`
abbrev pub max_fork_depth : ℕ
max_fork_depth = 100

-- The loop, with the number of hops that are left. The source pushes at the back and reverses the
-- branch at the end; here each block is put in front.
unfoldable pub trace : ℕ → Blockchain → OrphanPool → List Block → Bytes → Option ForkChain
trace zero chain pool branch current_hash = none
trace (suc hops) chain pool branch current_hash = elim (Blockchain.find chain current_hash) [
  | some ancestor ↦ some (record { blocks = branch; common_ancestor = ancestor })
  | none ↦ elim (find_orphan pool current_hash) [
    | none ↦ none
    | some parent ↦ trace hops chain pool (parent ∷ branch) parent.prev_hash
  ]
]

unfoldable pub build_fork_chain : Blockchain → OrphanPool → Block → Option ForkChain
unfolding trace
build_fork_chain chain pool tip = trace max_fork_depth chain pool (tip ∷ []) tip.prev_hash

-- The loop of `fork_work` over the branch.
unfoldable pub add_work : ℕ → List Block → ℕ
add_work work [] = work
add_work work (b ∷ bs) = add_work (add64 work (block_work b)) bs

unfoldable pub fork_work : ForkChain → ℕ
unfolding add_work
fork_work fork = add_work fork.common_ancestor.cumulative_work fork.blocks

unfoldable pub is_fork_heavier : Blockchain → ForkChain → Outcome Bool
is_fork_heavier chain fork = elim (latest chain) [
  | none ↦ fault
  | some tip ↦ ok (ltb tip.cumulative_work (fork_work fork))
]

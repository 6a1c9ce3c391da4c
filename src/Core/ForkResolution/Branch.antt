-- ===== src/Core/ForkResolution/Branch.antt =====
-- What `build_fork_chain` returns: a linked branch of bounded length that ends in the tip.
use mathlib.Core.Option.{some-injective}
use forgechain.Prelude.{
  sym, subst, ◌∙◌, ℕ, zero, suc, ◌+◌, ◌≤◌, ◌≡◌, refl, none, some, List, [], ◌∷◌, Bytes, length,
  get_last?, arith, Option-cases, inl, inr,
}
use forgechain.Core.Block.{Block}
use forgechain.Core.Blockchain
use forgechain.Core.Blockchain.{Blockchain, ForkChain}
use forgechain.Core.Blockchain.Index.{IsIndexed, find-hash}
use forgechain.Core.OrphanPool.{OrphanPool, find_orphan}
use forgechain.Core.ForkResolution.{trace, build_fork_chain, max_fork_depth}

-- The first block hangs on the given hash, and each block after it on the one before.
abbrev pub Linked : Bytes → List Block → Type 0
Linked h [] = Unit
Linked h (b ∷ bs) = (b.prev_hash ≡ h) × Linked b.hash bs

-- Every entry is filed under the hash of its block.
abbrev pub IsKeyed : OrphanPool → Type 0
IsKeyed pool = (h : Bytes) (b : Block) → find_orphan pool h ≡ some b → b.hash ≡ h

-- The branch and its ancestor, as the walk from a tip finds them.
pub record IsBranch (chain : Blockchain) (tip : Block) (bound : ℕ) (fork : ForkChain) : Type 0 where
  pub ancestor : Blockchain.find chain fork.common_ancestor.hash ≡ some fork.common_ancestor
  pub linked : Linked fork.common_ancestor.hash fork.blocks
  pub ends : get_last? fork.blocks ≡ some tip
  pub bounded : length fork.blocks ≤ bound

module _ (chain : Blockchain) (pool : OrphanPool) (hops : ℕ) (branch : List Block) (h : Bytes)
    (off_chain : Blockchain.find chain h ≡ none) where
  trace-missing : find_orphan pool h ≡ none → trace (suc hops) chain pool branch h ≡ none
  unfolding trace
  trace-missing missing = rw (off_chain, missing, trace)

  trace-parent :
      {parent : Block}
      → find_orphan pool h ≡ some parent
      → trace (suc hops) chain pool branch h
        ≡ trace hops chain pool (parent ∷ branch) parent.prev_hash
  unfolding trace
  trace-parent found = rw (off_chain, found, trace)

module _ (chain : Blockchain) (pool : OrphanPool) (tip : Block) (indexed : IsIndexed chain)
    (keyed : IsKeyed pool) where
  trace-IsBranch :
      (hops : ℕ) (b : Block) (bs : List Block) (fork : ForkChain)
      → Linked b.prev_hash (b ∷ bs)
      → get_last? (b ∷ bs) ≡ some tip
      → trace hops chain pool (b ∷ bs) b.prev_hash ≡ some fork
      → IsBranch chain tip (length bs + hops) fork
  unfolding trace
  trace-IsBranch zero b bs fork linked ends e = cc
  trace-IsBranch (suc hops) b bs fork linked ends e =
      elim (Option-cases (Blockchain.find chain b.prev_hash)) [
        | inr (a, found) ↦
            let same : a.hash ≡ b.prev_hash = (find-hash chain b.prev_hash indexed).1 a found in
            let returned : some (record { blocks = b ∷ bs; common_ancestor = a }) ≡ some fork =
              rw (found, trace) at e in
            subst (IsBranch chain tip (length bs + suc hops)) (some-injective _ _ returned)
              (record {
                ancestor = subst (λ h. Blockchain.find chain h ≡ some a) (sym same) found;
                linked = (sym same, linked.1);
                ends = ends;
                bounded = omega arith;
              })
        | inl off_chain ↦ elim (Option-cases (find_orphan pool b.prev_hash)) [
          | inl missing ↦ cc (trace-missing chain pool hops (b ∷ bs) b.prev_hash off_chain missing)
          | inr (parent, found) ↦
              let same : parent.hash ≡ b.prev_hash = keyed b.prev_hash parent found in
              let further =
                sym (trace-parent chain pool hops (b ∷ bs) b.prev_hash off_chain found) ∙ e in
              let r =
                trace-IsBranch hops parent (b ∷ bs) fork (refl, (sym same, linked.1)) ends
                  further in
              record {
                ancestor = r.ancestor;
                linked = r.linked;
                ends = r.ends;
                bounded = omega (arith, r.bounded);
              }
        ]
      ]

  -- Over an exact index and a pool that files each block under its hash, the branch that
  -- `build_fork_chain` returns hangs on a block of the chain, each of its blocks names the one before
  -- as its parent, it ends in the tip, and it has at most `kMaxForkDepth` blocks.
  pub build_fork_chain-IsBranch :
      (fork : ForkChain)
      → build_fork_chain chain pool tip ≡ some fork
      → IsBranch chain tip max_fork_depth fork
  unfolding build_fork_chain
  build_fork_chain-IsBranch fork e = trace-IsBranch max_fork_depth tip [] fork (refl, tt) refl e

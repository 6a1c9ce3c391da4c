-- ===== src/Chain/Submit/Adoption.antt =====
-- What `adopt_branch` can do to the manager.
use forgechain.Prelude.{
  ℕ, ◌<◌, ◌≡◌, inl, inr, Bool, true, false, refl, Option, none, some, List, Bytes, ◌==◌, Bool-cases,
  Option-cases, List-cases, get_elem?, arith, subst,
}
use forgechain.Prelude.Outcome.{ok, After, Outcome-cases}
use forgechain.Crypto.{OpenSsl}
use forgechain.Core.Block.{Block}
use forgechain.Core.Blockchain
use forgechain.Core.Blockchain.{Blockchain, ForkChain, find_height, tip_work}
use forgechain.Core.Blockchain.Index.{IsIndexed, hash_at}
use forgechain.Consensus.Difficulty.{Doubles}
use forgechain.Chain.State.{ChainManager}
use forgechain.Chain.Reorg.{valid_prefix_length, try_reorg}
use forgechain.Chain.Reorg.Heavier.{IsReorg, kept, raised, try_reorg-IsReorg}
use forgechain.Chain.Submit.{cut, skip_known, is_linked, adopt_fork, adopt_branch}

-- By the answer: the manager is as it was, or the tip of its chain has more work.
abbrev pub Adopted : ChainManager → Bool → ChainManager → Type 0
Adopted cm false cm' = cm' ≡ cm
Adopted cm true cm' = tip_work cm.blockchain.blocks < tip_work cm'.blockchain.blocks

abbrev pub IsAdoption : ChainManager → Bool × ChainManager → Type 0
IsAdoption cm p = Adopted cm p.0 p.1

get-at :
    (chain : Blockchain) (height : ℕ) (b : Block)
    → Blockchain.at chain height ≡ ok b
    → get_elem? chain.blocks height ≡ some b
unfolding Blockchain.at
get-at chain height b h = ground arith

hash_at-at :
    (chain : Blockchain) (height : ℕ) (b : Block)
    → Blockchain.at chain height ≡ ok b
    → hash_at chain.blocks height ≡ some b.hash
unfolding hash_at
hash_at-at chain height b h = rw (hash_at, get-at chain height b h) refl

-- An exact index finds the block at a height by its hash.
find-at :
    (chain : Blockchain) (height : ℕ) (b : Block)
    → IsIndexed chain
    → Blockchain.at chain height ≡ ok b
    → Blockchain.find chain b.hash ≡ some b
unfolding Blockchain.find
find-at chain height b x h =
    let found = (x.exact b.hash height).1 (hash_at-at chain height b h) in
    rw (Blockchain.find, found) (get-at chain height b h)

module _ ⦃ssl : OpenSsl⦄ ⦃doubles : Doubles⦄ where
  reorg-IsAdoption :
      (cm : ChainManager) (p : Option (List Bytes) × ChainManager)
      → IsReorg cm p
      → After (IsAdoption cm) (elim p.0 [ none ↦ ok (false, p.1) | some _ ↦ ok (true, p.1) ])
  reorg-IsAdoption cm _ kept = refl
  reorg-IsAdoption cm _ (raised hashes cm' work) = work

  adopt_fork-IsAdoption :
      (now : ℕ) (fork : ForkChain) (cm : ChainManager)
      → Blockchain.find cm.blockchain fork.common_ancestor.hash ≡ some fork.common_ancestor
      → After (IsAdoption cm) (adopt_fork now fork cm)
  unfolding adopt_fork
  adopt_fork-IsAdoption now fork cm rooted =
      elim (Outcome-cases (valid_prefix_length cm.blockchain cm.params fork now)) [
        | inl e ↦ rw (adopt_fork, e) tt
        | inr (prefix, e) ↦ elim (Bool-cases (prefix == 0)) [
          | inl nil ↦ rw (adopt_fork, e, nil) refl
          | inr more ↦ elim (Outcome-cases (try_reorg (cut prefix fork) cm)) [
            | inl f ↦ rw (adopt_fork, e, more, f) tt
            | inr (p, f) ↦
                rw (adopt_fork, e, more, f)
                  (reorg-IsAdoption cm p
                    (subst (After (IsReorg cm)) f (try_reorg-IsReorg (cut prefix fork) cm rooted)))
          ]
        ]
      ]

  -- If the index of the chain is exact, then, unless `adopt_branch` throws, it answers no and leaves
  -- the whole manager as it was, or it answers yes and the new tip has more work than the old one.
  pub adopt_branch-IsAdoption :
      (now : ℕ) (blocks : List Block) (cm : ChainManager)
      → IsIndexed cm.blockchain
      → After (IsAdoption cm) (adopt_branch now blocks cm)
  unfolding adopt_branch
  adopt_branch-IsAdoption now blocks cm x = elim (List-cases (skip_known cm.blockchain blocks)) [
    | inl e ↦ rw (adopt_branch, e) refl
    | inr (block, rest, e) ↦ elim (Option-cases (find_height cm.blockchain block.prev_hash)) [
      | inl f ↦ rw (adopt_branch, e, f) refl
      | inr (height, f) ↦ elim (Bool-cases (is_linked block rest)) [
        | inr g ↦ rw (adopt_branch, e, f, g) refl
        | inl g ↦ elim (Outcome-cases (Blockchain.at cm.blockchain height)) [
          | inl k ↦ rw (adopt_branch, e, f, g, k) tt
          | inr (ancestor, k) ↦
              rw (adopt_branch, e, f, g, k)
                (adopt_fork-IsAdoption now _ cm (find-at cm.blockchain height ancestor x k))
        ]
      ]
    ]
  ]

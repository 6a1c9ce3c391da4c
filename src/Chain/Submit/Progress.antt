-- ===== src/Chain/Submit/Progress.antt =====
-- What a submitted block can do to the chain of the manager.
use forgechain.Prelude.{
  ℕ, ◌<◌, ◌≡◌, inl, inr, refl, Option, none, some, List, [], ◌∷◌, Bytes, ◌==◌, ltb, if◌then◌else◌,
  Bool-cases, Option-cases, arith, subst,
}
use forgechain.Prelude.Dict.{lookup}
use forgechain.Prelude.Outcome.{ok, After, Outcome-cases}
use forgechain.Crypto.{OpenSsl}
use forgechain.Core.Block.{Block}
use forgechain.Core.Blockchain
use forgechain.Core.Blockchain.{
  Blockchain, ForkChain, BlockValidation, add_block, tip_work, classify_new_block,
}
use forgechain.Core.Blockchain.Index.{IsIndexed}
use forgechain.Core.ForkResolution.{build_fork_chain, fork_work}
use forgechain.Core.ForkResolution.Branch.{IsKeyed, build_fork_chain-IsBranch}
use forgechain.Core.OrphanPool.{OrphanPool, find_orphan}
use forgechain.Core.OrphanPool.Bound.{IsValid}
use forgechain.Core.OrphanPool.Fifo.{add_orphan-total}
use forgechain.Consensus.Target.{meets_target}
use forgechain.Consensus.Coinbase.{validate_coinbase_amount}
use forgechain.Consensus.Difficulty.{Doubles, next_difficulty}
use forgechain.Consensus.Timestamp.{timestamp_is_valid}
use forgechain.Chain.State.{ChainManager, BlockOutcome, Status, rejection}
use forgechain.Chain.Apply.{apply_block_to_ledger}
use forgechain.Chain.Reorg.{find_fork_tips, valid_prefix_length, try_reorg}
use forgechain.Chain.Reorg.Heavier.{IsReorg, kept, raised, write-blockchain, try_reorg-IsReorg}
use forgechain.Chain.Submit.{
  cut, better, choose_best, reorg_outcome, try_best, resolve_fork, handle_fork_candidate, extend,
  submit_block,
}

-- By the status that is answered: the chain stays as it is, gets the block on top, or is exchanged
-- for one whose tip has more work.
abbrev pub Progress : Status → Blockchain → Block → Blockchain → Type 0
Progress Status.rejected chain block chain' = chain' ≡ chain
Progress Status.need_parent chain block chain' = chain' ≡ chain
Progress Status.accepted chain block chain' = chain' ≡ add_block block chain
Progress Status.reorged chain block chain' = tip_work chain.blocks < tip_work chain'.blocks

abbrev pub IsProgress : ChainManager → Block → BlockOutcome × ChainManager → Type 0
IsProgress cm block p = Progress p.0.status cm.blockchain block p.1.blockchain

-- The ancestor of a branch is the block of the chain that has its hash.
abbrev IsRooted : Blockchain → Option ForkChain → Type 0
IsRooted chain none = Unit
IsRooted chain (some fork) =
    Blockchain.find chain fork.common_ancestor.hash ≡ some fork.common_ancestor

better-IsRooted :
    (chain : Blockchain) (best : Option ForkChain) (fork : ForkChain)
    → IsRooted chain best
    → IsRooted chain (some fork)
    → IsRooted chain (better best fork)
unfolding better
better-IsRooted chain none fork b f = f
better-IsRooted chain (some best) fork b f =
    elim (Bool-cases (ltb (fork_work best) (fork_work fork))) [ inl e ↦ rw e f | inr e ↦ rw e b ]

chosen-IsRooted :
    (chain : Blockchain) (best : Option ForkChain) (fork : ForkChain) (prefix : ℕ)
    → IsRooted chain best
    → IsRooted chain (some fork)
    → IsRooted chain (if prefix == 0 then best else better best (cut prefix fork))
chosen-IsRooted chain best fork prefix b f = elim (Bool-cases (prefix == 0)) [
  | inl e ↦ rw e b
  | inr e ↦ rw e (better-IsRooted chain best (cut prefix fork) b f)
]

IsValid-IsKeyed : (pool : OrphanPool) → IsValid pool → IsKeyed pool
unfolding find_orphan
IsValid-IsKeyed pool v h b found = elim (Option-cases (lookup h pool.orphan_pool)) [
  | inl e ↦ cc (e, found)
  | inr (entry, e) ↦ ground (arith, v.keyed h entry e)
]

module _ ⦃ssl : OpenSsl⦄ ⦃doubles : Doubles⦄ where
  choose_best-IsRooted :
      (cm : ChainManager) (now : ℕ) (tips : List Block) (best : Option ForkChain)
      → IsIndexed cm.blockchain
      → IsKeyed cm.orphan_pool
      → IsRooted cm.blockchain best
      → After (IsRooted cm.blockchain) (choose_best cm now tips best)
  unfolding choose_best
  choose_best-IsRooted cm now [] best x k r = r
  choose_best-IsRooted cm now (tip ∷ tips) best x k r =
      elim (Option-cases (build_fork_chain cm.blockchain cm.orphan_pool tip)) [
        | inl e ↦ rw (choose_best, e) (choose_best-IsRooted cm now tips best x k r)
        | inr (fork, e) ↦
            let branch = build_fork_chain-IsBranch cm.blockchain cm.orphan_pool tip x k fork e in
            elim (Outcome-cases (valid_prefix_length cm.blockchain cm.params fork now)) [
              | inl f ↦ rw (choose_best, e, f) tt
              | inr (prefix, f) ↦
                  rw (choose_best, e, f)
                    (choose_best-IsRooted cm now tips
                      (if prefix == 0 then best else better best (cut prefix fork)) x k
                      (chosen-IsRooted cm.blockchain best fork prefix r branch.ancestor))
            ]
      ]

  reorg_outcome-IsProgress :
      (cm cm' : ChainManager) (block : Block) (p : Option (List Bytes) × ChainManager)
      → cm'.blockchain ≡ cm.blockchain
      → IsReorg cm' p
      → IsProgress cm block (reorg_outcome p.0 p.1)
  unfolding reorg_outcome
  reorg_outcome-IsProgress cm cm' block _ same kept = same
  reorg_outcome-IsProgress cm cm' block _ same (raised hashes cm'' work) =
      subst (λ (c : Blockchain). tip_work c.blocks < tip_work cm''.blockchain.blocks) same work

  try_best-IsProgress :
      (best : Option ForkChain) (cm cm' : ChainManager) (block : Block)
      → cm'.blockchain ≡ cm.blockchain
      → IsRooted cm'.blockchain best
      → After (IsProgress cm block) (try_best best cm')
  unfolding try_best
  try_best-IsProgress none cm cm' block same r = same
  try_best-IsProgress (some fork) cm cm' block same r = elim (Outcome-cases (try_reorg fork cm')) [
    | inl e ↦ rw (try_best, e) tt
    | inr (p, e) ↦
        rw (try_best, e)
          (reorg_outcome-IsProgress cm cm' block p same
            (subst (After (IsReorg cm')) e (try_reorg-IsReorg fork cm' r)))
  ]

  resolve_fork-IsProgress :
      (now : ℕ) (block : Block) (cm cm' : ChainManager)
      → cm'.blockchain ≡ cm.blockchain
      → IsIndexed cm'.blockchain
      → IsKeyed cm'.orphan_pool
      → After (IsProgress cm block) (resolve_fork now block cm')
  unfolding resolve_fork
  resolve_fork-IsProgress now block cm cm' same x k =
      let tips = find_fork_tips cm'.orphan_pool block in
      let rooted = choose_best-IsRooted cm' now tips none x k tt in
      elim (Option-cases (build_fork_chain cm'.blockchain cm'.orphan_pool block)) [
        | inl e ↦ rw (resolve_fork, e) same
        | inr (_, e) ↦ elim (Outcome-cases (choose_best cm' now tips none)) [
          | inl f ↦ rw (resolve_fork, e, f) tt
          | inr (best, f) ↦
              rw (resolve_fork, e, f)
                (try_best-IsProgress best cm cm' block same
                  (subst (After (IsRooted cm'.blockchain)) f rooted))
        ]
      ]

  handle_fork_candidate-IsProgress :
      (now : ℕ) (block : Block) (cm : ChainManager)
      → IsIndexed cm.blockchain
      → IsValid cm.orphan_pool
      → 0 < cm.orphan_pool.max_size
      → After (IsProgress cm block) (handle_fork_candidate now block cm)
  unfolding handle_fork_candidate
  handle_fork_candidate-IsProgress now block cm x v room =
      let (pool, added, v', _, _) = add_orphan-total block cm.orphan_pool v room in
      rw (handle_fork_candidate, added)
        (resolve_fork-IsProgress now block cm (record cm { orphan_pool = pool }) refl x
          (IsValid-IsKeyed pool v'))

  extend-IsProgress :
      (now : ℕ) (block : Block) (cm : ChainManager)
      → After (IsProgress cm block) (extend now block cm)
  unfolding extend
  extend-IsProgress now block cm =
      let height = Blockchain.size cm.blockchain in
      let block_at = Blockchain.at cm.blockchain in
      elim (Outcome-cases (timestamp_is_valid block height now cm.params block_at)) [
        | inl e ↦ rw (extend, e) tt
        | inr (timely, e) ↦ elim (Bool-cases timely) [
          | inr early ↦ rw (extend, e, early) refl
          | inl late ↦ elim (Outcome-cases (next_difficulty height cm.params block_at)) [
            | inl f ↦ rw (extend, e, late, f) tt
            | inr (expected, f) ↦ elim (Bool-cases (block.difficulty == expected)) [
              | inr other ↦ rw (extend, e, late, f, other) refl
              | inl same ↦ elim (Outcome-cases (apply_block_to_ledger block cm.ledger)) [
                | inl g ↦ rw (extend, e, late, f, same, g) tt
                | inr (applied, g) ↦ elim (Bool-cases applied.0) [
                  | inl good ↦ rw (extend, e, late, f, same, g, good) (write-blockchain _ _)
                  | inr bad ↦ rw (extend, e, late, f, same, g, bad) refl
                ]
              ]
            ]
          ]
        ]
      ]

  by_status :
      (now : ℕ) (block : Block) (cm : ChainManager)
      → IsIndexed cm.blockchain
      → IsValid cm.orphan_pool
      → 0 < cm.orphan_pool.max_size
      → (status : BlockValidation)
      → After (IsProgress cm block) (elim status [
        | BlockValidation.valid ↦ extend now block cm
        | BlockValidation.fork_candidate ↦ handle_fork_candidate now block cm
        | BlockValidation.invalid ↦ ok (rejection, cm)
      ])
  by_status now block cm x v room BlockValidation.valid = extend-IsProgress now block cm
  by_status now block cm x v room BlockValidation.fork_candidate =
      handle_fork_candidate-IsProgress now block cm x v room
  by_status now block cm x v room BlockValidation.invalid = refl

  -- If the index of the chain is exact and the orphan pool is valid and has room for one block at
  -- least, then, unless `submit_block` throws, the status that it answers tells what became of the
  -- chain. Rejected or in need of a parent: it is as it was. Accepted: the block was put on top of
  -- it. Reorganized: the new tip has more work than the old one.
  pub submit_block-IsProgress :
      (now : ℕ) (block : Block) (cm : ChainManager)
      → IsIndexed cm.blockchain
      → IsValid cm.orphan_pool
      → 0 < cm.orphan_pool.max_size
      → After (IsProgress cm block) (submit_block now block cm)
  unfolding submit_block
  submit_block-IsProgress now block cm x v room =
      elim (Bool-cases (meets_target block.hash block.difficulty)) [
        | inr e ↦ rw (submit_block, e) refl
        | inl e ↦ elim (Bool-cases (validate_coinbase_amount block.transactions)) [
          | inr f ↦ rw (submit_block, e, f) refl
          | inl f ↦ elim (Outcome-cases (classify_new_block cm.blockchain block)) [
            | inl g ↦ rw (submit_block, e, f, g) tt
            | inr (status, g) ↦ rw (submit_block, e, f, g) (by_status now block cm x v room status)
          ]
        ]
      ]

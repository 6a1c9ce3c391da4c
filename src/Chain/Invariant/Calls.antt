-- ===== src/Chain/Invariant/Calls.antt =====
-- What each call of the manager keeps: the cumulative work of each block, and both pools.
use forgechain.Prelude.{
  ℕ, ◌<◌, sym, subst, Bool, not, inl, inr, Option-cases, List-cases, Option, none, some, List, [],
  ◌∷◌, Bytes, ◌==◌,
}
use forgechain.Prelude.Outcome.{ok, After->>=, After-then, on_branches}
use forgechain.Crypto.{OpenSsl}
use forgechain.Core.Transaction.{Transaction}
use forgechain.Core.Block.{Block}
use forgechain.Core.Blockchain
use forgechain.Core.Blockchain.{
  Blockchain, ForkChain, BlockValidation, add_block, reorganize_to, classify_new_block, find_height,
}
use forgechain.Core.Blockchain.Work.{add_block-IsWeighed}
use forgechain.Core.ForkResolution.{build_fork_chain}
use forgechain.Core.OrphanPool.Fifo.{add_orphan-total}
use forgechain.Core.Mempool.{Mempool, add_transaction}
use forgechain.Core.Mempool.Admission
use forgechain.Core.Mempool.Admission.{add_transaction-IsValid}
use forgechain.Core.Mempool.Removal.{remove_transaction-IsValid}
use forgechain.Core.Ledger.{Ledger}
use forgechain.Consensus.Difficulty.{Doubles, next_difficulty}
use forgechain.Consensus.Target.{meets_target}
use forgechain.Consensus.Timestamp.{timestamp_is_valid}
use forgechain.Consensus.Coinbase.{validate_coinbase_amount}
use forgechain.Chain.State.{ChainManager, BlockOutcome, rejection}
use forgechain.Chain.Apply.{apply_block_to_ledger}
use forgechain.Chain.Reorg.{try_reorg, find_fork_tips, valid_prefix_length}
use forgechain.Chain.Submit.{
  cut, choose_best, reorg_outcome, try_best, resolve_fork, handle_fork_candidate,
  remove_transactions, accept, extend, submit_block, restore_block, skip_known, is_linked,
  adopt_fork, adopt_branch, submit_transaction,
}
use forgechain.Chain.Invariant.{
  remove_orphans-IsRoomy, IsSound, Keeps, write-IsSound, try_reorg-Keeps, answered-Keeps,
}

module _ ⦃ssl : OpenSsl⦄ ⦃doubles : Doubles⦄ where
  reorg_outcome-Keeps :
      (answer : Option (List Bytes)) (cm : ChainManager)
      → IsSound cm
      → IsSound (reorg_outcome answer cm).1
  unfolding reorg_outcome
  reorg_outcome-Keeps none cm s = s
  reorg_outcome-Keeps (some hashes) cm s = record {
    weighed = s.weighed;
    orphans = remove_orphans-IsRoomy hashes cm.orphan_pool s.orphans;
    pending = s.pending;
  }

  try_best-Keeps :
      (best : Option ForkChain) (cm : ChainManager) → IsSound cm → Keeps (try_best best cm)
  unfolding try_best
  try_best-Keeps none cm s = s
  try_best-Keeps (some fork) cm s =
      After-then (λ p. IsSound p.1) (λ p. IsSound p.1) (try_reorg fork cm) _
        (try_reorg-Keeps fork cm s) λ done _ s'. reorg_outcome-Keeps done.0 done.1 s'

  remove_transactions-IsValid :
      (txs : List Transaction) (pool : Mempool)
      → Admission.IsValid pool
      → Admission.IsValid (remove_transactions txs pool)
  unfolding remove_transactions
  remove_transactions-IsValid [] pool v = v
  remove_transactions-IsValid (tx ∷ txs) pool v =
      remove_transactions-IsValid txs _ (remove_transaction-IsValid tx pool v)

  accept-IsSound :
      (block : Block) (l : Ledger) (cm : ChainManager) → IsSound cm → IsSound (accept block l cm)
  accept-IsSound block l cm s = write-IsSound _ _ (record {
    weighed = add_block-IsWeighed block cm.blockchain s.weighed;
    orphans = s.orphans;
    pending = remove_transactions-IsValid block.transactions cm.mempool s.pending;
  })

  -- Another ledger.
  abbrev IsSound-ledger :
      (l : Ledger) (cm : ChainManager) → IsSound cm → IsSound (record cm { ledger = l })
  IsSound-ledger l cm s = record { weighed = s.weighed; orphans = s.orphans; pending = s.pending }

  pub restore_block-Keeps :
      (block : Block) (cm : ChainManager) → IsSound cm → Keeps (restore_block block cm)
  unfolding restore_block
  restore_block-Keeps block cm s =
      After->>= _ (apply_block_to_ledger block cm.ledger) _ λ applied _.
        on_branches (Keeps {A = Bool}) applied.0 _ _
          (λ _. record {
            weighed = add_block-IsWeighed block cm.blockchain s.weighed;
            orphans = s.orphans;
            pending = s.pending;
          })
          (λ _. IsSound-ledger applied.1 cm s)

  pub submit_transaction-Keeps :
      (tx : Transaction) (cm : ChainManager) → IsSound cm → Keeps (submit_transaction tx cm)
  unfolding submit_transaction
  submit_transaction-Keeps tx cm s = After->>= _ (add_transaction tx cm.mempool) _ λ added e.
      record {
        weighed = s.weighed;
        orphans = s.orphans;
        pending = add_transaction-IsValid tx cm.mempool s.pending e;
      }

  resolve_fork-Keeps :
      (now : ℕ) (block : Block) (cm : ChainManager) → IsSound cm → Keeps (resolve_fork now block cm)
  unfolding resolve_fork
  resolve_fork-Keeps now block cm s =
      elim (Option-cases (build_fork_chain cm.blockchain cm.orphan_pool block)) [
        | inl e ↦ rw (resolve_fork, e) s
        | inr (fork, e) ↦
            rw (resolve_fork, e)
              (After->>= _ (choose_best cm now (find_fork_tips cm.orphan_pool block) none) _
                λ best _. try_best-Keeps best cm s)
      ]

  handle_fork_candidate-Keeps :
      (now : ℕ) (block : Block) (cm : ChainManager)
      → IsSound cm
      → Keeps (handle_fork_candidate now block cm)
  unfolding handle_fork_candidate
  handle_fork_candidate-Keeps now block cm s =
      let (pool, added, v, _, size) =
        add_orphan-total block cm.orphan_pool s.orphans.valid s.orphans.room in
      rw (handle_fork_candidate, added)
        (resolve_fork-Keeps now block (record cm { orphan_pool = pool })
          (record {
            weighed = s.weighed;
            orphans = record { valid = v; room = subst (λ n. 0 < n) (sym size) s.orphans.room };
            pending = s.pending;
          }))

  extend-Keeps :
      (now : ℕ) (block : Block) (cm : ChainManager) → IsSound cm → Keeps (extend now block cm)
  unfolding extend
  extend-Keeps now block cm s =
      let height = Blockchain.size cm.blockchain in
      let block_at = Blockchain.at cm.blockchain in
      After->>= _ (timestamp_is_valid block height now cm.params block_at) _ λ timely _.
        on_branches (Keeps {A = BlockOutcome}) (not timely) _ _ (λ _. s)
          λ _. After->>= _ (next_difficulty height cm.params block_at) _ λ expected _.
            on_branches (Keeps {A = BlockOutcome}) (not (block.difficulty == expected)) _ _ (λ _. s)
              λ _. After->>= _ (apply_block_to_ledger block cm.ledger) _ λ applied _.
                on_branches (Keeps {A = BlockOutcome}) applied.0 _ _
                  (λ _. accept-IsSound block applied.1 cm s) (λ _. IsSound-ledger applied.1 cm s)

  by_status :
      (now : ℕ) (block : Block) (cm : ChainManager) (status : BlockValidation)
      → IsSound cm
      → Keeps {A = BlockOutcome} (elim status [
        | BlockValidation.valid ↦ extend now block cm
        | BlockValidation.fork_candidate ↦ handle_fork_candidate now block cm
        | BlockValidation.invalid ↦ ok (rejection, cm)
      ])
  by_status now block cm BlockValidation.valid s = extend-Keeps now block cm s
  by_status now block cm BlockValidation.fork_candidate s =
      handle_fork_candidate-Keeps now block cm s
  by_status now block cm BlockValidation.invalid s = s

  -- Whatever block is submitted.
  pub submit_block-Keeps :
      (now : ℕ) (block : Block) (cm : ChainManager) → IsSound cm → Keeps (submit_block now block cm)
  unfolding submit_block
  submit_block-Keeps now block cm s =
      on_branches (Keeps {A = BlockOutcome}) (not (meets_target block.hash block.difficulty)) _ _
        (λ _. s)
        λ _.
          on_branches (Keeps {A = BlockOutcome}) (not (validate_coinbase_amount block.transactions))
            _ _ (λ _. s)
            λ _.
              After->>= _ (classify_new_block cm.blockchain block) _
                λ status _. by_status now block cm status s

  adopt_fork-Keeps :
      (now : ℕ) (fork : ForkChain) (cm : ChainManager) → IsSound cm → Keeps (adopt_fork now fork cm)
  unfolding adopt_fork
  adopt_fork-Keeps now fork cm s =
      After->>= _ (valid_prefix_length cm.blockchain cm.params fork now) _ λ prefix _.
        on_branches (Keeps {A = Bool}) (prefix == 0) _ _ (λ _. s)
          λ _.
            After-then (λ p. IsSound p.1) _ (try_reorg (cut prefix fork) cm) _
              (try_reorg-Keeps (cut prefix fork) cm s) λ done _ s'. answered-Keeps done.0 done.1 s'

  pub adopt_branch-Keeps :
      (now : ℕ) (blocks : List Block) (cm : ChainManager)
      → IsSound cm
      → Keeps (adopt_branch now blocks cm)
  unfolding adopt_branch
  adopt_branch-Keeps now blocks cm s = elim (List-cases (skip_known cm.blockchain blocks)) [
    | inl e ↦ rw (adopt_branch, e) s
    | inr (block, rest, e) ↦ elim (Option-cases (find_height cm.blockchain block.prev_hash)) [
      | inl f ↦ rw (adopt_branch, e, f) s
      | inr (height, f) ↦
          rw (adopt_branch, e, f)
            (on_branches (Keeps {A = Bool}) (not (is_linked block rest)) _ _ (λ _. s)
              λ _.
                After->>= _ (Blockchain.at cm.blockchain height) _
                  λ ancestor _. adopt_fork-Keeps now _ cm s)
    ]
  ]

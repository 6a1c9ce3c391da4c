-- ===== src/Chain/Invariant.antt =====
-- What every call of the manager keeps: the cumulative work of each block, and both pools.
pub mod Calls
use mathlib.Core.List.{reverse}
use forgechain.Prelude.{
  ℕ, ◌<◌, ◌≡◌, sym, subst, Bool, true, false, not, inl, inr, Bool-cases, Option-cases, List-cases,
  Option, none, some, List, [], ◌∷◌, Bytes, ◌==◌, map, arith,
}
use forgechain.Prelude.Outcome.{
  Outcome, ok, ◌>>=◌, After, After->>=, After-then, on_branches, Outcome-cases,
}
use forgechain.Crypto.{OpenSsl}
use forgechain.Core.Transaction.{Transaction, is_coinbase, compute_hash}
use forgechain.Core.Block.{Block}
use forgechain.Core.Blockchain
use forgechain.Core.Blockchain.{
  Blockchain, ForkChain, BlockValidation, add_block, reorganize_to, classify_new_block, find_height,
}
use forgechain.Core.Blockchain.Work.{IsWeighed, add_block-IsWeighed, reorganize_to-IsWeighed}
use forgechain.Core.ForkResolution.{build_fork_chain, is_fork_heavier}
use forgechain.Core.OrphanPool.{OrphanPool, remove_orphan}
use forgechain.Core.OrphanPool.Bound
use forgechain.Core.OrphanPool.Bound.{remove_orphan-IsValid}
use forgechain.Core.OrphanPool.Fifo.{add_orphan-total}
use forgechain.Core.Mempool.{Mempool, add_transaction}
use forgechain.Core.Mempool.Admission
use forgechain.Core.Mempool.Admission.{add_transaction-IsValid}
use forgechain.Core.Mempool.Removal.{remove_transaction-IsValid}
use forgechain.Core.Ledger.{Ledger, reverse_transaction}
use forgechain.Consensus.Difficulty.{Doubles, next_difficulty}
use forgechain.Consensus.Target.{meets_target}
use forgechain.Consensus.Timestamp.{timestamp_is_valid}
use forgechain.Consensus.Coinbase.{validate_coinbase_amount}
use forgechain.Chain.State.{ChainManager, BlockOutcome, Write, write, rejection}
use forgechain.Chain.Apply.{apply_block_to_ledger}
use forgechain.Chain.Reorg.{
  is_in, all_signed, transactions_of, spend_hashes, take_back, settle, try_reorg, find_fork_tips,
  valid_prefix_length,
}
use forgechain.Chain.Submit.{
  cut, choose_best, remove_orphans, reorg_outcome, try_best, resolve_fork, handle_fork_candidate,
  remove_transactions, accept, extend, submit_block, restore_block, skip_known, is_linked,
  adopt_fork, adopt_branch, submit_transaction,
}

-- The orphan pool, with room for a block.
pub record IsRoomy (p : OrphanPool) : Type 0 where
  pub valid : Bound.IsValid p
  pub room : 0 < p.max_size

max_size-remove_orphan : (h : Bytes) (p : OrphanPool) → (remove_orphan h p).max_size ≡ p.max_size
unfolding remove_orphan
max_size-remove_orphan h p = ground arith

pub remove_orphans-IsRoomy :
    (hashes : List Bytes) (pool : OrphanPool) → IsRoomy pool → IsRoomy (remove_orphans hashes pool)
unfolding remove_orphans
remove_orphans-IsRoomy [] pool r = r
remove_orphans-IsRoomy (h ∷ hs) pool r = remove_orphans-IsRoomy hs (remove_orphan h pool) (record {
  valid = remove_orphan-IsValid h pool r.valid;
  room = subst (λ n. 0 < n) (sym (max_size-remove_orphan h pool)) r.room;
})

module _ ⦃ssl : OpenSsl⦄ where
  pub record IsSound (cm : ChainManager) : Type 0 where
    pub weighed : IsWeighed cm.blockchain.blocks
    pub orphans : IsRoomy cm.orphan_pool
    pub pending : Admission.IsValid cm.mempool

  abbrev pub Keeps : {A : Type 0} → Outcome (A × ChainManager) → Type 0
  Keeps = After (λ p. IsSound p.1)

  pub write-IsSound : (w : Write) (cm : ChainManager) → IsSound cm → IsSound (write w cm)
  write-IsSound w cm s =
      on_branches IsSound cm.has_storage _ _
        (λ _. record { weighed = s.weighed; orphans = s.orphans; pending = s.pending }) (λ _. s)

  take_back-IsValid :
      (hashes : List Bytes) (txs : List Transaction) (l : Ledger) (pool : Mempool)
      → Admission.IsValid pool
      → After (λ (back : Ledger × Mempool). Admission.IsValid back.1) (take_back hashes txs l pool)
  unfolding take_back
  take_back-IsValid hashes [] l pool v = v
  take_back-IsValid hashes (tx ∷ txs) l pool v =
      let l' = (reverse_transaction tx l).1 in
      elim (Bool-cases (is_in (compute_hash tx) hashes)) [
        | inl e ↦ rw (take_back, e) (take_back-IsValid hashes txs l pool v)
        | inr e ↦ elim (Bool-cases (is_coinbase tx)) [
          | inl f ↦ rw (take_back, e, f) (take_back-IsValid hashes txs l' pool v)
          | inr f ↦ elim (Outcome-cases (add_transaction tx pool)) [
            | inl g ↦ rw (take_back, e, f, g) tt
            | inr (added, g) ↦
                rw (take_back, e, f, g)
                  (take_back-IsValid hashes txs l' added.1 (add_transaction-IsValid tx pool v g))
          ]
        ]
      ]

  settle-IsSound :
      (fork : ForkChain) (discarded : List Block) (chain : Blockchain) (cm : ChainManager)
      → IsWeighed chain.blocks
      → IsSound cm
      → After IsSound (settle fork discarded chain cm)
  unfolding settle
  settle-IsSound fork discarded chain cm w s =
      let hashes = spend_hashes (transactions_of fork.blocks) in
      let old = reverse (transactions_of discarded) in
      let kept = take_back-IsValid hashes old cm.ledger cm.mempool s.pending in
      elim (Outcome-cases (take_back hashes old cm.ledger cm.mempool)) [
        | inl e ↦ rw (settle, e) tt
        | inr (back, e) ↦
            rw (settle, e)
              (write-IsSound _ _ (record {
                weighed = w;
                orphans = s.orphans;
                pending =
                    subst (After (λ (back : Ledger × Mempool). Admission.IsValid back.1)) e kept;
              }))
      ]

  reorganized-Keeps :
      (fork : ForkChain) (cm : ChainManager) (discarded : Option (List Block))
      → IsSound cm
      → Keeps {A = Option (List Bytes)} (elim discarded [
        | none ↦ ok (none, cm)
        | some discarded ↦ settle fork discarded (reorganize_to fork cm.blockchain).1 cm >>= λ cm'.
            ok (some (map (λ b. b.hash) fork.blocks), cm')
      ])
  reorganized-Keeps fork cm none s = s
  reorganized-Keeps fork cm (some discarded) s =
      After-then IsSound (λ p. IsSound p.1)
        (settle fork discarded (reorganize_to fork cm.blockchain).1 cm) _
        (settle-IsSound fork discarded _ cm (reorganize_to-IsWeighed fork cm.blockchain s.weighed)
          s)
        λ cm' _ s'. s'

  pub answered-Keeps :
      (answer : Option (List Bytes)) (cm : ChainManager)
      → IsSound cm
      → Keeps {A = Bool} (elim answer [ none ↦ ok (false, cm) | some _ ↦ ok (true, cm) ])
  answered-Keeps none cm s = s
  answered-Keeps (some hashes) cm s = s

  pub try_reorg-Keeps :
      (fork : ForkChain) (cm : ChainManager) → IsSound cm → Keeps (try_reorg fork cm)
  unfolding try_reorg
  try_reorg-Keeps fork cm s = After->>= _ (is_fork_heavier cm.blockchain fork) _ λ heavier _.
      on_branches (Keeps {A = Option (List Bytes)}) (not heavier) _ _ (λ _. s)
        λ _. After->>= _ (all_signed (transactions_of fork.blocks)) _ λ signed _.
          on_branches (Keeps {A = Option (List Bytes)}) (not signed) _ _ (λ _. s)
            λ _. reorganized-Keeps fork cm (reorganize_to fork cm.blockchain).0 s

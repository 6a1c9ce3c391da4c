-- ===== src/Storage/Calls.antt =====
-- chain/ChainManager.cpp: the calls from outside, and what they write to a storage.
use forgechain.Prelude.{
  ℕ, ◌-◌, ◌≡◌, refl, Bool, true, false, not, inl, inr, Option-cases, List-cases, Option, none, some,
  List, [], ◌∷◌, ◌++◌, Bytes, length, length-append, ◌==◌, arith,
}
use forgechain.Prelude.Outcome.{Outcome, ok, ◌>>=◌, After, After->>=, After-then, on_branches}
use forgechain.Crypto.{OpenSsl}
use forgechain.Core.Transaction.{Transaction}
use forgechain.Core.Block
use forgechain.Core.Block.{Block}
use forgechain.Core.Blockchain
use forgechain.Core.Blockchain.{
  Blockchain, ForkChain, BlockValidation, tip_work, weighed, add_block, classify_new_block,
  find_height,
}
use forgechain.Core.ForkResolution.{build_fork_chain}
use forgechain.Core.OrphanPool.{add_orphan}
use forgechain.Core.Mempool.{add_transaction}
use forgechain.Core.Ledger.{Ledger}
use forgechain.Consensus.Difficulty.{Doubles, next_difficulty}
use forgechain.Consensus.Target.{meets_target}
use forgechain.Consensus.Timestamp.{timestamp_is_valid}
use forgechain.Consensus.Coinbase.{validate_coinbase_amount}
use forgechain.Chain.State.{ChainManager, BlockOutcome, rejection}
use forgechain.Chain.Apply.{apply_block_to_ledger}
use forgechain.Chain.Reorg.{find_fork_tips, try_reorg, valid_prefix_length}
use forgechain.Chain.Submit.{
  cut, choose_best, reorg_outcome, try_best, resolve_fork, handle_fork_candidate, accept, extend,
  submit_block, skip_known, is_linked, adopt_fork, adopt_branch, submit_transaction,
}
use forgechain.Storage.Log.{saves, Logged, Logs, unchanged, try_reorg-Logs}

module _ ⦃ssl : OpenSsl⦄ ⦃doubles : Doubles⦄ where
  reorg_outcome-Logged :
      (answer : Option (List Bytes)) (cm cm' : ChainManager)
      → Logged cm cm'
      → Logged cm (reorg_outcome answer cm').1
  unfolding reorg_outcome
  reorg_outcome-Logged none cm cm' l = l
  reorg_outcome-Logged (some hashes) cm cm' l = l

  try_best-Logs :
      (best : Option ForkChain) (cm : ChainManager)
      → cm.has_storage ≡ true
      → Logs cm (try_best best cm)
  unfolding try_best
  try_best-Logs none cm h = unchanged cm cm refl refl
  try_best-Logs (some fork) cm h =
      After-then (λ (p : Option (List Bytes) × ChainManager). Logged cm p.1)
        (λ (p : BlockOutcome × ChainManager). Logged cm p.1) (try_reorg fork cm) _
        (try_reorg-Logs fork cm h) λ done _ l. reorg_outcome-Logged done.0 cm done.1 l

  resolve_fork-Logs :
      (now : ℕ) (block : Block) (cm : ChainManager)
      → cm.has_storage ≡ true
      → Logs cm (resolve_fork now block cm)
  unfolding resolve_fork
  resolve_fork-Logs now block cm h =
      elim (Option-cases (build_fork_chain cm.blockchain cm.orphan_pool block)) [
        | inl e ↦ rw (resolve_fork, e) (unchanged cm cm refl refl)
        | inr (fork, e) ↦
            rw (resolve_fork, e)
              (After->>= _ (choose_best cm now (find_fork_tips cm.orphan_pool block) none) _
                λ best _. try_best-Logs best cm h)
      ]

  handle_fork_candidate-Logs :
      (now : ℕ) (block : Block) (cm : ChainManager)
      → cm.has_storage ≡ true
      → Logs cm (handle_fork_candidate now block cm)
  unfolding handle_fork_candidate
  handle_fork_candidate-Logs now block cm h =
      After->>= _ (add_orphan block cm.orphan_pool) _
        λ pool _. resolve_fork-Logs now block (record cm { orphan_pool = pool }) h

  accept-Logged :
      (block : Block) (l : Ledger) (cm : ChainManager)
      → cm.has_storage ≡ true
      → Logged cm (accept block l cm)
  unfolding add_block Block.serialize
  accept-Logged block l cm h =
      let bs = cm.blockchain.blocks in
      let block' = weighed (tip_work bs) block in
      let height : length (bs ++ block' ∷ []) - 1 ≡ length bs =
        omega (arith, length-append bs (block' ∷ [])) in
      rw (h, height) (_, refl, saves block block' refl)

  extend-Logs :
      (now : ℕ) (block : Block) (cm : ChainManager)
      → cm.has_storage ≡ true
      → Logs cm (extend now block cm)
  unfolding extend
  extend-Logs now block cm h =
      let height = Blockchain.size cm.blockchain in
      let block_at = Blockchain.at cm.blockchain in
      let same : Logged cm cm = unchanged cm cm refl refl in
      After->>= _ (timestamp_is_valid block height now cm.params block_at) _ λ timely _.
        on_branches (Logs {A = BlockOutcome} cm) (not timely) _ _ (λ _. same)
          λ _. After->>= _ (next_difficulty height cm.params block_at) _ λ expected _.
            on_branches (Logs {A = BlockOutcome} cm) (not (block.difficulty == expected)) _ _
              (λ _. same)
              λ _. After->>= _ (apply_block_to_ledger block cm.ledger) _ λ applied _.
                on_branches (Logs {A = BlockOutcome} cm) applied.0 _ _
                  (λ _. accept-Logged block applied.1 cm h)
                  (λ _. unchanged cm (record cm { ledger = applied.1 }) refl refl)

  by_status :
      (now : ℕ) (block : Block) (cm : ChainManager) (status : BlockValidation)
      → cm.has_storage ≡ true
      → Logs {A = BlockOutcome} cm (elim status [
        | BlockValidation.valid ↦ extend now block cm
        | BlockValidation.fork_candidate ↦ handle_fork_candidate now block cm
        | BlockValidation.invalid ↦ ok (rejection, cm)
      ])
  by_status now block cm BlockValidation.valid h = extend-Logs now block cm h
  by_status now block cm BlockValidation.fork_candidate h =
      handle_fork_candidate-Logs now block cm h
  by_status now block cm BlockValidation.invalid h = unchanged cm cm refl refl

  submit_block-Logs :
      (now : ℕ) (block : Block) (cm : ChainManager)
      → cm.has_storage ≡ true
      → Logs cm (submit_block now block cm)
  unfolding submit_block
  submit_block-Logs now block cm h =
      let same : Logged cm cm = unchanged cm cm refl refl in
      on_branches (Logs {A = BlockOutcome} cm) (not (meets_target block.hash block.difficulty)) _ _
        (λ _. same)
        λ _.
          on_branches (Logs {A = BlockOutcome} cm)
            (not (validate_coinbase_amount block.transactions)) _ _ (λ _. same)
            λ _.
              After->>= _ (classify_new_block cm.blockchain block) _
                λ status _. by_status now block cm status h

  answered-Logs :
      (answer : Option (List Bytes)) (cm cm' : ChainManager)
      → Logged cm cm'
      → Logs {A = Bool} cm (elim answer [ none ↦ ok (false, cm') | some _ ↦ ok (true, cm') ])
  answered-Logs none cm cm' l = l
  answered-Logs (some hashes) cm cm' l = l

  adopt_fork-Logs :
      (now : ℕ) (fork : ForkChain) (cm : ChainManager)
      → cm.has_storage ≡ true
      → Logs cm (adopt_fork now fork cm)
  unfolding adopt_fork
  adopt_fork-Logs now fork cm h =
      After->>= _ (valid_prefix_length cm.blockchain cm.params fork now) _ λ prefix _.
        on_branches (Logs {A = Bool} cm) (prefix == 0) _ _ (λ _. unchanged cm cm refl refl)
          λ _.
            After-then (λ (p : Option (List Bytes) × ChainManager). Logged cm p.1) _
              (try_reorg (cut prefix fork) cm) _ (try_reorg-Logs (cut prefix fork) cm h)
              λ done _ l. answered-Logs done.0 cm done.1 l

  adopt_branch-Logs :
      (now : ℕ) (blocks : List Block) (cm : ChainManager)
      → cm.has_storage ≡ true
      → Logs cm (adopt_branch now blocks cm)
  unfolding adopt_branch
  adopt_branch-Logs now blocks cm h =
      let same : Logged cm cm = unchanged cm cm refl refl in
      elim (List-cases (skip_known cm.blockchain blocks)) [
        | inl e ↦ rw (adopt_branch, e) same
        | inr (block, rest, e) ↦ elim (Option-cases (find_height cm.blockchain block.prev_hash)) [
          | inl f ↦ rw (adopt_branch, e, f) same
          | inr (height, f) ↦
              rw (adopt_branch, e, f)
                (on_branches (Logs {A = Bool} cm) (not (is_linked block rest)) _ _ (λ _. same)
                  λ _.
                    After->>= _ (Blockchain.at cm.blockchain height) _
                      λ ancestor _. adopt_fork-Logs now _ cm h)
        ]
      ]

  submit_transaction-Logs :
      (tx : Transaction) (cm : ChainManager) → Logs cm (submit_transaction tx cm)
  unfolding submit_transaction
  submit_transaction-Logs tx cm =
      After->>= _ (add_transaction tx cm.mempool) _
        λ added _. unchanged cm (record cm { mempool = added.1 }) refl refl

  -- A call from outside.
  pub data Request : Type 0 where
    submits_block : ℕ → Block → Request
    submits_transaction : Transaction → Request
    adopts_branch : ℕ → List Block → Request

  unfoldable pub serve : Request → ChainManager → Outcome ChainManager
  serve (submits_block now b) cm = submit_block now b cm >>= λ done. ok done.1
  serve (submits_transaction tx) cm = submit_transaction tx cm >>= λ done. ok done.1
  serve (adopts_branch now bs) cm = adopt_branch now bs cm >>= λ done. ok done.1

  pub serve-Logged :
      (request : Request) (cm : ChainManager)
      → cm.has_storage ≡ true
      → After (Logged cm) (serve request cm)
  unfolding serve
  serve-Logged (submits_block now b) cm h =
      After-then (λ (p : BlockOutcome × ChainManager). Logged cm p.1) (Logged cm)
        (submit_block now b cm) _ (submit_block-Logs now b cm h) λ done _ l. l
  serve-Logged (submits_transaction tx) cm h =
      After-then (λ (p : Bool × ChainManager). Logged cm p.1) (Logged cm) (submit_transaction tx cm)
        _ (submit_transaction-Logs tx cm) λ done _ l. l
  serve-Logged (adopts_branch now bs) cm h =
      After-then (λ (p : Bool × ChainManager). Logged cm p.1) (Logged cm) (adopt_branch now bs cm) _
        (adopt_branch-Logs now bs cm h) λ done _ l. l

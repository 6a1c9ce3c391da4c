-- ===== src/Chain/Submit.antt =====
-- chain/ChainManager.cpp: the calls that change the manager: `submit_block`,
-- `handle_fork_candidate`, `restore_block`, `adopt_branch`, `submit_transaction`, `set_balance`.
pub mod Progress
pub mod Adoption
pub mod Totality
use forgechain.Prelude.{
  ℕ, zero, suc, ◌+◌, ◌-◌, Bool, true, false, not, ◌&&◌, ◌||◌, Option, none, some, List, [], ◌∷◌,
  Bytes, bytes_eq, length, take, add64, ltb, leb, ◌==◌, if◌then◌else◌,
}
use forgechain.Prelude.Outcome.{Outcome, ok, fault, ◌>>=◌}
use forgechain.Crypto.{OpenSsl}
use forgechain.Core.Transaction.{Transaction}
use forgechain.Core.Block.{Block}
use forgechain.Core.Blockchain
use forgechain.Core.Blockchain.{
  Blockchain, ForkChain, BlockValidation, has_block, find_height, add_block, classify_new_block,
}
use forgechain.Core.ForkResolution.{build_fork_chain, fork_work}
use forgechain.Core.OrphanPool.{OrphanPool, add_orphan, remove_orphan}
use forgechain.Core.Mempool.{Mempool, add_transaction, remove_transaction}
use forgechain.Core.Ledger
use forgechain.Core.Ledger.{Ledger}
use forgechain.Consensus.Params.{ConsensusParams}
use forgechain.Consensus.Target.{meets_target}
use forgechain.Consensus.Difficulty.{Doubles, next_difficulty}
use forgechain.Consensus.Timestamp.{timestamp_is_valid}
use forgechain.Consensus.Coinbase.{validate_coinbase_amount}
use forgechain.Chain.State.{ChainManager, BlockOutcome, Status, rejection, Write, save_block, write}
use forgechain.Chain.Apply.{apply_block_to_ledger}
use forgechain.Chain.Reorg.{find_fork_tips, valid_prefix_length, elem_at, try_reorg}

-- The first `prefix` blocks of a branch.
abbrev pub cut : ℕ → ForkChain → ForkChain
cut prefix fork = record fork { blocks = take prefix fork.blocks }

-- `best` and `best_work`: the heavier of two branches, the earlier one if they are even.
unfoldable pub better : Option ForkChain → ForkChain → Option ForkChain
better none fork = some fork
better (some best) fork = if ltb (fork_work best) (fork_work fork) then some fork else some best

-- The loop that removes the blocks of an adopted branch from the orphan pool.
unfoldable pub remove_orphans : List Bytes → OrphanPool → OrphanPool
remove_orphans [] pool = pool
remove_orphans (hash ∷ hashes) pool = remove_orphans hashes (remove_orphan hash pool)

-- `while (start < blocks.size() && has_block(blocks[start].hash_)) start++;`
unfoldable pub skip_known : Blockchain → List Block → List Block
skip_known chain [] = []
skip_known chain (b ∷ bs) =
    let rest = skip_known chain bs in if has_block chain b.hash then rest else b ∷ bs

-- Each block names the one before it as its parent.
unfoldable pub is_linked : Block → List Block → Bool
is_linked prev [] = true
is_linked prev (b ∷ bs) = bytes_eq b.prev_hash prev.hash && is_linked b bs

module _ ⦃ssl : OpenSsl⦄ ⦃doubles : Doubles⦄ where
  -- The loop over the tips: the heaviest valid front of a branch.
  unfoldable pub choose_best :
      ChainManager → ℕ → List Block → Option ForkChain → Outcome (Option ForkChain)
  unfolding better
  choose_best cm now [] best = ok best
  choose_best cm now (tip ∷ tips) best = elim (build_fork_chain cm.blockchain cm.orphan_pool tip) [
    | none ↦ choose_best cm now tips best
    | some fork ↦ valid_prefix_length cm.blockchain cm.params fork now >>= λ prefix.
        choose_best cm now tips (if prefix == 0 then best else better best (cut prefix fork))
  ]

  -- `handle_fork_candidate` from the end of the reorganization on.
  unfoldable pub reorg_outcome : Option (List Bytes) → ChainManager → BlockOutcome × ChainManager
  unfolding remove_orphans
  reorg_outcome none cm = (rejection, cm)
  reorg_outcome (some hashes) cm = (
    record rejection { status = Status.reorged; to_broadcast = hashes },
    record cm { orphan_pool = remove_orphans hashes cm.orphan_pool },
  )

  -- `try_reorg` with the best branch, if there is one.
  unfoldable pub try_best : Option ForkChain → ChainManager → Outcome (BlockOutcome × ChainManager)
  unfolding reorg_outcome
  try_best none cm = ok (rejection, cm)
  try_best (some fork) cm = try_reorg fork cm >>= λ done. ok (reorg_outcome done.0 done.1)

  -- `handle_fork_candidate` once the block is in the orphan pool.
  unfoldable pub resolve_fork : ℕ → Block → ChainManager → Outcome (BlockOutcome × ChainManager)
  unfolding choose_best try_best
  resolve_fork now block cm = elim (build_fork_chain cm.blockchain cm.orphan_pool block) [
    | none ↦ ok (
      record rejection { status = Status.need_parent; missing_parent = some block.prev_hash },
      cm,
    )
    | some _ ↦
        choose_best cm now (find_fork_tips cm.orphan_pool block) none >>= λ best. try_best best cm
  ]

  unfoldable pub handle_fork_candidate :
      ℕ → Block → ChainManager → Outcome (BlockOutcome × ChainManager)
  unfolding resolve_fork
  handle_fork_candidate now block cm = add_orphan block cm.orphan_pool >>= λ pool.
      resolve_fork now block (record cm { orphan_pool = pool })

  unfoldable pub remove_transactions : List Transaction → Mempool → Mempool
  remove_transactions [] pool = pool
  remove_transactions (tx ∷ txs) pool = remove_transactions txs (remove_transaction tx pool)

  -- A valid block whose transactions were applied.
  abbrev pub accept : Block → Ledger → ChainManager → ChainManager
  accept block ledger cm =
      let chain = add_block block cm.blockchain in
      write (save_block block (Blockchain.size chain - 1)) (record cm {
        ledger = ledger;
        mempool = remove_transactions block.transactions cm.mempool;
        blockchain = chain;
        tip_version = add64 cm.tip_version 1;
      })

  -- The case `Valid`.
  unfoldable pub extend : ℕ → Block → ChainManager → Outcome (BlockOutcome × ChainManager)
  unfolding remove_transactions
  extend now block cm =
      let height = Blockchain.size cm.blockchain in
      timestamp_is_valid block height now cm.params (Blockchain.at cm.blockchain) >>= λ timely.
      if not timely
      then ok (rejection, cm)
      else next_difficulty height cm.params (Blockchain.at cm.blockchain) >>= λ expected.
          if not (block.difficulty == expected)
          then ok (rejection, cm)
          else apply_block_to_ledger block cm.ledger >>= λ applied.
              if applied.0
              then ok (
                record rejection { status = Status.accepted; to_broadcast = block.hash ∷ [] },
                accept block applied.1 cm,
              )
              else ok (rejection, record cm { ledger = applied.1 })

  unfoldable pub submit_block : ℕ → Block → ChainManager → Outcome (BlockOutcome × ChainManager)
  unfolding extend handle_fork_candidate
  submit_block now block cm =
      if not (meets_target block.hash block.difficulty)
      then ok (rejection, cm)
      else if not (validate_coinbase_amount block.transactions)
      then ok (rejection, cm)
      else classify_new_block cm.blockchain block >>= λ status. elim status [
        | BlockValidation.valid ↦ extend now block cm
        | BlockValidation.fork_candidate ↦ handle_fork_candidate now block cm
        | BlockValidation.invalid ↦ ok (rejection, cm)
      ]

  unfoldable pub restore_block : Block → ChainManager → Outcome (Bool × ChainManager)
  restore_block block cm = apply_block_to_ledger block cm.ledger >>= λ applied.
      if applied.0
      then ok (
        true,
        record cm {
          ledger = applied.1;
          blockchain = add_block block cm.blockchain;
          tip_version = add64 cm.tip_version 1;
        },
      )
      else ok (false, record cm { ledger = applied.1 })

  -- `adopt_branch` from the valid prefix on.
  unfoldable pub adopt_fork : ℕ → ForkChain → ChainManager → Outcome (Bool × ChainManager)
  adopt_fork now fork cm = valid_prefix_length cm.blockchain cm.params fork now >>= λ prefix.
      if prefix == 0
      then ok (false, cm)
      else try_reorg (cut prefix fork) cm >>= λ done. elim done.0 [
        | none ↦ ok (false, done.1)
        | some _ ↦ ok (true, done.1)
      ]

  unfoldable pub adopt_branch : ℕ → List Block → ChainManager → Outcome (Bool × ChainManager)
  unfolding skip_known is_linked adopt_fork
  adopt_branch now blocks cm = elim (skip_known cm.blockchain blocks) [
    | [] ↦ ok (false, cm)
    | block ∷ rest ↦ elim (find_height cm.blockchain block.prev_hash) [
      | none ↦ ok (false, cm)
      | some height ↦
          if not (is_linked block rest)
          then ok (false, cm)
          else Blockchain.at cm.blockchain height >>= λ ancestor.
              adopt_fork now (record { blocks = block ∷ rest; common_ancestor = ancestor }) cm
    ]
  ]

  unfoldable pub submit_transaction : Transaction → ChainManager → Outcome (Bool × ChainManager)
  submit_transaction tx cm =
      add_transaction tx cm.mempool >>= λ added. ok (added.0, record cm { mempool = added.1 })

abbrev pub set_balance : Bytes → ℕ → ChainManager → ChainManager
set_balance address amount cm = record cm { ledger = Ledger.set_balance address amount cm.ledger }

-- ===== src/Chain/Reorg.antt =====
-- chain/ChainManager.cpp: `find_fork_tips`, `valid_prefix_length` and `try_reorg`.
pub mod Heavier
use forgechain.Prelude.{
  ℕ, zero, suc, ◌+◌, ◌-◌, Bool, true, false, not, ◌&&◌, Option, none, some, List, [], ◌∷◌, ◌++◌,
  Bytes, bytes_eq, length, get_elem?, drop, add64, ltb, ◌==◌, map, if◌then◌else◌,
}
use mathlib.Core.List.{reverse}
use forgechain.Prelude.Outcome.{Outcome, ok, fault, ◌>>=◌}
use forgechain.Crypto.{OpenSsl}
use forgechain.Core.Transaction
use forgechain.Core.Transaction.{Transaction, is_coinbase}
use forgechain.Core.Block.{Block}
use forgechain.Core.Blockchain
use forgechain.Core.Blockchain.{Blockchain, ForkChain, find_height, reorganize_to}
use forgechain.Core.ForkResolution.{max_fork_depth, is_fork_heavier}
use forgechain.Core.OrphanPool.{OrphanPool, children_of}
use forgechain.Core.Mempool.{Mempool, add_transaction}
use forgechain.Core.Ledger.{Ledger, apply_transaction, reverse_transaction}
use forgechain.Consensus.Params.{ConsensusParams}
use forgechain.Consensus.Difficulty.{Doubles, next_difficulty}
use forgechain.Consensus.Timestamp.{timestamp_is_valid}
use forgechain.Chain.Apply.{verdict}
use forgechain.Chain.State.{ChainManager, Write, replace_blocks_from, write}

-- The first loop of `find_fork_tips`, with the visits that are left and the top of the stack first;
-- what is still on the stack at the end counts as tips too.
unfoldable pub visit : ℕ → OrphanPool → List Block → List Block → List Block
visit zero pool stack tips = tips ++ stack
visit (suc visits) pool [] tips = tips
visit (suc visits) pool (block ∷ stack) tips = elim (children_of pool block.hash) [
  | [] ↦ visit visits pool stack (tips ++ block ∷ [])
  | child ∷ children ↦ visit visits pool (reverse (child ∷ children) ++ stack) tips
]

unfoldable pub find_fork_tips : OrphanPool → Block → List Block
unfolding visit
find_fork_tips pool start = visit max_fork_depth pool (start ∷ []) []

-- `std::vector::at`
abbrev pub elem_at : List Block → ℕ → Outcome Block
elem_at blocks index = elim (get_elem? blocks index) [ none ↦ fault | some b ↦ ok b ]

-- `fork_block_at`: the chain below `base`, the branch from there on.
unfoldable pub fork_block_at : Blockchain → ForkChain → ℕ → ℕ → Outcome Block
fork_block_at chain fork base index =
    if ltb index base then Blockchain.at chain index else elem_at fork.blocks (index - base)

-- A hash in a set of hashes.
unfoldable pub is_in : Bytes → List Bytes → Bool
is_in hash [] = false
is_in hash (h ∷ hs) = if bytes_eq h hash then true else is_in hash hs

-- The transactions of the blocks, in order.
unfoldable pub transactions_of : List Block → List Transaction
transactions_of [] = []
transactions_of (b ∷ bs) = b.transactions ++ transactions_of bs

module _ ⦃doubles : Doubles⦄ where
  -- The loop of `valid_prefix_length`, over the blocks from `i` on.
  unfoldable pub prefix_from :
      ConsensusParams → ℕ → ℕ → (ℕ → Outcome Block) → ℕ → List Block → Outcome ℕ
  prefix_from params now base block_at i [] = ok i
  prefix_from params now base block_at i (block ∷ blocks) =
      let next = prefix_from params now base block_at (i + 1) blocks in
      do
        timely ← timestamp_is_valid block (base + i) now params block_at
        if not timely then ok i else do
          expected ← next_difficulty (base + i) params block_at
          if block.difficulty == expected then next else ok i

  unfoldable pub valid_prefix_length : Blockchain → ConsensusParams → ForkChain → ℕ → Outcome ℕ
  unfolding prefix_from fork_block_at
  valid_prefix_length chain params fork now = elim (find_height chain fork.common_ancestor.hash) [
    | none ↦ ok 0
    | some height ↦
        prefix_from params now (height + 1) (fork_block_at chain fork (height + 1)) 0 fork.blocks
  ]

module _ ⦃ssl : OpenSsl⦄ where
  -- The checks of the first loop of `try_reorg`: every signature of the branch.
  unfoldable pub all_signed : List Transaction → Outcome Bool
  all_signed [] = ok true
  all_signed (tx ∷ txs) =
      let next = all_signed txs in do good ← verdict tx; if good then next else ok false

  -- The hashes of the transactions that are no coinbase.
  unfoldable pub spend_hashes : List Transaction → List Bytes
  spend_hashes [] = []
  spend_hashes (tx ∷ txs) =
      let rest = spend_hashes txs in
      if is_coinbase tx then rest else Transaction.compute_hash tx ∷ rest

  -- The loop over the discarded transactions, the last one first: what the new branch does not hold is
  -- reversed, and goes back to the mempool.
  unfoldable pub take_back :
      List Bytes → List Transaction → Ledger → Mempool → Outcome (Ledger × Mempool)
  take_back new_branch_hashes [] l pool = ok (l, pool)
  take_back new_branch_hashes (tx ∷ txs) l pool =
      let skipped = take_back new_branch_hashes txs l pool in
      let l' = (reverse_transaction tx l).1 in
      if is_in (Transaction.compute_hash tx) new_branch_hashes
      then skipped
      else if is_coinbase tx
      then take_back new_branch_hashes txs l' pool
      else add_transaction tx pool >>= λ added. take_back new_branch_hashes txs l' added.1

  -- The loop over the transactions of the new branch.
  unfoldable pub play : List Bytes → List Transaction → Ledger → Ledger
  play discarded_hashes [] l = l
  play discarded_hashes (tx ∷ txs) l = play discarded_hashes txs (
      if is_in (Transaction.compute_hash tx) discarded_hashes
      then l
      else (apply_transaction tx l).1)

  -- `try_reorg` once the chain is reorganized.
  unfoldable pub settle : ForkChain → List Block → Blockchain → ChainManager → Outcome ChainManager
  unfolding spend_hashes take_back play
  settle fork discarded chain cm =
      let old_txs = transactions_of discarded in
      let new_txs = transactions_of fork.blocks in
      take_back (spend_hashes new_txs) (reverse old_txs) cm.ledger cm.mempool >>= λ back.
      let fork_point = Blockchain.size chain - length fork.blocks in
      ok (
        write (replace_blocks_from fork_point (drop fork_point chain.blocks)) (record cm {
          blockchain = chain;
          mempool = back.1;
          ledger = play (spend_hashes old_txs) new_txs back.0;
          tip_version = add64 cm.tip_version 1;
        }))

  unfoldable pub try_reorg : ForkChain → ChainManager → Outcome (Option (List Bytes) × ChainManager)
  unfolding all_signed settle
  try_reorg fork cm = do
    heavier ← is_fork_heavier cm.blockchain fork
    if not heavier then ok (none, cm) else do
      signed ← all_signed (transactions_of fork.blocks)
      if not signed then ok (none, cm) else elim (reorganize_to fork cm.blockchain).0 [
        | none ↦ ok (none, cm)
        | some discarded ↦ settle fork discarded (reorganize_to fork cm.blockchain).1 cm >>= λ cm'.
            ok (some (map (λ b. b.hash) fork.blocks), cm')
      ]

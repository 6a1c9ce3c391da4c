-- ===== src/Chain/Queries.antt =====
-- chain/ChainManager.cpp: the calls that only read the manager.
pub mod Plain
pub mod Template
use forgechain.Prelude.{
  ℕ, zero, suc, ◌+◌, ◌-◌, Bool, true, false, Option, none, some, List, [], ◌∷◌, Bytes, length, take,
  drop, get_last?, min, max, leb, add64, if◌then◌else◌,
}
use forgechain.Prelude.Outcome.{Outcome, ok, fault, ◌>>=◌}
use forgechain.Crypto.{OpenSsl}
use forgechain.Core.Transaction.{Transaction}
use forgechain.Core.Block.{Block}
use forgechain.Core.Blockchain
use forgechain.Core.Blockchain.{Blockchain, latest}
use forgechain.Core.BlockLocator.{build_locator, find_locator_match}
use forgechain.Core.OrphanPool.{OrphanPool, find_orphan}
use forgechain.Core.Mempool
use forgechain.Core.Mempool.{Mempool, get_transactions_for_block}
use forgechain.Core.Ledger
use forgechain.Core.Ledger.{Ledger}
use forgechain.Consensus.Params.{ConsensusParams}
use forgechain.Consensus.Difficulty.{Doubles, next_difficulty}
use forgechain.Consensus.Timestamp.{median_time_past}
use forgechain.Chain.State.{ChainManager, BlockTemplate}
use forgechain.Chain.Apply.{select_transactions}

abbrev pub chain_height : ChainManager → ℕ
chain_height cm = Blockchain.size cm.blockchain

-- There is no latest block in an empty chain.
unfoldable pub latest_hash : ChainManager → Outcome Bytes
latest_hash cm = elim (latest cm.blockchain) [ none ↦ fault | some b ↦ ok b.hash ]

-- `find_block`: the chain first, then the orphan pool.
unfoldable pub find_block : ChainManager → Bytes → Option Block
find_block cm hash = elim (Blockchain.find cm.blockchain hash) [
  | some b ↦ some b
  | none ↦ find_orphan cm.orphan_pool hash
]

-- The blocks at the heights from `from` up to `min(size, from + limit)`. The callers give limits that
-- are small constants, so the sum of `size_t`s is taken as a number.
unfoldable pub blocks_from : ChainManager → ℕ → ℕ → List Block
blocks_from cm from limit =
    let size = chain_height cm in
    let found = take (min size (from + limit) - from) (drop from cm.blockchain.blocks) in
    if leb size from then [] else found

unfoldable pub blocks_after_locator : ChainManager → List Bytes → ℕ → List Block
unfolding blocks_from
blocks_after_locator cm locator limit = elim (find_locator_match cm.blockchain locator) [
  | none ↦ []
  | some index ↦ blocks_from cm (index + 1) limit
]

abbrev pub locator : ChainManager → Outcome (List Bytes)
locator cm = build_locator cm.blockchain

abbrev pub mempool_snapshot : ChainManager → List Transaction
mempool_snapshot cm = get_transactions_for_block cm.mempool (Mempool.size cm.mempool)

abbrev pub transactions_for_block : ChainManager → ℕ → List Transaction
transactions_for_block cm limit = select_transactions limit cm.mempool cm.ledger

module _ ⦃doubles : Doubles⦄ where
  abbrev pub next_block_difficulty : ChainManager → Outcome ℕ
  next_block_difficulty cm =
      next_difficulty (chain_height cm) cm.params (Blockchain.at cm.blockchain)

  unfoldable pub block_template : ℕ → ℕ → ChainManager → Outcome BlockTemplate
  unfolding latest_hash
  block_template now max_txs cm = do
    prev_hash ← latest_hash cm
    difficulty ← next_block_difficulty cm
    past ← median_time_past (chain_height cm) cm.params.mtp_window (Blockchain.at cm.blockchain)
    ok (record {
      prev_hash = prev_hash;
      height = chain_height cm;
      timestamp = max now (add64 past 1);
      difficulty = difficulty;
      tip_version = cm.tip_version;
      transactions = select_transactions max_txs cm.mempool cm.ledger;
    })

abbrev pub has_block : ChainManager → Bytes → Bool
has_block cm hash = Blockchain.has_block cm.blockchain hash

abbrev pub block_at : ChainManager → ℕ → Outcome Block
block_at cm index = Blockchain.at cm.blockchain index

abbrev pub get_balance : ChainManager → Bytes → Option ℕ
get_balance cm address = Ledger.get_balance cm.ledger address

abbrev pub all_balances : ChainManager → List (Bytes × ℕ)
all_balances cm = Ledger.all_balances cm.ledger

abbrev pub next_nonce : ChainManager → Bytes → ℕ
next_nonce cm address = Ledger.next_nonce cm.ledger address

module _ ⦃ssl : OpenSsl⦄ where
  abbrev pub has_transaction : ChainManager → Bytes → Bool
  has_transaction cm hash = Mempool.has_transaction cm.mempool hash

  abbrev pub find_transaction : ChainManager → Bytes → Option Transaction
  find_transaction cm hash = Mempool.find cm.mempool hash

-- ===== src/Chain/State.antt =====
-- chain/ChainManager.hpp: the state of a manager, and what its calls answer.
use forgechain.Prelude.{
  ℕ, Bool, Option, none, some, List, [], ◌∷◌, ◌++◌, Bytes, if◌then◌else◌, ◌==◌, map, true, false,
}
use forgechain.Crypto.{OpenSsl}
use forgechain.Core.Transaction.{Transaction}
use forgechain.Core.Block.{Block}
use forgechain.Core.Blockchain
use forgechain.Core.Blockchain.{Blockchain}
use forgechain.Core.Mempool
use forgechain.Core.Mempool.{Mempool}
use forgechain.Core.OrphanPool
use forgechain.Core.OrphanPool.{OrphanPool, default_max_orphans}
use forgechain.Core.Ledger
use forgechain.Core.Ledger.{Ledger}
use forgechain.Consensus.Params.{ConsensusParams}

-- `BlockOutcome::Status`
pub data Status : Type 0 where
  rejected accepted reorged need_parent : Status

pub record BlockOutcome : Type 0 where
  pub status : Status
  pub to_broadcast : List Bytes
  pub missing_parent : Option Bytes

-- The outcome before anything is known.
abbrev pub rejection : BlockOutcome
rejection = record { status = Status.rejected; to_broadcast = []; missing_parent = none }

pub record BlockTemplate : Type 0 where
  pub prev_hash : Bytes
  pub height : ℕ
  pub timestamp : ℕ
  pub difficulty : ℕ
  pub tip_version : ℕ
  pub transactions : List Transaction

-- A call of the storage that writes.
pub data Write : Type 0 where
  save_block : Block → ℕ → Write
  replace_blocks_from : ℕ → List Block → Write

-- `writes` are the calls that a storage has got so far, if there is one, whether they threw or not; the
-- clock is an argument
-- of the operations that read it.
pub record ChainManager : Type 0 where
  pub blockchain : Blockchain
  pub mempool : Mempool
  pub orphan_pool : OrphanPool
  pub ledger : Ledger
  pub has_storage : Bool
  pub writes : List Write
  pub params : ConsensusParams
  pub tip_version : ℕ

-- `if (storage_) storage_->...`, the last thing that a call of the manager does. The call of the storage
-- is put on a log; what it does to the database, and whether it throws, is `Storage.perform`, and
-- `Storage.Served.serve_on` is the call of the manager together with it.
abbrev pub write : Write → ChainManager → ChainManager
write w cm = if cm.has_storage then record cm { writes = cm.writes ++ w ∷ [] } else cm

module _ ⦃ssl : OpenSsl⦄ where
  abbrev started : ℕ → ConsensusParams → Bool → List Write → ChainManager
  started mempool_max_size params has_storage writes = record {
    blockchain = Blockchain.new;
    mempool = Mempool.new mempool_max_size;
    orphan_pool = OrphanPool.new default_max_orphans;
    ledger = Ledger.empty;
    has_storage = has_storage;
    writes = writes;
    params = params;
    tip_version = 0;
  }

  -- The constructor, without a storage or with one that holds `block_count` blocks: an empty one gets
  -- the genesis block.
  unfoldable pub new : ℕ → ConsensusParams → Option ℕ → ChainManager
  new mempool_max_size params storage =
      let genesis_write = map (λ b. save_block b 0) (Blockchain.new.blocks) in
      elim storage [
        | none ↦ started mempool_max_size params false []
        | some block_count ↦
            started mempool_max_size params true (if block_count == 0 then genesis_write else [])
      ]

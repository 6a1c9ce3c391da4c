-- ===== src/Tests/Chain.antt =====
-- Block and chain theorems at concrete inputs.
use mathlib.Core.Option.{some-injective}
use forgechain.Prelude.{
  ℕ, zero, suc, ◌<◌, ◌≡◌, ◌↔◌, refl, sym, subst, ◌∙◌, true, false, some, [], ◌∷◌, arith, Bytes,
  bytes_eq, bytes_eq_iff,
}
use forgechain.Prelude.Dict.{lookup, insert, erase}
use forgechain.Prelude.Outcome.{ok}
use forgechain.Crypto.{double_sha_256, sha256}
use forgechain.Core.Wire
use forgechain.Core.Wire.Laws.{IsBytes}
use forgechain.Core.Block
use forgechain.Core.Block.{Block, serialize, deserialize, compute_hash, zero_hash}
use forgechain.Core.Block.RoundTrip.{
  Fits, received, deserialize-serialize_block, deserialize-canonical_block,
}
use forgechain.Core.Blockchain
use forgechain.Core.Blockchain.{
  Blockchain, ForkChain, add_block, add_blocks, has_block, find, find_height, truncate,
  reorganize_to, tip_work,
}
use forgechain.Core.Blockchain.Index.{
  IsIndexed, hash_at, Fresh, add_block-IsIndexed, reorganize_to-IsIndexed,
}
use forgechain.Core.ForkResolution.{fork_work, is_fork_heavier, build_fork_chain, max_fork_depth}
use forgechain.Core.ForkResolution.Branch.{IsBranch, IsKeyed, build_fork_chain-IsBranch}
use forgechain.Core.ForkResolution.Heavier.{reorganize_to-raises_work}
use forgechain.Core.OrphanPool
use forgechain.Core.OrphanPool.{OrphanPool}
use forgechain.Tests.Toys.{toy_ssl, all_bytes-IsBytes, genesis, first, rival, chain, fork}

pub genesis-Fits : Fits genesis
unfolding Block.new double_sha_256 sha256 Block.merkle_bytes Block.serialize Block.compute_hash
genesis-Fits = record {
  version = omega arith;
  prev_hash = refl;
  merkle_root = refl;
  timestamp = omega arith;
  difficulty = omega arith;
  nonce = omega arith;
  count = omega arith;
  transactions = tt;
}

deserialize-serialize_block_example : deserialize (serialize genesis) ≡ some (received genesis)
deserialize-serialize_block_example = deserialize-serialize_block genesis genesis-Fits

genesis-IsBytes : IsBytes (serialize genesis)
unfolding Block.new double_sha_256 sha256 Block.merkle_bytes Block.serialize
    Block.serialize_transactions Block.compute_hash Wire.to_le
genesis-IsBytes = all_bytes-IsBytes (serialize genesis) refl

deserialize-canonical_block_example :
    (serialize genesis ≡ serialize (received genesis))
    × Fits (received genesis)
    × ((received genesis).hash ≡ compute_hash (received genesis))
    × ((received genesis).cumulative_work ≡ 0)
deserialize-canonical_block_example =
    deserialize-canonical_block (serialize genesis) (received genesis) genesis-IsBytes
      deserialize-serialize_block_example

one_block-exact :
    (b : Block) (h : Bytes) (i : ℕ)
    → let c : Blockchain = record { blocks = b ∷ []; height_by_hash = insert b.hash 0 [] } in
      (find_height c h ≡ some i) ↔ (hash_at c.blocks i ≡ some h)
unfolding find_height hash_at lookup insert
one_block-exact b h zero = ground (arith, bytes_eq_iff b.hash h)
one_block-exact b h (suc i) = ground (arith, bytes_eq_iff b.hash h)

one_block-IsIndexed :
    (b : Block) → IsIndexed (record { blocks = b ∷ []; height_by_hash = insert b.hash 0 [] })
one_block-IsIndexed b = record { exact = one_block-exact b }

pub new-IsIndexed : IsIndexed Blockchain.new
unfolding Blockchain.new
new-IsIndexed = one_block-IsIndexed _

first_is_new : has_block Blockchain.new first.hash ≡ false
unfolding Blockchain.new Block.new double_sha_256 sha256 Block.merkle_bytes Block.serialize
    Block.serialize_transactions Block.compute_hash Wire.to_le insert lookup bytes_eq
first_is_new = refl

chain-IsIndexed : IsIndexed chain
chain-IsIndexed = add_block-IsIndexed first Blockchain.new new-IsIndexed first_is_new

-- What is cut off at the genesis block is `first`, and `rival` is new to what stays.
genesis_found : find_height chain genesis.hash ≡ some 0
unfolding find_height add_block Blockchain.new Block.new double_sha_256 sha256 Block.merkle_bytes
    Block.serialize Block.serialize_transactions Block.compute_hash Wire.to_le insert lookup
    bytes_eq
genesis_found = refl

rival_is_Fresh : Fresh (rival ∷ []) (truncate 0 chain)
unfolding truncate add_block erase Blockchain.new Block.new double_sha_256 sha256 Block.merkle_bytes
    Block.serialize Block.serialize_transactions Block.compute_hash Wire.to_le insert lookup
    bytes_eq
rival_is_Fresh = (refl, tt)

fork_is_Fresh :
    (height : ℕ)
    → find_height chain fork.common_ancestor.hash ≡ some height
    → Fresh fork.blocks (truncate height chain)
fork_is_Fresh height h =
    subst (λ n. Fresh (rival ∷ []) (truncate n chain)) (some-injective _ _ (sym genesis_found ∙ h))
      rival_is_Fresh

reorganize_to-IsIndexed_example : IsIndexed (reorganize_to fork chain).1
reorganize_to-IsIndexed_example = reorganize_to-IsIndexed fork chain chain-IsIndexed fork_is_Fresh

genesis_is_ancestor : find chain fork.common_ancestor.hash ≡ some fork.common_ancestor
unfolding find find_height add_block Blockchain.new Block.new double_sha_256 sha256
    Block.merkle_bytes Block.serialize Block.serialize_transactions Block.compute_hash Wire.to_le
    insert lookup bytes_eq
genesis_is_ancestor = refl

fork_is_heavier : is_fork_heavier chain fork ≡ ok true
unfolding is_fork_heavier fork_work add_block Blockchain.new Block.new Block.block_work
fork_is_heavier = refl

reorganize_to-raises_work_example :
    tip_work chain.blocks < tip_work (reorganize_to fork chain).1.blocks
reorganize_to-raises_work_example =
    reorganize_to-raises_work fork chain genesis_is_ancestor fork_is_heavier

-- A pool with no orphan files every block under its hash.
empty_pool-IsKeyed : IsKeyed (OrphanPool.new 3)
unfolding OrphanPool.find_orphan lookup
empty_pool-IsKeyed h b e = cc

fork_is_built : build_fork_chain chain (OrphanPool.new 3) rival ≡ some fork
unfolding build_fork_chain find find_height add_block Blockchain.new Block.new double_sha_256 sha256
    Block.merkle_bytes Block.serialize Block.serialize_transactions Block.compute_hash Wire.to_le
    insert lookup bytes_eq
fork_is_built = refl

build_fork_chain-IsBranch_example : IsBranch chain rival max_fork_depth fork
build_fork_chain-IsBranch_example =
    build_fork_chain-IsBranch chain (OrphanPool.new 3) rival chain-IsIndexed empty_pool-IsKeyed fork
      fork_is_built

-- ===== src/Core/Blockchain.antt =====
-- core/Blockchain: the main chain, oldest block first, with an index from hashes to heights.
pub mod Index
pub mod Work
use forgechain.Prelude.{
  ℕ, suc, ◌+◌, ◌≡◌, Bool, true, false, not, ◌&&◌, ◌||◌, Option, none, some, List, [], ◌∷◌, ◌++◌,
  Bytes, bytes_eq, length, get_elem?, get_last?, take, drop, add64, ◌==◌, if◌then◌else◌,
}
use forgechain.Prelude.Dict.{Dict, lookup, contains, insert, erase}
use forgechain.Prelude.Outcome.{Outcome, ok, fault, ◌>>=◌}
use forgechain.Crypto.{OpenSsl}
use forgechain.Core.Transaction.{Transaction, is_coinbase}
use forgechain.Core.Block
use forgechain.Core.Block.{Block, block_work, compute_hash, zero_hash}

pub data BlockValidation : Type 0 where
  valid invalid fork_candidate : BlockValidation

-- A branch, oldest block first, and the block of the main chain that it grows from.
pub record ForkChain : Type 0 where
  pub blocks : List Block
  pub common_ancestor : Block

pub record Blockchain : Type 0 where
  pub blocks : List Block
  pub height_by_hash : Dict ℕ

abbrev pub size : Blockchain → ℕ
size c = length c.blocks

unfoldable pub empty : Blockchain → Bool
empty c = size c == 0

-- `blocks_.back()`; there is none if the chain is empty.
abbrev pub latest : Blockchain → Option Block
latest c = get_last? c.blocks

-- `at` throws out of range.
unfoldable pub at : Blockchain → ℕ → Outcome Block
at c height = elim (get_elem? c.blocks height) [ none ↦ fault | some b ↦ ok b ]

abbrev pub has_block : Blockchain → Bytes → Bool
has_block c hash = contains hash c.height_by_hash

unfoldable pub find_height : Blockchain → Bytes → Option ℕ
find_height c hash = lookup hash c.height_by_hash

-- `find` reads `blocks_[*index]`; the index is in range in every chain that `IsIndexed`.
unfoldable pub find : Blockchain → Bytes → Option Block
unfolding find_height
find c hash = elim (find_height c hash) [ none ↦ none | some i ↦ get_elem? c.blocks i ]

-- The cumulative work of the last block, or 0.
abbrev pub tip_work : List Block → ℕ
tip_work bs = elim (get_last? bs) [ none ↦ 0 | some b ↦ b.cumulative_work ]

-- A block with its cumulative work on top of `w`.
abbrev pub weighed : ℕ → Block → Block
weighed w b = record b { cumulative_work = add64 (block_work b) w }

unfoldable pub add_block : Block → Blockchain → Blockchain
add_block b c = record {
  blocks = c.blocks ++ weighed (tip_work c.blocks) b ∷ [];
  height_by_hash = insert b.hash (size c) c.height_by_hash;
}

unfoldable pub add_blocks : List Block → Blockchain → Blockchain
add_blocks [] c = c
add_blocks (b ∷ bs) c = add_blocks bs (add_block b c)

unfoldable pub erase_hashes : List Block → Dict ℕ → Dict ℕ
erase_hashes [] d = d
erase_hashes (b ∷ bs) d = erase_hashes bs (erase b.hash d)

-- The chain cut off above a height.
unfoldable pub truncate : ℕ → Blockchain → Blockchain
unfolding erase_hashes
truncate height c = record {
  blocks = take (suc height) c.blocks;
  height_by_hash = erase_hashes (drop (suc height) c.blocks) c.height_by_hash;
}

-- The discarded blocks, and the chain after. The chain is left alone if the ancestor is not in it.
unfoldable pub reorganize_to : ForkChain → Blockchain → Option (List Block) × Blockchain
reorganize_to fork c = elim (find_height c fork.common_ancestor.hash) [
  | none ↦ (none, c)
  | some height ↦ (some (drop (suc height) c.blocks), add_blocks fork.blocks (truncate height c))
]

-- `kCoinbaseSender` as the sender of a transaction that is not the first.
abbrev pub any_coinbase : List Transaction → Bool
any_coinbase [] = false
any_coinbase (tx ∷ txs) = is_coinbase tx || any_coinbase txs

abbrev pub misplaced_coinbase : List Transaction → Bool
misplaced_coinbase [] = false
misplaced_coinbase (tx ∷ txs) = any_coinbase txs

module _ ⦃ssl : OpenSsl⦄ where
  -- The constructor: the chain of the genesis block.
  unfoldable pub new : Blockchain
  unfolding Block.new
  new =
      let genesis = Block.new 1 zero_hash 0 [] in
      record { blocks = genesis ∷ []; height_by_hash = insert genesis.hash 0 [] }

  valid_links : Block → List Block → Bool
  valid_links prev [] = true
  valid_links prev (b ∷ bs) =
      bytes_eq (compute_hash b) b.hash && bytes_eq prev.hash b.prev_hash && valid_links b bs

  valid_blocks : List Block → Bool
  valid_blocks [] = true
  valid_blocks (genesis ∷ bs) = valid_links genesis bs

  unfoldable pub is_valid : Blockchain → Bool
  unfolding valid_links valid_blocks
  is_valid c = valid_blocks c.blocks

  -- `latest()` has no block to return in an empty chain.
  unfoldable pub classify_new_block : Blockchain → Block → Outcome BlockValidation
  classify_new_block c b =
      if not (bytes_eq b.hash (compute_hash b))
      then ok invalid
      else if misplaced_coinbase b.transactions
      then ok invalid
      else elim (latest c) [
        | none ↦ fault
        | some tip ↦ if not (bytes_eq b.prev_hash tip.hash) then ok fork_candidate else ok valid
      ]

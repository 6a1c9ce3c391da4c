-- ===== src/Core/Block.antt =====
-- core/Block: the block, its bytes, its hash and its work.
pub mod RoundTrip
use forgechain.Prelude.{
  ℕ, zero, suc, ◌-◌, ◌%◌, ◌^◌, ◌≡◌, refl, Bool, Option, none, some, List, [], ◌∷◌, ◌++◌, Bytes,
  length, replicate, leb, if◌then◌else◌,
}
use forgechain.Crypto.{OpenSsl, double_sha_256}
use forgechain.Core.Wire.{to_le, write_field, read_bytes, read_uint, read_field, at_end, ◌>>=◌}
use forgechain.Core.Transaction
use forgechain.Core.Transaction.{Transaction}

pub record Block : Type 0 where
  pub version : ℕ
  pub prev_hash : Bytes
  pub merkle_root : Bytes
  pub timestamp : ℕ
  pub difficulty : ℕ
  pub nonce : ℕ
  pub cumulative_work : ℕ
  pub transactions : List Transaction
  pub hash : Bytes

-- The bytes of all transactions, one after the other, which the Merkle root is taken of.
unfoldable pub merkle_bytes : List Transaction → Bytes
merkle_bytes [] = []
merkle_bytes (tx ∷ txs) = Transaction.serialize tx ++ merkle_bytes txs

unfoldable pub serialize_transactions : List Transaction → Bytes
serialize_transactions [] = []
serialize_transactions (tx ∷ txs) =
    write_field (Transaction.serialize tx) ++ serialize_transactions txs

unfoldable pub serialize : Block → Bytes
serialize b =
    to_le 4 b.version
    ++ (b.prev_hash
        ++ (b.merkle_root
            ++ (to_le 8 b.timestamp
                ++ (to_le 4 b.difficulty
                    ++ (to_le 4 b.nonce
                        ++ (to_le 4 (length b.transactions % 2 ^ 32)
                            ++ serialize_transactions b.transactions))))))

-- The loop over `tx_count`.
unfoldable pub read_transactions : ℕ → Bytes → Option (List Transaction × Bytes)
read_transactions zero rest = some ([], rest)
read_transactions (suc n) rest = do
  (tx_payload, rest) ← read_field rest
  tx ← Transaction.deserialize tx_payload
  (txs, rest) ← read_transactions n rest
  some (tx ∷ txs, rest)

-- `Block::block_work`
unfoldable pub block_work : Block → ℕ
block_work b = if leb 64 b.difficulty then 2 ^ 64 - 1 else 2 ^ b.difficulty

-- `HashBytes{}`
abbrev pub zero_hash : Bytes
zero_hash = replicate 32 0

module _ ⦃ssl : OpenSsl⦄ where
  unfoldable pub compute_hash : Block → Bytes
  compute_hash b = double_sha_256 (serialize b)

  -- The fields before the constructor's body takes the hash.
  abbrev unhashed : ℕ → Bytes → ℕ → List Transaction → Block
  unhashed version prev_hash timestamp transactions = record {
    version = version;
    prev_hash = prev_hash;
    merkle_root = double_sha_256 (merkle_bytes transactions);
    timestamp = timestamp;
    difficulty = 0;
    nonce = 0;
    cumulative_work = 0;
    transactions = transactions;
    hash = zero_hash;
  }

  -- The constructor.
  unfoldable pub new : ℕ → Bytes → ℕ → List Transaction → Block
  unfolding merkle_bytes
  new version prev_hash timestamp transactions =
      let b = unhashed version prev_hash timestamp transactions in
      record b { hash = compute_hash b }

  -- `block.hash_ = block.compute_hash()`
  abbrev pub with_hash : Block → Block
  with_hash b = record b { hash = compute_hash b }

  unfoldable pub deserialize : Bytes → Option Block
  unfolding new
  deserialize payload = do
    (version, rest) ← read_uint 4 payload
    (prev_hash, rest) ← read_bytes 32 rest
    (merkle_root, rest) ← read_bytes 32 rest
    (timestamp, rest) ← read_uint 8 rest
    (difficulty, rest) ← read_uint 4 rest
    (nonce, rest) ← read_uint 4 rest
    (tx_count, rest) ← read_uint 4 rest
    (transactions, rest) ← read_transactions tx_count rest
    let block = record (new version prev_hash timestamp transactions) {
      difficulty = difficulty;
      nonce = nonce;
      merkle_root = merkle_root;
    }
    at_end rest (with_hash block)

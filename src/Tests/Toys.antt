-- ===== src/Tests/Toys.antt =====
-- A small instance of the OpenSSL functions, and transactions, ledgers and blocks to run on.
use forgechain.Prelude.{
  ◌≡◌, Bool, true, false, [], ◌∷◌, ◌++◌, arith, Bytes, bytes_eq, length, take, replicate,
  length-append, length-take, ltb, ◌&&◌, ◌≢◌, bytes_eq_iff, Bool-cases, inl, inr, ◌==◌, not,
}
use forgechain.Crypto.{OpenSsl, derive_address}
use forgechain.Core.Transaction.{Transaction, coinbase_sender}
use forgechain.Core.Wire.Laws.{IsBytes}
use forgechain.Core.Block
use forgechain.Core.Block.{Block, zero_hash}
use forgechain.Core.Blockchain
use forgechain.Core.Blockchain.{Blockchain, ForkChain, add_block}
use forgechain.Core.Ledger.{Ledger}

pub length-padded : (m : Bytes) → length (take 32 (m ++ replicate 32 0)) ≡ 32
length-padded m =
    length-take 32 (m ++ replicate 32 0) (omega (arith, length-append m (replicate 32 0)))

-- The digest is the front of the message; a signature is the key; the empty key does not decode.
instance abbrev pub toy_ssl : OpenSsl
toy_ssl = record {
  digest = λ m. take 32 (m ++ replicate 32 0);
  length-digest = length-padded;
  point_decodes = λ key. not (length key == 0);
  digest_verify = λ message signature key. bytes_eq signature key;
}

abbrev pub alice_key : Bytes
alice_key = 7 ∷ 1 ∷ []

abbrev pub alice : Bytes
alice = derive_address alice_key

abbrev pub bob : Bytes
bob = 66 ∷ []

-- Alice pays Bob 30, for a fee of 2.
abbrev pub payment : Transaction
payment = record {
  sender = alice;
  recipient = bob;
  sender_public_key = alice_key;
  amount = 30;
  signature = alice_key;
  fee = 2;
  nonce = 0;
}

abbrev pub reward : Transaction
reward = record payment { sender = coinbase_sender; amount = 52; fee = 0 }

abbrev pub before_payment : Ledger
before_payment = record { balances = (alice, 100) ∷ []; nonces = [] }

abbrev pub all_bytes : Bytes → Bool
all_bytes [] = true
all_bytes (b ∷ bs) = ltb b 256 && all_bytes bs

pub all_bytes-IsBytes : (bs : Bytes) → all_bytes bs ≡ true → IsBytes bs
all_bytes-IsBytes [] h = tt
all_bytes-IsBytes (b ∷ bs) h = elim (Bool-cases (all_bytes bs)) [
  | inl e ↦ (ground arith, all_bytes-IsBytes bs e)
  | inr e ↦ absurd (ground arith)
]

pub bytes_eq-differ : (a b : Bytes) → bytes_eq a b ≡ false → a ≢ b
bytes_eq-differ a b h = λ e. ground (arith, bytes_eq_iff a b)

abbrev pub genesis : Block
genesis = Block.new 1 zero_hash 0 []

-- A block on the genesis block, and a rival of more work.
abbrev pub first : Block
first = Block.new 2 genesis.hash 10 (payment ∷ [])

abbrev pub rival : Block
rival = record (Block.new 3 genesis.hash 11 []) { difficulty = 5 }

abbrev pub chain : Blockchain
chain = add_block first Blockchain.new

abbrev pub fork : ForkChain
fork = record { blocks = rival ∷ []; common_ancestor = genesis }

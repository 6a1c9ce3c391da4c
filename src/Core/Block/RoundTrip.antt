-- ===== src/Core/Block/RoundTrip.antt =====
-- `Block::serialize` and `Block::deserialize` undo one another, up to what a block keeps for itself:
-- its cumulative work is not sent, and its hash is computed on receipt.
use mathlib.Core.Option.{some-injective}
use mathlib.Core.List.{append_assoc, append-nil}
use forgechain.Prelude.{
  ℕ, zero, suc, ◌%◌, ◌^◌, ◌<◌, ◌≡◌, refl, ap, subst, some, List, [], ◌∷◌, ◌++◌, Bytes, length, All,
  arith,
}
use forgechain.Crypto.{OpenSsl, double_sha_256}
use forgechain.Core.Wire.{read_bytes}
use forgechain.Core.Wire.Laws.{
  IsBytes, bound, bind-step, read_uint-append, read_field-append, read_bytes-append, taken,
  read_uint-step, read_field-step, read_bytes-step, at_end-eq-some, >>=-eq-some,
}
use forgechain.Core.Transaction
use forgechain.Core.Transaction.{Transaction}
use forgechain.Core.Transaction.RoundTrip
use forgechain.Core.Block.{
  Block, serialize, serialize_transactions, read_transactions, compute_hash, with_hash, deserialize,
}

-- A transaction that fits its own fields and the length prefix of a block.
pub record TransactionFits (tx : Transaction) : Type 0 where
  pub fields : RoundTrip.Fits tx
  pub size : length (Transaction.serialize tx) < 2 ^ 32

-- Every field has the width that the format gives it.
pub record Fits (b : Block) : Type 0 where
  pub version : b.version < 2 ^ 32
  pub prev_hash : length b.prev_hash ≡ 32
  pub merkle_root : length b.merkle_root ≡ 32
  pub timestamp : b.timestamp < 2 ^ 64
  pub difficulty : b.difficulty < 2 ^ 32
  pub nonce : b.nonce < 2 ^ 32
  pub count : length b.transactions < 2 ^ 32
  pub transactions : All TransactionFits b.transactions

read_transactions-append :
    (txs : List Transaction) (rest : Bytes)
    → All TransactionFits txs
    → read_transactions (length txs) (serialize_transactions txs ++ rest) ≡ some (txs, rest)
unfolding read_transactions serialize_transactions
read_transactions-append [] rest h = refl
read_transactions-append (tx ∷ txs) rest (h, hs) = rw (
  append_assoc,
  read_field-append (Transaction.serialize tx) _ h.size,
  RoundTrip.deserialize-serialize tx h.fields,
  read_transactions-append txs rest hs,
)

read_hash-append : (bs rest : Bytes) → length bs ≡ 32 → read_bytes 32 (bs ++ rest) ≡ some (bs, rest)
read_hash-append bs rest h =
    subst (λ n. read_bytes n (bs ++ rest) ≡ some (bs, rest)) h (read_bytes-append bs rest)

module _ ⦃ssl : OpenSsl⦄ where
  -- The hash is a function of the bytes.
  compute_hash-of_serialize :
      (a b : Block) → serialize a ≡ serialize b → compute_hash a ≡ compute_hash b
  unfolding compute_hash
  compute_hash-of_serialize a b h = ap double_sha_256 h

  -- What the receiver of a block's bytes holds.
  abbrev pub received : Block → Block
  received b = with_hash (record b { cumulative_work = 0 })

  -- A block whose fields fit is read back from its bytes, with a fresh hash and no work.
  pub deserialize-serialize_block :
      (b : Block) → Fits b → deserialize (serialize b) ≡ some (received b)
  unfolding deserialize serialize
  deserialize-serialize_block b h =
      let fits : length b.transactions % 2 ^ 32 ≡ length b.transactions = omega (arith, h.count) in
      let txs : read_transactions (length b.transactions) (serialize_transactions b.transactions)
          ≡ some (b.transactions, []) =
        rw (append-nil (serialize_transactions b.transactions)) at
          (read_transactions-append b.transactions [] h.transactions) in
      rw
        (
          fits,
          read_uint-append 4 b.version _ h.version,
          read_hash-append b.prev_hash _ h.prev_hash,
          read_hash-append b.merkle_root _ h.merkle_root,
          read_uint-append 8 b.timestamp _ h.timestamp,
          read_uint-append 4 b.difficulty _ h.difficulty,
          read_uint-append 4 b.nonce _ h.nonce,
          read_uint-append 4 (length b.transactions) _ h.count,
          txs,
        )
        (ap (λ h. some (record b { cumulative_work = 0; hash = h }))
          (compute_hash-of_serialize _ _ refl))

read_transactions-inverse :
    (n : ℕ) (rest : Bytes) (p : List Transaction × Bytes)
    → IsBytes rest
    → read_transactions n rest ≡ some p
    → (rest ≡ serialize_transactions p.0 ++ p.1)
      × IsBytes p.1
      × (length p.0 ≡ n)
      × All TransactionFits p.0
unfolding read_transactions serialize_transactions
read_transactions-inverse zero rest p bytes h =
    subst
      (λ q.
        (rest ≡ serialize_transactions q.0 ++ q.1)
        × IsBytes q.1
        × (length q.0 ≡ 0)
        × All TransactionFits q.0)
      (some-injective _ _ h) (refl, bytes, refl, tt)
read_transactions-inverse (suc n) rest p bytes h = elim (read_field-step rest _ bytes h) [
  | taken payload r1 s1 h1 f1 k1 ↦
      let (tx, e2, k2) = >>=-eq-some (Transaction.deserialize payload) _ k1 in
      let (s2, f2) = RoundTrip.deserialize-canonical payload tx f1.1 e2 in
      let (q, e3, k3) = >>=-eq-some (read_transactions n r1) _ k2 in
      let (s3, h3, n3, f3) = read_transactions-inverse n r1 q h1 e3 in
      subst
        (λ q.
          (rest ≡ serialize_transactions q.0 ++ q.1)
          × IsBytes q.1
          × (length q.0 ≡ suc n)
          × All TransactionFits q.0)
        (some-injective _ _ k3)
        (
          rw (append_assoc, ← s2, ← s3) s1,
          h3,
          ap suc n3,
          (record { fields = f2; size = subst (λ t. length t < 2 ^ 32) s2 f1.0 }, f3),
        )
]

module _ ⦃ssl : OpenSsl⦄ where
  -- Bytes that are read as a block are that block's bytes; its fields fit, its hash is the hash of
  -- its bytes, and it claims no work.
  pub deserialize-canonical_block :
      (payload : Bytes) (b : Block)
      → IsBytes payload
      → deserialize payload ≡ some b
      → (payload ≡ serialize b) × Fits b × (b.hash ≡ compute_hash b) × (b.cumulative_work ≡ 0)
  unfolding deserialize serialize
  deserialize-canonical_block payload b h0 h = elim (read_uint-step 4 payload _ h0 h) [
    | taken version r1 s1 h1 f1 k1 ↦ elim (read_bytes-step 32 r1 _ h1 k1) [
      | taken prev_hash r2 s2 h2 f2 k2 ↦ elim (read_bytes-step 32 r2 _ h2 k2) [
        | taken merkle_root r3 s3 h3 f3 k3 ↦ elim (read_uint-step 8 r3 _ h3 k3) [
          | taken timestamp r4 s4 h4 f4 k4 ↦ elim (read_uint-step 4 r4 _ h4 k4) [
            | taken difficulty r5 s5 h5 f5 k5 ↦ elim (read_uint-step 4 r5 _ h5 k5) [
              | taken nonce r6 s6 h6 f6 k6 ↦ elim (read_uint-step 4 r6 _ h6 k6) [
                | taken count r7 s7 h7 f7 k7 ↦ elim (bind-step (read_transactions count r7) _ k7) [
                  | bound q e8 k8 ↦
                      let (s8, h8, n8, f8) = read_transactions-inverse count r7 q h7 e8 in
                      let counted : length q.0 % 2 ^ 32 ≡ count = omega arith in
                      let (done, found) = at_end-eq-some q.1 _ k8 in
                      subst
                        (λ b.
                          (payload ≡ serialize b)
                          × Fits b
                          × (b.hash ≡ compute_hash b)
                          × (b.cumulative_work ≡ 0))
                        found
                        (
                          rw (counted, s1, s2, s3, s4, s5, s6, s7, s8, done, append-nil),
                          record {
                            version = f1;
                            prev_hash = f2;
                            merkle_root = f3;
                            timestamp = f4;
                            difficulty = f5;
                            nonce = f6;
                            count = rw n8 f7;
                            transactions = f8;
                          },
                          compute_hash-of_serialize _ _ refl,
                          refl,
                        )
                ]
              ]
            ]
          ]
        ]
      ]
    ]
  ]

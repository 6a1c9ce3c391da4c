-- ===== src/Core/Transaction/RoundTrip.antt =====
-- `Transaction::serialize` and `Transaction::deserialize` undo one another.
use mathlib.Core.List.{append_assoc, append-nil}
use forgechain.Prelude.{◌^◌, ◌<◌, ◌≡◌, refl, subst, some, Bytes, length}
use forgechain.Core.Wire.Laws.{
  IsBytes, read_uint-append, read_field-append, taken, at_end-eq-some, read_uint-step,
  read_field-step, read_field-write_field,
}
use forgechain.Core.Transaction.{Transaction, serialize, deserialize}

-- Every field fits the integer that the format gives it.
pub record Fits (tx : Transaction) : Type 0 where
  pub sender : length tx.sender < 2 ^ 32
  pub recipient : length tx.recipient < 2 ^ 32
  pub sender_public_key : length tx.sender_public_key < 2 ^ 32
  pub amount : tx.amount < 2 ^ 64
  pub signature : length tx.signature < 2 ^ 32
  pub fee : tx.fee < 2 ^ 64
  pub nonce : tx.nonce < 2 ^ 64

-- A transaction whose fields fit is read back from its bytes.
pub deserialize-serialize : (tx : Transaction) → Fits tx → deserialize (serialize tx) ≡ some tx
unfolding deserialize serialize
deserialize-serialize tx h = simp append_assoc (
    rw
      (
        read_uint-append 8 tx.amount _ h.amount,
        read_field-append tx.sender _ h.sender,
        read_field-append tx.recipient _ h.recipient,
        read_field-append tx.sender_public_key _ h.sender_public_key,
        read_uint-append 8 tx.fee _ h.fee,
        read_uint-append 8 tx.nonce _ h.nonce,
        read_field-write_field tx.signature h.signature,
      )
      refl)

-- Bytes that are read as a transaction are the bytes of that transaction, and its fields fit: no
-- two byte strings stand for one transaction.
pub deserialize-canonical :
    (payload : Bytes) (tx : Transaction)
    → IsBytes payload
    → deserialize payload ≡ some tx
    → (payload ≡ serialize tx) × Fits tx
unfolding deserialize serialize
deserialize-canonical payload tx h0 h = elim (read_uint-step 8 payload _ h0 h) [
  | taken amount r1 s1 h1 f1 k1 ↦ elim (read_field-step r1 _ h1 k1) [
    | taken sender r2 s2 h2 f2 k2 ↦ elim (read_field-step r2 _ h2 k2) [
      | taken recipient r3 s3 h3 f3 k3 ↦ elim (read_field-step r3 _ h3 k3) [
        | taken key r4 s4 h4 f4 k4 ↦ elim (read_uint-step 8 r4 _ h4 k4) [
          | taken fee r5 s5 h5 f5 k5 ↦ elim (read_uint-step 8 r5 _ h5 k5) [
            | taken nonce r6 s6 h6 f6 k6 ↦ elim (read_field-step r6 _ h6 k6) [
              | taken signature r7 s7 h7 f7 k7 ↦
                  subst (λ t. (payload ≡ serialize t) × Fits t) (at_end-eq-some r7 _ k7).1
                    (
                      simp append_assoc
                          (rw (s1, s2, s3, s4, s5, s6, s7, (at_end-eq-some r7 _ k7).0, append-nil)),
                      record {
                        sender = f2.0;
                        recipient = f3.0;
                        sender_public_key = f4.0;
                        amount = f1;
                        signature = f7.0;
                        fee = f5;
                        nonce = f6;
                      },
                    )
            ]
          ]
        ]
      ]
    ]
  ]
]

-- ===== src/Core/Transaction.antt =====
-- core/Transaction: the transaction, its bytes and its authenticity check.
pub mod RoundTrip
pub mod Authenticity
use forgechain.Prelude.{
  ℕ, ◌^◌, ◌<◌, ◌≡◌, refl, Bool, true, false, not, ◌&&◌, Option, none, some, List, [], ◌∷◌, ◌++◌,
  Bytes, bytes_eq, codes, length, ◌==◌, if◌then◌else◌,
}
use forgechain.Prelude.Outcome.{Outcome, ok, fault}
use forgechain.Crypto.{OpenSsl, double_sha_256, derive_address, verify}
use forgechain.Core.Wire.{to_le, write_field, read_uint, read_field, at_end, ◌>>=◌}

-- `kCoinbaseSender`
abbrev pub coinbase_sender : Bytes
coinbase_sender = codes "COINBASE"

pub record Transaction : Type 0 where
  pub sender : Bytes
  pub recipient : Bytes
  pub sender_public_key : Bytes
  pub amount : ℕ
  pub signature : Bytes
  pub fee : ℕ
  pub nonce : ℕ

-- The constructor: a new transaction is not signed.
abbrev pub new : Bytes → Bytes → ℕ → Bytes → ℕ → ℕ → Transaction
new sender recipient amount sender_public_key fee nonce = record {
  sender = sender;
  recipient = recipient;
  sender_public_key = sender_public_key;
  amount = amount;
  signature = [];
  fee = fee;
  nonce = nonce;
}

-- `tx.sender_ == kCoinbaseSender`
abbrev pub is_coinbase : Transaction → Bool
is_coinbase tx = bytes_eq tx.sender coinbase_sender

unfoldable pub serialize_for_signing : Transaction → Bytes
serialize_for_signing tx =
    to_le 8 tx.amount
    ++ (write_field tx.sender
        ++ (write_field tx.recipient
            ++ (write_field tx.sender_public_key ++ (to_le 8 tx.fee ++ to_le 8 tx.nonce))))

unfoldable pub serialize : Transaction → Bytes
unfolding serialize_for_signing
serialize tx = serialize_for_signing tx ++ write_field tx.signature

unfoldable pub deserialize : Bytes → Option Transaction
deserialize payload = do
  (amount, rest) ← read_uint 8 payload
  (sender, rest) ← read_field rest
  (recipient, rest) ← read_field rest
  (sender_public_key, rest) ← read_field rest
  (fee, rest) ← read_uint 8 rest
  (nonce, rest) ← read_uint 8 rest
  (signature, rest) ← read_field rest
  at_end rest
      (record (new sender recipient amount sender_public_key fee nonce) { signature = signature })

-- `operator==`, which does not look at the public key.
unfoldable pub tx_eq : Transaction → Transaction → Bool
tx_eq a b =
    bytes_eq a.sender b.sender
    && bytes_eq a.recipient b.recipient
    && a.amount == b.amount
    && bytes_eq a.signature b.signature
    && a.fee == b.fee
    && a.nonce == b.nonce

module _ ⦃ssl : OpenSsl⦄ where
  unfoldable pub compute_hash : Transaction → Bytes
  compute_hash tx = double_sha_256 (serialize_for_signing tx)

  unfoldable pub has_valid_signature : Transaction → Outcome Bool
  has_valid_signature tx =
      if is_coinbase tx
      then ok false
      else if not (bytes_eq (derive_address tx.sender_public_key) tx.sender)
      then ok false
      else verify (serialize_for_signing tx) tx.signature tx.sender_public_key

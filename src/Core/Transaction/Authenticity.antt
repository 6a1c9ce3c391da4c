-- ===== src/Core/Transaction/Authenticity.antt =====
-- `has_valid_signature`, on every branch.
use forgechain.Prelude.{◌≡◌, ◌≢◌, ◌↔◌, true, false, bytes_eq_iff, arith}
use forgechain.Prelude.Outcome.{ok, fault}
use forgechain.Crypto.{OpenSsl, derive_address, verify}
use forgechain.Core.Transaction.{
  Transaction, coinbase_sender, serialize_for_signing, has_valid_signature,
}

module _ ⦃ssl : OpenSsl⦄ where
  -- The sender is the address of the public key that the transaction carries.
  pub record OwnsKey (tx : Transaction) : Type 0 where
    pub not_coinbase : tx.sender ≢ coinbase_sender
    pub address : derive_address tx.sender_public_key ≡ tx.sender

  -- A transaction passes exactly if its sender is not the coinbase name, is the address of the
  -- public key, and the key decodes and verifies the signature over the signed bytes.
  pub has_valid_signature-eq-true :
      (tx : Transaction)
      → (has_valid_signature tx ≡ ok true) ↔ (
          OwnsKey tx
          × (ssl.point_decodes tx.sender_public_key ≡ true)
          × (ssl.digest_verify (serialize_for_signing tx) tx.signature tx.sender_public_key ≡ true))
  unfolding has_valid_signature verify
  has_valid_signature-eq-true tx = ground (
    arith,
    bytes_eq_iff tx.sender coinbase_sender,
    bytes_eq_iff (derive_address tx.sender_public_key) tx.sender,
  )

  -- The check throws exactly if the sender is the address of a key that does not decode.
  pub has_valid_signature-eq-fault :
      (tx : Transaction)
      → (has_valid_signature tx ≡ fault)
        ↔ (OwnsKey tx × (ssl.point_decodes tx.sender_public_key ≡ false))
  unfolding has_valid_signature verify
  has_valid_signature-eq-fault tx = ground (
    arith,
    bytes_eq_iff tx.sender coinbase_sender,
    bytes_eq_iff (derive_address tx.sender_public_key) tx.sender,
  )

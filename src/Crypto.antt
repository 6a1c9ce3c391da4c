-- ===== src/Crypto.antt =====
-- crypto/: hashing, addresses and signature checks. SHA-256, the decoding of curve points and the
-- ECDSA check itself are OpenSSL's: they are the fields of `OpenSsl`, a parameter of the model.
pub mod Hex
use Hex.{to_hex}
use forgechain.Prelude.{ℕ, ◌≡◌, Bool, Bytes, length, if◌then◌else◌}
use forgechain.Prelude.Outcome.{Outcome, ok, fault}

pub record OpenSsl : Type 0 where
  -- `EVP_sha256` over a message
  pub digest : Bytes → Bytes
  pub length-digest : (data' : Bytes) → length (digest data') ≡ 32
  -- `EC_POINT_oct2point` accepts the bytes of a public key
  pub point_decodes : Bytes → Bool
  -- `EVP_DigestVerify` of a message and a signature, under a decoded key
  pub digest_verify : Bytes → Bytes → Bytes → Bool

module _ ⦃ssl : OpenSsl⦄ where
  unfoldable pub sha256 : Bytes → Bytes
  sha256 m = ssl.digest m

  unfoldable pub double_sha_256 : Bytes → Bytes
  unfolding sha256
  double_sha_256 m = sha256 (sha256 m)

  pub length-double_sha_256 : (m : Bytes) → length (double_sha_256 m) ≡ 32
  unfolding double_sha_256
  length-double_sha_256 m = ssl.length-digest (sha256 m)

  unfoldable pub derive_address : Bytes → Bytes
  unfolding double_sha_256 to_hex
  derive_address public_key = to_hex (double_sha_256 public_key)

  -- A key that does not decode makes `verify` throw.
  unfoldable pub verify : Bytes → Bytes → Bytes → Outcome Bool
  verify message signature public_key =
      if ssl.point_decodes public_key
      then ok (ssl.digest_verify message signature public_key)
      else fault

-- ===== src/App/Wallet.antt =====
-- app/Wallet.cpp: the lines that a wallet sends to a server, the reading of the responses, and the
-- transaction that it makes. The key file and the sockets are left out.

pub mod Exchange
use forgechain.Prelude.Int.{ℤ, pos, negsuc}
use forgechain.Crypto.{OpenSsl, derive_address}
use forgechain.App.ParseNumber.{parse_number}
use forgechain.Prelude.{
  ℕ, ◌+◌, ◌-◌, ◌^◌, Option, none, some, Bool, List, [], ◌∷◌, ◌++◌, Bytes, codes, bytes_eq, ◌==◌,
  if◌then◌else◌,
}
use forgechain.Crypto.Hex.{to_hex}
use forgechain.Core.Transaction
use forgechain.Core.Transaction.{Transaction}

-- `read_from`: a line, or what came before the connection ended.
unfoldable pub read_from : Bytes → Bytes
read_from [] = []
read_from (b ∷ bs) = let rest = read_from bs in if b == 10 then [] else b ∷ rest

-- The command of each of the wallet's requests.
abbrev pub balance : Bytes → Bytes → Bytes
balance rpc_api_key address = rpc_api_key ++ (codes " GETBALANCE " ++ (address ++ 10 ∷ []))

abbrev pub next_nonce : Bytes → Bytes → Bytes
next_nonce rpc_api_key address = rpc_api_key ++ (codes " GETNONCE " ++ (address ++ 10 ∷ []))

abbrev pub height : Bytes → Bytes
height rpc_api_key = rpc_api_key ++ codes " HEIGHT\n"

abbrev pub peers : Bytes → Bytes
peers rpc_api_key = rpc_api_key ++ codes " PEERS\n"

abbrev pub submit : Bytes → Transaction → Bytes
submit rpc_api_key tx =
    rpc_api_key ++ (codes " SUBMITTX " ++ (to_hex (Transaction.serialize tx) ++ 10 ∷ []))

-- `static_cast<uint64_t>` of an `int`.
abbrev pub to_uint64 : ℤ → ℕ
to_uint64 (pos n) = n
to_uint64 (negsuc n) = 2 ^ 64 - (n + 1)

pub record KeyPair : Type 0 where
  pub private_key : Bytes
  pub public_key : Bytes

module _ ⦃ssl : OpenSsl⦄ where
  -- The transaction, with the signature that `crypto::sign` makes of a message and a private key.
  abbrev pub signed : (Bytes → Bytes → Bytes) → KeyPair → Bytes → ℕ → ℕ → ℕ → Transaction
  signed sign keys recipient amount fee nonce =
      let tx =
        Transaction.new (derive_address keys.public_key) recipient amount keys.public_key fee
          nonce in
      record tx { signature = sign (Transaction.serialize_for_signing tx) keys.private_key }

  -- `send` up to the second connection, from the text that the server answered to GETNONCE.
  unfoldable pub prepare :
      (Bytes → Bytes → Bytes) → KeyPair → Bytes → ℕ → ℕ → Bytes → Option Transaction
  prepare sign keys recipient amount fee nonce_str = elim (parse_number nonce_str) [
    | none ↦ none
    | some nonce ↦ some (signed sign keys recipient amount fee (to_uint64 nonce))
  ]

-- What `send` answers to the response.
abbrev pub is_sent : Bytes → Bool
is_sent response = bytes_eq (read_from response) (codes "OK")

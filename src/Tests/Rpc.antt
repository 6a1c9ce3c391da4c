-- ===== src/Tests/Rpc.antt =====
-- Theorems on the RPC server and the wallet at concrete inputs.
use forgechain.Prelude.{some, ◌^◌, ◌<◌, ◌≡◌, refl, [], ◌∷◌, ◌++◌, Bytes, codes, length, arith}
use forgechain.Prelude.Outcome.{ok, ◌>>=◌}
use forgechain.Crypto.{derive_address}
use forgechain.Crypto.Hex.{to_hex}
use forgechain.Core.Wire
use forgechain.Core.Wire.Laws.{IsBytes}
use forgechain.Core.Transaction
use forgechain.Core.Transaction.RoundTrip
use forgechain.Prelude.Dict.{lookup}
use forgechain.Chain.State
use forgechain.Chain.Queries.{next_nonce}
use forgechain.Network.Node.Handlers.{submit_transaction}
use forgechain.App.RpcServer.{is_space, handle_connection}
use forgechain.App.RpcServer.Words.{IsWord}
use forgechain.App.Wallet
use forgechain.App.Wallet.{KeyPair, prepare, signed, read_from}
use forgechain.App.Wallet.Exchange.{line_of, handle_connection-submit, prepare-handle_connection}
use forgechain.Tests.Toys.{toy_ssl, payment, alice_key, bob, all_bytes-IsBytes}
use forgechain.Tests.Rules.{toy_doubles}
use forgechain.Tests.Nodes.{node}

abbrev key : Bytes
key = codes "k"

key-IsWord : IsWord key
unfolding is_space
key-IsWord = (refl, tt)

payment-Fits : RoundTrip.Fits payment
unfolding derive_address to_hex
payment-Fits = record {
  sender = omega arith;
  recipient = omega arith;
  sender_public_key = omega arith;
  amount = omega arith;
  signature = omega arith;
  fee = omega arith;
  nonce = omega arith;
}

payment-IsBytes : IsBytes (Transaction.serialize payment)
unfolding Transaction.serialize Transaction.serialize_for_signing Wire.write_field Wire.to_le
    derive_address
payment-IsBytes = all_bytes-IsBytes (Transaction.serialize payment) refl

payment_line_is_short :
    length (line_of key (codes "SUBMITTX") (to_hex (Transaction.serialize payment))) < 4096
unfolding Transaction.serialize Transaction.serialize_for_signing Wire.write_field Wire.to_le
    derive_address to_hex
payment_line_is_short = omega arith

handle_connection-submit_example :
    handle_connection key (Wallet.submit key payment) node
    ≡ (submit_transaction payment node >>= λ done. ok (codes "OK" ++ 10 ∷ [], done.0, done.1))
handle_connection-submit_example =
    handle_connection-submit key payment node key-IsWord payment-Fits payment-IsBytes
      payment_line_is_short

abbrev keys : KeyPair
keys = record { private_key = 1 ∷ []; public_key = alice_key }

alice_is_new : next_nonce node.chain (derive_address alice_key) < 2 ^ 31
unfolding State.new lookup
alice_is_new = omega arith

-- A signature is the private key.
prepare-handle_connection_example :
    (response : Bytes) × (handle_connection key
        (Wallet.next_nonce key (derive_address alice_key))
        node
      ≡ ok (response, node, []))
    × (prepare (λ message secret. secret) keys bob 30 2 (read_from response)
        ≡ some (
            signed
              (λ message secret. secret)
              keys
              bob
              30
              2
              (next_nonce node.chain (derive_address alice_key))))
prepare-handle_connection_example =
    prepare-handle_connection (λ message secret. secret) keys bob 30 2 key node key-IsWord
      (omega arith) alice_is_new

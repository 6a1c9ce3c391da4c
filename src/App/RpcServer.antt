-- ===== src/App/RpcServer.antt =====
-- app/RpcServer.cpp: what the RPC server does with a line of text. The bytes of a connection are those
-- that `read_exact(…, 1)` reads before it first returns false.

pub mod Words
use forgechain.Prelude.{
  ℕ, zero, suc, ◌+◌, ◌/◌, ◌%◌, Bool, true, false, not, ◌&&◌, ◌||◌, Option, none, some, List, [],
  ◌∷◌, ◌++◌, Bytes, bytes_eq, codes, length, ltb, leb, ◌==◌, if◌then◌else◌,
}
use forgechain.Prelude.Outcome.{Outcome, ok, ◌>>=◌}
use forgechain.Crypto.{OpenSsl}
use forgechain.Crypto.Hex.{from_hex}
use forgechain.Core.Transaction
use forgechain.Core.Transaction.{Transaction}
use forgechain.Chain.Queries.{get_balance, next_nonce, chain_height}
use forgechain.Consensus.Difficulty.{Doubles}
use forgechain.Network.Node.State.{Node, Delivery}
use forgechain.Network.Node.Peers.{peer_count}
use forgechain.Network.Node.Handlers.{submit_transaction}

-- `std::isspace`
unfoldable pub is_space : ℕ → Bool
is_space b = b == b' ' || leb 9 b && leb b 13

unfoldable pub skip_spaces : Bytes → Bytes
skip_spaces [] = []
skip_spaces (b ∷ bs) = let rest = skip_spaces bs in if is_space b then rest else b ∷ bs

unfoldable pub take_word : Bytes → Bytes × Bytes
take_word [] = ([], [])
take_word (b ∷ bs) =
    let rest = take_word bs in if is_space b then ([], b ∷ bs) else (b ∷ rest.0, rest.1)

-- `iss >> word`: the word, empty if there is none, and what is left of the stream.
unfoldable pub read_word : Bytes → Bytes × Bytes
unfolding skip_spaces take_word
read_word bs = take_word (skip_spaces bs)

abbrev pub is_empty : Bytes → Bool
is_empty [] = true
is_empty (b ∷ bs) = false

-- `std::to_string` of an unsigned number of 64 bits, which has 20 digits at most.
unfoldable pub digits : ℕ → ℕ → Bytes
digits zero n = []
digits (suc k) n =
    let rest = digits k (n / 10) in
    if ltb n 10 then (b'0' + n) ∷ [] else rest ++ (b'0' + n % 10) ∷ []

abbrev pub to_string : ℕ → Bytes
to_string n = digits 20 n

-- A response, with the node after it and what the node sends.
abbrev pub Response : Type 0
Response = Outcome (Bytes × Node × List Delivery)

abbrev pub respond : Bytes → Node → Response
respond text node = ok (text, node, [])

module _ ⦃ssl : OpenSsl⦄ ⦃doubles : Doubles⦄ where
  unfoldable pub submit_hex : Bytes → Node → Response
  submit_hex hex node =
      if is_empty hex then respond (codes "ERROR_EMPTY_PAYLOAD") node else elim (from_hex hex) [
        | none ↦ respond (codes "ERROR_INVALID_HEX") node
        | some bytes ↦ elim (Transaction.deserialize bytes) [
          | none ↦ respond (codes "ERROR_INVALID_PAYLOAD") node
          | some tx ↦ submit_transaction tx node >>= λ done. ok (codes "OK", done.0, done.1)
        ]
      ]

  unfoldable pub get_balance_of : Bytes → Node → Response
  get_balance_of address node =
      if is_empty address
      then respond (codes "ERROR_EMPTY_ADDRESS") node
      else elim (get_balance node.chain address) [
        | none ↦ respond (codes "UNKNOWN") node
        | some balance ↦ respond (to_string balance) node
      ]

  unfoldable pub get_nonce_of : Bytes → Node → Response
  get_nonce_of address node =
      if is_empty address
      then respond (codes "ERROR_EMPTY_ADDRESS") node
      else respond (to_string (next_nonce node.chain address)) node

  -- The command, and the word behind it.
  unfoldable pub run_command : Bytes → Bytes → Node → Response
  unfolding submit_hex get_balance_of get_nonce_of
  run_command command word node =
      if bytes_eq command (codes "GETBALANCE")
      then get_balance_of word node
      else if bytes_eq command (codes "GETNONCE")
      then get_nonce_of word node
      else if bytes_eq command (codes "SUBMITTX")
      then submit_hex word node
      else if bytes_eq command (codes "HEIGHT")
      then respond (to_string (chain_height node.chain)) node
      else if bytes_eq command (codes "PEERS")
      then respond (to_string (peer_count node)) node
      else respond (codes "ERROR_UNKNOWN_COMMAND") node

  -- An empty key asks for no authorization. Where no word follows the key, `command` keeps it.
  unfoldable pub handle_command : Bytes → Bytes → Node → Response
  unfolding run_command read_word
  handle_command api_key line node =
      let first = read_word line in
      let second = read_word first.1 in
      if is_empty api_key
      then run_command first.0 second.0 node
      else if not (bytes_eq api_key first.0)
      then respond (codes "ERROR unauthorized") node
      else run_command (if is_empty second.0 then first.0 else second.0) (read_word second.1).0 node

-- The loop that reads a line, after those bytes of it: `none` if it is too long.
unfoldable pub receive_line : Bytes → Bytes → Option Bytes
receive_line line [] = some line
receive_line line (b ∷ bs) =
    let rest = receive_line (line ++ b ∷ []) bs in
    if leb 4096 (length line) then none else if b == 10 then some line else rest

module _ ⦃ssl : OpenSsl⦄ ⦃doubles : Doubles⦄ where
  -- The bytes that are sent back.
  unfoldable pub handle_connection : Bytes → Bytes → Node → Response
  unfolding handle_command receive_line
  handle_connection api_key bytes node = elim (receive_line [] bytes) [
    | none ↦ respond (codes "ERROR") node
    | some line ↦
        handle_command api_key line node >>= λ done. ok (done.0 ++ 10 ∷ [], done.1, done.2)
  ]

-- ===== src/Network/Message.antt =====
-- network/Message.hpp, network/Message.cpp: a message on a socket. `MessageType` is an
-- `enum class` over `uint8_t` and `receive_message` casts any byte to it, so it is a byte here.
pub mod Laws
use forgechain.Prelude.{
  ℕ, ◌*◌, ◌%◌, ◌^◌, Option, none, some, List, [], ◌∷◌, ◌++◌, Bytes, bytes_eq, length, ltb, not,
  if◌then◌else◌,
}
use forgechain.Core.Wire.{to_le, read_bytes, read_uint, ◌>>=◌}
use forgechain.Network.Socket
use forgechain.Network.Socket.{
  Arrival, Received, received, lost, read_exact, Departure, Sent, broken, send_exact, send_then,
}

abbrev pub magic_bytes : Bytes
magic_bytes = 0x46 ∷ 0x52 ∷ 0x47 ∷ 0x43 ∷ []

abbrev pub header_length : ℕ
header_length = 9

abbrev pub max_payload_size : ℕ
max_payload_size = 16 * 1024 * 1024

abbrev pub MessageType : Type 0
MessageType = ℕ

abbrev pub version : MessageType
version = 0

abbrev pub inv : MessageType
inv = 1

abbrev pub getdata : MessageType
getdata = 2

abbrev pub block : MessageType
block = 3

abbrev pub tx : MessageType
tx = 4

abbrev pub getblocks : MessageType
getblocks = 5

abbrev pub ping : MessageType
ping = 6

abbrev pub pong : MessageType
pong = 7

abbrev pub peers : MessageType
peers = 8

pub record Message : Type 0 where
  pub type : MessageType
  pub payload : Bytes

-- The payload's size, cast to `uint32_t`.
abbrev pub payload_length : Message → ℕ
payload_length m = length m.payload % 2 ^ 32

unfoldable pub header : Message → Bytes
header m = magic_bytes ++ m.type ∷ to_le 4 (payload_length m)

unfoldable pub send_message : Message → List Departure → Sent
unfolding header
send_message m departures =
    if ltb max_payload_size (payload_length m)
    then broken []
    else send_then (send_exact (header m) departures) (send_exact m.payload)

unfoldable pub check_header : Bytes → MessageType → ℕ → Option (MessageType × ℕ)
check_header magic type size =
    if not (bytes_eq magic magic_bytes)
    then none
    else if ltb max_payload_size size
    then none
    else some (type, size)

-- The type and the length that a header holds, if the magic bytes and the length are right.
unfoldable pub read_header : Bytes → Option (MessageType × ℕ)
unfolding check_header
read_header bs = do
  (magic, bs) ← read_bytes 4 bs
  (type, bs) ← read_uint 1 bs
  (size, bs) ← read_uint 4 bs
  check_header magic type size

unfoldable pub receive_payload : Option (MessageType × ℕ) → List Arrival → Received Message
receive_payload none arrivals = lost
receive_payload (some (type, size)) arrivals =
    Socket.◌>>=◌ (read_exact size arrivals)
      λ payload arrivals. received (record { type = type; payload = payload }) arrivals

unfoldable pub receive_message : List Arrival → Received Message
unfolding read_header receive_payload
receive_message arrivals =
    Socket.◌>>=◌ (read_exact header_length arrivals)
      λ bs arrivals. receive_payload (read_header bs) arrivals

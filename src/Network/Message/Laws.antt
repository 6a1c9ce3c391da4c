-- ===== src/Network/Message/Laws.antt =====
-- What is sent on a socket is received from it.
use mathlib.Core.List.{append_assoc}
use forgechain.Prelude.{
  ◌%◌, ◌^◌, ◌≤◌, ◌<◌, ◌≡◌, refl, ap, ◌∙◌, Bool-cases, inl, inr, some, List, ◌++◌, Bytes, bytes_eq,
  length, ltb, length-append, take-append, drop-append, arith,
}
use forgechain.Core.Wire.{to_le, from_le, read_bytes, read_uint}
use forgechain.Core.Wire.Laws.{from_le-to_le, length-to_le}
use forgechain.Network.Socket.{Arrival, received, read_exact, Departure, send_exact}
use forgechain.Network.Socket.Laws.{
  carried, read_exact-carried, FrontOf, send_exact-FrontOf, send_then-FrontOf,
}
use forgechain.Network.Message.{
  Message, header, payload_length, send_message, read_header, receive_payload, receive_message,
  max_payload_size, header_length,
}

-- The bytes of a message.
abbrev pub frame : Message → Bytes
frame m = header m ++ m.payload

pub record Fits (m : Message) : Type 0 where
  pub type : m.type < 256
  pub size : length m.payload ≤ max_payload_size

length-header : (m : Message) → length (header m) ≡ header_length
unfolding header
length-header m = omega (arith, length-to_le 4 (payload_length m))

read_header-header :
    (m : Message) → Fits m → read_header (header m) ≡ some (m.type, length m.payload)
unfolding read_header header read_bytes read_uint to_le from_le bytes_eq
read_header-header m h =
    let small : length m.payload % 2 ^ 32 ≡ length m.payload = omega (arith, h.size) in
    let back : from_le (to_le 4 (payload_length m)) ≡ payload_length m =
      from_le-to_le 4 (payload_length m) (omega arith) in
    ground arith

-- The first bytes of a stream, read.
read_exact-front :
    (bs rest : Bytes) (arrivals : List Arrival)
    → carried arrivals ≡ bs ++ rest
    → (left : List Arrival) × (read_exact (length bs) arrivals ≡ received bs left)
      × (carried left ≡ rest)
read_exact-front bs rest arrivals e =
    let (left, found, c) =
      read_exact-carried (length bs) arrivals (omega (arith, ap length e, length-append bs rest)) in
    (left, rw (e, take-append) at found, rw (e, drop-append) at c)

-- A message with a byte for its type and at most 16 MiB of payload is received, whatever the
-- chunks in which its bytes arrive, and the bytes behind it are left for the next call.
pub receive_message-frame :
    (m : Message) (rest : Bytes) (arrivals : List Arrival)
    → Fits m
    → carried arrivals ≡ frame m ++ rest
    → (left : List Arrival) × (receive_message arrivals ≡ received m left) × (carried left ≡ rest)
unfolding receive_message receive_payload
receive_message-frame m rest arrivals h e =
    let (left, found, c) =
      read_exact-front (header m) (m.payload ++ rest) arrivals
        (e ∙ append_assoc (header m) m.payload rest) in
    let (left', found', c') = read_exact-front m.payload rest left c in
    let found9 : read_exact 9 arrivals ≡ received (header m) left = rw (length-header m) at found in
    (left', rw (found9, read_header-header m h, found'), c')

-- A message that `send_message` sends has been handed over whole, header first; where it returns
-- false or blocks, a front of it has been.
pub send_message-FrontOf :
    (m : Message) (departures : List Departure) → FrontOf (frame m) (send_message m departures)
unfolding send_message
send_message-FrontOf m departures = elim (Bool-cases (ltb max_payload_size (payload_length m))) [
  | inl large ↦ rw large (frame m, refl)
  | inr fits ↦ rw fits (
      send_then-FrontOf (header m) m.payload (send_exact (header m) departures)
        (send_exact m.payload) (send_exact-FrontOf (header m) departures)
        (send_exact-FrontOf m.payload))
]

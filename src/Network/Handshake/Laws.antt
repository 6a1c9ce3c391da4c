-- ===== src/Network/Handshake/Laws.antt =====
-- Two nodes that shake hands learn one another's version.
use mathlib.Core.List.{append-nil}
use forgechain.Prelude.{
  ℕ, ◌+◌, ◌^◌, ◌<◌, ◌≡◌, ◌≢◌, refl, sym, ap, subst, Bool-cases, inl, inr, some, List, [], ◌++◌,
  Bytes, length, length-append, ◌==◌, ltb, take, drop, length-take, take-append-drop, ◌∙◌, false,
  arith,
}
use forgechain.Prelude.Outcome.{Outcome, ok, fault}
use forgechain.Core.Wire.{to_le, from_le, read_bytes, read_uint}
use forgechain.Core.Wire.Laws.{length-to_le, read_uint-append}
use forgechain.Network.Socket.{
  Arrival, Received, received, lost, waiting, Departure, Sent, sent, broken, stalled,
}
use forgechain.Network.Socket.Laws.{carried}
use forgechain.Network.Message.{Message, send_message, receive_message}
use forgechain.Network.Message.Laws.{frame, receive_message-frame}
use forgechain.Network.Handshake.{
  VersionInfo, serialize_version, read_version, deserialize_version, version_message,
  accept_version, after_sending, perform_handshake,
}

-- The widths of the fields.
pub record Fits (info : VersionInfo) : Type 0 where
  pub protocol_version : info.protocol_version < 2 ^ 32
  pub chain_height : info.chain_height < 2 ^ 64
  pub timestamp : info.timestamp < 2 ^ 64
  pub listen_port : info.listen_port < 2 ^ 16
  pub node_id : info.node_id < 2 ^ 64

length-serialize_version : (info : VersionInfo) → length (serialize_version info) ≡ 30
unfolding serialize_version
length-serialize_version info = omega (
  arith,
  length-append (to_le 4 info.protocol_version) (
      to_le 8 info.chain_height
      ++ (to_le 8 info.timestamp ++ (to_le 2 info.listen_port ++ to_le 8 info.node_id))),
  length-append (to_le 8 info.chain_height)
      (to_le 8 info.timestamp ++ (to_le 2 info.listen_port ++ to_le 8 info.node_id)),
  length-append (to_le 8 info.timestamp) (to_le 2 info.listen_port ++ to_le 8 info.node_id),
  length-append (to_le 2 info.listen_port) (to_le 8 info.node_id),
  length-to_le,
)

read_version-serialize_version :
    (info : VersionInfo) → Fits info → read_version (serialize_version info) ≡ some info
unfolding serialize_version read_version
read_version-serialize_version info h =
    let last : read_uint 8 (to_le 8 info.node_id) ≡ some (info.node_id, []) =
      subst (λ t. read_uint 8 t ≡ some (info.node_id, [])) (append-nil (to_le 8 info.node_id))
        (read_uint-append 8 info.node_id [] h.node_id) in
    rw (
      read_uint-append 4 info.protocol_version _ h.protocol_version,
      read_uint-append 8 info.chain_height _ h.chain_height,
      read_uint-append 8 info.timestamp _ h.timestamp,
      read_uint-append 2 info.listen_port _ h.listen_port,
      last,
    )

pub deserialize-serialize_version :
    (info : VersionInfo) → Fits info → deserialize_version (serialize_version info) ≡ ok info
unfolding deserialize_version
deserialize-serialize_version info h =
    rw (read_version-serialize_version info h, deserialize_version) refl

-- `n` bytes can be read where there are as many and `k` more.
read_uint_enough :
    (n k : ℕ) (bs : Bytes)
    → length bs ≡ n + k
    → (v : ℕ) × (rest : Bytes) × (read_uint n bs ≡ some (v, rest)) × (length rest ≡ k)
unfolding read_uint read_bytes
read_uint_enough n k bs h =
    let enough : ltb (length bs) n ≡ false = ground arith in
    let whole : length (take n bs) + length (drop n bs) ≡ length bs =
      sym (length-append (take n bs) (drop n bs)) ∙ ap length (take-append-drop n bs) in
    (from_le (take n bs), drop n bs, rw enough, omega (arith, length-take n bs (omega arith)))

read_version_total :
    (bs : Bytes) → length bs ≡ 30 → (info : VersionInfo) × (read_version bs ≡ some info)
unfolding read_version
read_version_total bs h =
    let (v1, r1, e1, h1) = read_uint_enough 4 26 bs h in
    let (v2, r2, e2, h2) = read_uint_enough 8 18 r1 h1 in
    let (v3, r3, e3, h3) = read_uint_enough 8 10 r2 h2 in
    let (v4, r4, e4, h4) = read_uint_enough 2 8 r3 h3 in
    let (v5, r5, e5, h5) = read_uint_enough 8 0 r4 h4 in
    (
      record {
        protocol_version = v1;
        chain_height = v2;
        timestamp = v3;
        listen_port = v4;
        node_id = v5;
      },
      rw (e1, e2, e3, e4, e5),
    )

accept_version-ne-fault : (answer : Received Message) → accept_version answer ≢ fault
unfolding accept_version deserialize_version
accept_version-ne-fault lost e = cc
accept_version-ne-fault waiting e = cc
accept_version-ne-fault (received m arrivals) e = elim (Bool-cases (length m.payload == 30)) [
  | inl whole ↦
      let (info, found) = read_version_total m.payload (ground arith) in ground (arith, found)
  | inr other ↦ ground arith
]

after_sending-ne-fault :
    (s : Sent) (answer : Outcome (Received VersionInfo))
    → answer ≢ fault
    → after_sending s answer ≢ fault
after_sending-ne-fault (sent bs departures) answer h e = h e
after_sending-ne-fault (broken bs) answer h e = cc
after_sending-ne-fault (stalled bs) answer h e = cc

-- Whatever arrives, `perform_handshake` reads nothing out of bounds.
pub perform_handshake-ne-fault :
    (info : VersionInfo) (departures : List Departure) (arrivals : List Arrival)
    → perform_handshake info departures arrivals ≢ fault
unfolding perform_handshake
perform_handshake-ne-fault info departures arrivals =
    after_sending-ne-fault (send_message (version_message info) departures)
      (accept_version (receive_message arrivals))
      (accept_version-ne-fault (receive_message arrivals))

-- A node that could send its version and to which the bytes of another node's VERSION message
-- arrive, in whatever chunks and with whatever behind them, has that node's version, and what is
-- behind is left for the next message.
pub perform_handshake-frame :
    (mine other : VersionInfo) (rest : Bytes) (departures : List Departure)
    (arrivals : List Arrival) {out : Bytes} {more : List Departure}
    → Fits other
    → send_message (version_message mine) departures ≡ sent out more
    → carried arrivals ≡ frame (version_message other) ++ rest
    → (left : List Arrival) × (perform_handshake mine departures arrivals
        ≡ ok (received other left))
      × (carried left ≡ rest)
unfolding perform_handshake accept_version version_message
perform_handshake-frame mine other rest departures arrivals h gone e =
    let (left, found, c) =
      receive_message-frame (version_message other) rest arrivals
        (record { type = omega arith; size = omega (arith, length-serialize_version other) }) e in
    (
      left,
      rw (gone, found, length-serialize_version other, deserialize-serialize_version other h),
      c,
    )

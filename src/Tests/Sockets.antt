-- ===== src/Tests/Sockets.antt =====
-- Theorems on sockets, messages and the handshake at concrete inputs.
use forgechain.Prelude.{◌≡◌, refl, List, [], ◌∷◌, ◌++◌, arith}
use forgechain.Prelude.Outcome.{ok}
use forgechain.Core.Wire.{to_le}
use forgechain.Network.Socket.{
  Arrival, chunk, timed_out, interrupted, received, Departure, took, sent, send_exact,
}
use forgechain.Network.Socket.Laws.{carried}
use forgechain.Network.Message
use forgechain.Network.Message.{Message, header, send_message, receive_message}
use forgechain.Network.Message.Laws.{frame, receive_message-frame}
use forgechain.Network.Handshake.{
  VersionInfo, serialize_version, version_message, perform_handshake,
}
use forgechain.Network.Handshake.Laws.{perform_handshake-frame}

abbrev pub ping : Message
ping = record { type = Message.ping; payload = [] }

-- A ping and one byte more, in two chunks, with a timeout and an interruption between.
abbrev pub ping_arrivals : List Arrival
ping_arrivals =
    chunk 0x46 (0x52 ∷ 0x47 ∷ [])
    ∷ timed_out
    ∷ interrupted
    ∷ chunk 0x43 (6 ∷ 0 ∷ 0 ∷ 0 ∷ 0 ∷ 9 ∷ [])
    ∷ []

ping_bytes : carried ping_arrivals ≡ frame ping ++ 9 ∷ []
unfolding carried header to_le
ping_bytes = refl

receive_message-frame_example :
    (left : List Arrival) × (receive_message ping_arrivals ≡ received ping left)
    × (carried left ≡ 9 ∷ [])
receive_message-frame_example =
    receive_message-frame ping (9 ∷ []) ping_arrivals
      (record { type = omega arith; size = omega arith }) ping_bytes

abbrev pub mine : VersionInfo
mine = record {
  protocol_version = 1;
  chain_height = 1;
  timestamp = 50;
  listen_port = 8333;
  node_id = 3;
}

abbrev pub other : VersionInfo
other = record mine { chain_height = 2; node_id = 4 }

-- The other's message in one chunk behind its first byte.
abbrev pub version_arrivals : List Arrival
version_arrivals =
    chunk 0x46 []
    ∷ chunk 0x52 (
        0x47 ∷ 0x43 ∷ 0 ∷ to_le 4 30
        ++ (to_le 4 1 ++ (to_le 8 2 ++ (to_le 8 50 ++ (to_le 2 8333 ++ to_le 8 4)))))
    ∷ []

abbrev pub departures : List Departure
departures = took 3 ∷ took 100 ∷ took 100 ∷ []

version_bytes : carried version_arrivals ≡ frame (version_message other) ++ []
unfolding carried header to_le version_message serialize_version
version_bytes = refl

pub mine_sent :
    send_message (version_message mine) departures ≡ sent (frame (version_message mine)) []
unfolding send_message send_exact header to_le version_message serialize_version
mine_sent = refl

perform_handshake-frame_example :
    (left : List Arrival) × (perform_handshake mine departures version_arrivals
      ≡ ok (received other left))
    × (carried left ≡ [])
perform_handshake-frame_example =
    perform_handshake-frame mine other [] departures version_arrivals
      (record {
        protocol_version = omega arith;
        chain_height = omega arith;
        timestamp = omega arith;
        listen_port = omega arith;
        node_id = omega arith;
      })
      mine_sent version_bytes

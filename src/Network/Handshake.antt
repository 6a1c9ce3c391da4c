-- ===== src/Network/Handshake.antt =====
-- network/Handshake.hpp, network/Handshake.cpp: the exchange of VERSION messages that opens a
-- connection.
pub mod Laws
use forgechain.Prelude.{ℕ, Option, none, some, ◌++◌, List, Bytes, length, ◌==◌, not, if◌then◌else◌}
use forgechain.Prelude.Outcome
use forgechain.Prelude.Outcome.{Outcome, ok, fault}
use forgechain.Core.Wire.{to_le, read_uint, ◌>>=◌}
use forgechain.Network.Socket.{
  Arrival, Received, received, lost, waiting, Departure, Sent, sent, broken, stalled,
}
use forgechain.Network.Message.{Message, version, send_message, receive_message}

pub record VersionInfo : Type 0 where
  pub protocol_version : ℕ
  pub chain_height : ℕ
  pub timestamp : ℕ
  pub listen_port : ℕ
  pub node_id : ℕ

abbrev pub expected_version_payload_size : ℕ
expected_version_payload_size = 30

unfoldable pub serialize_version : VersionInfo → Bytes
serialize_version info =
    to_le 4 info.protocol_version
    ++ (to_le 8 info.chain_height
        ++ (to_le 8 info.timestamp ++ (to_le 2 info.listen_port ++ to_le 8 info.node_id)))

read_version : Bytes → Option VersionInfo
read_version bs = do
  (protocol_version, bs) ← read_uint 4 bs
  (chain_height, bs) ← read_uint 8 bs
  (timestamp, bs) ← read_uint 8 bs
  (listen_port, bs) ← read_uint 2 bs
  (node_id, bs) ← read_uint 8 bs
  some (record {
    protocol_version = protocol_version;
    chain_height = chain_height;
    timestamp = timestamp;
    listen_port = listen_port;
    node_id = node_id;
  })

-- No size is checked: a payload that is too short is read out of bounds.
unfoldable pub deserialize_version : Bytes → Outcome VersionInfo
unfolding read_version
deserialize_version payload = elim (read_version payload) [ none ↦ fault | some info ↦ ok info ]

unfoldable pub version_message : VersionInfo → Message
version_message info = record { type = version; payload = serialize_version info }

-- The checks on the message that was received.
unfoldable pub accept_version : Received Message → Outcome (Received VersionInfo)
accept_version lost = ok lost
accept_version waiting = ok waiting
accept_version (received m arrivals) =
    if not (m.type == version)
    then ok lost
    else if not (length m.payload == expected_version_payload_size)
    then ok lost
    else Outcome.◌>>=◌ (deserialize_version m.payload) λ info. ok (received info arrivals)

abbrev after_sending : Sent → Outcome (Received VersionInfo) → Outcome (Received VersionInfo)
after_sending (sent bs departures) answer = answer
after_sending (broken bs) answer = ok lost
after_sending (stalled bs) answer = ok waiting

-- `lost` stands for the `nullopt` that is returned.
unfoldable pub perform_handshake :
    VersionInfo → List Departure → List Arrival → Outcome (Received VersionInfo)
unfolding version_message accept_version
perform_handshake info departures arrivals =
    after_sending (send_message (version_message info) departures)
      (accept_version (receive_message arrivals))

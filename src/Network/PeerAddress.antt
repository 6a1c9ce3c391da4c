-- ===== src/Network/PeerAddress.antt =====
-- network/PeerAddress.hpp, network/PeerAddress.cpp: an address of a peer, and the payload of a PEERS
-- message.
pub mod Laws
use forgechain.Prelude.{
  ℕ, zero, suc, ◌%◌, ◌^◌, Bool, ◌&&◌, Option, none, some, List, [], ◌∷◌, ◌++◌, Bytes, bytes_eq,
  length, ◌==◌,
}
use forgechain.Core.Wire.{to_le, read_uint, write_field, read_field, at_end, ◌>>=◌}

pub record PeerAddress : Type 0 where
  pub host : Bytes
  pub port : ℕ

-- Host and port are compared wherever two addresses are.
unfoldable pub same_address : PeerAddress → PeerAddress → Bool
same_address a b = bytes_eq a.host b.host && a.port == b.port

unfoldable pub serialize_peer_address : PeerAddress → Bytes
serialize_peer_address a = to_le 2 a.port ++ write_field a.host

unfoldable pub deserialize_peer_address : Bytes → Option PeerAddress
deserialize_peer_address payload = do
  (port, bs) ← read_uint 2 payload
  (host, bs) ← read_field bs
  at_end bs (record { host = host; port = port })

unfoldable pub serialize_addresses : List PeerAddress → Bytes
serialize_addresses [] = []
serialize_addresses (a ∷ as') = write_field (serialize_peer_address a) ++ serialize_addresses as'

unfoldable pub serialize_peer_list : List PeerAddress → Bytes
unfolding serialize_addresses
serialize_peer_list addresses = to_le 4 (length addresses % 2 ^ 32) ++ serialize_addresses addresses

unfoldable pub read_addresses : ℕ → Bytes → Option (List PeerAddress × Bytes)
read_addresses zero bs = some ([], bs)
read_addresses (suc n) bs = do
  (entry, bs) ← read_field bs
  address ← deserialize_peer_address entry
  (addresses, bs) ← read_addresses n bs
  some (address ∷ addresses, bs)

unfoldable pub deserialize_peer_list : Bytes → Option (List PeerAddress)
unfolding read_addresses
deserialize_peer_list payload = do
  (count, bs) ← read_uint 4 payload
  (addresses, bs) ← read_addresses count bs
  at_end bs addresses

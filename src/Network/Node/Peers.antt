-- ===== src/Network/Node/Peers.antt =====
-- network/Node.cpp: who a node is connected to. The test that `register_new_peer` makes on a second
-- connection to the same node, and the calls that read or trim the list of peers.
use forgechain.Prelude.{
  ℕ, ◌+◌, Bool, true, false, not, ◌&&◌, ◌||◌, Option, none, some, List, [], ◌∷◌, ◌++◌, Bytes,
  bytes_eq, get_elem?, length, ltb, leb, ◌==◌, if◌then◌else◌,
}
use forgechain.Network.Clock.{TimePoint}
use forgechain.Network.Message
use forgechain.Network.Message.{Message, MessageType}
use forgechain.Network.Handshake.{VersionInfo}
use forgechain.Network.PeerAddress.{PeerAddress, same_address, serialize_peer_list}
use forgechain.Network.AddressBook.{Inet, is_routable, reachable}
use forgechain.Network.Node.State.{
  Peer, PeerPtr, PeerEntry, Node, Delivery, alive_in, mark_dead, elapsed, ping_interval,
  ping_timeout,
}

abbrev pub deliver : PeerPtr → MessageType → Bytes → Delivery
deliver p type payload = record { to = p; message = record { type = type; payload = payload } }

-- The address under which a peer can be dialled.
abbrev pub address_of : Peer → PeerAddress
address_of peer = record { host = peer.host; port = peer.remote_version.listen_port }

-- A living peer with this host and this listening port.
abbrev pub is_at : Bytes → ℕ → Peer → Bool
is_at host port peer =
    peer.alive && bytes_eq peer.host host && peer.remote_version.listen_port == port

unfoldable pub at_in : List Peer → Bytes → ℕ → PeerPtr → Bool
at_in heap host port p = elim (get_elem? heap p) [ none ↦ false | some peer ↦ is_at host port peer ]

unfoldable pub connected_in : List Peer → Bytes → ℕ → List PeerEntry → Bool
unfolding at_in
connected_in heap host port [] = false
connected_in heap host port (entry ∷ entries) =
    at_in heap host port entry.peer || connected_in heap host port entries

unfoldable pub already_connected : Bytes → ℕ → Node → Bool
unfolding connected_in
already_connected host port node = connected_in node.heap host port node.peers

unfoldable pub count_outbound : List Peer → List PeerEntry → ℕ
count_outbound heap [] = 0
count_outbound heap (entry ∷ entries) =
    (if entry.is_outbound && alive_in heap entry.peer then 1 else 0) + count_outbound heap entries

unfoldable pub outbound_peer_count : Node → ℕ
unfolding count_outbound
outbound_peer_count node = count_outbound node.heap node.peers

abbrev pub peer_count : Node → ℕ
peer_count node = length node.peers

-- The first living peer of the list that listens at the same place; a peer that listens nowhere is
-- never the same as another.
unfoldable pub find_duplicate : List Peer → Bytes → ℕ → List PeerEntry → Option PeerPtr
unfolding at_in
find_duplicate heap host port [] = none
find_duplicate heap host port (entry ∷ entries) =
    if at_in heap host port entry.peer && not (port == 0)
    then some entry.peer
    else find_duplicate heap host port entries

-- `keep_new`: of two connections between two nodes, that which the node with the smaller id dialled
-- is kept.
unfoldable pub keep_new : ℕ → ℕ → Bool → Bool
keep_new my_id remote_id is_outbound = if ltb my_id remote_id then is_outbound else not is_outbound

-- The decision under the lock: whether the new connection is accepted, and the node without the
-- connection that it replaces.
unfoldable pub settle_duplicate : Bytes → VersionInfo → Bool → Node → Bool × Node
unfolding find_duplicate keep_new
settle_duplicate host incoming is_outbound node =
    elim (find_duplicate node.heap host incoming.listen_port node.peers) [
      | none ↦ (true, node)
      | some p ↦
          if keep_new node.info.node_id incoming.node_id is_outbound
          then (true, mark_dead p node)
          else (false, node)
    ]

-- `std::erase_if` of the cleaner.
unfoldable pub living : List Peer → List PeerEntry → List PeerEntry
living heap [] = []
living heap (entry ∷ entries) =
    let rest = living heap entries in if alive_in heap entry.peer then entry ∷ rest else rest

unfoldable pub remove_dead : Node → Node
unfolding living
remove_dead node = record node { peers = living node.heap node.peers }

-- The peers to whom something is broadcast.
unfoldable pub targets : (PeerPtr → Bool) → List Peer → List PeerEntry → List PeerPtr
targets wanted heap [] = []
targets wanted heap (entry ∷ entries) =
    let rest = targets wanted heap entries in
    if wanted entry.peer && alive_in heap entry.peer then entry.peer ∷ rest else rest

-- The sweep of the ping loop: peers that were silent too long are marked dead, those that were
-- silent for a while are pinged.
unfoldable pub sweep : TimePoint → List PeerEntry → Node → List Delivery × Node
sweep now [] node = ([], node)
sweep now (entry ∷ entries) node = elim (get_elem? node.heap entry.peer) [
  | none ↦ sweep now entries node
  | some peer ↦
      let rest = sweep now entries node in
      let without_peer = sweep now entries (mark_dead entry.peer node) in
      if not peer.alive
      then rest
      else if leb ping_timeout (elapsed now peer)
      then without_peer
      else if leb ping_interval (elapsed now peer)
      then (deliver entry.peer Message.ping [] ∷ rest.0, rest.1)
      else rest
]

unfoldable pub without : PeerAddress → List PeerAddress → List PeerAddress
unfolding same_address
without a [] = []
without a (b ∷ bs) = let rest = without a bs in if same_address b a then rest else b ∷ rest

module _ ⦃inet : Inet⦄ where
  unfoldable pub send_peer_list : PeerPtr → PeerAddress → Node → List Delivery
  unfolding without
  send_peer_list p a node = elim (without a (reachable (not (is_routable a)) node.address_book)) [
    | [] ↦ []
    | b ∷ bs ↦ deliver p Message.peers (serialize_peer_list (b ∷ bs)) ∷ []
  ]

  unfoldable pub gossip_to : Node → List PeerPtr → List Delivery
  unfolding send_peer_list
  gossip_to node [] = []
  gossip_to node (p ∷ ps) = elim (get_elem? node.heap p) [
    | none ↦ gossip_to node ps
    | some peer ↦ send_peer_list p (address_of peer) node ++ gossip_to node ps
  ]

  unfoldable pub gossip_peers : Node → List Delivery
  unfolding targets gossip_to
  gossip_peers node = gossip_to node (targets (λ _. true) node.heap node.peers)

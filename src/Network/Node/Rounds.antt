-- ===== src/Network/Node/Rounds.antt =====
-- network/Node.cpp: connecting, and one round of each loop, which is its body; whether `running_`
-- holds is not asked, so there are more steps here than the loops make. What the operating system
-- answers comes as arguments: the chunks that arrive on a socket, how much of a message it takes, and
-- whether a `connect` succeeds.
use forgechain.Prelude.{
  ℕ, ◌-◌, Bool, true, false, not, ◌&&◌, ◌||◌, Option, none, some, List, [], ◌∷◌, ◌++◌, Bytes,
  bytes_eq, codes, length, ltb, leb, ◌==◌, if◌then◌else◌,
}
use forgechain.Prelude.Outcome.{Outcome, ok, ◌>>=◌}
use forgechain.Crypto.{OpenSsl}
use forgechain.Consensus.Difficulty.{Doubles}
use forgechain.Chain.Queries.{chain_height}
use forgechain.Network.Clock.{TimePoint}
use forgechain.Network.Socket.{Arrival, received, lost, waiting, Departure}
use forgechain.Network.Message
use forgechain.Network.Message.{Message, receive_message}
use forgechain.Network.Handshake.{VersionInfo, perform_handshake}
use forgechain.Network.PeerAddress.{PeerAddress}
use forgechain.Network.AddressBook
use forgechain.Network.AddressBook.{Inet, is_routable, select_candidate, mark_success, mark_failure}
use forgechain.Network.Node.State.{
  PeerPtr, Node, Delivery, new_peer, mark_dead, touch, sync_interval, gossip_interval,
  target_outbound_peers,
}
use forgechain.Network.Node.Peers.{
  already_connected, outbound_peer_count, settle_duplicate, remove_dead, sweep, send_peer_list,
  gossip_peers,
}
use forgechain.Network.Node.Sync.{
  start_sync_state, request_blocks, request_sync, finish_sync_if_due,
}
use forgechain.Network.Node.Handlers.{
  handle_inv, handle_getdata, handle_block, handle_tx, handle_getblocks, handle_ping, handle_peers,
}

-- A connected socket: what it answers during the handshake, and what `send_msg` returns for the
-- request for blocks.
pub record Connection : Type 0 where
  pub departures : List Departure
  pub arrivals : List Arrival
  pub request_sent : Bool

-- A call's answer, if it has one yet, with the node and the messages that were sent.
abbrev pub Answer : Type 0
Answer = Outcome (Option Bool × Node × List Delivery)

-- The version that is sent: the node's own, with the height of its chain.
abbrev pub current_info : Node → VersionInfo
current_info node = record node.info { chain_height = chain_height node.chain }

-- The new peer at the end of the heap and of the list.
unfoldable pub push_peer : TimePoint → Bytes → VersionInfo → Bool → Node → Node
push_peer now host incoming is_outbound node = record node {
  heap = node.heap ++ new_peer now host incoming ∷ [];
  peers = node.peers ++ record { peer = length node.heap; is_outbound = is_outbound } ∷ [];
}

module _ ⦃inet : Inet⦄ where
  -- The address book learns of an accepted peer.
  unfoldable pub book_peer : TimePoint → PeerAddress → Bool → Node → Node
  book_peer now a is_outbound node =
      let book = node.address_book in
      record node {
        address_book =
            if is_outbound
            then mark_success now a (AddressBook.add now a true book).1
            else (AddressBook.add now a (not (is_routable a)) book).1;
      }

  -- `register_new_peer` once a peer is in the list: gossip, and a synchronisation if it is ahead.
  unfoldable pub welcome :
      TimePoint → Bytes → VersionInfo → Bool → Bool → Node → Outcome (Node × List Delivery)
  unfolding book_peer
  welcome now host incoming is_outbound request_sent node =
      let p = length node.heap in
      let a : PeerAddress = record { host = host; port = incoming.listen_port } in
      let node' = book_peer now a is_outbound (push_peer now host incoming is_outbound node) in
      let gossip = send_peer_list p a node' in
      if ltb (chain_height node.chain) incoming.chain_height
      then (request_blocks request_sent p (start_sync_state now p node') >>= λ done.
          ok (done.0, gossip ++ done.1))
      else ok (node', gossip)

  -- `register_new_peer` after the handshake.
  unfoldable pub admit_peer : TimePoint → Bytes → VersionInfo → Bool → Bool → Node → Answer
  unfolding welcome
  admit_peer now host incoming is_outbound request_sent node =
      if node.info.node_id == incoming.node_id
      then ok (some false, node, [])
      else if node.stopping
      then ok (some false, node, [])
      else let settled = settle_duplicate host incoming is_outbound node in
        if settled.0
        then (welcome now host incoming is_outbound request_sent settled.1 >>= λ done.
            ok (some true, done.0, done.1))
        else ok (some false, settled.1, [])

  -- `none` for the socket stands for one that is not valid; an answer `none` for a handshake that is
  -- not over.
  unfoldable pub register_new_peer : TimePoint → Option Connection → Bytes → Bool → Node → Answer
  unfolding admit_peer
  register_new_peer now none host is_outbound node = ok (some false, node, [])
  register_new_peer now (some c) host is_outbound node =
      perform_handshake (current_info node) c.departures c.arrivals >>= λ answer. elim answer [
        | received incoming arrivals ↦ admit_peer now host incoming is_outbound c.request_sent node
        | lost ↦ ok (some false, node, [])
        | waiting ↦ ok (none, node, [])
      ]

  -- `none` for the host: `get_peer_ip` failed.
  unfoldable pub accept_one_peer : TimePoint → Option Connection → Option Bytes → Node → Answer
  unfolding register_new_peer
  accept_one_peer now socket none node = ok (some false, node, [])
  accept_one_peer now socket (some host) node = register_new_peer now socket host false node

  abbrev pub is_own_host : Bytes → Bool
  is_own_host host =
      bytes_eq host (codes "127.0.0.1")
      || bytes_eq host (codes "localhost")
      || bytes_eq host (codes "0.0.0.0")

  unfoldable pub connect_to_peer : TimePoint → Option Connection → Bytes → ℕ → Node → Answer
  unfolding register_new_peer
  connect_to_peer now socket host port node =
      if port == node.listen_port && is_own_host host
      then ok (some false, node, [])
      else if already_connected host port node
      then ok (some true, node, [])
      else register_new_peer now socket host true (record node {
        address_book =
            (AddressBook.add now (record { host = host; port = port }) true node.address_book).1;
      })

  abbrev pub report : TimePoint → PeerAddress → Bool → Node → Node
  report now a success node = record node {
    address_book =
        if success
        then mark_success now a node.address_book
        else mark_failure now a node.address_book;
  }

  -- The body of the connect loop for a candidate; the answer is whether the loop goes on.
  unfoldable pub dial : TimePoint → Option Connection → PeerAddress → Node → Answer
  dial now socket a node =
      if already_connected a.host a.port node
      then ok (some true, report now a (elim socket [ none ↦ false | some c ↦ true ]) node, [])
      else register_new_peer now socket a.host true node >>= λ answer. elim answer.0 [
        | none ↦ ok answer
        | some connected ↦ ok (some true, report now a connected answer.1, answer.2)
      ]

  unfoldable pub connect_step : TimePoint → Option Connection → Node → Answer
  unfolding dial
  connect_step now socket node =
      if leb target_outbound_peers (outbound_peer_count node)
      then ok (some false, node, [])
      else let found = select_candidate now node.address_book in
        let node' = record node { address_book = found.1 } in
        elim found.0 [ none ↦ ok (some false, node', []) | some a ↦ dial now socket a node' ]

module _ ⦃ssl : OpenSsl⦄ ⦃doubles : Doubles⦄ where
  -- A round of the cleaner.
  unfoldable pub clean : TimePoint → ℕ → Node → Outcome Node
  clean now date node = finish_sync_if_due now date (remove_dead node)

module _ ⦃inet : Inet⦄ where
  unfoldable pub sync_round : TimePoint → Bool → Node → Outcome (Node × List Delivery)
  sync_round now sent node =
      if leb sync_interval (now - node.last_sync)
      then (request_sync now sent node >>= λ asked.
          ok (record asked.0 { last_sync = now }, asked.1))
      else ok (node, [])

  -- A round of the ping loop, with the time of the last gossip.
  unfoldable pub ping :
      TimePoint → TimePoint → Bool → Node → Outcome (TimePoint × Node × List Delivery)
  unfolding sync_round
  ping now last_gossip sent node =
      let swept = sweep now node.peers node in
      sync_round now sent swept.1 >>= λ asked.
      let due = leb gossip_interval (now - last_gossip) in
      ok (
        if due then now else last_gossip,
        asked.0,
        swept.0 ++ asked.1 ++ (if due then gossip_peers asked.0 else []),
      )

-- `start`, once the listener listens.
abbrev pub start : Node → Node
start node = record node { running = true; stopping = false }

unfoldable pub stop : Node → Node
stop node = record node { running = false; stopping = true; peers = [] }

module _ ⦃ssl : OpenSsl⦄ ⦃doubles : Doubles⦄ ⦃inet : Inet⦄ where
  -- The switch of a peer's loop.
  unfoldable pub dispatch :
      TimePoint → ℕ → PeerPtr → Message → Node → Outcome (Node × List Delivery)
  dispatch now date p m node =
      if m.type == Message.inv
      then ok (node, handle_inv p m.payload node)
      else if m.type == Message.getdata
      then ok (node, handle_getdata p m.payload node)
      else if m.type == Message.block
      then handle_block now date p m.payload node
      else if m.type == Message.tx
      then handle_tx p m.payload node
      else if m.type == Message.getblocks
      then ok (node, handle_getblocks p m.payload node)
      else if m.type == Message.ping
      then ok (node, handle_ping p)
      else if m.type == Message.pong
      then ok (node, [])
      else if m.type == Message.peers
      then ok (handle_peers now p m.payload node, [])
      else ok (node, [])

  -- A round of a peer's loop; nothing happens while its message is not whole.
  unfoldable pub peer_round :
      TimePoint → ℕ → PeerPtr → List Arrival → Node → Outcome (Node × List Delivery)
  unfolding dispatch
  peer_round now date p arrivals node = elim (receive_message arrivals) [
    | received m left ↦ dispatch now date p m (touch now p node)
    | lost ↦ ok (mark_dead p node, [])
    | waiting ↦ ok (node, [])
  ]

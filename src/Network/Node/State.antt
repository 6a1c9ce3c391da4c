-- ===== src/Network/Node/State.antt =====
-- network/Peer.hpp, network/Heartbeat.hpp, network/Node.hpp: the state of a node. A `Peer` object is
-- shared by the list of peers, its worker thread and the synchronisation, so the objects stand in a
-- heap, and a `shared_ptr` is the place of its object there. Sockets and threads are left out.
use forgechain.Prelude.{
  ℕ, zero, suc, ◌-◌, ◌/◌, Bool, true, false, Option, none, some, List, [], ◌∷◌, Bytes, get_elem?,
}
use forgechain.Core.Block.{Block}
use forgechain.Chain.State.{ChainManager}
use forgechain.Network.Clock.{TimePoint, seconds, milliseconds}
use forgechain.Network.Message.{Message}
use forgechain.Network.Handshake.{VersionInfo}
use forgechain.Network.AddressBook
use forgechain.Network.AddressBook.{AddressBook}

-- `last_seen` is the field of its `Heartbeat`.
pub record Peer : Type 0 where
  pub host : Bytes
  pub remote_version : VersionInfo
  pub alive : Bool
  pub last_seen : TimePoint

abbrev pub PeerPtr : Type 0
PeerPtr = ℕ

pub record PeerEntry : Type 0 where
  pub peer : PeerPtr
  pub is_outbound : Bool

pub record SyncState : Type 0 where
  pub active : Bool
  pub peer : Option PeerPtr
  pub buffer : List Block
  pub last_block : TimePoint

-- `SyncState{}`
abbrev pub no_sync : SyncState
no_sync = record { active = false; peer = none; buffer = []; last_block = 0 }

pub record Node : Type 0 where
  pub listen_port : ℕ
  pub info : VersionInfo
  pub chain : ChainManager
  pub heap : List Peer
  pub peers : List PeerEntry
  pub sync_state : SyncState
  pub last_sync : TimePoint
  pub sync_cursor : ℕ
  pub running : Bool
  pub stopping : Bool
  pub address_book : AddressBook

-- The constructor, at a time.
abbrev pub new : TimePoint → ℕ → VersionInfo → ChainManager → Node
new now listen_port info chain = record {
  listen_port = listen_port;
  info = info;
  chain = chain;
  heap = [];
  peers = [];
  sync_state = no_sync;
  last_sync = now;
  sync_cursor = 0;
  running = false;
  stopping = false;
  address_book = AddressBook.new;
}

abbrev pub ping_interval : ℕ
ping_interval = 5

abbrev pub ping_timeout : ℕ
ping_timeout = 40

abbrev pub sync_interval : ℕ
sync_interval = seconds 8

abbrev pub sync_idle_timeout : ℕ
sync_idle_timeout = milliseconds 300

abbrev pub gossip_interval : ℕ
gossip_interval = seconds 30

abbrev pub target_outbound_peers : ℕ
target_outbound_peers = 8

abbrev pub max_blocks_per_response : ℕ
max_blocks_per_response = 2000

-- `Peer::Peer`
abbrev pub new_peer : TimePoint → Bytes → VersionInfo → Peer
new_peer now host remote_version = record {
  host = host;
  remote_version = remote_version;
  alive = true;
  last_seen = now;
}

-- `peer->is_alive()`
abbrev pub alive_in : List Peer → PeerPtr → Bool
alive_in heap p = elim (get_elem? heap p) [ none ↦ false | some peer ↦ peer.alive ]

unfoldable pub update_peer : (Peer → Peer) → PeerPtr → List Peer → List Peer
update_peer f p [] = []
update_peer f zero (peer ∷ heap) = f peer ∷ heap
update_peer f (suc p) (peer ∷ heap) = peer ∷ update_peer f p heap

-- `peer->mark_dead()` and `peer->touch()`
abbrev pub mark_dead : PeerPtr → Node → Node
mark_dead p node = record node {
  heap = update_peer (λ peer. record peer { alive = false }) p node.heap;
}

abbrev pub touch : TimePoint → PeerPtr → Node → Node
touch now p node = record node {
  heap = update_peer (λ peer. record peer { last_seen = now }) p node.heap;
}

-- `Heartbeat::elapsed`, in whole seconds.
abbrev pub elapsed : TimePoint → Peer → ℕ
elapsed now peer = (now - peer.last_seen) / seconds 1

-- A call of `send_msg`.
pub record Delivery : Type 0 where
  pub to : PeerPtr
  pub message : Message

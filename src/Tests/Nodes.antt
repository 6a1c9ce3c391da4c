-- ===== src/Tests/Nodes.antt =====
-- Theorems on nodes at concrete inputs.
use forgechain.Prelude.{
  Bool, ◌≡◌, refl, true, false, not, none, some, List, [], ◌∷◌, ◌++◌, map, bytes_eq, replicate,
  get_elem?, arith,
}
use forgechain.Prelude.Dict.{lookup, insert}
use forgechain.Prelude.Outcome.{ok, ◌>>=◌, After}
use forgechain.Crypto.{sha256, double_sha_256}
use forgechain.Core.Wire
use forgechain.Core.Block
use forgechain.Core.Block.{Block}
use forgechain.Core.Block.RoundTrip.{received}
use forgechain.Core.Blockchain
use forgechain.Core.Blockchain.{Blockchain, find_height}
use forgechain.Core.BlockLocator.{build_locator, locator_heights, hashes_at}
use forgechain.Consensus.Params.{test_params}
use forgechain.Chain.State
use forgechain.Chain.State.{ChainManager}
use forgechain.Chain.Invariant
use forgechain.Chain.Queries.{has_block, find_block}
use forgechain.Network.Handshake
use forgechain.Network.Socket
use forgechain.Network.Node.Sync
use forgechain.Network.AddressBook
use forgechain.Network.GetBlocks
use forgechain.Network.Node.Peers
use forgechain.Network.Node.Rounds
use forgechain.Network.PeerAddress
use forgechain.Network.Clock.{seconds}
use forgechain.Network.Message
use forgechain.Network.Message.{send_message, header}
use forgechain.Network.Socket.{took, sent, send_exact, timed_out}
use forgechain.Network.Handshake.{VersionInfo, version_message, serialize_version}
use forgechain.Network.GetBlocks.{serialize_getblocks}
use forgechain.Network.Node.State as NodeState
use forgechain.Network.Node.State.{Peer, PeerPtr, PeerEntry, SyncState, Node, Delivery, new_peer}
use forgechain.Network.Node.Peers.{deliver, find_duplicate, settle_duplicate, at_in, sweep, targets}
use forgechain.Network.Node.Sync.{sync_is_due, finish_sync_if_due}
use forgechain.Network.Node.Handlers.{
  handle_inv, handle_getdata, handle_block, send_blocks, syncs_with, take_block, report_block,
}
use forgechain.Network.Node.Rounds.{Connection, stop, accept_one_peer, start, current_info}
use forgechain.Network.Node.Relay.{announce, relay}
use forgechain.Network.Node.Exchange.{handle_blocks, handle_blocks-collects}
use forgechain.Network.Node.Finish.{Finished, finish_sync_if_due-Finished}
use forgechain.Network.Node.Crossing.{Settles, settle_duplicate-agrees}
use forgechain.Network.Node.Silence.{is_listed, survives, sweep-survives}
use forgechain.Network.Node.Stall.{accept_one_peer-stalls}
use forgechain.Network.Node.Invariant.{IsValid}
use forgechain.Network.Node.Invariant.Reach.{
  Reach, here, next, starts, accepts, stops, Reach-IsValid,
}
use forgechain.Tests.Toys.{toy_ssl, genesis, chain}
use forgechain.Tests.Rules.{toy_doubles}
use forgechain.Tests.Chain.{new-IsIndexed, genesis-Fits}
use forgechain.Tests.Pools.{empty_pool-IsValid}
use forgechain.Tests.Sockets.{mine, other, version_arrivals, departures, mine_sent}
use forgechain.Tests.Book.{toy_inet}

abbrev manager : ChainManager
manager = State.new 2 test_params none

abbrev pub node : Node
node = NodeState.new 0 8333 mine manager

manager-IsSound : Invariant.IsSound manager
unfolding State.new Blockchain.new
manager-IsSound = record {
  weighed = (refl, tt);
  orphans = record { valid = empty_pool-IsValid 1000; room = omega arith };
  pending = record { sorted = tt; distinct = tt; authentic = tt; bounded = omega arith };
}

-- The genesis block from one node to another that does not have it.
abbrev empty_node : Node
empty_node = record node {
  chain = record manager { blockchain = record { blocks = []; height_by_hash = [] } };
}

genesis_there : find_block manager genesis.hash ≡ some genesis
unfolding State.new Blockchain.new find_block Blockchain.find find_height lookup bytes_eq Block.new
    double_sha_256 sha256 Block.merkle_bytes Block.serialize Block.serialize_transactions
    Block.compute_hash Wire.to_le insert
genesis_there = refl

genesis_lacking : has_block empty_node.chain genesis.hash ≡ false
unfolding lookup
genesis_lacking = refl

relay_example :
    (handle_inv 0 (announce genesis.hash) empty_node
      ≡ deliver 0 Message.getdata (announce genesis.hash) ∷ [])
    × (handle_getdata 1 (announce genesis.hash) node
        ≡ deliver 1 Message.block (Block.serialize genesis) ∷ [])
    × (handle_block 5 20 0 (Block.serialize genesis) empty_node ≡ (
        take_block 20 (received genesis) empty_node >>= λ done.
        ok (done.1, report_block 0 done.0 done.1)))
unfolding Block.new double_sha_256 sha256 Block.merkle_bytes Block.serialize Block.compute_hash
    syncs_with Wire.to_le
relay_example =
    relay node empty_node 0 1 genesis genesis.hash 5 20 refl genesis-Fits genesis_there
      genesis_lacking refl

-- A node that synchronises with its peer 0.
abbrev syncing : Node
syncing = record node {
  heap = new_peer 0 (49 ∷ []) other ∷ [];
  peers = record { peer = 0; is_outbound = true } ∷ [];
  sync_state = record { active = true; peer = some 0; buffer = []; last_block = 0 };
}

handle_blocks-collects_example :
    (node' : Node) × (handle_blocks 5 20 0 (send_blocks 3 (genesis ∷ [])) syncing ≡ ok node')
    × (node'.sync_state.buffer ≡ [] ++ map received (genesis ∷ []))
    × (node'.chain ≡ manager)
    × (syncs_with 0 node' ≡ true)
unfolding syncs_with
handle_blocks-collects_example =
    handle_blocks-collects 5 20 0 3 (genesis ∷ []) syncing (genesis-Fits, tt) refl

finish_sync_if_due-Finished_example :
    After
      (Finished (sync_is_due (seconds 1) syncing) syncing)
      (finish_sync_if_due (seconds 1) 20 syncing)
finish_sync_if_due-Finished_example =
    finish_sync_if_due-Finished (seconds 1) 20 syncing (unfold State.new in new-IsIndexed)

-- Nodes 3 and 4, each with a connection to the other.
abbrev left : Node
left = syncing

abbrev right : Node
right = record node { info = other; heap = new_peer 0 (50 ∷ []) mine ∷ []; peers = left.peers }

settle_duplicate-agrees_example :
    (first_wins : Bool) × Settles 0 left (settle_duplicate (49 ∷ []) other true left) first_wins
    × Settles 0 right (settle_duplicate (50 ∷ []) mine false right) first_wins
    × Settles 0 left (settle_duplicate (49 ∷ []) other false left) (not first_wins)
    × Settles 0 right (settle_duplicate (50 ∷ []) mine true right) (not first_wins)
unfolding find_duplicate at_in bytes_eq
settle_duplicate-agrees_example =
    settle_duplicate-agrees left right (50 ∷ []) (49 ∷ []) mine other refl refl (omega arith) refl
      refl

sweep-survives_example :
    get_elem? (sweep (seconds 41) syncing.peers syncing).1.heap 0
    ≡ some (record (new_peer 0 (49 ∷ []) other) {
      alive = survives (seconds 41) (is_listed 0 syncing.peers) (new_peer 0 (49 ∷ []) other);
    })
sweep-survives_example =
    sweep-survives (seconds 41) syncing.peers syncing 0 (new_peer 0 (49 ∷ []) other) refl

-- A client that is silent for three timeouts.
abbrev silent_client : Connection
silent_client = record {
  departures = departures;
  arrivals = replicate 3 timed_out;
  request_sent = true;
}

accept_one_peer-stalls_example :
    accept_one_peer 5 (some silent_client) (some (49 ∷ [])) node ≡ ok (none, node, [])
unfolding version_message send_message State.new Blockchain.new
accept_one_peer-stalls_example =
    accept_one_peer-stalls 5 silent_client (49 ∷ []) node 3 (mine_sent) refl

-- One that asks and one that answers, with the genesis block and one more.
abbrev answering : Node
answering = node

abbrev asking : Node
asking = record node { chain = record manager { blockchain = chain } }

-- A node that starts, accepts a client that has a longer chain, and asks it for blocks.
abbrev client : Connection
client = record { departures = departures; arrivals = version_arrivals; request_sent = true }

accepted :
    (node' : Node) × (deliveries : List Delivery) × (accept_one_peer 5
        (some client)
        (some (49 ∷ []))
        (start node)
      ≡ ok (some true, node', deliveries))
unfolding accept_one_peer Handshake.perform_handshake Message.send_message
    Handshake.serialize_version Wire.to_le Socket.send_exact Message.receive_message
    Socket.read_exact Wire.read_bytes Wire.read_uint bytes_eq Wire.from_le
    Handshake.deserialize_version settle_duplicate State.new Blockchain.new Sync.request_blocks
    Sync.start_sync_state Block.compute_hash Block.merkle_bytes Block.new Block.serialize
    Block.serialize_transactions build_locator hashes_at locator_heights Blockchain.at
    double_sha_256 sha256 AddressBook.add AddressBook.c_str AddressBook.change AddressBook.find
    AddressBook.is_routable AddressBook.mark_success AddressBook.octets_routable
    AddressBook.reachable AddressBook.reachable_entries GetBlocks.concat serialize_getblocks
    Handshake.accept_version Handshake.version_message Message.check_header Message.header
    Message.read_header Message.receive_payload at_in find_duplicate Peers.keep_new
    Peers.send_peer_list Peers.without Rounds.admit_peer Rounds.book_peer Rounds.push_peer
    Rounds.register_new_peer Rounds.welcome NodeState.update_peer Sync.reset_sync_state
    PeerAddress.same_address PeerAddress.serialize_addresses PeerAddress.serialize_peer_address
    PeerAddress.serialize_peer_list Socket.leave insert
accepted = (_, _, refl)

lived : Reach node (stop accepted.0)
lived = next (next (next here starts) (accepts 5 (some client) (some (49 ∷ [])) accepted.2)) stops

Reach-IsValid_example : IsValid (stop accepted.0)
Reach-IsValid_example = Reach-IsValid 0 8333 mine manager (stop accepted.0) manager-IsSound lived

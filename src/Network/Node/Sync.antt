-- ===== src/Network/Node/Sync.antt =====
-- network/Node.cpp: the synchronisation with one peer at a time. `now` is the steady clock, `date`
-- the system clock that the chain reads.
use forgechain.Prelude.{
  ℕ, ◌-◌, ◌%◌, Bool, true, false, not, ◌&&◌, ◌||◌, Option, none, some, List, [], ◌∷◌, ◌++◌,
  get_elem?, length, ltb, leb, add64, if◌then◌else◌,
}
use forgechain.Prelude.Outcome.{Outcome, ok, ◌>>=◌}
use forgechain.Crypto.{OpenSsl}
use forgechain.Core.Block.{Block}
use forgechain.Consensus.Difficulty.{Doubles}
use forgechain.Chain.Queries.{chain_height, locator}
use forgechain.Chain.Submit
use forgechain.Network.Clock.{TimePoint}
use forgechain.Network.Message
use forgechain.Network.GetBlocks.{serialize_getblocks}
use forgechain.Network.Node.State.{
  Peer, PeerPtr, no_sync, Node, Delivery, alive_in, sync_idle_timeout, max_blocks_per_response,
}
use forgechain.Network.Node.Peers.{deliver, targets}

unfoldable pub start_sync_state : TimePoint → PeerPtr → Node → Bool × Node
start_sync_state now p node = if node.sync_state.active then (false, node) else (
  true,
  record node {
    sync_state = record { active = true; peer = some p; buffer = []; last_block = now };
  },
)

unfoldable pub reset_sync_state : Node → Node
reset_sync_state node = record node { sync_state = no_sync }

-- The message that asks a peer for the blocks after the chain's locator; `sent` is what `send_msg`
-- returns for it.
unfoldable pub request_blocks : Bool → PeerPtr → Bool × Node → Outcome (Node × List Delivery)
unfolding reset_sync_state
request_blocks sent p (false, node) = ok (node, [])
request_blocks sent p (true, node) = locator node.chain >>= λ hashes. ok (
  if sent then node else reset_sync_state node,
  deliver p Message.getblocks (serialize_getblocks hashes) ∷ [],
)

-- A peer that had a longer chain when it connected.
abbrev pub is_ahead : ℕ → List Peer → PeerPtr → Bool
is_ahead my_height heap p = elim (get_elem? heap p) [
  | none ↦ false
  | some peer ↦ ltb my_height peer.remote_version.chain_height
]

unfoldable pub ask_one : TimePoint → Bool → List PeerPtr → Node → Outcome (Node × List Delivery)
unfolding start_sync_state request_blocks
ask_one now sent candidates node =
    elim (get_elem? candidates (node.sync_cursor % length candidates)) [
      | none ↦ ok (node, [])
      | some p ↦
          request_blocks sent p
            (start_sync_state now p (record node { sync_cursor = add64 node.sync_cursor 1 }))
    ]

unfoldable pub request_sync : TimePoint → Bool → Node → Outcome (Node × List Delivery)
unfolding targets ask_one
request_sync now sent node =
    ask_one now sent (targets (is_ahead (chain_height node.chain) node.heap) node.heap node.peers)
      node

-- Whether the peer is gone or has been silent for longer than the timeout.
unfoldable pub sync_is_due : TimePoint → Node → Bool
sync_is_due now node =
    let peer_dead : Bool = elim node.sync_state.peer [
      | none ↦ true
      | some p ↦ not (alive_in node.heap p)
    ] in
    let timed_out = ltb sync_idle_timeout (now - node.sync_state.last_block) in
    node.sync_state.active && (peer_dead || timed_out)

-- What `handle_block` does with a block from the peer that the node is synchronising with.
unfoldable pub buffer_block : TimePoint → Option Block → Node → Node
buffer_block now none node = node
buffer_block now (some b) node =
    let buffer = node.sync_state.buffer ++ b ∷ [] in
    record node {
      sync_state = record node.sync_state {
        buffer = buffer;
        last_block =
            if leb max_blocks_per_response (length buffer) then now - sync_idle_timeout else now;
      };
    }

module _ ⦃ssl : OpenSsl⦄ ⦃doubles : Doubles⦄ where
  -- `adopt_branch` with the blocks that were buffered.
  unfoldable pub adopt_buffer : ℕ → List Block → Node → Outcome Node
  adopt_buffer date [] node = ok node
  adopt_buffer date (b ∷ bs) node = Submit.adopt_branch date (b ∷ bs) node.chain >>= λ adopted.
      ok (record node { chain = adopted.1 })

  unfoldable pub finish_sync_if_due : TimePoint → ℕ → Node → Outcome Node
  unfolding sync_is_due adopt_buffer
  finish_sync_if_due now date node =
      if sync_is_due now node
      then adopt_buffer date node.sync_state.buffer (record node { sync_state = no_sync })
      else ok node

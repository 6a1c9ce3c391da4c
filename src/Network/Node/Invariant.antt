-- ===== src/Network/Node/Invariant.antt =====
-- What each call of a node keeps: the pools and the cumulative work of its chain, one living peer for
-- a place, one entry for an address, and a synchronisation that is either off or has a peer.
pub mod Calls
pub mod Register
pub mod Rounds
pub mod Reach
use forgechain.Prelude.{
  ℕ, ◌+◌, ◌-◌, ◌≡◌, ◌≢◌, refl, sym, ap, subst, Bool, true, false, not, ◌&&◌, ◌||◌, Bool-cases, inl,
  inr, Option-cases, Option, none, some, List, [], ◌∷◌, ◌++◌, Bytes, get_elem?, length, leb, ltb,
  ◌==◌, if◌then◌else◌, ◌%◌, add64, arith,
}
use forgechain.Prelude.Outcome.{
  Outcome, ok, fault, ◌>>=◌, After, After->>=, After-then, on_branches, Outcome-cases,
}
use forgechain.Crypto.{OpenSsl}
use forgechain.Core.Transaction
use forgechain.Core.Transaction.{Transaction}
use forgechain.Core.Block
use forgechain.Core.Block.{Block}
use forgechain.Consensus.Difficulty.{Doubles}
use forgechain.Chain.State.{ChainManager, BlockOutcome}
use forgechain.Chain.Queries.{chain_height, locator}
use forgechain.Chain.Submit
use forgechain.Chain.Invariant.{IsSound}
use forgechain.Chain.Invariant.Calls.{
  submit_block-Keeps, submit_transaction-Keeps, adopt_branch-Keeps,
}
use forgechain.Network.Clock.{TimePoint}
use forgechain.Network.Socket.{Arrival, Received, received, lost, waiting}
use forgechain.Network.Message.{Message, receive_message}
use forgechain.Network.Handshake.{VersionInfo, perform_handshake}
use forgechain.Network.PeerAddress.{PeerAddress}
use forgechain.Network.AddressBook
use forgechain.Network.AddressBook.{Inet, AddressBook}
use forgechain.Network.AddressBook.Valid
use forgechain.Network.AddressBook.Valid.{
  add-IsValid, mark_success-IsValid, mark_failure-IsValid, select_candidate-IsValid,
}
use forgechain.Network.Node.State.{
  Peer, PeerPtr, PeerEntry, SyncState, no_sync, Node, Delivery, new_peer, mark_dead, touch, elapsed,
  ping_timeout, ping_interval,
}
use forgechain.Network.Node.Peers.{
  already_connected, outbound_peer_count, settle_duplicate, remove_dead, sweep,
}
use forgechain.Network.Node.Sync.{
  start_sync_state, reset_sync_state, request_blocks, ask_one, request_sync, sync_is_due,
  adopt_buffer, finish_sync_if_due, buffer_block,
}
use forgechain.Network.Node.Handlers.{
  syncs_with, take_block, handle_block, submit_block, take_transaction, handle_tx,
  submit_transaction, add_all, handle_peers,
}
use forgechain.Network.Node.Rounds.{
  Connection, push_peer, book_peer, welcome, admit_peer, register_new_peer, connect_to_peer, dial,
  connect_step, clean, sync_round, ping, dispatch, peer_round,
}
use forgechain.Network.Node.Connections.{
  IsConnections, IsConnections-later, mark_dead-IsLater, touch-IsLater,
}
use forgechain.Network.Node.Single.{
  IsFree, IsConnections-push, settle_duplicate-frees, living-IsConnections,
}

-- Off, it holds nothing; on, it has a peer.
pub record IsSync (s : SyncState) : Type 0 where
  pub off : s.active ≡ false → s ≡ no_sync
  pub on : s.active ≡ true → s.peer ≢ none

pub no_sync-IsSync : IsSync no_sync
no_sync-IsSync = record { off = λ _. refl; on = λ h e. cc }

module _ ⦃ssl : OpenSsl⦄ where
  pub record IsValid (node : Node) : Type 0 where
    pub chain : IsSound node.chain
    pub connections : IsConnections node.heap node.peers
    pub sync : IsSync node.sync_state
    pub book : Valid.IsValid node.address_book

  pub with_chain :
      (cm : ChainManager) (node : Node)
      → IsSound cm
      → IsValid node
      → IsValid (record node { chain = cm })
  with_chain cm node s v = record {
    chain = s;
    connections = v.connections;
    sync = v.sync;
    book = v.book;
  }

  pub with_sync :
      (s : SyncState) (node : Node)
      → IsSync s
      → IsValid node
      → IsValid (record node { sync_state = s })
  with_sync s node h v = record {
    chain = v.chain;
    connections = v.connections;
    sync = h;
    book = v.book;
  }

  pub with_book :
      (b : AddressBook) (node : Node)
      → Valid.IsValid b
      → IsValid node
      → IsValid (record node { address_book = b })
  with_book b node h v = record {
    chain = v.chain;
    connections = v.connections;
    sync = v.sync;
    book = h;
  }

  pub mark_dead-IsValid : (p : PeerPtr) (node : Node) → IsValid node → IsValid (mark_dead p node)
  mark_dead-IsValid p node v = record {
    chain = v.chain;
    connections =
        IsConnections-later node.heap _ (mark_dead-IsLater p node) node.peers v.connections;
    sync = v.sync;
    book = v.book;
  }

  pub touch-IsValid :
      (now : TimePoint) (p : PeerPtr) (node : Node) → IsValid node → IsValid (touch now p node)
  touch-IsValid now p node v = record {
    chain = v.chain;
    connections =
        IsConnections-later node.heap _ (touch-IsLater now p node) node.peers v.connections;
    sync = v.sync;
    book = v.book;
  }

  pub remove_dead-IsValid : (node : Node) → IsValid node → IsValid (remove_dead node)
  unfolding remove_dead
  remove_dead-IsValid node v = record {
    chain = v.chain;
    connections = living-IsConnections node.heap node.peers v.connections;
    sync = v.sync;
    book = v.book;
  }

  abbrev Swept : List Delivery × Node → Type 0
  Swept r = IsValid r.1

  pub sweep-IsValid :
      (now : TimePoint) (entries : List PeerEntry) (node : Node)
      → IsValid node
      → IsValid (sweep now entries node).1
  unfolding sweep
  sweep-IsValid now [] node v = v
  sweep-IsValid now (entry ∷ entries) node v =
      elim (Option-cases (get_elem? node.heap entry.peer)) [
        | inl e ↦ rw (sweep, e) (sweep-IsValid now entries node v)
        | inr (peer, e) ↦
            let kept = sweep-IsValid now entries node v in
            let killed =
              sweep-IsValid now entries (mark_dead entry.peer node)
                (mark_dead-IsValid entry.peer node v) in
            rw (sweep, e)
              (on_branches Swept (not peer.alive) _ _ (λ _. kept)
                λ _.
                  on_branches Swept (leb ping_timeout (elapsed now peer)) _ _ (λ _. killed)
                    λ _.
                      on_branches Swept (leb ping_interval (elapsed now peer)) _ _ (λ _. kept)
                        (λ _. kept))
      ]

  pub start_sync_state-IsValid :
      (now : TimePoint) (p : PeerPtr) (node : Node)
      → IsValid node
      → IsValid (start_sync_state now p node).1
  unfolding start_sync_state
  start_sync_state-IsValid now p node v =
      on_branches (λ (r : Bool × Node). IsValid r.1) node.sync_state.active _ _ (λ _. v)
        λ _. with_sync _ node (record { off = λ h. cc; on = λ h e. cc }) v

  abbrev pub Keeps : Outcome (Node × List Delivery) → Type 0
  Keeps = After (λ r. IsValid r.0)

  pub request_blocks-Keeps :
      (sent : Bool) (p : PeerPtr) (started : Bool × Node)
      → IsValid started.1
      → Keeps (request_blocks sent p started)
  unfolding request_blocks reset_sync_state
  request_blocks-Keeps sent p (false, node) v = v
  request_blocks-Keeps sent p (true, node) v = After->>= _ (locator node.chain) _ λ hashes _.
      on_branches IsValid sent _ _ (λ _. v) (λ _. with_sync no_sync node no_sync-IsSync v)

  pub ask_one-Keeps :
      (now : TimePoint) (sent : Bool) (candidates : List PeerPtr) (node : Node)
      → IsValid node
      → Keeps (ask_one now sent candidates node)
  unfolding ask_one
  ask_one-Keeps now sent candidates node v =
      elim (Option-cases (get_elem? candidates (node.sync_cursor % length candidates))) [
        | inl e ↦ rw (ask_one, e) v
        | inr (p, e) ↦
            rw (ask_one, e)
              (request_blocks-Keeps sent p _ (
                start_sync_state-IsValid now p _ (record {
                  chain = v.chain;
                  connections = v.connections;
                  sync = v.sync;
                  book = v.book;
                })))
      ]

  pub buffer_block-IsValid :
      (now : TimePoint) (b : Option Block) (node : Node)
      → node.sync_state.active ≡ true
      → IsValid node
      → IsValid (buffer_block now b node)
  unfolding buffer_block
  buffer_block-IsValid now none node on v = v
  buffer_block-IsValid now (some b) node on v =
      with_sync _ node (record { off = λ h. cc (on, h); on = λ h. v.sync.on h }) v

-- ===== src/Network/Node/Invariant/Rounds.antt =====
-- The rounds of the loops keep the invariant.
use forgechain.Prelude.{
  ℕ, ◌-◌, Bool, true, false, ◌&&◌, inl, inr, Option-cases, Option, none, some, List, [], ◌∷◌, Bytes,
  leb, ◌==◌,
}
use forgechain.Prelude.Outcome.{ok, After, After-then, on_branches}
use forgechain.Crypto.{OpenSsl}
use forgechain.Consensus.Difficulty.{Doubles}
use forgechain.Network.Clock.{TimePoint}
use forgechain.Network.Socket.{Arrival, Received, received, lost, waiting}
use forgechain.Network.Message
use forgechain.Network.Message.{Message, receive_message}
use forgechain.Network.PeerAddress.{PeerAddress, deserialize_peer_list}
use forgechain.Network.AddressBook.{Inet, AddressBook}
use forgechain.Network.AddressBook.Valid
use forgechain.Network.AddressBook.Valid.{
  add-IsValid, mark_success-IsValid, mark_failure-IsValid, select_candidate-IsValid,
}
use forgechain.Network.Node.State.{
  target_outbound_peers, sync_interval, PeerPtr, Node, Delivery, mark_dead, touch,
}
use forgechain.Network.Node.Peers.{already_connected, outbound_peer_count, sweep}
use forgechain.Network.Node.Sync.{request_sync}
use forgechain.Network.Node.Handlers.{add_all, handle_peers, remember_peer}
use forgechain.Network.Node.Rounds.{
  Connection, accept_one_peer, is_own_host, report, register_new_peer, connect_to_peer, dial,
  connect_step, sync_round, ping, dispatch, peer_round,
}
use forgechain.Network.Node.Invariant.{
  IsValid, with_book, mark_dead-IsValid, touch-IsValid, sweep-IsValid, Keeps, ask_one-Keeps,
}
use forgechain.Network.Node.Invariant.Calls.{handle_block-Keeps, handle_tx-Keeps}
use forgechain.Network.Node.Invariant.Register.{Answers, register_new_peer-Answers}

module _ ⦃ssl : OpenSsl⦄ ⦃inet : Inet⦄ where
  pub accept_one_peer-Answers :
      (now : TimePoint) (socket : Option Connection) (host : Option Bytes) (node : Node)
      → IsValid node
      → Answers (accept_one_peer now socket host node)
  unfolding accept_one_peer
  accept_one_peer-Answers now socket none node v = v
  accept_one_peer-Answers now socket (some host) node v =
      register_new_peer-Answers now socket host false node v

  pub remember-IsValid :
      (now : TimePoint) (host : Bytes) (port : ℕ) (node : Node)
      → IsValid node
      → IsValid (remember_peer now host port node)
  remember-IsValid now host port node v =
      with_book _ node (add-IsValid now _ true node.address_book v.book) v

  pub connect_to_peer-Answers :
      (now : TimePoint) (socket : Option Connection) (host : Bytes) (port : ℕ) (node : Node)
      → IsValid node
      → Answers (connect_to_peer now socket host port node)
  unfolding connect_to_peer
  connect_to_peer-Answers now socket host port node v =
      on_branches Answers (port == node.listen_port && is_own_host host) _ _ (λ _. v)
        λ _.
          on_branches Answers (already_connected host port node) _ _ (λ _. v)
            λ _.
              register_new_peer-Answers now socket host true _
                (remember-IsValid now host port node v)

  report-IsValid :
      (now : TimePoint) (a : PeerAddress) (success : Bool) (node : Node)
      → IsValid node
      → IsValid (report now a success node)
  report-IsValid now a success node v =
      with_book _ node
        (on_branches Valid.IsValid success _ _
          (λ _. mark_success-IsValid now a node.address_book v.book)
          (λ _. mark_failure-IsValid now a node.address_book v.book))
        v

  reported :
      (now : TimePoint) (a : PeerAddress) (answer : Option Bool × Node × List Delivery)
      → IsValid answer.1
      → Answers (elim answer.0 [
        | none ↦ ok answer
        | some connected ↦ ok (some true, report now a connected answer.1, answer.2)
      ])
  reported now a answer v = elim (Option-cases answer.0) [
    | inl e ↦ rw e v
    | inr (connected, e) ↦ rw e (report-IsValid now a connected answer.1 v)
  ]

  dial-Answers :
      (now : TimePoint) (socket : Option Connection) (a : PeerAddress) (node : Node)
      → IsValid node
      → Answers (dial now socket a node)
  unfolding dial
  dial-Answers now socket a node v =
      on_branches Answers (already_connected a.host a.port node) _ _
        (λ _. report-IsValid now a _ node v)
        (λ _.
          After-then (λ r. IsValid r.1) (λ r. IsValid r.1)
            (register_new_peer now socket a.host true node) _
            (register_new_peer-Answers now socket a.host true node v)
            λ answer _ v'. reported now a answer v')

  dial_found :
      (now : TimePoint) (socket : Option Connection) (found : Option PeerAddress) (node : Node)
      → IsValid node
      → Answers (elim found [ none ↦ ok (some false, node, []) | some a ↦ dial now socket a node ])
  dial_found now socket none node v = v
  dial_found now socket (some a) node v = dial-Answers now socket a node v

  pub connect_step-Answers :
      (now : TimePoint) (socket : Option Connection) (node : Node)
      → IsValid node
      → Answers (connect_step now socket node)
  unfolding connect_step
  connect_step-Answers now socket node v =
      on_branches Answers (leb target_outbound_peers (outbound_peer_count node)) _ _ (λ _. v)
        λ _.
          dial_found now socket _ _
            (with_book _ node (select_candidate-IsValid now node.address_book v.book) v)

  sync_round-Keeps :
      (now : TimePoint) (sent : Bool) (node : Node)
      → IsValid node
      → Keeps (sync_round now sent node)
  unfolding sync_round request_sync
  sync_round-Keeps now sent node v =
      on_branches Keeps (leb sync_interval (now - node.last_sync)) _ _
        (λ _.
          After-then (λ r. IsValid r.0) (λ r. IsValid r.0) (request_sync now sent node) _
            (ask_one-Keeps now sent _ node v)
            λ asked _ v'. record {
              chain = v'.chain;
              connections = v'.connections;
              sync = v'.sync;
              book = v'.book;
            })
        (λ _. v)

  pub ping-IsValid :
      (now last_gossip : TimePoint) (sent : Bool) (node : Node)
      → IsValid node
      → After
          (λ (r : TimePoint × Node × List Delivery). IsValid r.1)
          (ping now last_gossip sent node)
  unfolding ping
  ping-IsValid now last_gossip sent node v =
      After-then (λ r. IsValid r.0) (λ (r : TimePoint × Node × List Delivery). IsValid r.1)
        (sync_round now sent (sweep now node.peers node).1) _
        (sync_round-Keeps now sent _ (sweep-IsValid now node.peers node v)) λ asked _ v'. v'

  add_all-IsValid :
      (now : TimePoint) (trusted : Bool) (addresses : List PeerAddress) (book : AddressBook)
      → Valid.IsValid book
      → Valid.IsValid (add_all now trusted addresses book)
  unfolding add_all
  add_all-IsValid now trusted [] book v = v
  add_all-IsValid now trusted (a ∷ as') book v =
      add_all-IsValid now trusted as' _ (add-IsValid now a trusted book v)

  handle_peers-IsValid :
      (now : TimePoint) (p : PeerPtr) (payload : Bytes) (node : Node)
      → IsValid node
      → IsValid (handle_peers now p payload node)
  unfolding handle_peers
  handle_peers-IsValid now p payload node v = elim (Option-cases (deserialize_peer_list payload)) [
    | inl e ↦ rw (handle_peers, e) v
    | inr (addresses, e) ↦
        rw (handle_peers, e)
          (with_book _ node (add_all-IsValid now _ addresses node.address_book v.book) v)
  ]

module _ ⦃ssl : OpenSsl⦄ ⦃doubles : Doubles⦄ ⦃inet : Inet⦄ where
  dispatch-Keeps :
      (now : TimePoint) (date : ℕ) (p : PeerPtr) (m : Message) (node : Node)
      → IsValid node
      → Keeps (dispatch now date p m node)
  unfolding dispatch
  dispatch-Keeps now date p m node v =
      on_branches Keeps (m.type == Message.inv) _ _ (λ _. v)
        λ _.
          on_branches Keeps (m.type == Message.getdata) _ _ (λ _. v)
            λ _.
              on_branches Keeps (m.type == Message.block) _ _
                (λ _. handle_block-Keeps now date p m.payload node v)
                λ _.
                  on_branches Keeps (m.type == Message.tx) _ _
                    (λ _. handle_tx-Keeps p m.payload node v)
                    λ _.
                      on_branches Keeps (m.type == Message.getblocks) _ _ (λ _. v)
                        λ _.
                          on_branches Keeps (m.type == Message.ping) _ _ (λ _. v)
                            λ _.
                              on_branches Keeps (m.type == Message.pong) _ _ (λ _. v)
                                λ _.
                                  on_branches Keeps (m.type == Message.peers) _ _
                                    (λ _. handle_peers-IsValid now p m.payload node v) (λ _. v)

  pub peer_round-Keeps :
      (now : TimePoint) (date : ℕ) (p : PeerPtr) (arrivals : List Arrival) (node : Node)
      → IsValid node
      → Keeps (peer_round now date p arrivals node)
  unfolding peer_round
  peer_round-Keeps now date p arrivals node v = heard (receive_message arrivals)
    where
      heard :
          (r : Received Message)
          → Keeps (elim r [
            | received m left ↦ dispatch now date p m (touch now p node)
            | lost ↦ ok (mark_dead p node, [])
            | waiting ↦ ok (node, [])
          ])
      heard (received m left) = dispatch-Keeps now date p m _ (touch-IsValid now p node v)
      heard lost = mark_dead-IsValid p node v
      heard waiting = v

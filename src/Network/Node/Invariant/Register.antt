-- ===== src/Network/Node/Invariant/Register.antt =====
-- A registration keeps the invariant.
use forgechain.Prelude.{
  Bool, true, false, inl, inr, Option-cases, Option, none, some, List, [], Bytes, length, ltb, ◌==◌,
}
use forgechain.Prelude.Outcome.{Outcome, ok, After, After->>=, After-then, on_branches}
use forgechain.Crypto.{OpenSsl}
use forgechain.Chain.Queries.{chain_height}
use forgechain.Network.Clock.{TimePoint}
use forgechain.Network.Socket.{Received, received, lost, waiting}
use forgechain.Network.Handshake.{VersionInfo, perform_handshake}
use forgechain.Network.PeerAddress.{PeerAddress}
use forgechain.Network.AddressBook.{Inet}
use forgechain.Network.AddressBook.Valid
use forgechain.Network.AddressBook.Valid.{
  add-IsValid, mark_success-IsValid, mark_failure-IsValid, select_candidate-IsValid,
}
use forgechain.Network.Node.State.{Node, Delivery, new_peer}
use forgechain.Network.Node.Peers.{find_duplicate, keep_new, settle_duplicate}
use forgechain.Network.Node.Sync.{request_blocks}
use forgechain.Network.Node.Rounds.{
  Connection, current_info, push_peer, book_peer, welcome, admit_peer, register_new_peer,
}
use forgechain.Network.Node.Single.{IsFree, IsConnections-push, settle_duplicate-frees}
use forgechain.Network.Node.Invariant.{
  IsValid, with_book, mark_dead-IsValid, start_sync_state-IsValid, Keeps, request_blocks-Keeps,
}

module _ ⦃ssl : OpenSsl⦄ ⦃inet : Inet⦄ where
  book_peer-IsValid :
      (now : TimePoint) (a : PeerAddress) (is_outbound : Bool) (node : Node)
      → IsValid node
      → IsValid (book_peer now a is_outbound node)
  unfolding book_peer
  book_peer-IsValid now a is_outbound node v =
      with_book _ node
        (on_branches Valid.IsValid is_outbound _ _
          (λ _. mark_success-IsValid now a _ (add-IsValid now a true node.address_book v.book))
          (λ _. add-IsValid now a _ node.address_book v.book))
        v

  push_peer-IsValid :
      (now : TimePoint) (host : Bytes) (incoming : VersionInfo) (is_outbound : Bool) (node : Node)
      → IsFree node.heap node.peers host incoming.listen_port
      → IsValid node
      → IsValid (push_peer now host incoming is_outbound node)
  unfolding push_peer
  push_peer-IsValid now host incoming is_outbound node free v = record {
    chain = v.chain;
    connections =
        IsConnections-push node.heap (new_peer now host incoming) is_outbound node.peers free
          v.connections;
    sync = v.sync;
    book = v.book;
  }

  welcome-Keeps :
      (now : TimePoint) (host : Bytes) (incoming : VersionInfo) (is_outbound sent : Bool)
      (node : Node)
      → IsFree node.heap node.peers host incoming.listen_port
      → IsValid node
      → Keeps (welcome now host incoming is_outbound sent node)
  unfolding welcome
  welcome-Keeps now host incoming is_outbound sent node free v =
      let pushed = push_peer-IsValid now host incoming is_outbound node free v in
      let booked =
        book_peer-IsValid now (record { host = host; port = incoming.listen_port }) is_outbound _
          pushed in
      on_branches Keeps (ltb (chain_height node.chain) incoming.chain_height) _ _
        (λ _.
          After-then (λ r. IsValid r.0) (λ r. IsValid r.0)
            (request_blocks sent (length node.heap) _) _
            (request_blocks-Keeps sent (length node.heap) _
              (start_sync_state-IsValid now (length node.heap) _ booked))
            λ done _ v'. v')
        (λ _. booked)

  -- The node in an answer.
  abbrev pub Answers : Outcome (Option Bool × Node × List Delivery) → Type 0
  Answers = After (λ r. IsValid r.1)

  settled-IsValid :
      (host : Bytes) (incoming : VersionInfo) (is_outbound : Bool) (node : Node)
      → IsValid node
      → IsValid (settle_duplicate host incoming is_outbound node).1
  unfolding settle_duplicate
  settled-IsValid host incoming is_outbound node v =
      elim (Option-cases (find_duplicate node.heap host incoming.listen_port node.peers)) [
        | inl e ↦ rw (settle_duplicate, e) v
        | inr (p, e) ↦
            rw (settle_duplicate, e)
              (on_branches (λ (r : Bool × Node). IsValid r.1)
                (keep_new node.info.node_id incoming.node_id is_outbound) _ _
                (λ _. mark_dead-IsValid p node v) (λ _. v))
      ]

  admit_peer-Answers :
      (now : TimePoint) (host : Bytes) (incoming : VersionInfo) (is_outbound sent : Bool)
      (node : Node)
      → IsValid node
      → Answers (admit_peer now host incoming is_outbound sent node)
  unfolding admit_peer
  admit_peer-Answers now host incoming is_outbound sent node v =
      let settled = settled-IsValid host incoming is_outbound node v in
      on_branches Answers (node.info.node_id == incoming.node_id) _ _ (λ _. v)
        λ _.
          on_branches Answers node.stopping _ _ (λ _. v)
            λ _.
              on_branches Answers (settle_duplicate host incoming is_outbound node).0 _ _
                (λ accepted.
                  After-then (λ r. IsValid r.0) (λ r. IsValid r.1)
                    (welcome now host incoming is_outbound sent
                      (settle_duplicate host incoming is_outbound node).1)
                    _
                    (welcome-Keeps now host incoming is_outbound sent _
                      ((settle_duplicate-frees host incoming is_outbound node v.connections).1
                        accepted)
                      settled)
                    λ done _ v'. v')
                (λ _. settled)

  pub register_new_peer-Answers :
      (now : TimePoint) (socket : Option Connection) (host : Bytes) (is_outbound : Bool)
      (node : Node)
      → IsValid node
      → Answers (register_new_peer now socket host is_outbound node)
  unfolding register_new_peer
  register_new_peer-Answers now none host is_outbound node v = v
  register_new_peer-Answers now (some c) host is_outbound node v =
      After->>= (λ r. IsValid r.1) (perform_handshake (current_info node) c.departures c.arrivals) _
        λ answer _. answered now c host is_outbound node answer v
    where
      answered :
          (now : TimePoint) (c : Connection) (host : Bytes) (is_outbound : Bool) (node : Node)
          (answer : Received VersionInfo)
          → IsValid node
          → Answers (elim answer [
            | received incoming arrivals ↦
                admit_peer now host incoming is_outbound c.request_sent node
            | lost ↦ ok (some false, node, [])
            | waiting ↦ ok (none, node, [])
          ])
      answered now c host is_outbound node (received incoming arrivals) v =
          admit_peer-Answers now host incoming is_outbound c.request_sent node v
      answered now c host is_outbound node lost v = v
      answered now c host is_outbound node waiting v = v

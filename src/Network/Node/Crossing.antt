-- ===== src/Network/Node/Crossing.antt =====
-- Two nodes that dial one another at the same time.
use forgechain.Prelude.{
  zero, suc, ap, ℕ, List, [], ◌∷◌, Option-cases, get_elem?, subst, ◌&&◌, ◌==◌, ◌≡◌, ◌≢◌, refl, Bool,
  true, false, not, some, Bytes, Bool-cases, inl, inr, arith,
}
use forgechain.Network.Handshake.{VersionInfo}
use forgechain.Network.Node.State.{Peer, PeerEntry, PeerPtr, Node, alive_in, update_peer}
use forgechain.Network.Node.Peers.{at_in, find_duplicate, keep_new, settle_duplicate}

-- What a node decides about a further connection to a node that it has the connection `p` with, and
-- what becomes of `p`: it lives on just when the further one is refused. No other connection changes.
abbrev pub Settles : PeerPtr → Node → Bool × Node → Bool → Type 0
Settles p node decision accepted =
    (decision.0 ≡ accepted)
    × (alive_in decision.1.heap p ≡ not accepted)
    × ((q : PeerPtr) → q ≢ p → get_elem? decision.1.heap q ≡ get_elem? node.heap q)
    × (decision.1 ≡ record node { heap = decision.1.heap })

alive-mark_dead :
    (p : PeerPtr) (heap : List Peer)
    → alive_in (update_peer (λ peer. record peer { alive = false }) p heap) p ≡ false
unfolding update_peer
alive-mark_dead p [] = refl
alive-mark_dead zero (peer ∷ heap) = refl
alive-mark_dead (suc p) (peer ∷ heap) = alive-mark_dead p heap

get-update_peer_other :
    (f : Peer → Peer) (p q : PeerPtr) (heap : List Peer)
    → q ≢ p
    → get_elem? (update_peer f p heap) q ≡ get_elem? heap q
unfolding update_peer
get-update_peer_other f p q [] other = refl
get-update_peer_other f zero zero (peer ∷ heap) other = absurd (other refl)
get-update_peer_other f zero (suc q) (peer ∷ heap) other = refl
get-update_peer_other f (suc p) zero (peer ∷ heap) other = refl
get-update_peer_other f (suc p) (suc q) (peer ∷ heap) other =
    get-update_peer_other f p q heap λ e. other (ap suc e)

find_duplicate-alive :
    (heap : List Peer) (host : Bytes) (port : ℕ) (entries : List PeerEntry) {p : PeerPtr}
    → find_duplicate heap host port entries ≡ some p
    → alive_in heap p ≡ true
unfolding find_duplicate at_in
find_duplicate-alive heap host port [] e = cc
find_duplicate-alive heap host port (entry ∷ entries) {p} e =
    elim (Bool-cases (at_in heap host port entry.peer && not (port == 0))) [
      | inl same ↦ elim (Option-cases (get_elem? heap entry.peer)) [
        | inl gone ↦ ground arith
        | inr (peer, at) ↦ ground (arith, at, same)
      ]
      | inr other ↦ find_duplicate-alive heap host port entries (rw other at e)
    ]

settled :
    (host : Bytes) (incoming : VersionInfo) (is_outbound : Bool) (node : Node) {p : PeerPtr}
    → find_duplicate node.heap host incoming.listen_port node.peers ≡ some p
    → Settles p node
        (settle_duplicate host incoming is_outbound node)
        (keep_new node.info.node_id incoming.node_id is_outbound)
unfolding settle_duplicate
settled host incoming is_outbound node {p} found =
    elim (Bool-cases (keep_new node.info.node_id incoming.node_id is_outbound)) [
      | inl keep ↦
          rw (found, keep, settle_duplicate)
            (
              refl,
              alive-mark_dead p node.heap,
              λ q other. get-update_peer_other _ p q node.heap other,
              refl,
            )
      | inr drop ↦
          rw (found, drop, settle_duplicate)
            (
              refl,
              find_duplicate-alive node.heap host incoming.listen_port node.peers found,
              λ q other. refl,
              refl,
            )
    ]

-- Two nodes with different ids that each have a living connection to the other already. A further
-- connection that the first dials is accepted by both or by neither, and one that the second dials by
-- both in the other case. A side that accepts closes the connection that it had, and nothing else; a
-- side that refuses keeps it alive. So of two crossing connections the same one survives on both sides.
pub settle_duplicate-agrees :
    (a b : Node) (host_of_a host_of_b : Bytes) (info_a info_b : VersionInfo) {p q : PeerPtr}
    → info_a.node_id ≡ a.info.node_id
    → info_b.node_id ≡ b.info.node_id
    → a.info.node_id ≢ b.info.node_id
    → find_duplicate a.heap host_of_b info_b.listen_port a.peers ≡ some p
    → find_duplicate b.heap host_of_a info_a.listen_port b.peers ≡ some q
    → (first_wins : Bool) × Settles p a (settle_duplicate host_of_b info_b true a) first_wins
      × Settles q b (settle_duplicate host_of_a info_a false b) first_wins
      × Settles p a (settle_duplicate host_of_b info_b false a) (not first_wins)
      × Settles q b (settle_duplicate host_of_a info_a true b) (not first_wins)
unfolding keep_new
settle_duplicate-agrees a b host_of_a host_of_b info_a info_b {p} {q} ea eb other fa fb =
    let first_wins = keep_new a.info.node_id info_b.node_id true in
    let e1 : keep_new b.info.node_id info_a.node_id false ≡ first_wins = ground arith in
    let e2 : keep_new a.info.node_id info_b.node_id false ≡ not first_wins = ground arith in
    let e3 : keep_new b.info.node_id info_a.node_id true ≡ not first_wins = ground arith in
    (
      first_wins,
      settled host_of_b info_b true a fa,
      subst (Settles q b _) e1 (settled host_of_a info_a false b fb),
      subst (Settles p a _) e2 (settled host_of_b info_b false a fa),
      subst (Settles q b _) e3 (settled host_of_a info_a true b fb),
    )

-- ===== src/Network/Node/Single.antt =====
-- A registration, and the cleaner, leave no two living peers at the same place.
use forgechain.Prelude.{
  ℕ, ◌<◌, ◌≡◌, ◌≢◌, refl, sym, ◌∙◌, subst, Bool, true, false, ◌||◌, Bool-cases, inl, inr,
  Option-cases, List, [], ◌∷◌, ◌++◌, Bytes, bytes_eq_iff, All, All-append, length, length-append,
  arith,
}
use forgechain.Network.Handshake.{VersionInfo}
use forgechain.Network.Node.State.{Peer, PeerEntry, Node, alive_in}
use forgechain.Network.Node.Peers.{
  is_at, at_in, connected_in, find_duplicate, keep_new, settle_duplicate, living,
}
use forgechain.Network.Node.Connections.{
  IsSingle, IsConnections, IsConnections-later, mark_dead-IsLater, at_in-append, at_in-append_last,
  find_duplicate-none, find_duplicate-killed,
}

-- Nobody is at the place of a peer that listens.
abbrev pub IsFree : List Peer → List PeerEntry → Bytes → ℕ → Type 0
IsFree heap entries host port = port ≢ 0 → connected_in heap host port entries ≡ false

module _ (heap : List Peer) (x : Peer) (outbound : Bool) where
  abbrev entry_of : PeerEntry
  entry_of = record { peer = length heap; is_outbound = outbound }

  connected_in-push :
      (host : Bytes) (port : ℕ) (entries : List PeerEntry)
      → All (λ entry. entry.peer < length heap) entries
      → connected_in (heap ++ x ∷ []) host port (entries ++ entry_of ∷ [])
        ≡ (connected_in heap host port entries || is_at host port x)
  unfolding connected_in
  connected_in-push host port [] h = ground (arith, at_in-append_last heap x host port)
  connected_in-push host port (entry ∷ entries) (h, hs) =
      ground
        (arith, at_in-append heap x host port entry.peer h, connected_in-push host port entries hs)

  is_at-place :
      (host : Bytes) (port : ℕ)
      → is_at host port x ≡ true
      → (host ≡ x.host) × (port ≡ x.remote_version.listen_port)
  is_at-place host port h = ground (arith, bytes_eq_iff x.host host)

  elsewhere :
      (host : Bytes) (port : ℕ) (entry : PeerEntry) (entries : List PeerEntry)
      → at_in heap host port entry.peer ≡ true
      → port ≢ 0
      → IsFree heap (entry ∷ entries) x.host x.remote_version.listen_port
      → is_at host port x ≡ false
  unfolding connected_in
  elsewhere host port entry entries at pos free = elim (Bool-cases (is_at host port x)) [
    | inr away ↦ away
    | inl hit ↦
        let (same_host, same_port) = is_at-place host port hit in
        let there : at_in heap x.host x.remote_version.listen_port entry.peer ≡ true =
          subst (λ h. at_in heap h x.remote_version.listen_port entry.peer ≡ true) same_host
            (subst (λ n. at_in heap host n entry.peer ≡ true) same_port at) in
        let taken = free (subst (λ n. n ≢ 0) same_port pos) in ground (arith, there, taken)
  ]

  IsSingle-push :
      (entries : List PeerEntry)
      → All (λ entry. entry.peer < length heap) entries
      → IsFree heap entries x.host x.remote_version.listen_port
      → IsSingle heap entries
      → IsSingle (heap ++ x ∷ []) (entries ++ entry_of ∷ [])
  unfolding connected_in
  IsSingle-push [] placed free s = (λ host port at pos. refl, tt)
  IsSingle-push (entry ∷ entries) (p, ps) free (s, ss) = (
    λ host port at pos.
        let was : at_in heap host port entry.peer ≡ true =
          sym (at_in-append heap x host port entry.peer p) ∙ at in
        connected_in-push host port entries ps
        ∙ ground (arith, s host port was pos, elsewhere host port entry entries was pos free),
    IsSingle-push entries ps (λ pos. ground (arith, free pos)) ss,
  )

  placed-push :
      (entries : List PeerEntry)
      → All (λ entry. entry.peer < length heap) entries
      → All (λ entry. entry.peer < length (heap ++ x ∷ [])) entries
  placed-push [] h = tt
  placed-push (entry ∷ entries) (h, hs) =
      (omega (arith, length-append heap (x ∷ [])), placed-push entries hs)

  pub IsConnections-push :
      (entries : List PeerEntry)
      → IsFree heap entries x.host x.remote_version.listen_port
      → IsConnections heap entries
      → IsConnections (heap ++ x ∷ []) (entries ++ entry_of ∷ [])
  IsConnections-push entries free c = record {
    placed =
        All-append (λ entry. entry.peer < length (heap ++ x ∷ [])) entries (entry_of ∷ [])
          (placed-push entries c.placed) (omega (arith, length-append heap (x ∷ [])), tt);
    single = IsSingle-push entries c.placed free c.single;
  }

-- What `settle_duplicate` leaves when it accepts.
pub settle_duplicate-frees :
    (host : Bytes) (incoming : VersionInfo) (is_outbound : Bool) (node : Node)
    → IsConnections node.heap node.peers
    → let settled = settle_duplicate host incoming is_outbound node in
      IsConnections settled.1.heap settled.1.peers
      × (settled.0 ≡ true → IsFree settled.1.heap settled.1.peers host incoming.listen_port)
unfolding settle_duplicate
settle_duplicate-frees host incoming is_outbound node c =
    elim (Option-cases (find_duplicate node.heap host incoming.listen_port node.peers)) [
      | inl fresh ↦
          rw (settle_duplicate, fresh)
            (
              c,
              λ _ pos. find_duplicate-none node.heap host incoming.listen_port node.peers pos fresh,
            )
      | inr (p, found) ↦
          elim (Bool-cases (keep_new node.info.node_id incoming.node_id is_outbound)) [
            | inl keep ↦
                rw (settle_duplicate, found, keep)
                  (
                    IsConnections-later node.heap _ (mark_dead-IsLater p node) node.peers c,
                    λ _ _.
                        find_duplicate-killed node.heap host incoming.listen_port p node.peers
                          c.single found,
                  )
            | inr drop ↦ rw (settle_duplicate, found, drop) (c, λ h. cc)
          ]
    ]

living-connected :
    (heap : List Peer) (host : Bytes) (port : ℕ) (entries : List PeerEntry)
    → connected_in heap host port entries ≡ false
    → connected_in heap host port (living heap entries) ≡ false
unfolding connected_in living
living-connected heap host port [] h = refl
living-connected heap host port (entry ∷ entries) h =
    ground (arith, living-connected heap host port entries)

pub living-IsConnections :
    (heap : List Peer) (entries : List PeerEntry)
    → IsConnections heap entries
    → IsConnections heap (living heap entries)
unfolding living
living-IsConnections heap [] c = c
living-IsConnections heap (entry ∷ entries) c =
    let rest =
      living-IsConnections heap entries (record { placed = c.placed.1; single = c.single.1 }) in
    elim (Bool-cases (alive_in heap entry.peer)) [
      | inl alive ↦ rw alive (record {
        placed = (c.placed.0, rest.placed);
        single = (
          λ host port at pos. living-connected heap host port entries (c.single.0 host port at pos),
          rest.single,
        );
      })
      | inr dead ↦ rw dead rest
    ]

-- ===== src/Network/Node/Connections.antt =====
-- No two living peers of a node are at the same place: the same host with the same listening port.
use mathlib.Core.Option.{some-injective}
use forgechain.Prelude.{
  ℕ, zero, suc, ◌<◌, ◌≡◌, ◌≢◌, refl, ap, true, false, not, ◌&&◌, Bool-cases, inl, inr, none, some,
  List, [], ◌∷◌, ◌++◌, Bytes, All, length, ◌==◌, arith,
}
use forgechain.Network.Clock.{TimePoint}
use forgechain.Network.Node.State.{Peer, PeerPtr, PeerEntry, Node, update_peer, mark_dead, touch}
use forgechain.Network.Node.Peers.{is_at, at_in, connected_in, find_duplicate}

-- Each living peer with a listening port is at another place than those behind it in the list.
abbrev pub IsSingle : List Peer → List PeerEntry → Type 0
IsSingle heap [] = Unit {0}
IsSingle heap (entry ∷ entries) =
    ((host : Bytes) (port : ℕ)
      → at_in heap host port entry.peer ≡ true
      → port ≢ 0
      → connected_in heap host port entries ≡ false)
    × IsSingle heap entries

pub record IsConnections (heap : List Peer) (entries : List PeerEntry) : Type 0 where
  pub placed : All (λ entry. entry.peer < length heap) entries
  pub single : IsSingle heap entries

-- A later heap, in which no peer has come to life or moved.
pub record IsLater (heap heap' : List Peer) : Type 0 where
  pub size : length heap' ≡ length heap
  pub quiet :
      (host : Bytes) (port : ℕ) (p : PeerPtr)
      → at_in heap host port p ≡ false
      → at_in heap' host port p ≡ false

module _ (heap heap' : List Peer) (later : IsLater heap heap') where
  pub connected_in-later :
      (host : Bytes) (port : ℕ) (entries : List PeerEntry)
      → connected_in heap host port entries ≡ false
      → connected_in heap' host port entries ≡ false
  unfolding connected_in
  connected_in-later host port [] h = refl
  connected_in-later host port (entry ∷ entries) h =
      ground (arith, later.quiet host port entry.peer, connected_in-later host port entries)

  IsSingle-later : (entries : List PeerEntry) → IsSingle heap entries → IsSingle heap' entries
  IsSingle-later [] h = tt
  IsSingle-later (entry ∷ entries) (h, hs) = (
    λ host port at pos.
        connected_in-later host port entries (h host port (was_there host port entry.peer at) pos),
    IsSingle-later entries hs,
  )
    where
      was_there :
          (host : Bytes) (port : ℕ) (p : PeerPtr)
          → at_in heap' host port p ≡ true
          → at_in heap host port p ≡ true
      was_there host port p at = elim (Bool-cases (at_in heap host port p)) [
        | inl there ↦ there
        | inr absent ↦ cc (later.quiet host port p absent)
      ]

  placed-later :
      (entries : List PeerEntry)
      → All (λ entry. entry.peer < length heap) entries
      → All (λ entry. entry.peer < length heap') entries
  placed-later [] h = tt
  placed-later (entry ∷ entries) (h, hs) = (omega (arith, later.size), placed-later entries hs)

  pub IsConnections-later :
      (entries : List PeerEntry) → IsConnections heap entries → IsConnections heap' entries
  IsConnections-later entries c = record {
    placed = placed-later entries c.placed;
    single = IsSingle-later entries c.single;
  }

length-update_peer :
    (f : Peer → Peer) (p : PeerPtr) (heap : List Peer) → length (update_peer f p heap) ≡ length heap
unfolding update_peer
length-update_peer f p [] = refl
length-update_peer f zero (x ∷ heap) = refl
length-update_peer f (suc p) (x ∷ heap) = ap suc (length-update_peer f p heap)

-- A change of a peer that neither brings it to life nor moves it.
abbrev pub IsQuiet : (Peer → Peer) → Type 0
IsQuiet f =
    (host : Bytes) (port : ℕ) (x : Peer) → is_at host port x ≡ false → is_at host port (f x) ≡ false

update_peer-quiet :
    (f : Peer → Peer) (q : PeerPtr) (heap : List Peer) (host : Bytes) (port : ℕ) (p : PeerPtr)
    → IsQuiet f
    → at_in heap host port p ≡ false
    → at_in (update_peer f q heap) host port p ≡ false
unfolding update_peer at_in
update_peer-quiet f q [] host port p quiet h = h
update_peer-quiet f zero (x ∷ heap) host port zero quiet h = quiet host port x h
update_peer-quiet f zero (x ∷ heap) host port (suc p) quiet h = h
update_peer-quiet f (suc q) (x ∷ heap) host port zero quiet h = h
update_peer-quiet f (suc q) (x ∷ heap) host port (suc p) quiet h =
    update_peer-quiet f q heap host port p quiet h

pub update_peer-IsLater :
    (f : Peer → Peer) (p : PeerPtr) (heap : List Peer)
    → IsQuiet f
    → IsLater heap (update_peer f p heap)
update_peer-IsLater f p heap quiet = record {
  size = length-update_peer f p heap;
  quiet = λ host port q h. update_peer-quiet f p heap host port q quiet h;
}

mark_dead-IsQuiet : IsQuiet (λ x. record x { alive = false })
mark_dead-IsQuiet host port x h = refl

pub mark_dead-IsLater : (p : PeerPtr) (node : Node) → IsLater node.heap (mark_dead p node).heap
mark_dead-IsLater p node = update_peer-IsLater _ p node.heap mark_dead-IsQuiet

pub touch-IsLater :
    (now : TimePoint) (p : PeerPtr) (node : Node) → IsLater node.heap (touch now p node).heap
touch-IsLater now p node = update_peer-IsLater _ p node.heap (λ host port x h. h)

-- The killed peer is nowhere.
at_in-mark_dead :
    (p : PeerPtr) (heap : List Peer) (host : Bytes) (port : ℕ)
    → at_in (update_peer (λ x. record x { alive = false }) p heap) host port p ≡ false
unfolding update_peer at_in
at_in-mark_dead p [] host port = refl
at_in-mark_dead zero (x ∷ heap) host port = refl
at_in-mark_dead (suc p) (x ∷ heap) host port = at_in-mark_dead p heap host port

-- Where there is no duplicate, nobody is at the place.
pub find_duplicate-none :
    (heap : List Peer) (host : Bytes) (port : ℕ) (entries : List PeerEntry)
    → port ≢ 0
    → find_duplicate heap host port entries ≡ none
    → connected_in heap host port entries ≡ false
unfolding find_duplicate connected_in
find_duplicate-none heap host port [] pos h = refl
find_duplicate-none heap host port (entry ∷ entries) pos h =
    ground (arith, find_duplicate-none heap host port entries)

find_duplicate-port :
    (heap : List Peer) (host : Bytes) (port : ℕ) (p : PeerPtr) (entries : List PeerEntry)
    → find_duplicate heap host port entries ≡ some p
    → port ≢ 0
unfolding find_duplicate
find_duplicate-port heap host port p [] h = cc
find_duplicate-port heap host port p (entry ∷ entries) h =
    ground (arith, find_duplicate-port heap host port p entries)

-- Where the duplicate is killed, nobody is at the place any more.
pub find_duplicate-killed :
    (heap : List Peer) (host : Bytes) (port : ℕ) (p : PeerPtr) (entries : List PeerEntry)
    → IsSingle heap entries
    → find_duplicate heap host port entries ≡ some p
    → connected_in (update_peer (λ x. record x { alive = false }) p heap) host port entries ≡ false
unfolding find_duplicate connected_in
find_duplicate-killed heap host port p [] s h = cc
find_duplicate-killed heap host port p (entry ∷ entries) (s, ss) h =
    let later = update_peer-IsLater (λ x. record x { alive = false }) p heap mark_dead-IsQuiet in
    let heap' = update_peer (λ x. record x { alive = false }) p heap in
    elim (Bool-cases (at_in heap host port entry.peer && not (port == 0))) [
      | inl here ↦
          let same : entry.peer ≡ p = some-injective _ _ (rw here at h) in
          let gone : at_in heap' host port entry.peer ≡ false =
            rw same (at_in-mark_dead p heap host port) in
          let rest : connected_in heap host port entries ≡ false =
            s host port (ground arith) (ground arith) in
          rw (gone, connected_in-later heap heap' later host port entries rest)
      | inr elsewhere ↦
          let rest = find_duplicate-killed heap host port p entries ss (rw elsewhere at h) in
          let pos : port ≢ 0 = find_duplicate-port heap host port p entries (rw elsewhere at h) in
          let gone : at_in heap' host port entry.peer ≡ false =
            later.quiet host port entry.peer (ground arith) in
          rw (gone, rest)
    ]

pub at_in-append :
    (heap : List Peer) (x : Peer) (host : Bytes) (port : ℕ) (p : PeerPtr)
    → p < length heap
    → at_in (heap ++ x ∷ []) host port p ≡ at_in heap host port p
unfolding at_in
at_in-append [] x host port p h = absurd (omega arith)
at_in-append (y ∷ heap) x host port zero h = refl
at_in-append (y ∷ heap) x host port (suc p) h = at_in-append heap x host port p (omega arith)

pub at_in-append_last :
    (heap : List Peer) (x : Peer) (host : Bytes) (port : ℕ)
    → at_in (heap ++ x ∷ []) host port (length heap) ≡ is_at host port x
unfolding at_in
at_in-append_last [] x host port = refl
at_in-append_last (y ∷ heap) x host port = at_in-append_last heap x host port

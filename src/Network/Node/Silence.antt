-- ===== src/Network/Node/Silence.antt =====
-- The ping loop's sweep gives up the peers that were silent for 40 seconds, and only these.
use mathlib.Core.Option.{some-injective}
use forgechain.Prelude.{
  zero, suc, ◌≡◌, refl, sym, ap, ◌∙◌, Bool, true, false, not, ◌&&◌, ◌||◌, Bool-cases, inl, inr,
  Option-cases, none, some, List, [], ◌∷◌, get_elem?, leb, ◌==◌, ==→eq, if◌then◌else◌, arith,
}
use forgechain.Network.Clock.{TimePoint}
use forgechain.Network.Node.State.{
  Peer, PeerPtr, PeerEntry, Node, update_peer, mark_dead, elapsed, ping_timeout, ping_interval,
}
use forgechain.Network.Node.Peers.{sweep}

-- The peer stands in the list.
unfoldable pub is_listed : PeerPtr → List PeerEntry → Bool
is_listed p [] = false
is_listed p (entry ∷ entries) = entry.peer == p || is_listed p entries

-- Living and heard from in time, if it is in the list.
abbrev pub survives : TimePoint → Bool → Peer → Bool
survives now listed peer = peer.alive && not (listed && leb ping_timeout (elapsed now peer))

get-mark_dead :
    (q p : PeerPtr) (heap : List Peer) {peer : Peer}
    → get_elem? heap p ≡ some peer
    → get_elem? (update_peer (λ x. record x { alive = false }) q heap) p
      ≡ (if q == p then some (record peer { alive = false }) else some peer)
unfolding update_peer
get-mark_dead q p [] e = cc
get-mark_dead zero zero (x ∷ heap) e = ground arith
get-mark_dead zero (suc p) (x ∷ heap) e = ground arith
get-mark_dead (suc q) zero (x ∷ heap) e = ground arith
get-mark_dead (suc q) (suc p) (x ∷ heap) e = ground (arith, get-mark_dead q p heap e)

-- The same peer, with another word for whether it is alive.
revived :
    (peer : Peer) (alive : Bool)
    → peer.alive ≡ alive
    → some peer ≡ some (record peer { alive = alive })
revived peer alive e = ap (λ b. some (record peer { alive = b })) e

settled :
    (peer : Peer) (a b : Bool)
    → a ≡ b
    → some (record peer { alive = a }) ≡ some (record peer { alive = b })
settled peer a b e = ap (λ c. some (record peer { alive = c })) e

sweep-missing :
    (now : TimePoint) (entry : PeerEntry) (entries : List PeerEntry) (node : Node)
    → get_elem? node.heap entry.peer ≡ none
    → sweep now (entry ∷ entries) node ≡ sweep now entries node
unfolding sweep
sweep-missing now entry entries node e = rw (sweep, e) refl

-- Whether the peer is given up.
abbrev is_silent : TimePoint → Peer → Bool
is_silent now peer = peer.alive && leb ping_timeout (elapsed now peer)

sweep-found :
    (now : TimePoint) (entry : PeerEntry) (entries : List PeerEntry) (node : Node) {peer : Peer}
    → get_elem? node.heap entry.peer ≡ some peer
    → (sweep now (entry ∷ entries) node).1 ≡ (
        if is_silent now peer
        then (sweep now entries (mark_dead entry.peer node)).1
        else (sweep now entries node).1)
unfolding sweep
sweep-found now entry entries node {peer} e = elim (Bool-cases peer.alive) [
  | inr dead ↦ rw (sweep, e, dead) refl
  | inl alive ↦ elim (Bool-cases (leb ping_timeout (elapsed now peer))) [
    | inl silent ↦ rw (sweep, e, alive, silent) refl
    | inr heard ↦ elim (Bool-cases (leb ping_interval (elapsed now peer))) [
      | inl quiet ↦ rw (sweep, e, alive, heard, quiet) refl
      | inr loud ↦ rw (sweep, e, alive, heard, loud) refl
    ]
  ]
]

-- After a sweep the peer objects are where they were with what they held, and one is alive exactly if
-- it was alive before and, if it is in the list, something was heard from it less than 40 seconds
-- ago.
pub sweep-survives :
    (now : TimePoint) (entries : List PeerEntry) (node : Node) (p : PeerPtr) (peer : Peer)
    → get_elem? node.heap p ≡ some peer
    → get_elem? (sweep now entries node).1.heap p
      ≡ some (record peer { alive = survives now (is_listed p entries) peer })
unfolding is_listed
sweep-survives now [] node p peer e =
    unfold sweep in e ∙ revived peer (peer.alive && true) (ground arith)
sweep-survives now (entry ∷ entries) node p peer e =
    let rest = sweep-survives now entries node p peer e in
    elim (Option-cases (get_elem? node.heap entry.peer)) [
      | inl missing ↦
          let other : (entry.peer == p) ≡ false = ground arith in
          rw (sweep-missing now entry entries node missing, other) rest
      | inr (peer', found) ↦ elim (Bool-cases (entry.peer == p)) [
        | inl here ↦
            let same : peer' ≡ peer =
              some-injective _ _
                (sym found ∙ ap (get_elem? node.heap) (==→eq entry.peer p here) ∙ e) in
            let step = sweep-found now entry entries node found in
            elim (Bool-cases (is_silent now peer)) [
              | inl silent ↦
                  let killed = get-mark_dead entry.peer p node.heap e in
                  rw (step, same, silent, here)
                    (sweep-survives now entries (mark_dead entry.peer node) p
                        (record peer { alive = false }) (rw here at killed)
                      ∙ settled peer false (survives now true peer) (ground arith))
              | inr heard ↦
                  rw (step, same, heard, here)
                    (rest
                      ∙ settled peer (survives now (is_listed p entries) peer)
                          (survives now true peer) (ground arith))
            ]
        | inr elsewhere ↦
            let step = sweep-found now entry entries node found in
            elim (Bool-cases (is_silent now peer')) [
              | inl silent ↦
                  let killed = get-mark_dead entry.peer p node.heap e in
                  rw (step, silent, elsewhere)
                    (sweep-survives now entries (mark_dead entry.peer node) p peer
                      (rw elsewhere at killed))
              | inr heard ↦ rw (step, heard, elsewhere) rest
            ]
      ]
    ]

-- ===== src/Network/Node/Stall.antt =====
-- A client that connects and says nothing.
use forgechain.Prelude.{ℕ, ◌≡◌, refl, none, some, List, [], Bytes, replicate}
use forgechain.Prelude.Outcome.{ok}
use forgechain.Network.Clock.{TimePoint}
use forgechain.Network.Socket.{timed_out, Departure, sent}
use forgechain.Network.Socket.Timeout.{read_exact-timed_out}
use forgechain.Network.Message.{receive_message, send_message}
use forgechain.Network.Handshake.{version_message, accept_version, perform_handshake}
use forgechain.Network.AddressBook.{Inet}
use forgechain.Network.Node.State.{Node}
use forgechain.Network.Node.Rounds.{Connection, current_info, register_new_peer, accept_one_peer}

module _ ⦃inet : Inet⦄ where
  -- A client that takes the node's version and then sends nothing: however often the receive timeout
  -- of its socket passes, `accept_one_peer` has no answer yet.
  pub accept_one_peer-stalls :
      (now : TimePoint) (c : Connection) (host : Bytes) (node : Node) (k : ℕ) {out : Bytes}
      {more : List Departure}
      → send_message (version_message (current_info node)) c.departures ≡ sent out more
      → c.arrivals ≡ replicate k timed_out
      → accept_one_peer now (some c) (some host) node ≡ ok (none, node, [])
  unfolding accept_one_peer register_new_peer perform_handshake receive_message accept_version
  accept_one_peer-stalls now c host node k gone silent =
      rw (gone, silent, read_exact-timed_out 8 k) refl

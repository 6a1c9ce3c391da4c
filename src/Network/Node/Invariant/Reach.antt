-- ===== src/Network/Node/Invariant/Reach.antt =====
-- Every state that a node can get into is valid.
use forgechain.Prelude.{ℕ, ◌≡◌, subst, Bool, true, false, Option, List, Bytes, arith}
use forgechain.Prelude.Outcome.{ok, After}
use forgechain.Crypto.{OpenSsl}
use forgechain.Core.Transaction.{Transaction}
use forgechain.Core.Block.{Block}
use forgechain.Consensus.Difficulty.{Doubles}
use forgechain.Chain.State.{ChainManager}
use forgechain.Chain.Invariant.{IsSound}
use forgechain.Network.Clock.{TimePoint}
use forgechain.Network.Socket.{Arrival}
use forgechain.Network.Handshake.{VersionInfo}
use forgechain.Network.AddressBook.{Inet}
use forgechain.Network.Node.State.{new, PeerPtr, Node, Delivery}
use forgechain.Network.Node.Handlers.{submit_block, submit_transaction, remember_peer}
use forgechain.Network.Node.Rounds.{
  Connection, accept_one_peer, start, stop, connect_to_peer, connect_step, clean, ping, peer_round,
}
use forgechain.Network.Node.Invariant.{no_sync-IsSync, IsValid, Keeps}
use forgechain.Network.Node.Invariant.Calls.{
  clean-IsValid, submit_block-IsValid, submit_transaction-IsValid,
}
use forgechain.Network.Node.Invariant.Register.{Answers}
use forgechain.Network.Node.Invariant.Rounds.{
  accept_one_peer-Answers, remember-IsValid, connect_to_peer-Answers, connect_step-Answers,
  ping-IsValid, peer_round-Keeps,
}

module _ ⦃ssl : OpenSsl⦄ ⦃doubles : Doubles⦄ ⦃inet : Inet⦄ where
  -- What can happen to a node: a round of one of its loops, or a call from outside.
  pub data Step (node : Node) : Node → Type 0 where
    hears :
        (now : TimePoint) (date : ℕ) (p : PeerPtr) (arrivals : List Arrival) {node' : Node}
        {deliveries : List Delivery}
        → peer_round now date p arrivals node ≡ ok (node', deliveries)
        → Step node node'
    accepts :
        (now : TimePoint) (socket : Option Connection) (host : Option Bytes) {answer : Option Bool}
        {node' : Node} {deliveries : List Delivery}
        → accept_one_peer now socket host node ≡ ok (answer, node', deliveries)
        → Step node node'
    connects :
        (now : TimePoint) (socket : Option Connection) (host : Bytes) (port : ℕ)
        {answer : Option Bool} {node' : Node} {deliveries : List Delivery}
        → connect_to_peer now socket host port node ≡ ok (answer, node', deliveries)
        → Step node node'
    dials :
        (now : TimePoint) (socket : Option Connection) {answer : Option Bool} {node' : Node}
        {deliveries : List Delivery}
        → connect_step now socket node ≡ ok (answer, node', deliveries)
        → Step node node'
    pings :
        (now last_gossip : TimePoint) (sent : Bool) {last_gossip' : TimePoint} {node' : Node}
        {deliveries : List Delivery}
        → ping now last_gossip sent node ≡ ok (last_gossip', node', deliveries)
        → Step node node'
    cleans :
        (now : TimePoint) (date : ℕ) {node' : Node}
        → clean now date node ≡ ok node'
        → Step node node'
    submits_block :
        (date : ℕ) (b : Block) {node' : Node} {deliveries : List Delivery}
        → submit_block date b node ≡ ok (node', deliveries)
        → Step node node'
    submits_transaction :
        (tx : Transaction) {node' : Node} {deliveries : List Delivery}
        → submit_transaction tx node ≡ ok (node', deliveries)
        → Step node node'
    remembers :
        (now : TimePoint) (host : Bytes) (port : ℕ) → Step node (remember_peer now host port node)
    starts : Step node (start node)
    stops : Step node (stop node)

  pub data Reach (node : Node) : Node → Type 0 where
    here : Reach node node
    next : {node' node'' : Node} → Reach node node' → Step node' node'' → Reach node node''

  plain :
      (running stopping : Bool) (node : Node)
      → IsValid node
      → IsValid (record node { running = running; stopping = stopping })
  plain running stopping node v = record {
    chain = v.chain;
    connections = v.connections;
    sync = v.sync;
    book = v.book;
  }

  Step-IsValid : {node node' : Node} → Step node node' → IsValid node → IsValid node'
  unfolding stop
  Step-IsValid {node} (hears now date p arrivals e) v =
      subst Keeps e (peer_round-Keeps now date p arrivals node v)
  Step-IsValid {node} (accepts now socket host e) v =
      subst Answers e (accept_one_peer-Answers now socket host node v)
  Step-IsValid {node} (connects now socket host port e) v =
      subst Answers e (connect_to_peer-Answers now socket host port node v)
  Step-IsValid {node} (dials now socket e) v =
      subst Answers e (connect_step-Answers now socket node v)
  Step-IsValid {node} (pings now last_gossip sent e) v =
      subst (After (λ (r : TimePoint × Node × List Delivery). IsValid r.1)) e
        (ping-IsValid now last_gossip sent node v)
  Step-IsValid {node} (cleans now date e) v =
      subst (After IsValid) e (clean-IsValid now date node v)
  Step-IsValid {node} (submits_block date b e) v =
      subst Keeps e (submit_block-IsValid date b node v)
  Step-IsValid {node} (submits_transaction tx e) v =
      subst Keeps e (submit_transaction-IsValid tx node v)
  Step-IsValid {node} (remembers now host port) v = remember-IsValid now host port node v
  Step-IsValid {node} starts v = plain true false node v
  Step-IsValid {node} stops v = record {
    chain = v.chain;
    connections = record { placed = tt; single = tt };
    sync = v.sync;
    book = v.book;
  }

  -- Whatever a node does and whatever it hears, from a start with sound pools and cumulative work: no
  -- two living peers in its list are at the same host with the same listening port, no address has
  -- two entries in its book of at most 1000, a synchronisation that is off holds no peer and no
  -- block and one that is on has a peer, each block of its chain has the cumulative work of the
  -- chain up to it, the mempool holds only authentic transactions, each once and by falling fee,
  -- and the orphan pool is within its bound.
  pub Reach-IsValid :
      (now : TimePoint) (listen_port : ℕ) (info : VersionInfo) (chain : ChainManager) (node : Node)
      → IsSound chain
      → Reach (new now listen_port info chain) node
      → IsValid node
  Reach-IsValid now listen_port info chain node s here = record {
    chain = s;
    connections = record { placed = tt; single = tt };
    sync = no_sync-IsSync;
    book = record { distinct = tt; bounded = omega arith };
  }
  Reach-IsValid now listen_port info chain node s (next r step) =
      Step-IsValid step (Reach-IsValid now listen_port info chain _ s r)

-- ===== src/Network/Node/Handlers.antt =====
-- network/Node.cpp: what a node does with a message of a peer.
use forgechain.Prelude.{
  ℕ, Bool, true, false, not, ◌&&◌, Option, none, some, List, [], ◌∷◌, ◌++◌, Bytes, get_elem?, ◌==◌,
  if◌then◌else◌,
}
use forgechain.Prelude.Outcome.{Outcome, ok, ◌>>=◌}
use forgechain.Crypto.{OpenSsl}
use forgechain.Core.Transaction
use forgechain.Core.Transaction.{Transaction}
use forgechain.Core.Block
use forgechain.Core.Block.{Block}
use forgechain.Consensus.Difficulty.{Doubles}
use forgechain.Chain.State.{ChainManager, BlockOutcome, Status}
use forgechain.Chain.Queries.{
  has_block, has_transaction, find_block, find_transaction, blocks_after_locator,
}
use forgechain.Chain.Submit
use forgechain.Network.Clock.{TimePoint}
use forgechain.Network.Message
use forgechain.Network.Message.{MessageType}
use forgechain.Network.GetBlocks.{deserialize_getblocks}
use forgechain.Network.Inventory.{
  InventoryItemType, InventoryItem, serialize_inventory, deserialize_inventory,
}
use forgechain.Network.PeerAddress.{PeerAddress, deserialize_peer_list}
use forgechain.Network.AddressBook
use forgechain.Network.AddressBook.{Inet, AddressBook, is_routable}
use forgechain.Network.Node.State.{PeerPtr, Node, Delivery, max_blocks_per_response}
use forgechain.Network.Node.Peers.{deliver, targets, address_of}
use forgechain.Network.Node.Sync.{buffer_block}

abbrev pub item : InventoryItemType → Bytes → InventoryItem
item type hash = record { type = type; hash = hash }

-- `peer != exclude`
abbrev pub is_not : Option PeerPtr → PeerPtr → Bool
is_not none p = true
is_not (some q) p = not (p == q)

unfoldable pub deliver_all : MessageType → Bytes → List PeerPtr → List Delivery
deliver_all type payload [] = []
deliver_all type payload (p ∷ ps) = deliver p type payload ∷ deliver_all type payload ps

unfoldable pub broadcast_inv : Option PeerPtr → InventoryItemType → Bytes → Node → List Delivery
unfolding targets deliver_all
broadcast_inv exclude type hash node =
    deliver_all Message.inv (serialize_inventory (item type hash ∷ []))
      (targets (is_not exclude) node.heap node.peers)

unfoldable pub broadcast_blocks : Option PeerPtr → List Bytes → Node → List Delivery
unfolding broadcast_inv
broadcast_blocks exclude [] node = []
broadcast_blocks exclude (hash ∷ hashes) node =
    broadcast_inv exclude InventoryItemType.block hash node ++ broadcast_blocks exclude hashes node

module _ ⦃ssl : OpenSsl⦄ where
  unfoldable pub have_it : ChainManager → InventoryItem → Bool
  have_it chain item = elim item.type [
    | InventoryItemType.block ↦ has_block chain item.hash
    | InventoryItemType.transaction ↦ has_transaction chain item.hash
  ]

  unfoldable pub missing : ChainManager → List InventoryItem → List InventoryItem
  unfolding have_it
  missing chain [] = []
  missing chain (item ∷ items) =
      let rest = missing chain items in if have_it chain item then rest else item ∷ rest

  unfoldable pub ask_for : PeerPtr → List InventoryItem → List Delivery
  ask_for p [] = []
  ask_for p (item ∷ items) = deliver p Message.getdata (serialize_inventory (item ∷ items)) ∷ []

  unfoldable pub handle_inv : PeerPtr → Bytes → Node → List Delivery
  unfolding missing ask_for
  handle_inv p payload node = elim (deserialize_inventory payload) [
    | none ↦ []
    | some items ↦ ask_for p (missing node.chain items)
  ]

  -- The answer to one item of a GETDATA message.
  unfoldable pub answer : PeerPtr → ChainManager → InventoryItem → List Delivery
  answer p chain item = elim item.type [
    | InventoryItemType.block ↦ elim (find_block chain item.hash) [
      | none ↦ []
      | some b ↦ deliver p Message.block (Block.serialize b) ∷ []
    ]
    | InventoryItemType.transaction ↦ elim (find_transaction chain item.hash) [
      | none ↦ []
      | some tx ↦ deliver p Message.tx (Transaction.serialize tx) ∷ []
    ]
  ]

  unfoldable pub answer_all : PeerPtr → ChainManager → List InventoryItem → List Delivery
  unfolding answer
  answer_all p chain [] = []
  answer_all p chain (item ∷ items) = answer p chain item ++ answer_all p chain items

  unfoldable pub handle_getdata : PeerPtr → Bytes → Node → List Delivery
  unfolding answer_all
  handle_getdata p payload node = elim (deserialize_inventory payload) [
    | none ↦ []
    | some items ↦ answer_all p node.chain items
  ]

unfoldable pub send_blocks : PeerPtr → List Block → List Delivery
send_blocks p [] = []
send_blocks p (b ∷ bs) = deliver p Message.block (Block.serialize b) ∷ send_blocks p bs

unfoldable pub handle_getblocks : PeerPtr → Bytes → Node → List Delivery
unfolding send_blocks
handle_getblocks p payload node = elim (deserialize_getblocks payload) [
  | none ↦ []
  | some locator ↦ send_blocks p (blocks_after_locator node.chain locator max_blocks_per_response)
]

unfoldable pub handle_ping : PeerPtr → List Delivery
handle_ping p = deliver p Message.pong [] ∷ []

-- The switch on the outcome of a block that a peer sent.
unfoldable pub report_block : PeerPtr → BlockOutcome → Node → List Delivery
unfolding broadcast_blocks
report_block p outcome node = elim outcome.status [
  | Status.accepted ↦ broadcast_blocks (some p) outcome.to_broadcast node
  | Status.reorged ↦ broadcast_blocks (some p) outcome.to_broadcast node
  | Status.need_parent ↦ elim outcome.missing_parent [
    | none ↦ []
    | some hash ↦
        deliver p Message.getdata (serialize_inventory (item InventoryItemType.block hash ∷ []))
        ∷ []
  ]
  | Status.rejected ↦ []
]

-- Whether the node is synchronising with this peer.
unfoldable pub syncs_with : PeerPtr → Node → Bool
syncs_with p node =
    node.sync_state.active && (elim node.sync_state.peer [ none ↦ false | some q ↦ p == q ])

module _ ⦃ssl : OpenSsl⦄ ⦃doubles : Doubles⦄ where
  -- A block that does not belong to the synchronisation, or that the node itself has found.
  unfoldable pub take_block : ℕ → Block → Node → Outcome (BlockOutcome × Node)
  take_block date b node =
      Submit.submit_block date b node.chain >>= λ done. ok (done.0, record node { chain = done.1 })

  unfoldable pub handle_block :
      TimePoint → ℕ → PeerPtr → Bytes → Node → Outcome (Node × List Delivery)
  unfolding take_block report_block syncs_with
  handle_block now date p payload node =
      if syncs_with p node
      then ok (buffer_block now (Block.deserialize payload) node, [])
      else elim (Block.deserialize payload) [
        | none ↦ ok (node, [])
        | some b ↦ take_block date b node >>= λ done. ok (done.1, report_block p done.0 done.1)
      ]

  unfoldable pub submit_block : ℕ → Block → Node → Outcome (Node × List Delivery)
  unfolding take_block broadcast_blocks
  submit_block date b node = take_block date b node >>= λ done.
      ok (done.1, broadcast_blocks none done.0.to_broadcast done.1)

module _ ⦃ssl : OpenSsl⦄ ⦃doubles : Doubles⦄ where
  -- A transaction, announced to all but the one it came from if it enters the pool.
  unfoldable pub take_transaction :
      Option PeerPtr → Transaction → Node → Outcome (Node × List Delivery)
  unfolding broadcast_inv
  take_transaction exclude tx node = Submit.submit_transaction tx node.chain >>= λ added.
      let node' = record node { chain = added.1 } in
      ok (
        node',
        if added.0
            then broadcast_inv exclude InventoryItemType.transaction (Transaction.compute_hash tx)
                node'
            else [],
      )

  unfoldable pub handle_tx : PeerPtr → Bytes → Node → Outcome (Node × List Delivery)
  unfolding take_transaction
  handle_tx p payload node = elim (Transaction.deserialize payload) [
    | none ↦ ok (node, [])
    | some tx ↦ take_transaction (some p) tx node
  ]

  unfoldable pub submit_transaction : Transaction → Node → Outcome (Node × List Delivery)
  unfolding take_transaction
  submit_transaction tx node = take_transaction none tx node

module _ ⦃inet : Inet⦄ where
  unfoldable pub add_all : TimePoint → Bool → List PeerAddress → AddressBook → AddressBook
  add_all now trusted [] book = book
  add_all now trusted (a ∷ as') book =
      add_all now trusted as' (AddressBook.add now a trusted book).1

  -- Addresses from a peer that is not routable itself are trusted.
  unfoldable pub handle_peers : TimePoint → PeerPtr → Bytes → Node → Node
  unfolding add_all
  handle_peers now p payload node = elim (deserialize_peer_list payload) [
    | none ↦ node
    | some addresses ↦
        let source_is_local : Bool = elim (get_elem? node.heap p) [
          | none ↦ false
          | some peer ↦ not (is_routable (address_of peer))
        ] in
        record node { address_book = add_all now source_is_local addresses node.address_book }
  ]

  abbrev pub remember_peer : TimePoint → Bytes → ℕ → Node → Node
  remember_peer now host port node = record node {
    address_book =
        (AddressBook.add now (record { host = host; port = port }) true node.address_book).1;
  }

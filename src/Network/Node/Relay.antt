-- ===== src/Network/Node/Relay.antt =====
-- A block goes from one node to another: INV, GETDATA, BLOCK.
use forgechain.Prelude.{ℕ, ◌≡◌, refl, ◌∙◌, false, some, List, [], ◌∷◌, Bytes, arith}
use forgechain.Prelude.Outcome.{ok, ◌>>=◌}
use forgechain.Crypto.{OpenSsl}
use forgechain.Core.Block
use forgechain.Core.Block.{Block}
use forgechain.Core.Block.RoundTrip
use forgechain.Core.Block.RoundTrip.{received, deserialize-serialize_block}
use forgechain.Consensus.Difficulty.{Doubles}
use forgechain.Chain.Queries.{has_block, find_block}
use forgechain.Network.Clock.{TimePoint}
use forgechain.Network.Message
use forgechain.Network.GetBlocks.Laws.{IsHash}
use forgechain.Network.Inventory.{InventoryItemType, InventoryItem, serialize_inventory}
use forgechain.Network.Inventory.Laws
use forgechain.Network.Inventory.Laws.{deserialize-serialize_inventory}
use forgechain.Network.Node.State.{PeerPtr, Node}
use forgechain.Network.Node.Peers.{deliver}
use forgechain.Network.Node.Handlers.{
  item, have_it, missing, ask_for, handle_inv, answer, answer_all, handle_getdata, syncs_with,
  take_block, report_block, handle_block,
}

abbrev pub announce : Bytes → Bytes
announce hash = serialize_inventory (item InventoryItemType.block hash ∷ [])

module _ ⦃ssl : OpenSsl⦄ where
  -- An item that is asked for is one of the announced ones that the node does not have.
  pub handle_inv-missing :
      (p : PeerPtr) (items : List InventoryItem) (node : Node)
      → Laws.Fits items
      → handle_inv p (serialize_inventory items) node ≡ ask_for p (missing node.chain items)
  unfolding handle_inv
  handle_inv-missing p items node fits =
      rw (deserialize-serialize_inventory items fits, handle_inv) refl

  handle_getdata-answers :
      (p : PeerPtr) (items : List InventoryItem) (node : Node)
      → Laws.Fits items
      → handle_getdata p (serialize_inventory items) node ≡ answer_all p node.chain items
  unfolding handle_getdata
  handle_getdata-answers p items node fits =
      rw (deserialize-serialize_inventory items fits, handle_getdata) refl

  one-Fits : (hash : Bytes) → IsHash hash → Laws.Fits (item InventoryItemType.block hash ∷ [])
  one-Fits hash h = record { count = omega arith; hashes = (h, tt) }

module _ ⦃ssl : OpenSsl⦄ ⦃doubles : Doubles⦄ where
  -- A block that one node has and the other lacks, announced by its hash. The other asks for it by the
  -- same inventory, the first answers with the block's bytes, and the other submits to its chain
  -- the block with a fresh hash and no work, and passes on what comes of it; so long as it is not
  -- synchronising with the first.
  pub relay :
      (from to : Node) (p q : PeerPtr) (b : Block) (hash : Bytes) (now : TimePoint) (date : ℕ)
      → IsHash hash
      → RoundTrip.Fits b
      → find_block from.chain hash ≡ some b
      → has_block to.chain hash ≡ false
      → syncs_with p to ≡ false
      → (handle_inv p (announce hash) to ≡ deliver p Message.getdata (announce hash) ∷ [])
        × (handle_getdata q (announce hash) from ≡ deliver q Message.block (Block.serialize b) ∷ [])
        × (handle_block now date p (Block.serialize b) to ≡ (
            take_block date (received b) to >>= λ done. ok (done.1, report_block p done.0 done.1)))
  unfolding missing have_it ask_for answer answer_all handle_block
  relay from to p q b hash now date wide fits found lacks apart =
      let one = one-Fits hash wide in
      (
        handle_inv-missing p _ to one ∙ rw (lacks, ask_for) refl,
        handle_getdata-answers q _ from one ∙ rw (found, answer, answer_all) refl,
        rw (handle_block, apart, deserialize-serialize_block b fits) refl,
      )

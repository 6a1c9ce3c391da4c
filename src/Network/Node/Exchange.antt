-- ===== src/Network/Node/Exchange.antt =====
-- A synchronisation: the request is understood, is answered from a block that both chains hold, and
-- the answer is collected in order.
use mathlib.Core.List.{append_assoc, append-nil}
use forgechain.Prelude.{ℕ, ◌≡◌, refl, sym, ◌∙◌, true, some, List, [], ◌∷◌, ◌++◌, map, All}
use forgechain.Prelude.Outcome.{Outcome, ok, ◌>>=◌}
use forgechain.Crypto.{OpenSsl}
use forgechain.Core.Block
use forgechain.Core.Block.{Block}
use forgechain.Core.Block.RoundTrip
use forgechain.Core.Block.RoundTrip.{received, deserialize-serialize_block}
use forgechain.Consensus.Difficulty.{Doubles}
use forgechain.Network.Clock.{TimePoint}
use forgechain.Network.GetBlocks.Laws
use forgechain.Network.Node.State.{PeerPtr, Node, Delivery}
use forgechain.Network.Node.Sync.{buffer_block}
use forgechain.Network.Node.Handlers.{syncs_with, handle_block, send_blocks}

module _ ⦃ssl : OpenSsl⦄ ⦃doubles : Doubles⦄ where
  -- The messages of a peer, handled one after the other.
  unfoldable pub handle_blocks : TimePoint → ℕ → PeerPtr → List Delivery → Node → Outcome Node
  handle_blocks now date p [] node = ok node
  handle_blocks now date p (d ∷ ds) node =
      handle_block now date p d.message.payload node >>= λ done. handle_blocks now date p ds done.0

  syncs_with-buffer_block :
      (now : TimePoint) (b : Block) (p : PeerPtr) (node : Node)
      → syncs_with p node ≡ true
      → syncs_with p (buffer_block now (some b) node) ≡ true
  unfolding syncs_with buffer_block
  syncs_with-buffer_block now b p node h = h

  handle_block-buffers :
      (now : TimePoint) (date : ℕ) (p : PeerPtr) (b : Block) (node : Node)
      → RoundTrip.Fits b
      → syncs_with p node ≡ true
      → handle_block now date p (Block.serialize b) node
        ≡ ok (buffer_block now (some (received b)) node, [])
  unfolding handle_block
  handle_block-buffers now date p b node fits mine =
      rw (handle_block, mine, deserialize-serialize_block b fits) refl

  -- The blocks that the peer of a synchronisation sends are collected in the order in which they
  -- come, behind those that were there, and the chain is left alone.
  pub handle_blocks-collects :
      (now : TimePoint) (date : ℕ) (p q : PeerPtr) (bs : List Block) (node : Node)
      → All RoundTrip.Fits bs
      → syncs_with p node ≡ true
      → (node' : Node) × (handle_blocks now date p (send_blocks q bs) node ≡ ok node')
        × (node'.sync_state.buffer ≡ node.sync_state.buffer ++ map received bs)
        × (node'.chain ≡ node.chain)
        × (syncs_with p node' ≡ true)
  unfolding handle_blocks send_blocks buffer_block
  handle_blocks-collects now date p q [] node fits mine =
      (node, refl, sym (append-nil node.sync_state.buffer), refl, mine)
  handle_blocks-collects now date p q (b ∷ bs) node (f, fs) mine =
      let next = buffer_block now (some (received b)) node in
      let (node', e, collected, kept, mine') =
        handle_blocks-collects now date p q bs next fs
          (syncs_with-buffer_block now (received b) p node mine) in
      (
        node',
        rw (handle_block-buffers now date p b node f mine) e,
        collected ∙ append_assoc node.sync_state.buffer (received b ∷ []) (map received bs),
        kept,
        mine',
      )

-- ===== src/Network/Node/Invariant/Calls.antt =====
-- The handlers and the cleaner keep the invariant.
use forgechain.Prelude.{ℕ, inl, inr, Option-cases, Option, none, some, List, [], ◌∷◌, Bytes, arith}
use forgechain.Prelude.Outcome.{After, After-then, on_branches}
use forgechain.Crypto.{OpenSsl}
use forgechain.Core.Transaction
use forgechain.Core.Transaction.{Transaction}
use forgechain.Core.Block
use forgechain.Core.Block.{Block}
use forgechain.Consensus.Difficulty.{Doubles}
use forgechain.Chain.State.{BlockOutcome}
use forgechain.Chain.Submit
use forgechain.Chain.Invariant.{IsSound}
use forgechain.Chain.Invariant.Calls.{
  submit_block-Keeps, submit_transaction-Keeps, adopt_branch-Keeps,
}
use forgechain.Network.Clock.{TimePoint}
use forgechain.Network.Node.State.{PeerPtr, no_sync, Node}
use forgechain.Network.Node.Peers.{remove_dead}
use forgechain.Network.Node.Sync.{sync_is_due, adopt_buffer, finish_sync_if_due}
use forgechain.Network.Node.Handlers.{
  syncs_with, take_block, handle_block, submit_block, take_transaction, handle_tx,
  submit_transaction,
}
use forgechain.Network.Node.Rounds.{clean}
use forgechain.Network.Node.Invariant.{
  no_sync-IsSync, IsValid, with_chain, with_sync, remove_dead-IsValid, Keeps, buffer_block-IsValid,
}

module _ ⦃ssl : OpenSsl⦄ ⦃doubles : Doubles⦄ where
  adopt_buffer-IsValid :
      (date : ℕ) (buffer : List Block) (node : Node)
      → IsValid node
      → After IsValid (adopt_buffer date buffer node)
  unfolding adopt_buffer
  adopt_buffer-IsValid date [] node v = v
  adopt_buffer-IsValid date (b ∷ bs) node v =
      After-then (λ p. IsSound p.1) IsValid (Submit.adopt_branch date (b ∷ bs) node.chain) _
        (adopt_branch-Keeps date (b ∷ bs) node.chain v.chain)
        λ adopted _ s. with_chain adopted.1 node s v

  finish_sync_if_due-IsValid :
      (now : TimePoint) (date : ℕ) (node : Node)
      → IsValid node
      → After IsValid (finish_sync_if_due now date node)
  unfolding finish_sync_if_due
  finish_sync_if_due-IsValid now date node v =
      on_branches (After IsValid) (sync_is_due now node) _ _
        (λ _.
          adopt_buffer-IsValid date node.sync_state.buffer _
            (with_sync no_sync node no_sync-IsSync v))
        (λ _. v)

  pub clean-IsValid :
      (now : TimePoint) (date : ℕ) (node : Node)
      → IsValid node
      → After IsValid (clean now date node)
  unfolding clean
  clean-IsValid now date node v =
      finish_sync_if_due-IsValid now date (remove_dead node) (remove_dead-IsValid node v)

  take_block-IsValid :
      (date : ℕ) (b : Block) (node : Node)
      → IsValid node
      → After (λ (r : BlockOutcome × Node). IsValid r.1) (take_block date b node)
  unfolding take_block
  take_block-IsValid date b node v =
      After-then (λ p. IsSound p.1) (λ (r : BlockOutcome × Node). IsValid r.1)
        (Submit.submit_block date b node.chain) _ (submit_block-Keeps date b node.chain v.chain)
        λ done _ s. with_chain done.1 node s v

  pub handle_block-Keeps :
      (now : TimePoint) (date : ℕ) (p : PeerPtr) (payload : Bytes) (node : Node)
      → IsValid node
      → Keeps (handle_block now date p payload node)
  unfolding handle_block syncs_with
  handle_block-Keeps now date p payload node v =
      on_branches Keeps (syncs_with p node) _ _
        (λ mine. buffer_block-IsValid now (Block.deserialize payload) node (ground arith) v)
        λ _. elim (Option-cases (Block.deserialize payload)) [
          | inl e ↦ rw e v
          | inr (b, e) ↦ rw e (
              After-then (λ (r : BlockOutcome × Node). IsValid r.1) (λ r. IsValid r.0)
                (take_block date b node) _ (take_block-IsValid date b node v) λ done _ v'. v')
        ]

  pub submit_block-IsValid :
      (date : ℕ) (b : Block) (node : Node) → IsValid node → Keeps (submit_block date b node)
  unfolding submit_block
  submit_block-IsValid date b node v =
      After-then (λ (r : BlockOutcome × Node). IsValid r.1) (λ r. IsValid r.0)
        (take_block date b node) _ (take_block-IsValid date b node v) λ done _ v'. v'

  take_transaction-Keeps :
      (exclude : Option PeerPtr) (tx : Transaction) (node : Node)
      → IsValid node
      → Keeps (take_transaction exclude tx node)
  unfolding take_transaction
  take_transaction-Keeps exclude tx node v =
      After-then (λ p. IsSound p.1) (λ r. IsValid r.0) (Submit.submit_transaction tx node.chain) _
        (submit_transaction-Keeps tx node.chain v.chain) λ added _ s. with_chain added.1 node s v

  pub handle_tx-Keeps :
      (p : PeerPtr) (payload : Bytes) (node : Node)
      → IsValid node
      → Keeps (handle_tx p payload node)
  unfolding handle_tx
  handle_tx-Keeps p payload node v = elim (Option-cases (Transaction.deserialize payload)) [
    | inl e ↦ rw (handle_tx, e) v
    | inr (tx, e) ↦ rw (handle_tx, e) (take_transaction-Keeps (some p) tx node v)
  ]

  pub submit_transaction-IsValid :
      (tx : Transaction) (node : Node) → IsValid node → Keeps (submit_transaction tx node)
  unfolding submit_transaction
  submit_transaction-IsValid tx node v = take_transaction-Keeps none tx node v

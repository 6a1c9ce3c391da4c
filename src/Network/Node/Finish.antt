-- ===== src/Network/Node/Finish.antt =====
-- The end of a synchronisation.
use forgechain.Prelude.{
  ℕ, ◌<◌, ◌≡◌, refl, Bool, true, false, Bool-cases, inl, inr, ◌⊎◌, List, [], ◌∷◌,
}
use forgechain.Prelude.Outcome.{After, After-then}
use forgechain.Crypto.{OpenSsl}
use forgechain.Core.Block.{Block}
use forgechain.Core.Blockchain.{tip_work}
use forgechain.Core.Blockchain.Index.{IsIndexed}
use forgechain.Consensus.Difficulty.{Doubles}
use forgechain.Chain.State.{ChainManager}
use forgechain.Chain.Submit
use forgechain.Chain.Submit.Adoption.{Adopted, IsAdoption, adopt_branch-IsAdoption}
use forgechain.Network.Clock.{TimePoint}
use forgechain.Network.Node.State.{Node, no_sync}
use forgechain.Network.Node.Sync.{sync_is_due, adopt_buffer, finish_sync_if_due}

-- The chain is as it was, or its tip has more work.
abbrev pub NotWorse : ChainManager → ChainManager → Type 0
NotWorse cm cm' = (cm' ≡ cm) ⊎ (tip_work cm.blockchain.blocks < tip_work cm'.blockchain.blocks)

-- By whether the synchronisation was due to end.
abbrev pub Finished : Bool → Node → Node → Type 0
Finished false node node' = node' ≡ node
Finished true node node' =
    (node'.sync_state ≡ no_sync)
    × NotWorse node.chain node'.chain
    × (node'.heap ≡ node.heap)
    × (node'.peers ≡ node.peers)

module _ ⦃ssl : OpenSsl⦄ ⦃doubles : Doubles⦄ where
  not_worse : (adopted : Bool) (cm cm' : ChainManager) → Adopted cm adopted cm' → NotWorse cm cm'
  not_worse true cm cm' h = inr h
  not_worse false cm cm' h = inl h

  adopt_buffer-Finished :
      (date : ℕ) (buffer : List Block) (node : Node)
      → IsIndexed node.chain.blockchain
      → After (Finished true node) (adopt_buffer date buffer (record node { sync_state = no_sync }))
  unfolding adopt_buffer
  adopt_buffer-Finished date [] node x = (refl, inl refl, refl, refl)
  adopt_buffer-Finished date (b ∷ bs) node x =
      After-then (IsAdoption node.chain) (Finished true node)
        (Submit.adopt_branch date (b ∷ bs) node.chain) _
        (adopt_branch-IsAdoption date (b ∷ bs) node.chain x)
        λ adopted _ h. (refl, not_worse adopted.0 node.chain adopted.1 h, refl, refl)

  -- A synchronisation that is not due to end is left alone. One that is ends, unless adopting what was
  -- collected throws: the node is free for the next one, and its chain is as it was or has a tip with
  -- more work. The index of the chain has to be exact.
  pub finish_sync_if_due-Finished :
      (now : TimePoint) (date : ℕ) (node : Node)
      → IsIndexed node.chain.blockchain
      → After (Finished (sync_is_due now node) node) (finish_sync_if_due now date node)
  unfolding finish_sync_if_due
  finish_sync_if_due-Finished now date node x = elim (Bool-cases (sync_is_due now node)) [
    | inl due ↦ rw due (adopt_buffer-Finished date node.sync_state.buffer node x)
    | inr early ↦ rw early refl
  ]

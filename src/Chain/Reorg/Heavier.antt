-- ===== src/Chain/Reorg/Heavier.antt =====
-- A reorganization either leaves the manager alone or raises the work of the tip.
use mathlib.Core.List.{reverse}
use forgechain.Prelude.{
  ◌<◌, ◌≡◌, inl, inr, true, refl, Option, none, some, List, Bytes, Bool-cases, Option-cases, map,
  arith, subst, sym, ap, ◌∙◌,
}
use forgechain.Prelude.Outcome.{ok, ◌>>=◌, After, Outcome-cases}
use forgechain.Crypto.{OpenSsl}
use forgechain.Core.Block.{Block}
use forgechain.Core.Blockchain
use forgechain.Core.Blockchain.{Blockchain, ForkChain, reorganize_to, tip_work}
use forgechain.Core.ForkResolution.{is_fork_heavier}
use forgechain.Core.ForkResolution.Heavier.{reorganize_to-raises_work}
use forgechain.Chain.State.{ChainManager, write, Write}
use forgechain.Chain.Reorg.{all_signed, transactions_of, take_back, spend_hashes, settle, try_reorg}

-- What `try_reorg` answers, and what it does to the manager.
pub data IsReorg (cm : ChainManager) : Option (List Bytes) × ChainManager → Type 0 where
  kept : IsReorg cm (none, cm)
  raised :
      (hashes : List Bytes) (cm' : ChainManager)
      → tip_work cm.blockchain.blocks < tip_work cm'.blockchain.blocks
      → IsReorg cm (some hashes, cm')

pub write-blockchain : (w : Write) (cm : ChainManager) → (write w cm).blockchain ≡ cm.blockchain
write-blockchain w cm = elim (Bool-cases cm.has_storage) [ inl e ↦ rw e refl | inr e ↦ rw e refl ]

module _ ⦃ssl : OpenSsl⦄ where
  settle-blockchain :
      (fork : ForkChain) (discarded : List Block) (chain : Blockchain) (cm : ChainManager)
      → After (λ cm'. cm'.blockchain ≡ chain) (settle fork discarded chain cm)
  unfolding settle
  settle-blockchain fork discarded chain cm =
      let old_txs = transactions_of discarded in
      let new_txs = transactions_of fork.blocks in
      elim (Outcome-cases
        (take_back (spend_hashes new_txs) (reverse old_txs) cm.ledger cm.mempool)) [
          | inl e ↦ rw (settle, e) tt
          | inr (back, e) ↦ rw (settle, e) (ground arith)
        ]

  raised_by :
      (fork : ForkChain) (discarded : List Block) (cm : ChainManager)
      → Blockchain.find cm.blockchain fork.common_ancestor.hash ≡ some fork.common_ancestor
      → is_fork_heavier cm.blockchain fork ≡ ok true
      → After (IsReorg cm) (
          settle fork discarded (reorganize_to fork cm.blockchain).1 cm >>= λ cm'.
          ok (some (map (λ b. b.hash) fork.blocks), cm'))
  raised_by fork discarded cm ancestor heavier =
      let chain = (reorganize_to fork cm.blockchain).1 in
      let same = settle-blockchain fork discarded chain cm in
      let work = reorganize_to-raises_work fork cm.blockchain ancestor heavier in
      elim (Outcome-cases (settle fork discarded chain cm)) [
        | inl e ↦ rw e tt
        | inr (cm', e) ↦
            let kept_chain : cm'.blockchain ≡ chain =
              subst (After (λ (c : ChainManager). c.blockchain ≡ chain)) e same in
            rw e (
              raised _ cm' (
                subst (λ (c : Blockchain). tip_work cm.blockchain.blocks < tip_work c.blocks)
                  (sym kept_chain) work))
      ]

  pub try_reorg-IsReorg :
      (fork : ForkChain) (cm : ChainManager)
      → Blockchain.find cm.blockchain fork.common_ancestor.hash ≡ some fork.common_ancestor
      → After (IsReorg cm) (try_reorg fork cm)
  unfolding try_reorg
  try_reorg-IsReorg fork cm ancestor = elim (Outcome-cases (is_fork_heavier cm.blockchain fork)) [
    | inl e ↦ rw (try_reorg, e) tt
    | inr (heavier, e) ↦ elim (Bool-cases heavier) [
      | inr light ↦ rw (try_reorg, e, light) kept
      | inl heavy ↦ elim (Outcome-cases (all_signed (transactions_of fork.blocks))) [
        | inl f ↦ rw (try_reorg, e, heavy, f) tt
        | inr (signed, f) ↦ elim (Bool-cases signed) [
          | inr bad ↦ rw (try_reorg, e, heavy, f, bad) kept
          | inl good ↦ elim (Option-cases (reorganize_to fork cm.blockchain).0) [
            | inl lost ↦ rw (try_reorg, e, heavy, f, good, lost) kept
            | inr (discarded, found) ↦
                let heavier_is : is_fork_heavier cm.blockchain fork ≡ ok true = e ∙ ap ok heavy in
                rw (try_reorg, e, heavy, f, good, found)
                  (raised_by fork discarded cm ancestor heavier_is)
          ]
        ]
      ]
    ]
  ]

-- ===== src/Consensus/Mining/Search.antt =====
-- The first nonce that `mine_block` finds.
use forgechain.Prelude.{
  ℕ, zero, suc, ◌+◌, ◌<◌, ◌≤◌, ◌≡◌, inl, inr, Bool, true, false, refl, ap, ◌∙◌, List, Bytes, ◌==◌,
  arith, Bool-cases, ==→eq,
}
use forgechain.Prelude.Outcome.{Outcome, ok, fault}
use forgechain.Crypto.{OpenSsl}
use forgechain.Core.Transaction.{Transaction}
use forgechain.Core.Block.{Block}
use forgechain.Consensus.Target.{meets_target}
use forgechain.Consensus.Params.{max_nonce}
use forgechain.Consensus.Mining.{unmined, attempt, mine_nonces, mine_block}

module _ ⦃ssl : OpenSsl⦄ where
  -- A nonce whose hash meets the target.
  abbrev pub hits : Block → ℕ → ℕ → Bool
  hits block difficulty nonce = meets_target (attempt block nonce).hash difficulty

  -- The first nonce from `from` on that hits, and the outcome that it gives, or none before `until`.
  pub data Search (block : Block) (difficulty from until : ℕ) (outcome : Outcome Block)
      : Type 0 where
    found :
        (nonce : ℕ)
        → from ≤ nonce
        → nonce < until
        → hits block difficulty nonce ≡ true
        → ((k : ℕ) → from ≤ k → k < nonce → hits block difficulty k ≡ false)
        → outcome ≡ ok (attempt block nonce)
        → Search block difficulty from until outcome
    exhausted :
        ((k : ℕ) → from ≤ k → k < until → hits block difficulty k ≡ false)
        → outcome ≡ fault
        → Search block difficulty from until outcome

  mine_nonces-Search :
      (rounds nonce difficulty : ℕ) (block : Block)
      → Search block difficulty nonce (nonce + rounds) (mine_nonces rounds nonce difficulty block)
  unfolding mine_nonces
  mine_nonces-Search zero nonce difficulty block = exhausted (λ k h h'. absurd (omega arith)) refl
  mine_nonces-Search (suc rounds) nonce difficulty block =
      elim (Bool-cases (hits block difficulty nonce)) [
        | inl e ↦
            found nonce (omega arith) (omega arith) e (λ k h h'. absurd (omega arith))
              (rw (mine_nonces, e) refl)
        | inr e ↦ elim (mine_nonces-Search rounds (nonce + 1) difficulty block) [
          | found n after before hit first result ↦
              found n (omega arith) (omega arith) hit
                (λ k h h'. elim (Bool-cases (k == nonce)) [
                  | inl same ↦ ap (hits block difficulty) (==→eq k nonce same) ∙ e
                  | inr other ↦ first k (ground arith) h'
                ])
                (rw (mine_nonces, e) result)
          | exhausted never result ↦
              exhausted
                (λ k h h'. elim (Bool-cases (k == nonce)) [
                  | inl same ↦ ap (hits block difficulty) (==→eq k nonce same) ∙ e
                  | inr other ↦ never k (ground arith) (omega arith)
                ])
                (rw (mine_nonces, e) result)
        ]
      ]

  -- `mine_block` returns the block of the first nonce below `kMaxNonce` whose hash meets the target,
  -- and throws just when no nonce below `kMaxNonce` gives one.
  pub mine_block-Search :
      (version : ℕ) (prev_hash : Bytes) (timestamp difficulty : ℕ) (transactions : List Transaction)
      → Search
          (unmined version prev_hash timestamp difficulty transactions)
          difficulty
          0
          max_nonce
          (mine_block version prev_hash timestamp difficulty transactions)
  unfolding mine_block
  mine_block-Search version prev_hash timestamp difficulty transactions =
      mine_nonces-Search max_nonce 0 difficulty _

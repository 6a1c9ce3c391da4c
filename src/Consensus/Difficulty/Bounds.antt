-- ===== src/Consensus/Difficulty/Bounds.antt =====
-- What a retarget can do to the difficulty, whatever the floating-point library answers.
use forgechain.Prelude.{
  ℕ, zero, suc, ◌+◌, ◌-◌, ◌*◌, ◌%◌, ◌^◌, ◌<◌, ◌≤◌, ◌≡◌, refl, max, ◌==◌, arith, Bool-cases, le→ltb,
  lt→leb, ◌≢◌, inl, inr,
}
use forgechain.Prelude.Int.{ℤ, pos, negsuc}
use forgechain.Prelude.Outcome.{Outcome, ok}
use forgechain.Core.Block.{Block}
use forgechain.Consensus.Params.{ConsensusParams}
use forgechain.Consensus.Difficulty.{
  Doubles, clamp_step, step_by, retarget, elapsed, next_difficulty,
}

-- One retarget's step: at most two bits either way, within `uint32_t`.
abbrev pub IsStep : ℕ → ℕ → Type 0
IsStep old_difficulty new_difficulty =
    (new_difficulty ≤ old_difficulty + 2)
    × (old_difficulty ≤ new_difficulty + 2)
    × (new_difficulty < 2 ^ 32)

step_by-clamp_step :
    (old_difficulty : ℕ) (step : ℤ)
    → old_difficulty < 2 ^ 32
    → IsStep old_difficulty (step_by old_difficulty (clamp_step step))
unfolding step_by clamp_step
step_by-clamp_step old_difficulty (pos zero) h = ground arith
step_by-clamp_step old_difficulty (pos (suc n)) h = ground arith
step_by-clamp_step old_difficulty (negsuc n) h = ground arith

module _ ⦃doubles : Doubles⦄ where
  -- Whatever the floating-point functions answer, a retarget changes a `uint32_t` difficulty by at
  -- most two bits in either direction, and the result is a `uint32_t` again.
  pub retarget-IsStep :
      (old_difficulty actual expected : ℕ)
      → old_difficulty < 2 ^ 32
      → IsStep old_difficulty (retarget old_difficulty actual expected)
  unfolding retarget
  retarget-IsStep old_difficulty actual expected h = elim (Bool-cases (expected == 0)) [
    | inl e ↦ rw e (omega arith, omega arith, omega arith)
    | inr e ↦ rw e (search step_by-clamp_step)
  ]

  -- Past the first epoch, over a chain that answers below `height` with `uint32_t` difficulties, the
  -- difficulty is found, with no exception. It is the parent's inside an epoch; at a boundary it is
  -- at least the minimum, at most two bits above the larger of the parent's and the minimum, and at
  -- most two bits below the parent's.
  pub next_difficulty-bounds :
      (height : ℕ) (params : ConsensusParams) (block_at : ℕ → Outcome Block)
      → 2 ≤ params.retarget_interval
      → params.retarget_interval < height
      → ((i : ℕ) → i < height → (b : Block) × (block_at i ≡ ok b) × (b.difficulty < 2 ^ 32))
      → (parent : Block) × (d : ℕ) × (block_at (height - 1) ≡ ok parent)
        × (next_difficulty height params block_at ≡ ok d)
        × ((height % params.retarget_interval ≢ 0) → d ≡ parent.difficulty)
        × ((height % params.retarget_interval ≡ 0) → params.min_difficulty ≤ d)
        × (d ≤ max (parent.difficulty + 2) params.min_difficulty)
        × (parent.difficulty ≤ d + 2)
  unfolding next_difficulty
  next_difficulty-bounds height params block_at two past answers =
      let (parent, at_parent, small) = answers (height - 1) (omega arith) in
      let (first, at_first, _) = answers (height - params.retarget_interval) (omega arith) in
      let actual = elapsed first.timestamp parent.timestamp in
      let expected = (params.retarget_interval - 1) * params.target_block_time % 2 ^ 64 in
      let (rise, fall, _) = retarget-IsStep parent.difficulty actual expected small in
      rw
        (
          le→ltb params.retarget_interval 2 two,
          lt→leb height params.retarget_interval past,
          at_parent,
          at_first,
        )
        (elim (Bool-cases (height % params.retarget_interval == 0)) [
          | inl e ↦ rw e (
            parent,
            max (retarget parent.difficulty actual expected) params.min_difficulty,
            refl,
            refl,
            λ n. absurd (ground arith),
            λ _. omega arith,
            omega (arith, rise),
            omega (arith, fall),
          )
          | inr e ↦ rw e (
            parent,
            parent.difficulty,
            refl,
            refl,
            λ _. refl,
            λ n. absurd (ground arith),
            omega arith,
            omega arith,
          )
        ])

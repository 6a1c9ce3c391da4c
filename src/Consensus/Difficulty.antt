-- ===== src/Consensus/Difficulty.antt =====
-- `retarget` and `next_difficulty`. The `double` arithmetic of the ratio's logarithm is a parameter.
pub mod Bounds
use forgechain.Prelude.{
  ℕ, zero, suc, ◌+◌, ◌-◌, ◌*◌, ◌%◌, ◌^◌, Bool, not, ◌||◌, max, ltb, leb, ◌==◌, if◌then◌else◌,
}
use forgechain.Prelude.Int.{ℤ, pos, negsuc}
use forgechain.Prelude.Outcome.{Outcome, ok, fault, ◌>>=◌}
use forgechain.Core.Block.{Block}
use forgechain.Consensus.Params.{ConsensusParams}

-- `double`, the conversion from `uint64_t`, `/`, `std::log2` and `std::llround`.
pub record Doubles : Type 1 where
  pub Double : Type 0
  pub of_u64 : ℕ → Double
  pub divide : Double → Double → Double
  pub log2 : Double → Double
  pub llround : Double → ℤ

-- The clamp to `kMaxStepBits` on either side.
unfoldable pub clamp_step : ℤ → ℤ
clamp_step (pos n) = if ltb 2 n then pos 2 else pos n
clamp_step (negsuc n) = if ltb 1 n then negsuc 1 else negsuc n

-- The step taken: a rise stops at the largest `uint32_t`, a fall at 0.
unfoldable pub step_by : ℕ → ℤ → ℕ
step_by old_difficulty (pos zero) = old_difficulty
step_by old_difficulty (pos (suc n)) =
    if ltb (2 ^ 32 - 1) (old_difficulty + suc n) then 2 ^ 32 - 1 else old_difficulty + suc n
step_by old_difficulty (negsuc n) =
    if leb old_difficulty (n + 1) then 0 else old_difficulty - (n + 1)

module _ ⦃doubles : Doubles⦄ where
  unfoldable pub retarget : ℕ → ℕ → ℕ → ℕ
  unfolding clamp_step step_by
  retarget old_difficulty actual_time_seconds expected_time_seconds =
      let actual = if actual_time_seconds == 0 then 1 else actual_time_seconds in
      if expected_time_seconds == 0
      then old_difficulty
      else step_by old_difficulty (
          clamp_step (
            doubles.llround (
              doubles.log2
                (doubles.divide (doubles.of_u64 expected_time_seconds) (doubles.of_u64 actual)))))

  -- `last > first ? last - first : 0`
  abbrev pub elapsed : ℕ → ℕ → ℕ
  elapsed first last = if ltb first last then last - first else 0

  unfoldable pub next_difficulty : ℕ → ConsensusParams → (ℕ → Outcome Block) → Outcome ℕ
  next_difficulty height params block_at =
      let interval = params.retarget_interval in
      if ltb interval 2 || leb height interval then ok params.initial_difficulty else do
        parent ← block_at (height - 1)
        if not (height % interval == 0) then ok parent.difficulty else do
          first ← block_at (height - interval)
          let actual = elapsed first.timestamp parent.timestamp
          let expected = (interval - 1) * params.target_block_time % 2 ^ 64
          ok (max (retarget parent.difficulty actual expected) params.min_difficulty)

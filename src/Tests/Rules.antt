-- ===== src/Tests/Rules.antt =====
-- Consensus theorems at concrete inputs.
use forgechain.Prelude.{
  ◌-◌, ℕ, zero, suc, ◌+◌, ◌^◌, ◌<◌, ◌≡◌, refl, Bool, true, none, List, [], ◌∷◌, arith, length, min,
  leb, ◌/◌, if◌then◌else◌,
}
use forgechain.Prelude.Int.{pos}
use forgechain.Prelude.Outcome.{Outcome, ok}
use forgechain.Core.Block.{Block, zero_hash}
use forgechain.Consensus.Params.{test_params}
use forgechain.Consensus.Target.{meets_target}
use forgechain.Consensus.Target.Bound.{value, meets_target_iff}
use forgechain.Consensus.Difficulty.{Doubles}
use forgechain.Consensus.Timestamp.{timestamp_is_valid}
use forgechain.Consensus.Timestamp.Median.{AreFrom, IsTimely, timestamp_is_valid_iff}
use forgechain.Consensus.Mining.{unmined, mine_block_until}
use forgechain.Consensus.Mining.Rounds.{IsAnswer, mine_block_until-IsAnswer}
use forgechain.Tests.Toys.{toy_ssl, first}

-- Quotients rounded down for doubles, and a logarithm that counts halvings, to 3 at most.
abbrev pub log_to : ℕ → ℕ → ℕ
log_to zero n = 0
log_to (suc fuel) n = if leb n 1 then 0 else 1 + log_to fuel (n / 2)

instance abbrev pub toy_doubles : Doubles
toy_doubles = record {
  Double = ℕ;
  of_u64 = λ n. n;
  divide = λ a b. a / b;
  log2 = λ n. log_to 3 n;
  llround = λ n. pos n;
}

-- A chain that has the block `first` at every height.
abbrev always : ℕ → Outcome Block
always i = ok (record first { difficulty = 7 })

timestamp_is_valid_iff_example :
    (ts : List ℕ) × (valid : Bool) × (length ts ≡ min 4 11)
    × AreFrom (4 - min 4 11) always ts
    × (timestamp_is_valid (record first { timestamp = 12 }) 4 5 test_params always ≡ ok valid)
    × (valid ≡ true → IsTimely (record first { timestamp = 12 }) ts 5 120)
    × (IsTimely (record first { timestamp = 12 }) ts 5 120 → valid ≡ true)
timestamp_is_valid_iff_example =
    timestamp_is_valid_iff (record first { timestamp = 12 }) 4 5 test_params always (omega arith)
      (omega arith) (λ i h. (record first { difficulty = 7 }, refl))

meets_target_iff_example :
    (meets_target (0 ∷ 31 ∷ []) 11 ≡ true → value (0 ∷ 31 ∷ []) < 2 ^ 5)
    × (value (0 ∷ 31 ∷ []) < 2 ^ 5 → meets_target (0 ∷ 31 ∷ []) 11 ≡ true)
meets_target_iff_example =
    meets_target_iff (0 ∷ 31 ∷ []) 11 (omega arith, (omega arith, tt)) (omega arith)

mine_block_until-IsAnswer_example :
    IsAnswer (unmined 1 zero_hash 0 4 []) (mine_block_until 1 zero_hash 0 4 [] none)
mine_block_until-IsAnswer_example = mine_block_until-IsAnswer 1 zero_hash 0 4 [] none (omega arith)

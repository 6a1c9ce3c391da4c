-- ===== src/Consensus/Timestamp.antt =====
-- `median_time_past` and `timestamp_is_valid`.
pub mod Median
use forgechain.Prelude.{
  ℕ, zero, suc, ◌+◌, ◌-◌, ◌/◌, Bool, true, false, ◌&&◌, ◌||◌, Option, none, some, List, [], ◌∷◌,
  length, get_elem?, ltb, leb, ◌==◌, if◌then◌else◌,
}
use forgechain.Prelude.Outcome.{Outcome, ok, fault, ◌>>=◌}
use forgechain.Core.Block.{Block}
use forgechain.Consensus.Params.{ConsensusParams}

-- `std::sort` of numbers by `<`: there is one sorted order, so any method gives it.
unfoldable pub insert_sorted : ℕ → List ℕ → List ℕ
insert_sorted t [] = t ∷ []
insert_sorted t (u ∷ us) = if leb t u then t ∷ u ∷ us else u ∷ insert_sorted t us

unfoldable pub sort : List ℕ → List ℕ
unfolding insert_sorted
sort [] = []
sort (t ∷ ts) = insert_sorted t (sort ts)

-- The timestamps of `count` blocks from a height on.
unfoldable pub timestamps_from : ℕ → ℕ → (ℕ → Outcome Block) → Outcome (List ℕ)
timestamps_from zero start block_at = ok []
timestamps_from (suc count) start block_at = do
  block ← block_at start
  ts ← timestamps_from count (start + 1) block_at
  ok (block.timestamp ∷ ts)

-- `height > window ? height - window : 0`
abbrev pub window_start : ℕ → ℕ → ℕ
window_start height window = if ltb window height then height - window else 0

-- The timestamps of the blocks below `height` that the median is taken of.
unfoldable pub window_timestamps : ℕ → ℕ → (ℕ → Outcome Block) → Outcome (List ℕ)
unfolding timestamps_from
window_timestamps height window block_at =
    let start = window_start height window in timestamps_from (height - start) start block_at

-- `timestamps[timestamps.size() / 2]` of the sorted timestamps
unfoldable pub median : List ℕ → Outcome ℕ
unfolding sort
median ts = elim (get_elem? (sort ts) (length ts / 2)) [ none ↦ fault | some t ↦ ok t ]

unfoldable pub median_time_past : ℕ → ℕ → (ℕ → Outcome Block) → Outcome ℕ
unfolding median
median_time_past height window block_at =
    if height == 0 || window == 0
    then ok 0
    else do timestamps ← window_timestamps height window block_at; median timestamps

unfoldable pub timestamp_is_valid :
    Block → ℕ → ℕ → ConsensusParams → (ℕ → Outcome Block) → Outcome Bool
timestamp_is_valid block height now params block_at =
    if ltb now block.timestamp && ltb params.max_future_drift (block.timestamp - now)
    then ok false
    else do
      past ← median_time_past height params.mtp_window block_at
      ok (if leb block.timestamp past then false else true)

-- ===== src/Consensus/Timestamp/Median.antt =====
-- The median of the recent timestamps, and which timestamps a new block may carry.
use forgechain.Prelude.{
  subst, ℕ, zero, suc, ◌+◌, ◌-◌, ◌/◌, ◌<◌, ◌≤◌, ◌≡◌, inl, inr, Bool, true, false, refl, min, ◌&&◌,
  some, List, [], ◌∷◌, length, get_elem?, All, ltb, leb, if◌then◌else◌, arith, Bool-cases,
}
use forgechain.Prelude.Outcome.{Outcome, ok, ok-injective, >>=-eq-ok}
use forgechain.Core.Block.{Block}
use forgechain.Consensus.Params.{ConsensusParams}
use forgechain.Consensus.Timestamp.{
  insert_sorted, sort, timestamps_from, window_start, window_timestamps, median, median_time_past,
  timestamp_is_valid,
}

-- How many of the timestamps are before `t`.
unfoldable pub count_before : ℕ → List ℕ → ℕ
count_before t [] = 0
count_before t (u ∷ us) = (if ltb u t then 1 else 0) + count_before t us

abbrev IsSorted : List ℕ → Type 0
IsSorted [] = Unit
IsSorted (u ∷ us) = All (λ v. u ≤ v) us × IsSorted us

All-insert_sorted :
    (u t : ℕ) (us : List ℕ) → u ≤ t → All (λ v. u ≤ v) us → All (λ v. u ≤ v) (insert_sorted t us)
unfolding insert_sorted
All-insert_sorted u t [] h all = (h, tt)
All-insert_sorted u t (v ∷ us) h all = elim (Bool-cases (leb t v)) [
  | inl e ↦ rw e (h, all)
  | inr e ↦ rw e (all.0, All-insert_sorted u t us h all.1)
]

All-le : (u v : ℕ) (us : List ℕ) → u ≤ v → All (λ w. v ≤ w) us → All (λ w. u ≤ w) us
All-le u v [] h all = tt
All-le u v (w ∷ us) h (first, all) = (omega arith, All-le u v us h all)

insert_sorted-IsSorted : (t : ℕ) (us : List ℕ) → IsSorted us → IsSorted (insert_sorted t us)
unfolding insert_sorted
insert_sorted-IsSorted t [] h = (tt, tt)
insert_sorted-IsSorted t (u ∷ us) (all, h) = elim (Bool-cases (leb t u)) [
  | inl e ↦ rw e ((ground arith, All-le t u us (ground arith) all), (all, h))
  | inr e ↦ rw e (All-insert_sorted u t us (ground arith) all, insert_sorted-IsSorted t us h)
]

sort-IsSorted : (ts : List ℕ) → IsSorted (sort ts)
unfolding sort
sort-IsSorted [] = tt
sort-IsSorted (t ∷ ts) = insert_sorted-IsSorted t (sort ts) (sort-IsSorted ts)

count-insert_sorted :
    (t u : ℕ) (us : List ℕ) → count_before t (insert_sorted u us) ≡ count_before t (u ∷ us)
unfolding insert_sorted count_before
count-insert_sorted t u [] = refl
count-insert_sorted t u (v ∷ us) = ground (arith, count-insert_sorted t u us)

count-sort : (t : ℕ) (us : List ℕ) → count_before t (sort us) ≡ count_before t us
unfolding sort count_before
count-sort t [] = refl
count-sort t (u ∷ us) = omega (arith, count-insert_sorted t u (sort us), count-sort t us)

length-insert_sorted : (u : ℕ) (us : List ℕ) → length (insert_sorted u us) ≡ suc (length us)
unfolding insert_sorted
length-insert_sorted u [] = refl
length-insert_sorted u (v ∷ us) = ground (arith, length-insert_sorted u us)

length-sort : (us : List ℕ) → length (sort us) ≡ length us
unfolding sort
length-sort [] = refl
length-sort (u ∷ us) = omega (arith, length-insert_sorted u (sort us), length-sort us)

All-get : (u m i : ℕ) (us : List ℕ) → All (λ v. u ≤ v) us → get_elem? us i ≡ some m → u ≤ m
All-get u m i [] all h = cc
All-get u m zero (v ∷ us) all h = ground (arith, all.0)
All-get u m (suc i) (v ∷ us) all h = All-get u m i us all.1 h

none_before : (t u : ℕ) (us : List ℕ) → t ≤ u → All (λ v. u ≤ v) us → count_before t us ≡ 0
unfolding count_before
none_before t u [] h all = refl
none_before t u (v ∷ us) h (first, all) = ground (arith, none_before t u us h all)

-- The element at `i` of a sorted list is before `t` just when more than `i` elements are.
get-before :
    (t i m : ℕ) (us : List ℕ)
    → IsSorted us
    → get_elem? us i ≡ some m
    → m < t
    → i < count_before t us
unfolding count_before
get-before t i m [] sorted at h = cc
get-before t zero m (u ∷ us) sorted at h = ground arith
get-before t (suc i) m (u ∷ us) (all, sorted) at h =
    ground (arith, get-before t i m us sorted at h, All-get u m i us all at)

get-after :
    (t i m : ℕ) (us : List ℕ)
    → IsSorted us
    → get_elem? us i ≡ some m
    → t ≤ m
    → count_before t us ≤ i
unfolding count_before
get-after t i m [] sorted at h = cc
get-after t zero m (u ∷ us) (all, sorted) at h =
    ground (arith, none_before t u us (ground arith) all)
get-after t (suc i) m (u ∷ us) (all, sorted) at h = ground (arith, get-after t i m us sorted at h)

get_elem?-some : (i : ℕ) (us : List ℕ) → i < length us → (m : ℕ) × (get_elem? us i ≡ some m)
get_elem?-some i [] h = absurd (omega arith)
get_elem?-some zero (u ∷ us) h = (u, refl)
get_elem?-some (suc i) (u ∷ us) h = get_elem?-some i us (omega arith)

pub timestamps_from-ok :
    (count start height : ℕ) (block_at : ℕ → Outcome Block)
    → start + count ≤ height
    → ((i : ℕ) → i < height → (b : Block) × (block_at i ≡ ok b))
    → (ts : List ℕ) × (timestamps_from count start block_at ≡ ok ts) × (length ts ≡ count)
unfolding timestamps_from
timestamps_from-ok zero start height block_at h answers = ([], refl, refl)
timestamps_from-ok (suc count) start height block_at h answers =
    let (b, at) = answers start (omega arith) in
    let (ts, rest, len) =
      timestamps_from-ok count (start + 1) height block_at (omega arith) answers in
    (b.timestamp ∷ ts, rw (at, rest) refl, omega arith)

-- The median is found of any list but the empty one, and it is before `t` just when more than half
-- of the list is.
pub median-half :
    (t : ℕ) (ts : List ℕ)
    → 0 < length ts
    → (m : ℕ) × (median ts ≡ ok m) × (ltb m t ≡ ltb (length ts / 2) (count_before t ts))
unfolding median
median-half t ts some_block =
    let (m, at) = get_elem?-some (length ts / 2) (sort ts) (omega (arith, length-sort ts)) in
    let sorted = sort-IsSorted ts in
    (
      m,
      rw (median, at) refl,
      elim (Bool-cases (ltb m t)) [
        | inl e ↦ ground (
          arith,
          get-before t (length ts / 2) m (sort ts) sorted at (ground arith),
          count-sort t ts,
        )
        | inr e ↦ ground (
          arith,
          get-after t (length ts / 2) m (sort ts) sorted at (ground arith),
          count-sort t ts,
        )
      ],
    )

pub median_time_past-eq :
    (height window : ℕ) (block_at : ℕ → Outcome Block) (ts : List ℕ) (m : ℕ)
    → 0 < height
    → 0 < window
    → window_timestamps height window block_at ≡ ok ts
    → median ts ≡ ok m
    → median_time_past height window block_at ≡ ok m
unfolding median_time_past
median_time_past-eq height window block_at ts m high wide at is_median = ground arith

-- The answer, from the median.
abbrev pub passes : ℕ → ℕ → ℕ → ℕ → Bool
passes t now drift m = if ltb now t && ltb drift (t - now) then false else ltb m t

pub timestamp_is_valid-eq :
    (block : Block) (height now : ℕ) (params : ConsensusParams) (block_at : ℕ → Outcome Block)
    (m : ℕ)
    → median_time_past height params.mtp_window block_at ≡ ok m
    → timestamp_is_valid block height now params block_at
      ≡ ok (passes block.timestamp now params.max_future_drift m)
unfolding timestamp_is_valid
timestamp_is_valid-eq block height now params block_at m h = ground arith

-- The timestamps of the blocks at the heights from `start` on.
abbrev pub AreFrom : ℕ → (ℕ → Outcome Block) → List ℕ → Type 0
AreFrom start block_at [] = Unit
AreFrom start block_at (t ∷ ts) =
    ((b : Block) × (block_at start ≡ ok b) × (b.timestamp ≡ t)) × AreFrom (start + 1) block_at ts

timestamps_from-AreFrom :
    (count start : ℕ) (block_at : ℕ → Outcome Block) {ts : List ℕ}
    → timestamps_from count start block_at ≡ ok ts
    → AreFrom start block_at ts
unfolding timestamps_from
timestamps_from-AreFrom zero start block_at e =
    subst (AreFrom start block_at) (ok-injective _ _ e) tt
timestamps_from-AreFrom (suc count) start block_at e =
    let (b, at, e1) = >>=-eq-ok (block_at start) _ e in
    let (ts, rest, e2) = >>=-eq-ok (timestamps_from count (start + 1) block_at) _ e1 in
    subst (AreFrom start block_at) (ok-injective _ _ e2)
      ((b, at, refl), timestamps_from-AreFrom count (start + 1) block_at rest)

-- What a timestamp must be: at most `drift` after the clock, and after more than half of the window.
abbrev pub IsTimely : Block → List ℕ → ℕ → ℕ → Type 0
IsTimely block ts now drift =
    (block.timestamp ≤ now + drift) × (length ts / 2 < count_before block.timestamp ts)

-- Over a chain that answers below `height`, with neither the height nor the window 0,
-- `timestamp_is_valid` answers, with no exception. It says yes just when the timestamp is at most the
-- allowed drift after the clock and later than more than half of the timestamps of the blocks just
-- below `height`: of the last `window` of them, or of all if they are fewer.
pub timestamp_is_valid_iff :
    (block : Block) (height now : ℕ) (params : ConsensusParams) (block_at : ℕ → Outcome Block)
    → 0 < height
    → 0 < params.mtp_window
    → ((i : ℕ) → i < height → (b : Block) × (block_at i ≡ ok b))
    → (ts : List ℕ) × (valid : Bool) × (length ts ≡ min height params.mtp_window)
      × AreFrom (height - min height params.mtp_window) block_at ts
      × (timestamp_is_valid block height now params block_at ≡ ok valid)
      × (valid ≡ true → IsTimely block ts now params.max_future_drift)
      × (IsTimely block ts now params.max_future_drift → valid ≡ true)
unfolding window_timestamps
timestamp_is_valid_iff block height now params block_at high wide answers =
    let window = params.mtp_window in
    let start = window_start height window in
    let (ts, at, len) =
      timestamps_from-ok (height - start) start height block_at (ground arith) answers in
    let (m, is_median, half) = median-half block.timestamp ts (ground arith) in
    let past = median_time_past-eq height window block_at ts m high wide at is_median in
    let from : start ≡ height - min height window = ground arith in
    (
      ts,
      passes block.timestamp now params.max_future_drift m,
      ground arith,
      subst (λ s. AreFrom s block_at ts) from
          (timestamps_from-AreFrom (height - start) start block_at at),
      timestamp_is_valid-eq block height now params block_at m past,
      λ valid. ground arith,
      λ timely. ground arith,
    )

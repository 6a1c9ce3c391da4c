-- ===== src/Network/Clock.antt =====
-- `std::chrono::steady_clock`: a time point, and a duration, is a number of nanoseconds. An operation
-- takes the time at which it reads the clock as an argument. Subtraction stops at 0; the only time
-- point that the code moves back is `last_block`, by 300 ms, which the clock has long passed.
use forgechain.Prelude.{ℕ, ◌*◌}

abbrev pub TimePoint : Type 0
TimePoint = ℕ

abbrev pub milliseconds : ℕ → ℕ
milliseconds n = n * 1000000

abbrev pub seconds : ℕ → ℕ
seconds n = n * 1000000000

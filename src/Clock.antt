-- ===== src/Clock.antt =====
-- models/clocking/clockgen.hpp: `ClockGen<DIV, MULT>`. The input clock is the list of its levels at
-- successive picoseconds; the output is the list of the writes of `clk_o` with their times. Once
-- `locked` is written nothing clears it, so the loop of `clk_gen` goes on for ever: `clk_gen` runs a
-- given number of its rounds.
pub mod Measure
pub mod Drift
pub mod Tests
use deltamodels.Base.{
  ℕ, zero, suc, ◌+◌, ◌*◌, ◌/◌, ◌^◌, Bool, true, false, Option, none, some, List, [], ◌∷◌, ◌++◌, ltb,
  if◌then◌else◌,
}

-- The inner loop: `none` while the samples last, and where `pos_duration` leaves `int`.
pub count_high : ℕ → List Bool → Option (ℕ × List Bool)
count_high pos [] = none
count_high pos (true ∷ samples) =
    let rest = count_high (pos + 1) samples in if ltb (pos + 1) (2 ^ 31) then rest else none
count_high pos (false ∷ samples) = some (pos, samples)

-- The outer loop: the measured duration and the samples left when `locked` is written.
pub measure_edges : List Bool → Option (ℕ × List Bool)
unfolding count_high
measure_edges [] = none
measure_edges (false ∷ samples) = measure_edges samples
measure_edges (true ∷ samples) = count_high 0 (true ∷ samples)

pub record Output : Type 0 where
  pub now : ℕ
  pub writes : List (ℕ × Bool)

-- `pos_duration/MULT*DIV`, the number of picoseconds of each `wait`: `none` where the product does
-- not fit in an `int`, which C++ leaves undefined.
unfoldable pub half_period : ℕ → ℕ → ℕ → Option ℕ
half_period div mult pos_duration =
    let half = pos_duration / mult * div in if ltb half (2 ^ 31) then some half else none

pub round : ℕ → Output → Output
round half o = record {
  now = o.now + half + half;
  writes = o.writes ++ ((o.now, true) ∷ (o.now + half, false) ∷ []);
}

pub clk_gen : ℕ → ℕ → Output → Output
unfolding round
clk_gen half zero o = o
clk_gen half (suc k) o = clk_gen half k (round half o)

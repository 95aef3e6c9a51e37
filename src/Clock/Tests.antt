-- ===== src/Clock/Tests.antt =====
-- Runs of the model of models/clocking/clockgen.hpp.
use deltamodels.Base.{ℕ, ◌+◌, ◌*◌, ◌%◌, ◌≡◌, true, false, some, [], ◌∷◌, arith}
use deltamodels.Clock.{Output, half_period, clk_gen, measure_edges}
use deltamodels.Clock.Drift.{generated_clock}

abbrev start : Output
start = record { now = 100; writes = [] }

-- Two periods for three of a clock whose high phase is 5 ps.
generated_clock_example :
    (half : ℕ) × (measure_edges (false ∷ true ∷ true ∷ true ∷ true ∷ true ∷ false ∷ [])
      ≡ some (5, []))
    × (half_period 3 2 5 ≡ some half)
    × ((clk_gen half 2 start).now + 2 * 3 * (5 % 2) ≡ 100 + 3 * (2 * 5))
generated_clock_example = generated_clock 1 4 3 2 [] start (omega arith) (omega arith) (omega arith)

-- ===== src/Clock/Drift.antt =====
-- The output of `clk_gen` of models/clocking/clockgen.hpp against the ideal ratio.
use mathlib.Core.List.{append_assoc, append-nil}
use deltamodels.Base.{
  ℕ, zero, suc, ◌+◌, ◌*◌, ◌/◌, ◌%◌, ◌^◌, ◌<◌, ◌≡◌, ap, ◌∙◌, Bool, true, false, some, sym, List, [],
  ◌∷◌, ◌++◌, arith, replicate,
}
use deltamodels.Clock.Measure.{measure_edges_lem}
use deltamodels.Clock.{measure_edges, Output, half_period, round, clk_gen}

now_after : (half k : ℕ) (o : Output) → (clk_gen half k o).now ≡ o.now + k * (2 * half)
unfolding clk_gen
now_after half zero o = omega arith
now_after half (suc k) o = now_after half k (round half o) ∙ omega arith

-- The writes of `k` rounds from the time `t` on.
abbrev pub pulses : ℕ → ℕ → ℕ → List (ℕ × Bool)
pulses half zero t = []
pulses half (suc k) t = (t, true) ∷ (t + half, false) ∷ pulses half k (t + half + half)

pub clk_gen-pulses :
    (half k : ℕ) (o : Output) → (clk_gen half k o).writes ≡ o.writes ++ pulses half k o.now
unfolding clk_gen round
clk_gen-pulses half zero o = sym (append-nil o.writes)
clk_gen-pulses half (suc k) o =
    clk_gen-pulses half k (round half o)
    ∙ append_assoc o.writes ((o.now, true) ∷ (o.now + half, false) ∷ [])
        (pulses half k (o.now + half + half))

whole_part : (p m : ℕ) → 0 < m → p / m * m + p % m ≡ p
whole_part p m h = grind arith

-- A half period that fits is exact but for the remainder of the division by MULT.
half_period_lem :
    (div mult pos_duration : ℕ)
    → pos_duration / mult * div < 2 ^ 31
    → half_period div mult pos_duration ≡ some (pos_duration / mult * div)
unfolding half_period
half_period_lem div mult pos_duration fits = ground arith

-- MULT output periods against DIV periods of the measured clock.
clk_gen_drift :
    (div mult pos_duration : ℕ) (o : Output)
    → 0 < mult
    → (clk_gen (pos_duration / mult * div) mult o).now + 2 * div * (pos_duration % mult)
      ≡ o.now + div * (2 * pos_duration)
clk_gen_drift div mult pos o h =
    omega
      (arith, now_after (pos / mult * div) mult o, ap (λ (t : ℕ). div * t) (whole_part pos mult h))

-- Of a clock that is low for `k` samples and then high for at least one, fewer than 2^31, the length
-- of that phase is measured, and if DIV times its quotient by MULT fits in an `int` too, the output's
-- half period is defined: MULT periods of the output fall short of DIV times twice the phase by
-- exactly `2 * DIV * (phase % MULT)` picoseconds, wherever the output starts.
pub generated_clock :
    (k n div mult : ℕ) (rest : List Bool) (o : Output)
    → 0 < mult
    → suc n < 2 ^ 31
    → suc n / mult * div < 2 ^ 31
    → (half : ℕ) × (measure_edges (replicate k false ++ (replicate (suc n) true ++ (false ∷ rest)))
        ≡ some (suc n, rest))
      × (half_period div mult (suc n) ≡ some half)
      × ((clk_gen half mult o).now + 2 * div * (suc n % mult) ≡ o.now + div * (2 * suc n))
generated_clock k n div mult rest o h small fits = (
  suc n / mult * div,
  measure_edges_lem k n rest small,
  half_period_lem div mult (suc n) fits,
  clk_gen_drift div mult (suc n) o h,
)

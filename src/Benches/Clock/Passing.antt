-- ===== src/Benches/Clock/Passing.antt =====
-- The program of models/clocking/tests/test_clockgen.cpp counts the ticks that it expects.
use deltamodels.Base.{
  ℕ, zero, suc, ◌+◌, ◌-◌, ◌*◌, ◌/◌, ◌<◌, ◌≤◌, ◌≡◌, refl, ap, Bool, true, false, some, List, [], ◌∷◌,
  ◌++◌, arith, replicate, length, length-append, length-replicate, done, Handler, if◌then◌else◌,
}
use deltamodels.Or1k.Text.{codes, hex}
use deltamodels.Checks.Passing.{equal_match}
use deltamodels.Clock.{half_period}
use deltamodels.Clock.Measure.{measure_edges_lem}
use deltamodels.Clock.Drift.{pulses, clk_gen-pulses}
use deltamodels.Benches.Clock.{due, ticks, started, sc_main}

-- The first time that is not over at the end.
abbrev bound : Bool → ℕ → ℕ
bound last end = if last then end + 1 else end

ticks-pulses :
    (last : Bool) (k t end : ℕ)
    → bound last end ≤ t + 400 * k
    → ticks last end (pulses 200 k t) ≡ (bound last end - t + 399) / 400
ticks-pulses last zero t end enough = omega arith
ticks-pulses true (suc k) t end enough =
    let rest = ticks-pulses true k (t + 200 + 200) end (omega arith) in ground (arith, rest)
ticks-pulses false (suc k) t end enough =
    let rest = ticks-pulses false k (t + 200 + 200) end (omega arith) in ground (arith, rest)

due_lem : (last : Bool) (t end : ℕ) → t < end → due last t end ≡ true
due_lem true t end before = ground arith
due_lem false t end before = ground arith

bound_lem :
    (last : Bool) (rounds t end : ℕ) → end < t + 400 * rounds → bound last end ≤ t + 400 * rounds
bound_lem true rounds t end before = omega arith
bound_lem false rounds t end before = omega arith

delta_lem :
    (last : Bool) (t : ℕ)
    → t < 100000
    → (bound last 200000 - t + 399) / 400 - (bound last 100000 - t + 399) / 400 ≡ 250
delta_lem true t before = omega arith
delta_lem false t before = omega arith

abbrev pub levels : ℕ → ℕ → List Bool → List Bool
levels k n rest = replicate k false ++ (replicate n true ++ (false ∷ rest))

half_lem : (n : ℕ) → 500 ≤ n → n < 505 → half_period 2 5 n ≡ some 200
unfolding half_period
half_lem n from to = ground arith

started_lem :
    (rounds k n : ℕ) (rest : List Bool)
    → 500 ≤ n
    → n < 505
    → started rounds (levels k n rest) ≡ some (k + n + 1, pulses 200 rounds (k + n + 1))
started_lem rounds k zero rest from to = absurd (omega arith)
started_lem rounds k (suc n) rest from to =
    let samples = levels k (suc n) rest in
    let high = length-append (replicate (suc n) true) (false ∷ rest) in
    let all = length-append (replicate k false) (replicate (suc n) true ++ (false ∷ rest)) in
    let low_part = length-replicate k false in
    let high_part = length-replicate (suc n) true in
    let locked : length samples - length rest ≡ k + suc n + 1 =
      omega (arith, high, all, low_part, high_part) in
    rw (started, measure_edges_lem k n rest (omega arith), half_lem (suc n) from to, locked)
      (ap (λ (ws : List (ℕ × Bool)). some (k + suc n + 1, ws))
        (clk_gen-pulses 200 rounds (record { now = k + suc n + 1; writes = [] })))

-- The clock generator's test returns without a report for every input clock that is low for `k`
-- picoseconds, then high for 500 to 504 and then low, if the generator locks before 100 ns and enough
-- rounds of it are run to last for another 200 ns, whether or not what is due at the very end of a
-- simulation's time still runs.
pub sc_main_counts :
    (throws : Handler) (last : Bool) (rounds k n : ℕ) (rest : List Bool)
    → 500 ≤ n
    → n < 505
    → k + n + 1 < 100000
    → 200000 ≤ 400 * rounds
    → sc_main throws last rounds (levels k n rest) ≡ done []
unfolding sc_main
sc_main_counts throws last rounds k n rest from to soon enough =
    let start = k + n + 1 in
    let writes = pulses 200 rounds start in
    let begun = started_lem rounds k n rest from to in
    let locked : due last start 100000 ≡ true = due_lem last start 100000 soon in
    let first =
      ticks-pulses last rounds start 100000 (bound_lem last rounds start 100000 (omega arith)) in
    let second =
      ticks-pulses last rounds start 200000 (bound_lem last rounds start 200000 (omega arith)) in
    let delta : ticks last 200000 writes - ticks last 100000 writes ≡ 100 * 5 / 2 =
      omega (arith, first, second, delta_lem last start soon) in
    rw (begun, locked, equal_match hex throws 1 1 (codes "locked") [] refl)
      (equal_match hex throws _ (100 * 5 / 2) (codes "num_of_ticks") [] delta)

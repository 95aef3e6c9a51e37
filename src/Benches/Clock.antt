-- ===== src/Benches/Clock.antt =====
-- The program of models/clocking/tests/test_clockgen.cpp. The input clock is the list of its levels
-- at successive picoseconds, and `clk_gen`, which never ends, runs a number of its rounds. Whether
-- `sc_start` still runs what is due at the very end of its time is SystemC's, and a parameter.
pub mod Passing
pub mod Tests
use deltamodels.Base.{
  ℕ, ◌+◌, ◌-◌, ◌*◌, ◌/◌, Bool, true, false, List, [], ◌∷◌, ◌==◌, leb, ltb, ◌&&◌, if◌then◌else◌,
  length, Option, none, some, Run, done, Handler, ◌>>=◌,
}
use deltamodels.Or1k.Text.{codes, hex}
use deltamodels.Checks.{Reports, check_values_match}
use deltamodels.Clock.{Output, measure_edges, half_period, clk_gen}

-- Whether what happens at `t` has happened when the simulation stops at `end`.
abbrev pub due : Bool → ℕ → ℕ → Bool
due last t end = if last then leb t end else ltb t end

-- `FreqMonitor::ticks` then: the writes of 1.
abbrev pub ticks : Bool → ℕ → List (ℕ × Bool) → ℕ
ticks last end [] = 0
ticks last end ((t, level) ∷ writes) =
    if level && due last t end then ticks last end writes + 1 else ticks last end writes

-- The time at which `locked` is written, and the output's writes after it, if its half period is
-- defined.
abbrev pub started : ℕ → List Bool → Option (ℕ × List (ℕ × Bool))
started rounds samples = elim (measure_edges samples) [
  | none ↦ none
  | some (pos, rest) ↦
      let locked = length samples - length rest in
      let o : Output = record { now = locked; writes = [] } in
      elim (half_period 2 5 pos) [
        | none ↦ none
        | some half ↦ some (locked, (clk_gen half rounds o).writes)
      ]
]

-- The two checks, at 100 ns and at 200 ns.
unfoldable pub sc_main : Handler → Bool → ℕ → List Bool → Run Reports Reports
sc_main throws last rounds samples =
    let (locked, writes) : Bool × List (ℕ × Bool) = elim (started rounds samples) [
      | none ↦ (false, [])
      | some (t, ws) ↦ (due last t 100000, ws)
    ] in
    let before = ticks last 100000 writes in
    let delta = ticks last 200000 writes - before in
    check_values_match (◌==◌) hex throws (if locked then 1 else 0) 1 (codes "locked") []
    >>= check_values_match (◌==◌) hex throws delta (100 * 5 / 2) (codes "num_of_ticks")

-- ===== src/Benches/Or1k.antt =====
-- The tests of models/wishbone/or1k/tests/test_instruction_tracer.cpp. The lines of the input file
-- are a parameter. A call of `sc_start(1, SC_NS)` is one period of the clock, a rise and a fall; the
-- time stamps of the input are not used.
pub mod Passing
pub mod Tests
use deltamodels.Base.{
  ℕ, ◌%◌, ◌^◌, Bool, true, false, List, [], ◌∷◌, ◌==◌, if◌then◌else◌, ◌++◌, not, u32, Run, done,
  raised, undefined, Handler, ◌>>=◌,
}
use deltamodels.Or1k.Text.{codes, hex, Text}
use deltamodels.Or1k.Tracers.{InstructionTracer, Ibus, init}
use deltamodels.Or1k.Streams.{trace_instructions}
use deltamodels.Checks.{Reports, check_values_match}

pub record Bench : Type 0 where
  pub tracer : InstructionTracer
  pub reports : Reports

-- A change of the clock.
abbrev pub change : ℕ → ℕ → ℕ → ℕ → Ibus
change adr dat ack clk = record {
  clk = clk;
  ibus_adr = adr % 2 ^ 30;
  ibus_dat = u32 dat;
  ibus_ack = ack;
}

-- A word on the bus for two periods, acknowledged in the first.
abbrev pub fetch : ℕ → ℕ → List Ibus
fetch adr dat =
    change adr dat 1 1 ∷ change adr dat 1 0 ∷ change adr dat 0 1 ∷ change adr dat 0 0 ∷ []

-- The loop over the lines.
abbrev pub replay : List (ℕ × ℕ) → List Ibus
replay [] = []
replay ((adr, dat) ∷ lines) = fetch adr dat ++ replay lines

-- `catch (const sc_core::sc_report& ex)`: whether a report has left the simulation.
abbrev pub caught :
    Run InstructionTracer InstructionTracer → Run InstructionTracer (Bool × InstructionTracer)
caught (done t) = done (false, t)
caught (raised e t) = done (true, t)
caught undefined = undefined

abbrev pub number : Bool → ℕ
number b = if b then 1 else 0

module _ (throws : Handler) where
  -- `checkValuesMatch<bool>`
  unfoldable pub check : Bool → Bool → Text → Bench → Run Bench Bench
  check val1 val2 msg s =
      elim (check_values_match (λ a b. number a == number b) (λ b. hex (number b)) throws val1 val2
        msg s.reports) [
          | done r ↦ done (record s { reports = r })
          | raised e r ↦ raised e (record s { reports = r })
          | undefined ↦ undefined
        ]

  -- A test: what the bus shows, the verdict of whether a report was thrown, and its check.
  unfoldable pub run_test : List Ibus → (Bool → Bool) → Text → Bench → Run Bench Bench
  run_test bus verdict msg s = elim (caught (trace_instructions throws bus s.tracer)) [
    | done (hit, t) ↦ check (verdict hit) true msg (record s { tracer = t })
    | raised e t ↦ raised e (record s { tracer = t })
    | undefined ↦ undefined
  ]

  unfoldable pub test_recognize_all_used_codes : List (ℕ × ℕ) → Bench → Run Bench Bench
  test_recognize_all_used_codes lines = run_test (replay lines) not (codes "All codes are valid")

  unfoldable pub test_detects_not_valid_code : Bench → Run Bench Bench
  test_detects_not_valid_code =
      run_test (fetch 0 0xffffffff) (λ hit. hit) (codes "Invalid code was detected")

  -- `sc_main`: the tracer stops on invalid words.
  unfoldable pub sc_main : List (ℕ × ℕ) → Run Bench Bench
  sc_main lines =
      test_recognize_all_used_codes lines (record { tracer = init true; reports = [] })
      >>= test_detects_not_valid_code

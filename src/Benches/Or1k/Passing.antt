-- ===== src/Benches/Or1k/Passing.antt =====
-- When the program of models/wishbone/or1k/tests/test_instruction_tracer.cpp returns.
use mathlib.Core.Path.{subst}
use mathlib.Core.List.{append-nil}
use deltamodels.Base.{
  ℕ, ◌≡◌, refl, ap, ◌∙◌, Bool, true, false, not, ◌&&◌, none, some, List, [], ◌∷◌, ◌++◌, arith, u32,
  Report, done, raised, Handler, error, ◌==◌,
}
use deltamodels.Or1k.Descriptor.{Or1kDescriptor}
use deltamodels.Or1k.Decoder.{parse}
use deltamodels.Or1k.Defs.{get_opcodes}
use deltamodels.Or1k.Text.{codes, hex, Text}
use deltamodels.Or1k.Tracers.{InstructionTracer, InstructionRow, Ibus, init}
use deltamodels.Or1k.Streams.{
  trace_instructions, fetches, outcome, AllWords, Shows, trace_instructions-fetches,
}
use deltamodels.Or1k.Invalid.{parse-all_ones}
use deltamodels.Checks.Passing.{match_passes, match_fails}
use deltamodels.Benches.Or1k.{
  Bench, number, fetch, replay, caught, check, run_test, test_recognize_all_used_codes,
  test_detects_not_valid_code, sc_main,
}

abbrev pub mismatched : Report
mismatched = record { severity = error; msg_type = "ASSERTION_MISMATCH" }

-- The decoder has a text for the word of each line.
abbrev pub decodes : List Or1kDescriptor → ℕ → Bool
decodes ds dat = elim (parse ds (u32 dat)) [ some _ ↦ true | none ↦ false ]

abbrev pub all_decode : List Or1kDescriptor → List (ℕ × ℕ) → Bool
all_decode ds [] = true
all_decode ds ((adr, dat) ∷ lines) = decodes ds dat && all_decode ds lines

fetches-replay :
    (ds : List Or1kDescriptor) (lines : List (ℕ × ℕ))
    → (fetches ds true (replay lines)).1 ≡ all_decode ds lines
fetches-replay ds [] = refl
fetches-replay ds ((adr, dat) ∷ lines) = ground (arith, fetches-replay ds lines)

replay-AllWords : (lines : List (ℕ × ℕ)) → AllWords (replay lines)
replay-AllWords [] = tt
replay-AllWords ((adr, dat) ∷ lines) =
    (omega arith, (omega arith, (omega arith, (omega arith, replay-AllWords lines))))

module _ (throws : Handler) where
  check_true : (msg : Text) (s : Bench) → check throws true true msg s ≡ done s
  unfolding check
  check_true msg s =
      rw
        (
          check,
          match_passes (λ a b. number a == number b) (λ b. hex (number b)) throws true true msg
              s.reports refl,
        )
        refl

  check_false :
      (msg : Text) (s : Bench)
      → throws error ≡ true
      → (t : Bench) × (check throws false true msg s ≡ raised mismatched t)
  unfolding check
  check_false msg s halts =
      let (more, run) =
        match_fails (λ a b. number a == number b) (λ b. hex (number b)) throws false true msg
          s.reports halts refl in
      (record s { reports = more }, rw (check, run) refl)

  caught-outcome :
      (b : Bool) (t : InstructionTracer) (rows : List InstructionRow)
      → caught (outcome throws b t rows) ≡ done (not b, record t { rows = t.rows ++ rows })
  caught-outcome true t rows = refl
  caught-outcome false t rows = refl

  -- A test replays its bus cycles, and checks its verdict of whether one of them raised an error.
  run_test_lem :
      (bus : List Ibus) (verdict : Bool → Bool) (msg : Text) (s : Bench)
      → throws error ≡ true
      → AllWords bus
      → s.tracer.stop_on_invalid ≡ true
      → let seen = fetches s.tracer.descriptors true bus in
        (rows : List InstructionRow) × (run_test throws bus verdict msg s
          ≡ check throws
              (verdict (not seen.1))
              true
              msg
              (record s { tracer = record s.tracer { rows = s.tracer.rows ++ rows } }))
        × Shows s.tracer.descriptors rows seen.0
  unfolding run_test
  run_test_lem bus verdict msg s halts words stops =
      let (rows, run, shown) = trace_instructions-fetches throws bus s.tracer halts words in
      let run' : trace_instructions throws bus s.tracer
          ≡ outcome throws (fetches s.tracer.descriptors true bus).1 s.tracer rows =
        run
        ∙ ap (λ (b : Bool). outcome throws (fetches s.tracer.descriptors b bus).1 s.tracer rows)
            stops in
      (
        rows,
        rw (run_test, run', caught-outcome (fetches s.tracer.descriptors true bus).1 s.tracer rows)
            refl,
        subst (λ (b : Bool). Shows s.tracer.descriptors rows (fetches s.tracer.descriptors b bus).0)
            stops shown,
      )

  no_rows : (ds : List Or1kDescriptor) (rows : List InstructionRow) → Shows ds rows [] → rows ≡ []
  no_rows ds [] shown = refl
  no_rows ds (row ∷ rows) shown = absurd shown

  detects :
      (s : Bench)
      → throws error ≡ true
      → s.tracer.stop_on_invalid ≡ true
      → s.tracer.descriptors ≡ get_opcodes
      → test_detects_not_valid_code throws s ≡ done s
  unfolding test_detects_not_valid_code
  detects s halts stops table =
      let bus = fetch 0 0xffffffff in
      let invalid : parse s.tracer.descriptors 0xffffffff ≡ none =
        ap (λ (ds : List Or1kDescriptor). parse ds 0xffffffff) table ∙ parse-all_ones in
      let seen : fetches s.tracer.descriptors true bus ≡ ([], false) = ground (arith, invalid) in
      let (rows, run, shown) =
        run_test_lem bus (λ hit. hit) (codes "Invalid code was detected") s halts
          (omega arith, (omega arith, (omega arith, (omega arith, tt)))) stops in
      let empty : rows ≡ [] =
        no_rows s.tracer.descriptors rows
          (subst (λ (f : List Ibus × Bool). Shows s.tracer.descriptors rows f.0) seen shown) in
      let same : s.tracer.rows ++ rows ≡ s.tracer.rows =
        ap (λ (more : List InstructionRow). s.tracer.rows ++ more) empty
        ∙ append-nil s.tracer.rows in
      run ∙ rw (seen, same) (check_true (codes "Invalid code was detected") s)

-- Where an error report throws, the program of the instruction tracer's test returns exactly if the
-- decoder has a text for every word of the input: it has then no reports, and the tracer has a row
-- for each word, in order, with the word's address, its bytes and its text. Otherwise it ends with
-- the report of a failed check.
pub sc_main_decides :
    (throws : Handler) (lines : List (ℕ × ℕ))
    → throws error ≡ true
    → (all_decode get_opcodes lines ≡ true
        → (t : Bench) × (sc_main throws lines ≡ done t)
          × (t.reports ≡ [])
          × Shows get_opcodes t.tracer.rows (fetches get_opcodes true (replay lines)).0)
      × (all_decode get_opcodes lines ≡ false
          → (t : Bench) × (sc_main throws lines ≡ raised mismatched t))
unfolding sc_main test_recognize_all_used_codes init
sc_main_decides throws lines halts =
    let words = replay-AllWords lines in
    let new_bench : Bench = record { tracer = init true; reports = [] } in
    (
      λ valid.
          let (rows, run, shown) =
            run_test_lem throws (replay lines) not (codes "All codes are valid") new_bench halts
              words refl in
          let passed : run_test throws (replay lines) not (codes "All codes are valid") new_bench
              ≡ done (record new_bench { tracer = record new_bench.tracer { rows = rows } }) =
            run ∙ rw (fetches-replay get_opcodes lines, valid) (check_true throws _ _) in
          (
            record new_bench { tracer = record new_bench.tracer { rows = rows } },
            rw passed (detects throws _ halts refl refl),
            refl,
            shown,
          ),
      λ invalid.
          let (rows, run, shown) =
            run_test_lem throws (replay lines) not (codes "All codes are valid") new_bench halts
              words refl in
          let (t, failed) =
            check_false throws (codes "All codes are valid")
              (record new_bench { tracer = record new_bench.tracer { rows = rows } }) halts in
          (t, rw (run, fetches-replay get_opcodes lines, invalid, failed) refl),
    )

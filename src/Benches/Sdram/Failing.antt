-- ===== src/Benches/Sdram/Failing.antt =====
-- The program of models/memories/tests/test_sdram.cpp with an image that it does not expect.
use native.Mathlib.Decide.{ℕ_discrete}
use deltamodels.Base.{
  ℕ, ◌/◌, ◌^◌, ◌<◌, ◌≤◌, ◌≡◌, ◌≢◌, ◌⊎◌, inl, inr, ap, ◌∙◌, refl, sym, done, true, false, List, [],
  arith, Run, Report, raised, Handler, error, get_or, length, ◌==◌, ==_iff, Bool-cases, Returns-inv,
  ◌>>=◌,
}
use deltamodels.Benches.{or_failure}
use deltamodels.Or1k.Text.{Text, codes, hex}
use deltamodels.Checks.Passing.{match_fails}
use deltamodels.Sdram.{Geometry, Pins, init, fetch, touch}
use deltamodels.Sdram.Images.{AllBytes, word_of, loaded, configure_region-loads}
use deltamodels.Sdram.FileRead.{fetch-loaded}
use deltamodels.Sdram.History.{view}
use deltamodels.Sdram.Waiting.{init-IsReady}
use deltamodels.Benches.Sdram.{
  Bench, with_mem, dump, check, check_mem, test_allocation, tests, sc_main,
}
use deltamodels.Benches.Sdram.Parts.{At, check_mem-At}
use deltamodels.Benches.Sdram.Main.{geometry}

abbrev mismatched : Report
mismatched = record { severity = error; msg_type = "ASSERTION_MISMATCH" }

abbrev pub failed : Report
failed = record { severity = error; msg_type = "TEST_FAILURE" }

-- A call ends with this report.
abbrev Raises : {S A : Type 0} → Report → Run S A → Type 0
Raises {S} e m = (s : S) × (m ≡ raised e s)

Raises-bind :
    {S A B : Type 0} (e : Report) (m : Run S A) (f : A → Run S B) → Raises e m → Raises e (m >>= f)
Raises-bind e m f (s, run) = (s, ap (λ n. n >>= f) run)

Raises-after :
    {S A B : Type 0} (e : Report) (m : Run S A) (f : A → Run S B) (a : A)
    → m ≡ done a
    → Raises e (f a)
    → Raises e (m >>= f)
Raises-after e m f a run (s, ends) = (s, ap (λ n. n >>= f) run ∙ ends)

module _ (throws : Handler) (halts : throws error ≡ true) where
  check-Raises :
      (x y : ℕ) (msg : Text) (s : Bench) → x ≢ y → Raises mismatched (check throws x y msg s)
  unfolding check
  check-Raises x y msg s apart = elim (Bool-cases (x == y)) [
    | inl same ↦ absurd (apart ((==_iff x y).0 same))
    | inr differ ↦
        let (more, run) = match_fails (◌==◌) hex throws x y msg s.reports halts differ in
        (record s { reports = more }, rw (check, run) refl)
  ]

  check_mem-Raises :
      (word val : ℕ) (msg : Text) (s : Bench)
      → fetch word s.board.sdram.mem ≢ val
      → Raises mismatched (check_mem throws word val msg s)
  unfolding check_mem
  check_mem-Raises word val msg s apart =
      check-Raises _ val msg (with_mem (touch word s.board.sdram.mem) s) apart

  test_allocation-Raises :
      (file : List ℕ) (junk : ℕ → ℕ) (g : Geometry) (s : Bench)
      → AllBytes file
      → ((j : ℕ) → junk j < 256)
      → 8 ≤ length file
      → length file < 2 ^ 31
      → (word_of false (λ j. get_or file j 0) 0 ≢ 0x1e)
        ⊎ (word_of false (λ j. get_or file j 0) 4 ≢ 0x6d616300)
      → At 2 g [] (view s.board.sdram.mem) s
      → Raises mismatched (test_allocation throws file junk s)
  unfolding test_allocation
  test_allocation-Raises file junk g s bytes junk_bytes long fits wrong at =
      let mem = loaded file junk 0x400000 0 false s.board.sdram.mem in
      let first : fetch (0x400000 / 4) mem ≡ word_of false (λ j. get_or file j 0) 0 =
        fetch-loaded file junk 0x400000 (0x400000 / 4) false s.board.sdram.mem bytes junk_bytes
          (omega arith) (omega arith) (omega arith) in
      let second : fetch (0x400004 / 4) mem ≡ word_of false (λ j. get_or file j 0) 4 =
        fetch-loaded file junk 0x400000 (0x400004 / 4) false s.board.sdram.mem bytes junk_bytes
          (omega arith) (omega arith) (omega arith) in
      let loaded : At 2 g [] (view mem) (with_mem mem s) = record {
        ready = record { idle = at.ready.idle; banks = at.ready.banks; same = at.ready.same };
        same = at.same;
        holds = refl;
      } in
      let read =
        configure_region-loads file junk 0x400000 0 false s.board.sdram.mem (omega arith) in
      rw (read) (elim (ℕ_discrete (word_of false (λ j. get_or file j 0) 0) 0x1e) [
        | no differs ↦ Raises-bind mismatched _ _ (
            check_mem-Raises (0x400000 / 4) 0x1e (codes "check_init") (with_mem mem s)
              (λ e. differs (sym first ∙ e)))
        | yes same ↦
            let (t, run, at1) = Returns-inv (
              check_mem-At 2 g [] throws (0x400000 / 4) 0x1e (codes "check_init") (view mem)
                (with_mem mem s) loaded (first ∙ same)) in
            let other : fetch (0x400004 / 4) t.board.sdram.mem ≢ 0x6d616300 = λ e. elim wrong [
              | inl no_first ↦ no_first same
              | inr no_second ↦
                  no_second (sym second ∙ sym (ap (λ (h : ℕ → ℕ). h (0x400004 / 4)) at1.holds) ∙ e)
            ] in
            Raises-after mismatched _ _ t run (
              Raises-bind mismatched _ _
                (check_mem-Raises (0x400004 / 4) 0x6d616300 (codes "check_init_2nd_loc") t other))
      ])

-- Where an error report throws, the test program of the SDRAM ends with its failure's report if the
-- image, of at least eight and fewer than 2^31 bytes, does not start with the two
-- words that it expects, whatever the addresses and values of its other tests.
pub sc_main_rejects :
    (throws : Handler) (pins : Pins) (file : List ℕ) (junk : ℕ → ℕ) (simple : ℕ × ℕ)
    (values : List (ℕ × ℕ))
    → throws error ≡ true
    → AllBytes file
    → ((j : ℕ) → junk j < 256)
    → 8 ≤ length file
    → length file < 2 ^ 31
    → (word_of false (λ j. get_or file j 0) 0 ≢ 0x1e)
      ⊎ (word_of false (λ j. get_or file j 0) 4 ≢ 0x6d616300)
    → (t : Bench) × (sc_main throws pins file junk simple values ≡ raised failed t)
unfolding sc_main tests
sc_main_rejects throws pins file junk simple values halts bytes junk_bytes long fits wrong =
    let s : Bench = record {
      board = record { pins = pins; sdram = init 2 geometry 0x40000000 };
      reports = [];
      dumps = [];
    } in
    let (t, run) = Raises-bind mismatched _ _ (
      test_allocation-Raises throws halts file junk geometry (dump s) bytes junk_bytes long fits
        wrong
        (record { ready = init-IsReady 2 0x40000000 geometry pins; same = refl; holds = refl })) in
    (t, ap (or_failure throws) run ∙ rw halts refl)

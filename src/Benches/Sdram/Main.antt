-- ===== src/Benches/Sdram/Main.antt =====
-- The program of models/memories/tests/test_sdram.cpp returns without a report.
use native.Mathlib.Nat.{pow-le-pow_right}
use deltamodels.Base.{
  ℕ, zero, suc, ◌+◌, ◌*◌, ◌/◌, ◌^◌, ◌<◌, ◌≤◌, ◌≡◌, refl, false, none, List, [], arith, done,
  Handler, Returns, returns, Returns-inv, Returns-bind, shl, u32, get_or, length, ap, ◌∙◌,
}
use deltamodels.Benches.{or_failure}
use deltamodels.Or1k.Text.{codes}
use deltamodels.Checks.{Reports}
use deltamodels.Sdram.{Geometry, Pins, init, fetch}
use deltamodels.Sdram.Address.{words, to_address-to_row_bank_column}
use deltamodels.Sdram.Array.{IsWired}
use deltamodels.Sdram.Images.{AllBytes, word_of, loaded, configure_region-loads}
use deltamodels.Sdram.FileRead.{fetch-loaded}
use deltamodels.Sdram.History.{Plain, view}
use deltamodels.Sdram.Waiting.{init-IsReady}
use deltamodels.Sdram.Accesses.{IsReached}
use deltamodels.Benches.Sdram.{
  Bench, with_mem, addressing, test_allocation, test_addressing, tests, sc_main, dump,
}
use deltamodels.Benches.Sdram.Parts.{At, IsCleared, cleared, start_over, check-At, check_mem-At}
use deltamodels.Benches.Sdram.Passing.{
  IsUsable, test_simple_sequence-IsCleared, test_interleaved_sequence-IsCleared,
}

-- The image starts with the two words that the test expects.
pub record IsImage (file : List ℕ) : Type 0 where
  pub bytes : AllBytes file
  pub long : 8 ≤ length file
  pub fits : length file < 2 ^ 31
  pub first : word_of false (λ j. get_or file j 0) 0 ≡ 0x1e
  pub second : word_of false (λ j. get_or file j 0) 4 ≡ 0x6d616300

module _ (ba_size : ℕ) (g : Geometry) (r : Reports) (throws : Handler) where
  addressing-At :
      (n i : ℕ) (f : Plain) (s : Bench)
      → words g ≤ 2 ^ 30
      → 0xfff0 * 2 ^ 5 / 4 < words g
      → n + i ≤ 6
      → At ba_size g r f s
      → Returns (At ba_size g r f) (addressing throws n i s)
  unfolding addressing
  addressing-At zero i f s size wide rounds at = returns at
  addressing-At (suc n) i f s size wide rounds at =
      let steps : 2 ^ i ≤ 2 ^ 5 =
        pow-le-pow_right {n = 2} (omega arith) {i = i} {j = 5} (omega arith) in
      let address : ℕ = u32 (shl 0xfff0 i) in
      Returns-bind
        (check-At ba_size g r throws _ address (codes "check_address") f s at (
          rw at.ready.same (
            to_address-to_row_bank_column g address size (omega (arith, steps))
              (omega (arith, steps)))))
        λ t at'. addressing-At n (suc i) f t size wide (omega arith) at'

  test_allocation-IsCleared :
      (file : List ℕ) (junk : ℕ → ℕ) (f : Plain) (s : Bench)
      → IsImage file
      → ((j : ℕ) → junk j < 256)
      → At ba_size g r f s
      → Returns (IsCleared ba_size g r) (test_allocation throws file junk s)
  unfolding test_allocation
  test_allocation-IsCleared file junk f s image junk_bytes at =
      let mem = loaded file junk 0x400000 0 false s.board.sdram.mem in
      let first : fetch (0x400000 / 4) mem ≡ 0x1e =
        fetch-loaded file junk 0x400000 (0x400000 / 4) false s.board.sdram.mem image.bytes
          junk_bytes (omega (arith, image.fits)) (omega arith) (omega (arith, image.long))
        ∙ image.first in
      let second : fetch (0x400004 / 4) mem ≡ 0x6d616300 =
        fetch-loaded file junk 0x400000 (0x400004 / 4) false s.board.sdram.mem image.bytes
          junk_bytes (omega (arith, image.fits)) (omega arith) (omega (arith, image.long))
        ∙ image.second in
      let read =
        configure_region-loads file junk 0x400000 0 false s.board.sdram.mem
          (omega (arith, image.fits)) in
      rw (read) (
        Returns-bind
          (check_mem-At ba_size g r throws (0x400000 / 4) 0x1e (codes "check_init") (view mem)
            (with_mem mem s)
            (record {
              ready = record { idle = at.ready.idle; banks = at.ready.banks; same = at.ready.same };
              same = at.same;
              holds = refl;
            })
            first)
          λ t at1.
            Returns-bind
              (check_mem-At ba_size g r throws (0x400004 / 4) 0x6d616300
                (codes "check_init_2nd_loc") (view mem) t at1 second)
              λ u at2. returns (cleared ba_size g r (view mem) u at2))

abbrev pub geometry : Geometry
geometry = record { row_bits = 12; bank_bits = 2; col_bits = 8 }

wired : IsWired 12 2 geometry
wired = record {
  size = omega arith;
  rows = omega arith;
  banks = omega arith;
  cols = omega arith;
  low_cols = omega arith;
}

tests-IsCleared :
    (throws : Handler) (r : Reports) (file : List ℕ) (junk : ℕ → ℕ) (simple : ℕ × ℕ)
    (values : List (ℕ × ℕ)) (f : Plain) (s : Bench)
    → IsImage file
    → ((j : ℕ) → junk j < 256)
    → IsReached geometry simple.0
    → simple.1 < 2 ^ 32
    → IsUsable geometry values
    → At 2 geometry r f s
    → Returns (IsCleared 2 geometry r) (tests throws 12 2 file junk simple values s)
unfolding tests test_addressing
tests-IsCleared throws r file junk simple values f s image bytes reached small usable at =
    Returns-bind (test_allocation-IsCleared 2 geometry r throws file junk f s image bytes at)
      λ s1 c1.
        Returns-bind
          (addressing-At 2 geometry r throws 6 0 _ s1 wired.size (omega arith) (omega arith)
            (start_over 2 geometry r s1 c1))
          λ s2 at2.
            Returns-bind
              (test_simple_sequence-IsCleared geometry values usable throws 12 2 wired r simple _ s2
                reached small at2)
              λ s3 c3.
                test_interleaved_sequence-IsCleared geometry values usable throws 12 2 wired r _ s3
                  (start_over 2 geometry r s3 c3)

-- The test program of the SDRAM returns without a report and leaves the chip's memory empty, for
-- any image of bytes that starts with the two words that it expects and has fewer than 2^31
-- bytes, any address and 32-bit value of the simple sequence, and any map of 32-bit values for the
-- interleaved one in which addresses of the same word have the same value; all the addresses are
-- those of words of the memory whose row numbers have bit 10 low. The freshly allocated buffer holds
-- bytes; the pins' first values and the report handler are any.
pub sc_main_passes :
    (throws : Handler) (pins : Pins) (file : List ℕ) (junk : ℕ → ℕ) (simple : ℕ × ℕ)
    (values : List (ℕ × ℕ))
    → IsImage file
    → ((j : ℕ) → junk j < 256)
    → IsReached geometry simple.0
    → simple.1 < 2 ^ 32
    → IsUsable geometry values
    → (t : Bench) × (sc_main throws pins file junk simple values ≡ done t)
      × (t.reports ≡ [])
      × (t.board.sdram.mem ≡ (λ a. none))
unfolding sc_main
sc_main_passes throws pins file junk simple values image bytes reached small usable =
    let s : Bench = record {
      board = record { pins = pins; sdram = init 2 geometry 0x40000000 };
      reports = [];
      dumps = [];
    } in
    let (t, run, end) = Returns-inv (
      tests-IsCleared throws [] file junk simple values _ (dump s) image bytes reached small usable
        (record { ready = init-IsReady 2 0x40000000 geometry pins; same = refl; holds = refl })) in
    (t, ap (or_failure throws) run, end.same, end.empty)

-- ===== src/Benches/Or1k/Tests.antt =====
-- The program of models/wishbone/or1k/tests/test_instruction_tracer.cpp on the first two lines of
-- models/wishbone/or1k/tests/kernel_cpu.input.
use deltamodels.Base.{ℕ, ◌≡◌, refl, true, false, List, [], ◌∷◌, done, raised, default_handler}
use deltamodels.Or1k.Defs.{get_opcodes}
use deltamodels.Or1k.Streams.{Shows, fetches}
use deltamodels.Benches.Or1k.{Bench, replay, sc_main}
use deltamodels.Benches.Or1k.Passing.{all_decode, mismatched, sc_main_decides}

abbrev input : List (ℕ × ℕ)
input = (0x10200000, 0x18000000) ∷ (0x10200001, 0x18200000) ∷ []

sc_main_decides_example :
    (all_decode get_opcodes input ≡ true
      → (t : Bench) × (sc_main default_handler input ≡ done t)
        × (t.reports ≡ [])
        × Shows get_opcodes t.tracer.rows (fetches get_opcodes true (replay input)).0)
    × (all_decode get_opcodes input ≡ false
        → (t : Bench) × (sc_main default_handler input ≡ raised mismatched t))
sc_main_decides_example = sc_main_decides default_handler input refl

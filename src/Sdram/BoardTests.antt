-- ===== src/Sdram/BoardTests.antt =====
-- Accesses of models/memories/tests/test_sdram.cpp, with its chip's geometry and pins.
use deltamodels.Base.{ℕ, ◌≡◌, refl, List, [], ◌∷◌, arith, done}
use deltamodels.Sdram.{Geometry, init, to_row_bank_column}
use deltamodels.Sdram.History.{view}
use deltamodels.Sdram.Controller.{Board}
use deltamodels.Sdram.Array.{IsWired, IsReady}
use deltamodels.Sdram.Accesses.{
  Access, put_word, get_word, IsReached, AllAccesses, accesses, plain_accesses, controller_refines,
}

abbrev geometry : Geometry
geometry = record { row_bits = 12; bank_bits = 2; col_bits = 8 }

wired : IsWired 12 2 geometry
wired = record {
  size = omega arith;
  rows = omega arith;
  banks = omega arith;
  cols = omega arith;
  low_cols = omega arith;
}

abbrev board : Board
board = record {
  pins = record {
    ck = 0;
    cke = 1;
    cs_n = 1;
    ras_n = 0;
    cas_n = 0;
    we_n = 0;
    a = 0;
    ba = 0;
    dq = 0;
    dm = 0;
  };
  sdram = init 2 geometry 0x40000000;
}

board-IsReady : IsReady 2 geometry board
unfolding init
board-IsReady = record { idle = refl; banks = refl; same = refl }

abbrev near : ℕ
near = 0x300

abbrev far : ℕ
far = 0x10000

near-IsReached : IsReached geometry near
unfolding to_row_bank_column
near-IsReached = record { inside = omega arith; low_row = refl }

far-IsReached : IsReached geometry far
unfolding to_row_bank_column
far-IsReached = record { inside = omega arith; low_row = refl }

abbrev sequence : List Access
sequence = put_word near 0xbabecafe ∷ put_word far 0xbabababa ∷ get_word near ∷ []

sequence-AllAccesses : AllAccesses geometry sequence
sequence-AllAccesses =
    ((near-IsReached, omega arith), ((far-IsReached, omega arith), (near-IsReached, tt)))

controller_refines_example :
    (t : Board) × (accesses 12 2 sequence board ≡ done (0xbabecafe ∷ [], t))
    × IsReady 2 geometry t
    × (view t.sdram.mem ≡ (plain_accesses sequence (view board.sdram.mem)).1)
controller_refines_example =
    controller_refines 12 2 geometry wired sequence board board-IsReady sequence-AllAccesses

-- ===== src/Sdram/Tests.antt =====
-- Runs of the models of models/memories/sdram/generic_sdram.hpp on four banks of 2^13 rows and 2^9
-- columns.
use deltamodels.Base.{
  ℕ, ◌+◌, ◌≡◌, refl, some, List, [], ◌∷◌, arith, ◌==◌, if◌then◌else◌, done, ◌>>=◌,
}
use deltamodels.Sdram.{
  Geometry, Line, init, Sdram, Pins, nop_1, read, to_word_address, fetch, touch, info,
  read_requested, read_returned, handle_cmd,
}
use deltamodels.Sdram.Backdoor.{Backdoor, from_wishbone}
use deltamodels.Sdram.Sequences.{reads_reversed}
use deltamodels.Sdram.History.{Legal, replay, view}
use deltamodels.Sdram.Runs.{Event, edge, backdoor, run_events, Fits, AllDrive, init-Fits}
use deltamodels.Sdram.Replay.{log_replays}

abbrev geometry : Geometry
geometry = record { row_bits = 13; bank_bits = 2; col_bits = 9 }

abbrev chip : Sdram
chip = record {
  mem = λ a. if a == 600 then some 42 else some 7;
  read_buf = [];
  bank_addr = 0;
  col_addr = 0;
  row_addr = 0 ∷ 0 ∷ 0 ∷ 0 ∷ [];
  dq_out = 0;
  geometry = geometry;
  offset = 0x1000;
  log = [];
}

abbrev pins : ℕ → ℕ → ℕ → ℕ → ℕ → Pins
pins ras cas we a ba = record {
  ck = 1;
  cke = 1;
  cs_n = 0;
  ras_n = ras;
  cas_n = cas;
  we_n = we;
  a = a;
  ba = ba;
  dq = 99;
  dm = 0;
}

abbrev asked : Sdram
asked = record chip {
  mem = touch 600 (touch 599 chip.mem);
  bank_addr = 1;
  col_addr = 88;
  dq_out = 42;
  read_buf = 7 ∷ [];
  log = read_requested 6492 7 ∷ read_requested 6496 42 ∷ read_returned 42 ∷ [];
}

abbrev emptied : Sdram
emptied = info (read_returned 7) (record asked { dq_out = 7; read_buf = [] })

two_reads :
    (handle_cmd read (pins 1 0 1 87 1) chip >>= λ s.
    handle_cmd read (pins 1 0 1 88 1) s >>= handle_cmd nop_1 (pins 1 1 1 0 0))
    ≡ done asked
unfolding handle_cmd
two_reads = refl

one_pop : handle_cmd nop_1 (pins 1 1 1 0 0) asked ≡ done emptied
unfolding handle_cmd
one_pop = refl

reads_reversed_example :
    (42 ≡ fetch (to_word_address geometry 0 1 88) chip.mem)
    × (7 ≡ fetch (to_word_address geometry 0 1 87) chip.mem)
reads_reversed_example =
    reads_reversed (pins 1 0 1 87 1) (pins 1 0 1 88 1) (pins 1 1 1 0 0) chip asked emptied 0 0 refl
      refl two_reads one_pop

abbrev door : ℕ → ℕ → Backdoor
door copy clear = record {
  copy_from = 0x1000 + 2400;
  copy_to = 0x1000;
  copy_size = 8;
  copy = copy;
  clear_from = 0x1000 + 2400;
  clear_to = 0x1000 + 2408;
  clear = clear;
}

-- A row is opened, a word of it written and read, copied and cleared by the backdoor, and a NOP
-- returns what was read.
abbrev requests : List Event
requests =
    edge (pins 0 1 1 5 2)
    ∷ edge (pins 1 0 0 17 2)
    ∷ edge (pins 1 0 1 17 2)
    ∷ backdoor (door 1 1)
    ∷ edge (pins 1 1 1 0 0)
    ∷ []

abbrev new_chip : Sdram
new_chip = init 2 geometry 0x1000

requests-AllDrive : AllDrive 13 2 0x1000 requests
unfolding from_wishbone
requests-AllDrive = ground arith

log_replays_example :
    (t : Sdram) × (lines : List Line) × (run_events requests new_chip ≡ done t)
    × (t.log ≡ lines)
    × Legal 0x1000 lines (view new_chip.mem)
    × (replay 0x1000 lines (view new_chip.mem) ≡ view t.mem)
    × Fits 13 2 t
unfolding init
log_replays_example =
    log_replays 13 2 requests new_chip (init-Fits 13 2 0x1000 geometry (omega arith) (omega arith))
      requests-AllDrive

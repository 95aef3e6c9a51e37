-- ===== src/Sdram/Controller.antt =====
-- The DDR controller of models/memories/tests/test_sdram.cpp on one bus with the chip. A call of
-- `sc_start(1, SC_NS)` is one period of the clock, a rise and a fall; `cke` is at 1 before the first
-- one, so the chip's process is called at these only. `dq` is the last value that either side wrote.
-- A pin keeps the low bits of what is written to it.
use deltamodels.Base.{ℕ, ◌%◌, ◌^◌, u32, Run, done, raised, undefined, ◌>>=◌}
use deltamodels.Sdram.{Sdram, Pins, sdram_handler, to_row_bank_column}

pub record Board : Type 0 where
  pub pins : Pins
  pub sdram : Sdram

-- The chip's process at a change of the clock.
unfoldable pub clock_change : ℕ → Board → Run Board Board
clock_change ck b =
    let pins : Pins = record b.pins { ck = ck } in
    elim (sdram_handler pins (record b.sdram { dq_out = b.pins.dq })) [
      | done s ↦ done (record { pins = record pins { dq = s.dq_out }; sdram = s })
      | raised r s ↦ raised r (record { pins = pins; sdram = s })
      | undefined ↦ undefined
    ]

-- `sc_start(1, SC_NS)`
unfoldable pub period : Board → Run Board Board
unfolding clock_change
period b = clock_change 1 b >>= clock_change 0

module _ (a_size ba_size : ℕ) where
  unfoldable pub do_nop : Board → Board
  do_nop b = record b {
    pins = record b.pins {
      cs_n = 1;
      a = 0;
      ba = 0;
      dq = 0;
      dm = 0;
      cke = 1;
      ras_n = 0;
      cas_n = 0;
      we_n = 0;
    };
  }

  -- A period with the command on the pins, and one with no command.
  unfoldable pub issue : Pins → Board → Run Board Board
  unfolding period do_nop
  issue pins b = period (record b { pins = pins }) >>= λ b'. period (do_nop b')

  unfoldable pub activate_bank : ℕ → ℕ → Board → Run Board Board
  unfolding issue
  activate_bank bank row b =
      let pins : Pins = record b.pins {
        cs_n = 0;
        a = row % 2 ^ a_size;
        ba = bank % 2 ^ ba_size;
        dq = 0;
        dm = 0;
        cke = 1;
        ras_n = 0;
        cas_n = 1;
        we_n = 1;
      } in
      issue pins b

  unfoldable pub do_write : ℕ → ℕ → ℕ → Board → Run Board Board
  unfolding issue
  do_write bank col data_in b =
      let pins : Pins = record b.pins {
        cs_n = 0;
        a = col % 2 ^ a_size;
        ba = bank % 2 ^ ba_size;
        dq = u32 data_in;
        dm = 0;
        cke = 1;
        ras_n = 1;
        cas_n = 0;
        we_n = 0;
      } in
      issue pins b

  -- The value on `dq` after the two periods, and the board.
  unfoldable pub do_read : ℕ → ℕ → Board → Run Board (ℕ × Board)
  unfolding issue
  do_read bank col b =
      let pins : Pins = record b.pins {
        cs_n = 0;
        a = col % 2 ^ a_size;
        ba = bank % 2 ^ ba_size;
        cke = 1;
        ras_n = 1;
        cas_n = 0;
        we_n = 1;
      } in
      issue pins b >>= λ b'. done (b'.pins.dq, b')

  -- `_write` and `_read`
  unfoldable pub write_at : ℕ → ℕ → Board → Run Board Board
  unfolding activate_bank do_write
  write_at addr data_in b =
      let (row, bank, col) = to_row_bank_column b.sdram.geometry addr in
      activate_bank bank row b >>= do_write bank col data_in

  unfoldable pub read_at : ℕ → Board → Run Board (ℕ × Board)
  unfolding activate_bank do_read
  read_at addr b =
      let (row, bank, col) = to_row_bank_column b.sdram.geometry addr in
      activate_bank bank row b >>= do_read bank col

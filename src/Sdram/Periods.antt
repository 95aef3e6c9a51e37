-- ===== src/Sdram/Periods.antt =====
-- A command of the controller of models/memories/tests/test_sdram.cpp and the period of the clock
-- after it.
use deltamodels.Base.{ℕ, ◌≡◌, refl, ap, arith, bit_and, bit_and_le, done}
use deltamodels.Sdram.{Sdram, Pins, sdram_handler, pop_read}
use deltamodels.Sdram.Controller.{Board, clock_change, period, do_nop, issue}

-- The clock falls, and nothing happens.
low_clock : (p : Pins) (s : Sdram) → p.ck ≡ 0 → sdram_handler p s ≡ done s
unfolding sdram_handler
low_clock p s low = ground (arith, ap (λ (ck : ℕ). bit_and ck p.cke) low, bit_and_le 0 p.cke)

pub clock_change_lem :
    (ck : ℕ) (b : Board) (t : Sdram)
    → sdram_handler (record b.pins { ck = ck }) (record b.sdram { dq_out = b.pins.dq }) ≡ done t
    → clock_change ck b
      ≡ done (record { pins = record b.pins { ck = ck; dq = t.dq_out }; sdram = t })
unfolding clock_change
clock_change_lem ck b t run = rw (clock_change, run) refl

pub period_lem :
    (b : Board) (t : Sdram)
    → sdram_handler (record b.pins { ck = 1 }) (record b.sdram { dq_out = b.pins.dq }) ≡ done t
    → period b ≡ done (record { pins = record b.pins { ck = 0; dq = t.dq_out }; sdram = t })
unfolding period
period_lem b t run =
    let high : Board = record { pins = record b.pins { ck = 1; dq = t.dq_out }; sdram = t } in
    rw (clock_change_lem 1 b t run)
      (clock_change_lem 0 high t (low_clock (record high.pins { ck = 0 }) t refl))

-- What no command does with a pending read.
pub no_command :
    (p : Pins) (s : Sdram)
    → p.ck ≡ 1
    → p.cke ≡ 1
    → p.cs_n ≡ 1
    → sdram_handler p s ≡ done (pop_read s.read_buf s)
unfolding sdram_handler
no_command p s ck cke cs = rw (ck, cke, cs) refl

module _ (a_size ba_size : ℕ) where
  -- The pins after a period with no command.
  abbrev pub resting : ℕ → Pins
  resting dq = record {
    ck = 0;
    cke = 1;
    cs_n = 1;
    ras_n = 0;
    cas_n = 0;
    we_n = 0;
    a = 0;
    ba = 0;
    dq = dq;
    dm = 0;
  }

  -- The board once a command has left the chip in this state.
  abbrev pub rested : Sdram → Board
  rested s =
      let s' = pop_read s.read_buf (record s { dq_out = 0 }) in
      record { pins = resting s'.dq_out; sdram = s' }

  pub issue_lem :
      (p : Pins) (b : Board) (s : Sdram)
      → sdram_handler (record p { ck = 1 }) (record b.sdram { dq_out = p.dq }) ≡ done s
      → issue a_size ba_size p b ≡ done (rested s)
  unfolding issue do_nop
  issue_lem p b s run =
      let low : Board = record { pins = record p { ck = 0; dq = s.dq_out }; sdram = s } in
      let quiet = do_nop a_size ba_size low in
      rw (period_lem (record b { pins = p }) s run) (
        period_lem quiet _
          (no_command (record quiet.pins { ck = 1 }) (record s { dq_out = 0 }) refl refl refl))

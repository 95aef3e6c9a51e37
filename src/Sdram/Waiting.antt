-- ===== src/Sdram/Waiting.antt =====
-- The board of models/memories/tests/test_sdram.cpp between its accesses: the clock runs and the
-- controller issues no command.
use mathlib.Core.Path.{subst}
use deltamodels.Base.{
  length-replicate, sym, ◌∙◌, u32, Returns-map, ℕ, zero, suc, ◌%◌, ◌^◌, ◌≡◌, refl, Run, done,
  raised, undefined, ◌>>=◌, Returns, returns, Ensures, Ensures-bind, Ensures-then, Returns-bind,
}
use deltamodels.Sdram.{init, Sdram, Geometry, Pins, sdram_handler, pop_read, to_row_bank_column}
use deltamodels.Sdram.Periods.{no_command, period_lem}
use deltamodels.Sdram.Array.{IsReady}
use deltamodels.Sdram.Controller.{
  Board, clock_change, period, do_nop, issue, write_at, activate_bank, do_write,
}

-- A new chip is ready.
pub init-IsReady :
    (ba_size offset : ℕ) (g : Geometry) (pins : Pins)
    → IsReady ba_size g (record { pins = pins; sdram = init ba_size g offset })
unfolding init
init-IsReady ba_size offset g pins = record {
  idle = refl;
  banks = length-replicate {A = ℕ} (2 ^ ba_size) 0;
  same = refl;
}

-- No command is on the pins.
pub record IsQuiet (b : Board) : Type 0 where
  pub enable : b.pins.cke ≡ 1
  pub chip : b.pins.cs_n ≡ 1

clock_change-IsQuiet : (ck : ℕ) (b : Board) → IsQuiet b → Ensures IsQuiet (clock_change ck b)
unfolding clock_change
clock_change-IsQuiet ck b quiet =
    elim (sdram_handler (record b.pins { ck = ck }) (record b.sdram { dq_out = b.pins.dq }))
      as (λ r. Ensures IsQuiet (elim r as (λ _. Run Board Board) [
        | done s ↦ done (record { pins = record b.pins { ck = ck; dq = s.dq_out }; sdram = s })
        | raised e s ↦ raised e (record { pins = record b.pins { ck = ck }; sdram = s })
        | undefined ↦ undefined
      ])) [
        | done t ↦ record { enable = quiet.enable; chip = quiet.chip }
        | raised r s ↦ tt
        | undefined ↦ tt
      ]

period-IsQuiet : (b : Board) → IsQuiet b → Ensures IsQuiet (period b)
unfolding period
period-IsQuiet b quiet =
    Ensures-bind IsQuiet IsQuiet (clock_change 1 b) (clock_change 0)
      (clock_change-IsQuiet 1 b quiet) (clock_change-IsQuiet 0)

-- `sc_start(n, SC_NS)`
unfoldable pub periods : ℕ → Board → Run Board Board
unfolding period
periods zero b = done b
periods (suc n) b = period b >>= periods n

module _ (a_size ba_size : ℕ) where
  issue-IsQuiet : (p : Pins) (b : Board) → Ensures IsQuiet (issue a_size ba_size p b)
  unfolding issue do_nop
  issue-IsQuiet p b =
      Ensures-then IsQuiet (period (record b { pins = p })) _
        λ b'. period-IsQuiet (do_nop a_size ba_size b') (record { enable = refl; chip = refl })

  pub do_nop-IsQuiet : (b : Board) → IsQuiet (do_nop a_size ba_size b)
  unfolding do_nop
  do_nop-IsQuiet b = record { enable = refl; chip = refl }

  pub do_nop-IsReady :
      (g : Geometry) (b : Board) → IsReady ba_size g b → IsReady ba_size g (do_nop a_size ba_size b)
  unfolding do_nop
  do_nop-IsReady g b ready = record { idle = ready.idle; banks = ready.banks; same = ready.same }

  pub do_nop-sdram : (b : Board) → (do_nop a_size ba_size b).sdram ≡ b.sdram
  unfolding do_nop
  do_nop-sdram b = refl

  do_write-IsQuiet :
      (bank col v : ℕ) (b : Board) → Ensures IsQuiet (do_write a_size ba_size bank col v b)
  unfolding do_write
  do_write-IsQuiet bank col v b =
      issue-IsQuiet
        (record b.pins {
          cs_n = 0;
          a = col % 2 ^ a_size;
          ba = bank % 2 ^ ba_size;
          dq = u32 v;
          dm = 0;
          cke = 1;
          ras_n = 1;
          cas_n = 0;
          we_n = 0;
        })
        b

  pub write_at-IsQuiet :
      (addr v : ℕ) (b : Board) → Ensures IsQuiet (write_at a_size ba_size addr v b)
  unfolding write_at do_write
  write_at-IsQuiet addr v b =
      let (row, bank, col) = to_row_bank_column b.sdram.geometry addr in
      Ensures-then IsQuiet (activate_bank a_size ba_size bank row b)
        (do_write a_size ba_size bank col v) λ b'. do_write-IsQuiet bank col v b'

module _ (ba_size : ℕ) (g : Geometry) where
  -- Waiting from a board that is ready: it stays ready and quiet, and keeps its memory.
  abbrev pub Waits : Board → Board → Type 0
  Waits b t = (IsReady ba_size g t × IsQuiet t) × (t.sdram.mem ≡ b.sdram.mem)

  rests : (b : Board) → IsReady ba_size g b → IsQuiet b → Returns (Waits b) (period b)
  unfolding pop_read
  rests b ready quiet =
      let s : Sdram = record b.sdram { dq_out = b.pins.dq } in
      let run : period b ≡ done (record { pins = record b.pins { ck = 0 }; sdram = s }) =
        period_lem b s (
          no_command (record b.pins { ck = 1 }) s refl quiet.enable quiet.chip
          ∙ rw ready.idle refl) in
      subst (Returns (Waits b)) (sym run) (
        returns (
          (
            record { idle = ready.idle; banks = ready.banks; same = ready.same },
            record { enable = quiet.enable; chip = quiet.chip },
          ),
          refl,
        ))

  pub waits :
      (n : ℕ) (b : Board) → IsReady ba_size g b → IsQuiet b → Returns (Waits b) (periods n b)
  unfolding periods
  waits zero b ready quiet = returns ((ready, quiet), refl)
  waits (suc n) b ready quiet =
      Returns-bind (rests b ready quiet)
        λ t h. Returns-map (waits n t h.0.0 h.0.1) λ u k. (k.0, k.1 ∙ h.1)

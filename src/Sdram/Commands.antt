-- ===== src/Sdram/Commands.antt =====
-- Commands against the table at the head of models/memories/sdram/generic_sdram.hpp, and what
-- sequences of them do.
use deltamodels.Base.{ℕ, ◌≡◌, ◌≢◌, refl, true, false, arith, bit_and, get_bit}
use deltamodels.Sdram.{
  Sdram, Pins, Cmd, nop_0, activate, read, write, precharge, precharge_all, refresh, load_mem_reg,
  sdram_handler, handle_cmd,
}

-- /RAS, /CAS and /WE of the table's rows with /CS low.
record Lines : Type 0 where
  ras : ℕ
  cas : ℕ
  we : ℕ

abbrev lines : Cmd → Lines
lines activate = record { ras = 0; cas = 1; we = 1 }
lines read = record { ras = 1; cas = 0; we = 1 }
lines write = record { ras = 1; cas = 0; we = 0 }
lines precharge = record { ras = 0; cas = 1; we = 0 }
lines precharge_all = record { ras = 0; cas = 1; we = 0 }
lines refresh = record { ras = 0; cas = 0; we = 1 }
lines load_mem_reg = record { ras = 0; cas = 0; we = 0 }
lines _ = record { ras = 1; cas = 1; we = 1 }

-- The pins select a command's row of the table, with the clock and the chip enabled.
pub record Selects (c : Cmd) (p : Pins) : Type 0 where
  pub clock : p.ck ≡ 1
  pub enable : p.cke ≡ 1
  pub chip : p.cs_n ≡ 0
  pub ras : p.ras_n ≡ (lines c).ras
  pub cas : p.cas_n ≡ (lines c).cas
  pub we : p.we_n ≡ (lines c).we

one_and_one : (p : Pins) → p.ck ≡ 1 → p.cke ≡ 1 → bit_and p.ck p.cke ≡ 1
one_and_one p h k = rw (h, k)

-- With address bit 10 low, the pins of each row of the table carry out that row's command; with it
-- high, those of PRECHARGE carry out PRECHARGE_ALL.
pub sdram_handler_table :
    (c : Cmd) (p : Pins) (s : Sdram)
    → Selects c p
    → c ≢ nop_0
    → get_bit p.a 10 ≡ (elim c [ precharge_all ↦ true | _ ↦ false ])
    → sdram_handler p s ≡ handle_cmd c p s
unfolding sdram_handler
sdram_handler_table nop_0 p s q ne low = absurd (ne refl)
sdram_handler_table _ p s q ne low = ground (arith, one_and_one p q.clock q.enable)

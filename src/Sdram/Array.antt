-- ===== src/Sdram/Array.antt =====
-- The controller of models/memories/tests/test_sdram.cpp and the chip of
-- models/memories/sdram/generic_sdram.hpp together, against a plain memory of words.
use native.Mathlib.Nat.{mod-eq_of_lt}
use deltamodels.Base.{
  ℕ, ◌%◌, ◌^◌, ◌<◌, ◌≤◌, ◌≡◌, refl, ap, ◌∙◌, false, some, [], arith, get_bit, get_elem?,
  get_elem?-set_self, length, length-set, u32, done,
}
use deltamodels.Sdram.Masks.{masked-write_mask}
use deltamodels.Sdram.Commands.{Selects, sdram_handler_table}
use deltamodels.Sdram.Sequences.{column_word, opened, stored, asked, activated, written, requested}
use deltamodels.Sdram.Address.{words}
use deltamodels.Sdram.{
  Sdram, Geometry, Pins, activate, read, write, pop_read, fetch, touch, store, masked, write_mask,
  to_word_address,
}
use deltamodels.Sdram.Controller.{Board, activate_bank, do_write, do_read}
use deltamodels.Sdram.Periods.{resting, rested, issue_lem}

-- A geometry of at most 2^30 words whose rows, banks and columns fit the pins, with column numbers
-- below address bit 10.
pub record IsWired (a_size ba_size : ℕ) (g : Geometry) : Type 0 where
  pub size : words g ≤ 2 ^ 30
  pub rows : 2 ^ g.row_bits ≤ 2 ^ a_size
  pub banks : 2 ^ g.bank_bits ≤ 2 ^ ba_size
  pub cols : 2 ^ g.col_bits ≤ 2 ^ a_size
  pub low_cols : 2 ^ g.col_bits ≤ 2 ^ 10

-- Between accesses: no read is pending, and the chip has its banks.
pub record IsReady (ba_size : ℕ) (g : Geometry) (b : Board) : Type 0 where
  pub idle : b.sdram.read_buf ≡ []
  pub banks : length b.sdram.row_addr ≡ 2 ^ ba_size
  pub same : b.sdram.geometry ≡ g

module _ (a_size ba_size : ℕ) (g : Geometry) (wired : IsWired a_size ba_size g) where
  rest_idle :
      (s : Sdram)
      → s.read_buf ≡ []
      → rested a_size ba_size s
        ≡ record { pins = resting a_size ba_size 0; sdram = record s { dq_out = 0 } }
  unfolding pop_read
  rest_idle s idle = rw idle refl

  pub activates :
      (b : Board) (bank row : ℕ)
      → IsReady ba_size g b
      → row < 2 ^ a_size
      → bank < 2 ^ ba_size
      → get_bit row 10 ≡ false
      → (t : Board) × (activate_bank a_size ba_size bank row b ≡ done t)
        × IsReady ba_size g t
        × (t.sdram.mem ≡ b.sdram.mem)
        × (get_elem? t.sdram.row_addr bank ≡ some row)
  unfolding activate_bank
  activates b bank row ready row_small bank_small low =
      let er : row % 2 ^ a_size ≡ row = mod-eq_of_lt row_small in
      let eb : bank % 2 ^ ba_size ≡ bank = mod-eq_of_lt bank_small in
      let p : Pins = record b.pins {
        ck = 1;
        cs_n = 0;
        a = row;
        ba = bank;
        dq = 0;
        dm = 0;
        cke = 1;
        ras_n = 0;
        cas_n = 1;
        we_n = 1;
      } in
      let s : Sdram = record b.sdram { dq_out = 0 } in
      let inside : bank < length s.row_addr = rw ready.banks bank_small in
      let opens : Selects activate p = record {
        clock = refl;
        enable = refl;
        chip = refl;
        ras = refl;
        cas = refl;
        we = refl;
      } in
      (
        record { pins = resting a_size ba_size 0; sdram = record (opened p s) { dq_out = 0 } },
        rw (er, eb)
            (issue_lem a_size ba_size (record p { ck = b.pins.ck }) b (opened p s)
                (sdram_handler_table activate p s opens (λ e. cc) low ∙ activated p s inside)
              ∙ ap done (rest_idle (opened p s) ready.idle)),
        record {
          idle = ready.idle;
          banks = length-set s.row_addr bank row ∙ ready.banks;
          same = ready.same;
        },
        refl,
        get_elem?-set_self s.row_addr bank row inside,
      )

  pub writes :
      (b : Board) (bank row col v : ℕ)
      → IsReady ba_size g b
      → get_elem? b.sdram.row_addr bank ≡ some row
      → bank < 2 ^ ba_size
      → col < 2 ^ g.col_bits
      → v < 2 ^ 32
      → (t : Board) × (do_write a_size ba_size bank col v b ≡ done t)
        × IsReady ba_size g t
        × (t.sdram.mem ≡ store (to_word_address g row bank col) v b.sdram.mem)
  unfolding do_write
  writes b bank row col v ready open_row bank_small col_small v_small =
      let ec : col % 2 ^ a_size ≡ col = mod-eq_of_lt (omega (arith, wired.cols)) in
      let eb : bank % 2 ^ ba_size ≡ bank = mod-eq_of_lt bank_small in
      let ev : u32 v ≡ v = mod-eq_of_lt v_small in
      let p : Pins = record b.pins {
        ck = 1;
        cs_n = 0;
        a = col;
        ba = bank;
        dq = v;
        dm = 0;
        cke = 1;
        ras_n = 1;
        cas_n = 0;
        we_n = 0;
      } in
      let s : Sdram = record b.sdram { dq_out = v } in
      let low : get_bit col 10 ≡ false = ground (arith, wired.low_cols) in
      let selects : Selects write p = record {
        clock = refl;
        enable = refl;
        chip = refl;
        ras = refl;
        cas = refl;
        we = refl;
      } in
      let kept : masked v (fetch (column_word p s row) s.mem) (write_mask 0) ≡ v =
        masked-write_mask v _ 0 v_small ∙ ground arith in
      (
        record { pins = resting a_size ba_size 0; sdram = record (stored p s row) { dq_out = 0 } },
        rw (ec, eb, ev)
            (issue_lem a_size ba_size (record p { ck = b.pins.ck }) b (stored p s row)
                (sdram_handler_table write p s selects (λ e. cc) low ∙ written p s row open_row)
              ∙ ap done (rest_idle (stored p s row) ready.idle)),
        record { idle = ready.idle; banks = ready.banks; same = ready.same },
        rw (kept, ready.same) refl,
      )

  pub reads :
      (b : Board) (bank row col : ℕ)
      → IsReady ba_size g b
      → get_elem? b.sdram.row_addr bank ≡ some row
      → bank < 2 ^ ba_size
      → col < 2 ^ g.col_bits
      → let w = to_word_address g row bank col in
        (t : Board) × (do_read a_size ba_size bank col b ≡ done (fetch w b.sdram.mem, t))
        × IsReady ba_size g t
        × (t.sdram.mem ≡ touch w b.sdram.mem)
  unfolding do_read pop_read
  reads b bank row col ready open_row bank_small col_small =
      let ec : col % 2 ^ a_size ≡ col = mod-eq_of_lt (omega (arith, wired.cols)) in
      let eb : bank % 2 ^ ba_size ≡ bank = mod-eq_of_lt bank_small in
      let p : Pins = record b.pins {
        ck = 1;
        cs_n = 0;
        a = col;
        ba = bank;
        cke = 1;
        ras_n = 1;
        cas_n = 0;
        we_n = 1;
      } in
      let s : Sdram = record b.sdram { dq_out = b.pins.dq } in
      let low : get_bit col 10 ≡ false = ground (arith, wired.low_cols) in
      let selects : Selects read p = record {
        clock = refl;
        enable = refl;
        chip = refl;
        ras = refl;
        cas = refl;
        we = refl;
      } in
      let word : column_word p s row ≡ to_word_address g row bank col =
        ap (λ (k : Geometry). to_word_address k row bank col) ready.same in
      let run =
        issue_lem a_size ba_size (record p { ck = b.pins.ck }) b (asked p s row)
          (sdram_handler_table read p s selects (λ e. cc) low ∙ requested p s row open_row) in
      (
        rested a_size ba_size (asked p s row),
        rw (ec, eb, run, word) refl,
        record { idle = ready.idle; banks = ready.banks; same = ready.same },
        rw word refl,
      )

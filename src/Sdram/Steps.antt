-- ===== src/Sdram/Steps.antt =====
-- The lines that the commands of models/memories/sdram/generic_sdram.hpp log.
use deltamodels.Base.{
  ℕ, ◌+◌, ◌^◌, ◌<◌, ◌≡◌, refl, sym, ap, ◌∙◌, Bool, true, false, Option, some, none, List, [], ◌∷◌,
  arith, ◌==◌, if◌then◌else◌, bit_and, length-set, set, get_elem?, get_elem?-of_lt, map, Run, done,
}
use native.Mathlib.Nat.{one-le-pow}
use deltamodels.Sdram.Sequences.{fetch-store, column_word, stored, asked, written, requested}
use deltamodels.Sdram.{
  Sdram, Pins, Cmd, Line, row_activated, row_precharged, rows_precharged, refreshed, mode_loaded,
  read_requested, word_written, read_returned, fetch, touch, store, info, pop_read, set_row,
  to_wishbone, to_word_address, nop_0, nop_1, activate, read, write, precharge, precharge_all,
  refresh, load_mem_reg, handle_cmd, dispatch, cmd_of, aggregate, sdram_handler, write_mask, masked,
}
use deltamodels.Sdram.History.{
  History, no_lines, one_line, view-store, view-touch, from_wishbone-to_wishbone,
}
use deltamodels.Sdram.Runs.{
  Fits, AllBelow-set, AllBelow-get_elem?, AllBelow-map, length-map_zero, address_bound,
}

module _ (a_size ba_size : ℕ) where
  positive : 0 < 2 ^ a_size
  positive = one-le-pow a_size 2 (omega arith)

  column_word-bound :
      (p : Pins) (s : Sdram) (row : ℕ)
      → Fits a_size ba_size s
      → p.a < 2 ^ a_size
      → p.ba < 2 ^ ba_size
      → get_elem? s.row_addr p.ba ≡ some row
      → column_word p s row < 2 ^ 30
  unfolding to_word_address
  column_word-bound p s row fits a ba e = omega (
    arith,
    address_bound row p.ba p.a (2 ^ a_size) (2 ^ ba_size)
        (2 ^ (s.geometry.bank_bits + s.geometry.col_bits)) (2 ^ s.geometry.col_bits) (2 ^ 30)
        (AllBelow-get_elem? (2 ^ a_size) p.ba row s.row_addr fits.rows e) ba a fits.room,
  )

  -- The bank that the pins name.
  bank_row :
      (p : Pins) (s : Sdram)
      → Fits a_size ba_size s
      → p.ba < 2 ^ ba_size
      → (row : ℕ) × (get_elem? s.row_addr p.ba ≡ some row)
  bank_row p s fits ba = get_elem?-of_lt s.row_addr p.ba (rw fits.banks ba)

  abbrev pub Goes : Run Sdram Sdram → Sdram → Type 0
  Goes run s = (t : Sdram) × (run ≡ done t) × History s t × Fits a_size ba_size t

  stores :
      (p : Pins) (s : Sdram) (row : ℕ)
      → Fits a_size ba_size s
      → p.a < 2 ^ a_size
      → p.ba < 2 ^ ba_size
      → get_elem? s.row_addr p.ba ≡ some row
      → History s (stored p s row)
  stores p s row fits a ba e =
      let w = column_word p s row in
      let same =
        from_wishbone-to_wishbone s.offset w fits.low (column_word-bound p s row fits a ba e) in
      let v = masked p.dq (fetch w s.mem) (write_mask p.dm) in
      let held : fetch w (store w v s.mem) ≡ v = fetch-store w w v s.mem ∙ ground arith in
      one_line s (stored p s row)
        (word_written (to_wishbone s.offset w) (fetch w (store w v s.mem))) refl tt
        (rw (same, held) (sym (view-store w v s.mem))) refl

  asks :
      (p : Pins) (s : Sdram) (row : ℕ)
      → Fits a_size ba_size s
      → p.a < 2 ^ a_size
      → p.ba < 2 ^ ba_size
      → get_elem? s.row_addr p.ba ≡ some row
      → History s (asked p s row)
  asks p s row fits a ba e =
      let w = column_word p s row in
      let same =
        from_wishbone-to_wishbone s.offset w fits.low (column_word-bound p s row fits a ba e) in
      one_line s (asked p s row) (read_requested (to_wishbone s.offset w) (fetch w (touch w s.mem)))
        refl (rw same (sym (ap (λ (f : ℕ → ℕ). f w) (view-touch w s.mem))))
        (sym (view-touch w s.mem)) refl

  -- Nothing but the log, the pins' registers and pending reads changed.
  set_row_goes :
      (bank row : ℕ) (l : Line) (s : Sdram)
      → Fits a_size ba_size s
      → row < 2 ^ a_size
      → Fits a_size ba_size
          (info l (record s { bank_addr = bank; row_addr = set s.row_addr bank row }))
  set_row_goes bank row l s fits small = record {
    banks = length-set s.row_addr bank row ∙ fits.banks;
    rows = AllBelow-set (2 ^ a_size) bank row s.row_addr fits.rows small;
    room = fits.room;
    low = fits.low;
  }

  -- A state with the same rows, geometry and offset.
  pub refit :
      (s t : Sdram)
      → t.row_addr ≡ s.row_addr
      → t.geometry ≡ s.geometry
      → t.offset ≡ s.offset
      → Fits a_size ba_size s
      → Fits a_size ba_size t
  refit s t rows geometry offset fits = record {
    banks = rw rows fits.banks;
    rows = rw rows fits.rows;
    room = rw geometry fits.room;
    low = rw offset fits.low;
  }

  pops : (s : Sdram) (buf : List ℕ) → Fits a_size ba_size s → Goes (done (pop_read buf s)) s
  unfolding pop_read
  pops s [] fits = (s, refl, no_lines s, fits)
  pops s (v ∷ rest) fits =
      let t : Sdram = info (read_returned v) (record s { dq_out = v; read_buf = rest }) in
      (t, refl, one_line s t (read_returned v) refl tt refl refl, refit s t refl refl refl fits)

  sets :
      (bank row : ℕ) (l : Line) (s : Sdram)
      → Fits a_size ba_size s
      → bank < 2 ^ ba_size
      → row < 2 ^ a_size
      → let t = info l (record s { bank_addr = bank; row_addr = set s.row_addr bank row }) in
        History s t → Goes (set_row bank row l s) s
  unfolding set_row
  sets bank row l s fits b r h =
      let (old, e) = get_elem?-of_lt s.row_addr bank (rw fits.banks b) in
      (_, rw (set_row, e) refl, h, set_row_goes bank row l s fits r)

  handle_cmd-Goes :
      (c : Cmd) (p : Pins) (s : Sdram)
      → Fits a_size ba_size s
      → p.a < 2 ^ a_size
      → p.ba < 2 ^ ba_size
      → Goes (handle_cmd c p s) s
  unfolding handle_cmd
  handle_cmd-Goes nop_0 p s fits a ba = pops s s.read_buf fits
  handle_cmd-Goes nop_1 p s fits a ba = pops s s.read_buf fits
  handle_cmd-Goes activate p s fits a ba =
      sets p.ba p.a row_activated s fits ba a (one_line s _ row_activated refl tt refl refl)
  handle_cmd-Goes precharge p s fits a ba =
      sets p.ba 0 row_precharged s fits ba positive (one_line s _ row_precharged refl tt refl refl)
  handle_cmd-Goes read p s fits a ba =
      let (row, e) = bank_row p s fits ba in
      (asked p s row, requested p s row e, asks p s row fits a ba e, refit s _ refl refl refl fits)
  handle_cmd-Goes write p s fits a ba =
      let (row, e) = bank_row p s fits ba in
      (stored p s row, written p s row e, stores p s row fits a ba e, refit s _ refl refl refl fits)
  handle_cmd-Goes precharge_all p s fits a ba =
      let t : Sdram = info rows_precharged (record s { row_addr = map (λ _. 0) s.row_addr }) in
      (
        t,
        refl,
        one_line s t rows_precharged refl tt refl refl,
        record {
          banks = length-map_zero s.row_addr ∙ fits.banks;
          rows = AllBelow-map (2 ^ a_size) s.row_addr positive;
          room = fits.room;
          low = fits.low;
        },
      )
  handle_cmd-Goes refresh p s fits a ba =
      let t : Sdram = info refreshed s in
      (t, refl, one_line s t refreshed refl tt refl refl, refit s t refl refl refl fits)
  handle_cmd-Goes load_mem_reg p s fits a ba =
      let t : Sdram = info mode_loaded s in
      (t, refl, one_line s t mode_loaded refl tt refl refl, refit s t refl refl refl fits)

  dispatch-Goes :
      (o : Option Cmd) (p : Pins) (s : Sdram)
      → Fits a_size ba_size s
      → p.a < 2 ^ a_size
      → p.ba < 2 ^ ba_size
      → Goes (dispatch o p s) s
  unfolding dispatch
  dispatch-Goes none p s fits a ba = (s, refl, no_lines s, fits)
  dispatch-Goes (some c) p s fits a ba = handle_cmd-Goes c p s fits a ba

  if-Goes :
      (b : Bool) (run : Run Sdram Sdram) (s : Sdram)
      → Fits a_size ba_size s
      → Goes run s
      → Goes (if b then run else done s) s
  if-Goes true run s fits goes = goes
  if-Goes false run s fits goes = (s, refl, no_lines s, fits)

  pub sdram_handler-Goes :
      (p : Pins) (s : Sdram)
      → Fits a_size ba_size s
      → p.a < 2 ^ a_size
      → p.ba < 2 ^ ba_size
      → Goes (sdram_handler p s) s
  unfolding sdram_handler
  sdram_handler-Goes p s fits a ba =
      if-Goes (bit_and p.ck p.cke == 1) _ s fits
        (dispatch-Goes (cmd_of (aggregate p)) p s fits a ba)

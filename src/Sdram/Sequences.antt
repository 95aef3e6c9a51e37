-- ===== src/Sdram/Sequences.antt =====
-- What sequences of commands do (models/memories/sdram/generic_sdram.hpp).
use deltamodels.Base.{
  ℕ, ◌^◌, ◌%◌, ◌<◌, ◌≡◌, refl, false, some, List, ◌∷◌, arith, get_bit, get_elem?,
  get_elem?-set_self, get_elem?-of_lt, inl, inr, Bool-cases, ◌==◌, ==_iff, if◌then◌else◌, length,
  set, Run, done, ◌>>=◌, ◌∙◌,
}
use deltamodels.Sdram.Masks.{masked-write_mask}
use deltamodels.Sdram.Commands.{Selects, sdram_handler_table}
use deltamodels.Sdram.{
  Sdram, Pins, Words, nop_1, activate, read, write, sdram_handler, handle_cmd, fetch, touch, store,
  masked, write_mask, to_word_address, to_wishbone, info, read_returned, row_activated,
  read_requested, word_written,
}

pub fetch-store :
    (a b v : ℕ) (mem : Words) → fetch a (store b v mem) ≡ (if a == b then v else fetch a mem)
unfolding fetch
fetch-store a b v mem = elim (Bool-cases (a == b)) [ inl e ↦ rw (e, fetch) | inr e ↦ rw (e, fetch) ]

fetch-store_self : (a v : ℕ) (mem : Words) → fetch a (store a v mem) ≡ v
fetch-store_self a v mem = fetch-store a a v mem ∙ rw ((==_iff a a).1 refl)

-- Reading a missing entry creates it, and no later read can tell.
pub fetch-touch : (a b : ℕ) (mem : Words) → fetch a (touch b mem) ≡ fetch a mem
unfolding touch
fetch-touch a b mem = fetch-store a b (fetch b mem) mem ∙ ground arith

module _ (p : Pins) (s : Sdram) where
  -- The states after the commands.
  abbrev pub opened : Sdram
  opened = info row_activated (record s { bank_addr = p.ba; row_addr = set s.row_addr p.ba p.a })

  abbrev pub column_word : ℕ → ℕ
  column_word row = to_word_address s.geometry row p.ba p.a

  abbrev pub stored : ℕ → Sdram
  stored row =
      let word = masked p.dq (fetch (column_word row) s.mem) (write_mask p.dm) in
      let mem' = store (column_word row) word s.mem in
      info (word_written (to_wishbone s.offset (column_word row)) (fetch (column_word row) mem'))
        (record s { bank_addr = p.ba; col_addr = p.a; mem = mem' })

  abbrev pub asked : ℕ → Sdram
  asked row =
      let mem' = touch (column_word row) s.mem in
      info (read_requested (to_wishbone s.offset (column_word row)) (fetch (column_word row) mem'))
        (record s {
          bank_addr = p.ba;
          col_addr = p.a;
          read_buf = fetch (column_word row) s.mem ∷ s.read_buf;
          mem = mem';
        })

  abbrev pub popped : ℕ → List ℕ → Sdram
  popped v rest = info (read_returned v) (record s { dq_out = v; read_buf = rest })

  pub activated : p.ba < length s.row_addr → handle_cmd activate p s ≡ done opened
  unfolding handle_cmd
  activated h = let (row, e) = get_elem?-of_lt s.row_addr p.ba h in ground arith

  pub written :
      (row : ℕ) → get_elem? s.row_addr p.ba ≡ some row → handle_cmd write p s ≡ done (stored row)
  unfolding handle_cmd
  written row e = ground arith

  pub requested :
      (row : ℕ) → get_elem? s.row_addr p.ba ≡ some row → handle_cmd read p s ≡ done (asked row)
  unfolding handle_cmd
  requested row e = ground arith

  pub returned :
      (v : ℕ) (rest : List ℕ) → s.read_buf ≡ v ∷ rest → handle_cmd nop_1 p s ≡ done (popped v rest)
  unfolding handle_cmd
  returned v rest e = ground arith

-- The four commands on the pins of four clock edges.
abbrev write_read : Pins → Pins → Pins → Pins → Sdram → Run Sdram Sdram
write_read pa pw pr pn s = do
  s1 ← sdram_handler pa s
  s2 ← sdram_handler pw s1
  s3 ← sdram_handler pr s2
  sdram_handler pn s3

-- A row is opened in a bank, a word written to a column of it and read back: after the next NOP the
-- word is on the data pins, and the reads that were pending before still are. The three commands
-- name the same bank, all pins keep address bit 10 low, and the lowest data-mask pin is low.
sdram_roundtrip :
    (pa pw pr pn : Pins) (s : Sdram)
    → Selects activate pa
    → get_bit pa.a 10 ≡ false
    → pa.ba < length s.row_addr
    → Selects write pw
    → get_bit pw.a 10 ≡ false
    → pw.ba ≡ pa.ba
    → pw.dq < 2 ^ 32
    → pw.dm % 2 ≡ 0
    → Selects read pr
    → get_bit pr.a 10 ≡ false
    → pr.ba ≡ pa.ba
    → pr.a ≡ pw.a
    → Selects nop_1 pn
    → get_bit pn.a 10 ≡ false
    → (t : Sdram) × (write_read pa pw pr pn s ≡ done t)
      × (t.dq_out ≡ pw.dq)
      × (t.read_buf ≡ s.read_buf)
sdram_roundtrip pa pw pr pn s a la bank w lw wb wd wm r lr rb ra n ln =
    let s1 : Sdram = opened pa s in
    let open_row : get_elem? s1.row_addr pa.ba ≡ some pa.a =
      get_elem?-set_self s.row_addr pa.ba pa.a bank in
    let s2 : Sdram = stored pw s1 pa.a in
    let s3 : Sdram = asked pr s2 pa.a in
    let same : column_word pr s2 pa.a ≡ column_word pw s1 pa.a = rw (rb, ra, wb) in
    let kept : masked pw.dq (fetch (column_word pw s1 pa.a) s1.mem) (write_mask pw.dm) ≡ pw.dq =
      masked-write_mask pw.dq _ pw.dm wd ∙ ground arith in
    (
      popped pn s3 (fetch (column_word pr s2 pa.a) s2.mem) s2.read_buf,
      rw (
        sdram_handler_table activate pa s a (λ e. cc) la,
        activated pa s bank,
        sdram_handler_table write pw s1 w (λ e. cc) lw,
        written pw s1 pa.a (rw wb open_row),
        sdram_handler_table read pr s2 r (λ e. cc) lr,
        requested pr s2 pa.a (rw rb open_row),
        sdram_handler_table nop_1 pn s3 n (λ e. cc) ln,
        returned pn s3 _ _ refl,
      ),
      rw same (fetch-store_self _ _ s1.mem) ∙ kept,
      refl,
    )

-- Two reads on existing banks that are pending at once come back in the reverse order: the first
-- NOP returns the second word asked for, the second NOP the first, whatever was pending before.
pub reads_reversed :
    (p1 p2 pn : Pins) (s t u : Sdram) (row1 row2 : ℕ)
    → get_elem? s.row_addr p1.ba ≡ some row1
    → get_elem? s.row_addr p2.ba ≡ some row2
    → (handle_cmd read p1 s >>= λ s1. handle_cmd read p2 s1 >>= handle_cmd nop_1 pn) ≡ done t
    → handle_cmd nop_1 pn t ≡ done u
    → (t.dq_out ≡ fetch (to_word_address s.geometry row2 p2.ba p2.a) s.mem)
      × (u.dq_out ≡ fetch (to_word_address s.geometry row1 p1.ba p1.a) s.mem)
unfolding handle_cmd
reads_reversed p1 p2 pn s t u row1 row2 e1 e2 h k = ground (
  arith,
  fetch-touch (to_word_address s.geometry row2 p2.ba p2.a)
      (to_word_address s.geometry row1 p1.ba p1.a) s.mem,
)

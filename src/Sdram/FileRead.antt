-- ===== src/Sdram/FileRead.antt =====
-- A file loaded into a new SDRAM and read back by commands (models/memories/sdram/generic_sdram.hpp).
use deltamodels.Base.{
  ℕ, ◌+◌, ◌-◌, ◌*◌, ◌/◌, ◌^◌, ◌≤◌, ◌<◌, ◌≡◌, refl, ◌∙◌, Bool, false, some, List, arith, get_bit,
  get_elem?, get_elem?-set_self, get_or, length, length-replicate, le→leb, lt→ltb, Run, done, ◌>>=◌,
}
use deltamodels.Sdram.Commands.{Selects, sdram_handler_table}
use deltamodels.Sdram.Sequences.{activated, requested, returned, column_word, opened, asked, popped}
use deltamodels.Sdram.Files.{buffer_of, configure_region}
use deltamodels.Sdram.Images.{AllBytes, word_of, loaded, loaded_words, configure_region-loads}
use deltamodels.Sdram.{
  Geometry, Sdram, Pins, Words, init, nop_1, activate, read, sdram_handler, fetch, to_word_address,
}

-- Opening a row, reading from it and waiting.
abbrev pub read_back : Pins → Pins → Pins → Sdram → Run Sdram Sdram
read_back pa pr pn s = do s1 ← sdram_handler pa s; s2 ← sdram_handler pr s1; sdram_handler pn s2

fetch_found : (a v : ℕ) (mem : Words) → mem a ≡ some v → fetch a mem ≡ v
unfolding fetch
fetch_found a v mem h = rw (h, fetch)

at_byte :
    (file : List ℕ) (junk : ℕ → ℕ) (j : ℕ)
    → j < length file
    → buffer_of file junk 0 j ≡ get_or file j 0
at_byte file junk j h =
    let start : 0 + j ≡ j = omega arith in rw (start, lt→ltb j (length file) h) refl

in_file :
    (file : List ℕ) (junk : ℕ → ℕ) (msb : Bool) (p : ℕ)
    → p + 3 < length file
    → word_of msb (buffer_of file junk 0) p ≡ word_of msb (λ j. get_or file j 0) p
in_file file junk msb p h = cc (
  at_byte file junk p (omega arith),
  at_byte file junk (p + 1) (omega arith),
  at_byte file junk (p + 2) (omega arith),
  at_byte file junk (p + 3) (omega arith),
)

-- A word of a loaded file is its four bytes.
pub fetch-loaded :
    (file : List ℕ) (junk : ℕ → ℕ) (conf_addr w : ℕ) (msb : Bool) (mem : Words)
    → AllBytes file
    → ((j : ℕ) → junk j < 256)
    → conf_addr / 4 + length file / 4 < 2 ^ 32
    → conf_addr / 4 ≤ w
    → w < conf_addr / 4 + length file / 4
    → fetch w (loaded file junk conf_addr 0 msb mem)
      ≡ word_of msb (λ j. get_or file j 0) (4 * (w - conf_addr / 4))
fetch-loaded file junk conf_addr w msb mem bytes junk_bytes room from to =
    let len : length file + 0 ≡ length file = omega arith in
    let image =
      loaded_words file junk conf_addr 0 msb mem bytes junk_bytes (omega arith) w (omega arith) in
    let held : fetch w (loaded file junk conf_addr 0 msb mem)
        ≡ word_of msb (buffer_of file junk 0) (4 * (w - conf_addr / 4)) =
      fetch_found w _ (loaded file junk conf_addr 0 msb mem) (
        image
        ∙ rw (len, le→leb (conf_addr / 4) w from, lt→ltb w (conf_addr / 4 + length file / 4) to)
            refl) in
    held ∙ in_file file junk msb (4 * (w - conf_addr / 4)) (omega arith)

module _ (pa pr pn : Pins) (opens : Selects activate pa) (opens_low : get_bit pa.a 10 ≡ false)
    (reads : Selects read pr) (reads_low : get_bit pr.a 10 ≡ false) (same_bank : pr.ba ≡ pa.ba)
    (rests : Selects nop_1 pn) (rests_low : get_bit pn.a 10 ≡ false) where
  read_back_lem :
      (s : Sdram)
      → pa.ba < length s.row_addr
      → (t : Sdram) × (read_back pa pr pn s ≡ done t)
        × (t.dq_out ≡ fetch (to_word_address s.geometry pa.a pr.ba pr.a) s.mem)
  read_back_lem s bank =
      let s1 : Sdram = opened pa s in
      let open_row : get_elem? s1.row_addr pa.ba ≡ some pa.a =
        get_elem?-set_self s.row_addr pa.ba pa.a bank in
      let s2 : Sdram = asked pr s1 pa.a in
      (
        popped pn s2 (fetch (column_word pr s1 pa.a) s1.mem) s1.read_buf,
        rw (
          sdram_handler_table activate pa s opens (λ e. cc) opens_low,
          activated pa s bank,
          sdram_handler_table read pr s1 reads (λ e. cc) reads_low,
          requested pr s1 pa.a (rw same_bank open_row),
          sdram_handler_table nop_1 pn s2 rests (λ e. cc) rests_low,
          returned pn s2 _ _ refl,
        ),
        refl,
      )

  -- A new SDRAM into which a file of bytes was loaded from its start answers a read with the file:
  -- when a row has been opened and a column of it asked for, whose word lies among the file's whole
  -- words, the next NOP brings the file's four bytes there to the data pins, lowest first if `msb`
  -- is set and highest first otherwise. All pins keep address bit 10 low, the row is opened in a
  -- bank of the chip and the column asked for in the same bank, the buffer holds bytes where the
  -- file does not fill it, the file has fewer than 2^31 bytes and its words lie below word address
  -- 2^32.
  pub read_back-configure_region :
      (ba_size offset conf_addr : ℕ) (g : Geometry) (file : List ℕ) (junk : ℕ → ℕ) (msb : Bool)
      → pa.ba < 2 ^ ba_size
      → AllBytes file
      → ((j : ℕ) → junk j < 256)
      → length file < 2 ^ 31
      → conf_addr / 4 + length file / 4 < 2 ^ 32
      → conf_addr / 4 ≤ to_word_address g pa.a pr.ba pr.a
      → to_word_address g pa.a pr.ba pr.a < conf_addr / 4 + length file / 4
      → let new = init ba_size g offset in
        (mem : Words) × (configure_region file junk conf_addr 0 msb new.mem ≡ some mem)
        × (t : Sdram) × (read_back pa pr pn (record new { mem = mem }) ≡ done t)
        × (t.dq_out
            ≡ word_of msb
                (λ j. get_or file j 0)
                (4 * (to_word_address g pa.a pr.ba pr.a - conf_addr / 4)))
  unfolding init
  read_back-configure_region ba_size offset conf_addr g file junk msb bank bytes junk_bytes fits
        room from to =
      let new = init ba_size g offset in
      let s : Sdram = record new { mem = loaded file junk conf_addr 0 msb new.mem } in
      let (t, run, out) =
        read_back_lem s (omega (arith, length-replicate {A = ℕ} (2 ^ ba_size) 0)) in
      let word =
        fetch-loaded file junk conf_addr (to_word_address g pa.a pr.ba pr.a) msb new.mem bytes
          junk_bytes room from to in
      (
        s.mem,
        configure_region-loads file junk conf_addr 0 msb new.mem (omega arith),
        t,
        run,
        out ∙ word,
      )

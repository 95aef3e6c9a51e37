-- ===== src/Benches/Sdram.antt =====
-- The tests of models/memories/tests/test_sdram.cpp. The bytes of the image and those that a freshly
-- allocated buffer holds are parameters, and so are the addresses and the values that are written:
-- the source's are the constants `simple` and `values`. A `std::map` is the list of its entries in
-- the order of their keys. Console output and the trace file are left out.
pub mod Parts
pub mod Passing
pub mod Main
pub mod Failing
pub mod Tests
use deltamodels.Base.{
  ℕ, zero, suc, ◌-◌, ◌/◌, List, [], ◌∷◌, ◌++◌, ◌==◌, u32, shl, Run, done, raised, undefined,
  Handler, error, false, Option, some, report, ◌>>=◌, none,
}
use deltamodels.Benches.{or_failure}
use deltamodels.Or1k.Text.{Text, codes, hex}
use deltamodels.Checks.{Reports, check_values_match}
use deltamodels.Sdram.{
  Geometry, Sdram, Words, Pins, init, fetch, touch, to_address, to_row_bank_column,
}
use deltamodels.Sdram.Files.{configure_region}
use deltamodels.Sdram.Controller.{Board, do_nop, write_at, read_at}
use deltamodels.Sdram.Waiting.{periods}

-- The board, the reports of the failed checks and the memories that `hexdump` has written out.
pub record Bench : Type 0 where
  pub board : Board
  pub reports : Reports
  pub dumps : List Words

abbrev pub with_mem : Words → Bench → Bench
with_mem mem s = record s { board = record s.board { sdram = record s.board.sdram { mem = mem } } }

-- An access of the board on the bench.
abbrev pub on_board : {A : Type 0} → (A → Board) → Bench → Run Board A → Run Bench (A × Bench)
on_board at s (done a) = done (a, record s { board = at a })
on_board at s (raised e b) = raised e (record s { board = b })
on_board at s undefined = undefined

-- `sc_start(n, SC_NS)`
unfoldable pub start : ℕ → Bench → Run Bench Bench
start n s = on_board (λ b. b) s (periods n s.board) >>= λ (b, t). done t

-- `sdram.mem.clear()`
abbrev pub clear : Bench → Bench
clear s = with_mem (λ a. none) s

abbrev pub dump : Bench → Bench
dump s = record s { dumps = s.dumps ++ (s.board.sdram.mem ∷ []) }

module _ (a_size ba_size : ℕ) where
  -- `mock.do_nop()` and five periods.
  unfoldable pub settle : Bench → Run Bench Bench
  settle s = start 5 (record s { board = do_nop a_size ba_size s.board })

  unfoldable pub write : ℕ → ℕ → Bench → Run Bench Bench
  write addr val s =
      on_board (λ b. b) s (write_at a_size ba_size addr val s.board) >>= λ (b, t). done t

  unfoldable pub read : ℕ → Bench → Run Bench (ℕ × Bench)
  read addr s =
      on_board (λ (v, b). b) s (read_at a_size ba_size addr s.board) >>= λ ((v, b), t). done (v, t)

module _ (throws : Handler) where
  -- `checkValuesMatch<uint32_t>`
  unfoldable pub check : ℕ → ℕ → Text → Bench → Run Bench Bench
  check val1 val2 msg s = elim (check_values_match (◌==◌) hex throws val1 val2 msg s.reports) [
    | done r ↦ done (record s { reports = r })
    | raised e r ↦ raised e (record s { reports = r })
    | undefined ↦ undefined
  ]

  -- The check of `sdram.mem[word]`, which creates a missing entry.
  unfoldable pub check_mem : ℕ → ℕ → Text → Bench → Run Bench Bench
  check_mem word val msg s =
      check (fetch word s.board.sdram.mem) val msg (with_mem (touch word s.board.sdram.mem) s)

  -- A buffer that cannot be allocated is an exception of the C++ library.
  abbrev pub configured : Option Words → Bench → Run Bench Words
  configured (some mem) s = done mem
  configured none s = raised (record { severity = error; msg_type = "std::bad_array_new_length" }) s

  unfoldable pub test_allocation : List ℕ → (ℕ → ℕ) → Bench → Run Bench Bench
  test_allocation file junk s = do
    mem ← configured (configure_region file junk 0x400000 0 false s.board.sdram.mem) s
    t ← check_mem (0x400000 / 4) 0x1e (codes "check_init") (with_mem mem s)
    u ← check_mem (0x400004 / 4) 0x6d616300 (codes "check_init_2nd_loc") t
    done (clear u)

  -- The rounds of `test_addressing` from round `i` on.
  unfoldable pub addressing : ℕ → ℕ → Bench → Run Bench Bench
  addressing zero i s = done s
  addressing (suc n) i s =
      let address = u32 (shl 0xfff0 i) in
      let (row, bank, col) = to_row_bank_column s.board.sdram.geometry address in
      check (to_address s.board.sdram.geometry row bank col) address (codes "check_address") s
      >>= addressing n (suc i)

  unfoldable pub test_addressing : Bench → Run Bench Bench
  test_addressing s = addressing 6 0 s

  module _ (a_size ba_size : ℕ) where
    unfoldable pub test_simple_sequence : ℕ × ℕ → Bench → Run Bench Bench
    test_simple_sequence (addr, val) s = do
      s1 ← settle a_size ba_size s
      s2 ← write a_size ba_size addr val s1
      s3 ← start 5 s2
      (value, s4) ← read a_size ba_size addr s3
      s5 ← check_mem (addr / 4) val (codes "check_write") (dump s4)
      s6 ← check value val (codes "check_read") s5
      done (clear s6)

    -- The write phase over these entries.
    unfoldable pub write_phase : List (ℕ × ℕ) → Bench → Run Bench Bench
    write_phase [] s = done s
    write_phase ((addr, val) ∷ rest) s = do
      s1 ← settle a_size ba_size s
      s2 ← write a_size ba_size addr val s1
      s3 ← check_mem (addr / 4) val (codes "check_write") s2
      write_phase rest s3

    -- The inner loop: the entry is written again, and each of the others read.
    unfoldable pub reads_after : ℕ × ℕ → List (ℕ × ℕ) → Bench → Run Bench Bench
    reads_after w [] s = done s
    reads_after (waddr, wval) ((raddr, rval) ∷ rest) s = do
      s1 ← settle a_size ba_size s
      s2 ← write a_size ba_size waddr wval s1
      s3 ← start 5 s2
      (value, s4) ← read a_size ba_size raddr s3
      s5 ← check_mem (waddr / 4) wval (codes "check_write") s4
      s6 ← check value rval (codes "check_read") s5
      reads_after (waddr, wval) rest s6

    -- The outer loop.
    unfoldable pub interleaved : List (ℕ × ℕ) → List (ℕ × ℕ) → Bench → Run Bench Bench
    interleaved [] all s = done s
    interleaved (w ∷ ws) all s = reads_after w all s >>= interleaved ws all

    unfoldable pub test_interleaved_sequence : List (ℕ × ℕ) → Bench → Run Bench Bench
    test_interleaved_sequence values s = do
      t ← write_phase values s
      u ← interleaved values values t
      done (clear u)

    -- The `try` block.
    unfoldable pub tests : List ℕ → (ℕ → ℕ) → ℕ × ℕ → List (ℕ × ℕ) → Bench → Run Bench Bench
    tests file junk simple values s = do
      s1 ← test_allocation file junk s
      s2 ← test_addressing s1
      s3 ← test_simple_sequence simple s2
      test_interleaved_sequence values s3

  -- `sc_main`: the `try` block on a new chip, and its `catch`.
  unfoldable pub sc_main : Pins → List ℕ → (ℕ → ℕ) → ℕ × ℕ → List (ℕ × ℕ) → Run Bench Bench
  sc_main pins file junk simple values =
      let geometry : Geometry = record { row_bits = 12; bank_bits = 2; col_bits = 8 } in
      let s : Bench = record {
        board = record { pins = pins; sdram = init 2 geometry 0x40000000 };
        reports = [];
        dumps = [];
      } in
      or_failure throws (tests 12 2 file junk simple values (dump s))

abbrev pub simple : ℕ × ℕ
simple = (0x300, 0xbabecafe)

abbrev pub values : List (ℕ × ℕ)
values =
    (0x10, 0xfefefefe) ∷ (0x1000, 0xbabecafe) ∷ (0x3000, 0xfafafafa) ∷ (0x10000, 0xbabababa) ∷ []

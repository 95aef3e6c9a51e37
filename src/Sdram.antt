-- ===== src/Sdram.antt =====
-- models/memories/sdram/generic_sdram.hpp: the command decoder and the commands of
-- `GENERIC_SDRAM`. The row registers are a list of ROW_SIZE words, the pending reads a list with the
-- back of the vector first, the memory a map from word addresses, the log its lines in order, without
-- the time stamps.
pub mod Address
pub mod Commands
pub mod Masks
pub mod Sequences
pub mod Backdoor
pub mod Backdoors
pub mod History
pub mod Replay
pub mod Controller
pub mod Periods
pub mod Array
pub mod Waiting
pub mod Accesses
pub mod Runs
pub mod Steps
pub mod Files
pub mod Dumps
pub mod Images
pub mod FileRead
pub mod ImageTests
pub mod BoardTests
pub mod Tests
use deltamodels.Base.{
  ℕ, zero, suc, ◌+◌, ◌-◌, ◌*◌, ◌^◌, Bool, true, false, ◌&&◌, Option, none, some, List, [], ◌∷◌,
  ◌++◌, map, ◌==◌, if◌then◌else◌, bit_and, bit_or, shl, shr, ones, u32, sub32, set, get_elem?,
  replicate, get_bit, Run, done, undefined, ◌>>=◌,
}

-- `SDRAM_GEOM`
pub record Geometry : Type 0 where
  pub row_bits : ℕ
  pub bank_bits : ℕ
  pub col_bits : ℕ

abbrev pub Words : Type 0
Words = ℕ → Option ℕ

-- What a command hands to `SDRAM_logger`: its name, and the address and the value where it has them.
pub data Line : Type 0 where
  read_returned : ℕ → Line
  row_activated row_precharged rows_precharged refreshed mode_loaded : Line
  read_requested word_written backdoor_copied : ℕ → ℕ → Line
  backdoor_cleared : ℕ → Line

pub record Sdram : Type 0 where
  pub mem : Words
  pub read_buf : List ℕ
  pub bank_addr : ℕ
  pub col_addr : ℕ
  pub row_addr : List ℕ
  pub dq_out : ℕ
  pub geometry : Geometry
  pub offset : ℕ
  pub log : List Line

-- The constructor, for `ba_size` bank address pins.
pub init : ℕ → Geometry → ℕ → Sdram
init ba_size geometry offset = record {
  mem = λ a. none;
  read_buf = [];
  bank_addr = 0;
  col_addr = 0;
  row_addr = replicate (2 ^ ba_size) 0;
  dq_out = 0;
  geometry = geometry;
  offset = offset;
  log = [];
}

-- The input pins as a process reads them; the one-bit pins are 0 or 1.
pub record Pins : Type 0 where
  pub ck : ℕ
  pub cke : ℕ
  pub cs_n : ℕ
  pub ras_n : ℕ
  pub cas_n : ℕ
  pub we_n : ℕ
  pub a : ℕ
  pub ba : ℕ
  pub dq : ℕ
  pub dm : ℕ

pub to_word_address : Geometry → ℕ → ℕ → ℕ → ℕ
to_word_address g row bank col =
    u32 (shl row (g.bank_bits + g.col_bits) + shl bank g.col_bits + col)

pub to_address : Geometry → ℕ → ℕ → ℕ → ℕ
unfolding to_word_address
to_address g row bank col = u32 (shl (to_word_address g row bank col) 2)

pub to_row_bank_column : Geometry → ℕ → ℕ × ℕ × ℕ
to_row_bank_column g addr =
    let w = shr addr 2 in
    (
      bit_and (shr w (g.bank_bits + g.col_bits)) (ones g.row_bits),
      bit_and (shr w g.col_bits) (ones g.bank_bits),
      bit_and w (ones g.col_bits),
    )

-- `mem[address]` as an rvalue: a missing entry is created with 0.
pub fetch : ℕ → Words → ℕ
fetch address mem = elim (mem address) [ some v ↦ v | none ↦ 0 ]

abbrev pub store : ℕ → ℕ → Words → Words
store address v mem a = if a == address then some v else mem a

pub touch : ℕ → Words → Words
unfolding fetch
touch address mem = store address (fetch address mem) mem

pub to_wishbone : ℕ → ℕ → ℕ
to_wishbone offset addr = u32 (shl addr 2 + offset)

-- One more line at the end of the log.
abbrev pub info : Line → Sdram → Sdram
info l s = record s { log = s.log ++ (l ∷ []) }

-- `CMD_T`
pub data Cmd : Type 0 where
  nop_0 nop_1 activate read write precharge precharge_all refresh load_mem_reg : Cmd

-- The `switch` on the enumerators' values: `none` where no case matches.
cmd_of : ℕ → Option Cmd
cmd_of agg =
    if agg == 0x10
    then some nop_0
    else if agg == 0x0e
    then some nop_1
    else if agg == 0x06
    then some activate
    else if agg == 0x0a
    then some read
    else if agg == 0x08
    then some write
    else if agg == 0x04
    then some precharge
    else if agg == 0x05
    then some precharge_all
    else if agg == 0x02
    then some refresh
    else if agg == 0x00
    then some load_mem_reg
    else none

-- The round of the WRITE loop for byte `i`.
abbrev mask_round : ℕ → ℕ → ℕ → ℕ
mask_round byte_disable i mask =
    if bit_and (shl byte_disable i) 1 == 0 then mask else mask + shl 0xff (i * 8)

pub write_mask : ℕ → ℕ
write_mask dm = mask_round dm 3 (mask_round dm 2 (mask_round dm 1 (mask_round dm 0 0)))

pub masked : ℕ → ℕ → ℕ → ℕ
masked value prev mask = bit_or (bit_and value (2 ^ 32 - 1 - mask)) (bit_and prev mask)

-- The two NOPs: the newest pending read goes out.
pub pop_read : List ℕ → Sdram → Sdram
pop_read [] s = s
pop_read (v ∷ rest) s = info (read_returned v) (record s { dq_out = v; read_buf = rest })

-- `row_addr[bank_addr] = row`, and the command's line.
set_row : ℕ → ℕ → Line → Sdram → Run Sdram Sdram
set_row bank row l s = elim (get_elem? s.row_addr bank) [
  | some _ ↦ done (info l (record s { bank_addr = bank; row_addr = set s.row_addr bank row }))
  | none ↦ undefined
]

-- The bank and column of READ and WRITE, and `update_address()` after them.
select : ℕ → ℕ → Sdram → Run Sdram (ℕ × Sdram)
unfolding to_word_address
select bank col s = elim (get_elem? s.row_addr bank) [
  | some row ↦
      done (to_word_address s.geometry row bank col, record s { bank_addr = bank; col_addr = col })
  | none ↦ undefined
]

read_word : ℕ → Sdram → Sdram
unfolding fetch touch to_wishbone
read_word address s =
    info (read_requested (to_wishbone s.offset address) (fetch address (touch address s.mem)))
      (record s { read_buf = fetch address s.mem ∷ s.read_buf; mem = touch address s.mem })

write_word : ℕ → ℕ → ℕ → Sdram → Sdram
unfolding fetch write_mask masked to_wishbone
write_word address value dm s =
    let word = masked value (fetch address s.mem) (write_mask dm) in
    let mem' = store address word s.mem in
    info (word_written (to_wishbone s.offset address) (fetch address mem'))
      (record s { mem = mem' })

pub handle_cmd : Cmd → Pins → Sdram → Run Sdram Sdram
unfolding pop_read set_row select read_word write_word
handle_cmd nop_0 p s = done (pop_read s.read_buf s)
handle_cmd nop_1 p s = done (pop_read s.read_buf s)
handle_cmd activate p s = set_row p.ba p.a row_activated s
handle_cmd read p s = do (address, s') ← select p.ba p.a s; done (read_word address s')
handle_cmd write p s = do (address, s') ← select p.ba p.a s; done (write_word address p.dq p.dm s')
handle_cmd precharge p s = set_row p.ba 0 row_precharged s
handle_cmd precharge_all p s =
    done (info rows_precharged (record s { row_addr = map (λ _. 0) s.row_addr }))
handle_cmd refresh p s = done (info refreshed s)
handle_cmd load_mem_reg p s = done (info mode_loaded s)

-- `agg`, a byte made of the control pins and address bit 10.
aggregate : Pins → ℕ
aggregate p =
    if p.cs_n == 1
    then 0x10
    else shl p.ras_n 3 + shl p.cas_n 2 + shl p.we_n 1 + (if get_bit p.a 10 then 1 else 0)

dispatch : Option Cmd → Pins → Sdram → Run Sdram Sdram
unfolding handle_cmd
dispatch none p s = done s
dispatch (some c) p s = handle_cmd c p s

-- The process at a change of `ck` or `cke`.
pub sdram_handler : Pins → Sdram → Run Sdram Sdram
unfolding aggregate cmd_of dispatch
sdram_handler p s = if bit_and p.ck p.cke == 1 then dispatch (cmd_of (aggregate p)) p s else done s

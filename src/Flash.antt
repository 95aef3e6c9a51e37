-- ===== src/Flash.antt =====
-- models/memories/flash/N25QX.hpp: `N25QX<4>`. The bytes of the file that `configure_region` reads are
-- a parameter. The memory is a map from half-byte addresses, the log its rows in order, without the
-- time stamps.
pub mod Cycles
pub mod Load
pub mod Widths
pub mod Read
pub mod FileRead
pub mod Tests
use deltamodels.Base.{
  ℕ, ◌+◌, ◌*◌, ◌/◌, ◌%◌, ◌^◌, Bool, true, false, Option, none, some, List, [], ◌∷◌, ◌++◌, ltb, leb,
  ◌==◌, if◌then◌else◌, bit_and, bit_or, shl, shr, u32,
}

-- `PHASE_T`
pub data Phase : Type 0 where
  idle_phase cmd_phase quad_read_addr_phase quad_read_dummy_phase quad_read_resp_phase : Phase

abbrev pub Nibbles : Type 0
Nibbles = ℕ → Option ℕ

-- What a falling edge hands to `N25QX_logger`.
pub record Row : Type 0 where
  pub address : ℕ
  pub idx : ℕ
  pub word : ℕ

pub record Flash : Type 0 where
  pub phase : Phase
  pub cmd : ℕ
  pub cnt : ℕ
  pub addr : ℕ
  pub conf_memory : Nibbles
  pub dummy_cycles : ℕ
  pub idx : ℕ
  pub word : ℕ
  pub dq_out : ℕ
  pub log : List Row

-- The constructor. Three fields have no initial value: what they hold is given.
pub init : ℕ → ℕ → ℕ → ℕ → Flash
init dummy_cycles cmd cnt addr = record {
  phase = idle_phase;
  cmd = cmd;
  cnt = cnt;
  addr = addr;
  conf_memory = λ a. none;
  dummy_cycles = dummy_cycles;
  idx = 0;
  word = 0;
  dq_out = 0;
  log = [];
}

-- The input pins at a change of the clock.
pub record Pins : Type 0 where
  pub cs_n : ℕ
  pub dq : ℕ

-- `conf_memory[idx]` as an rvalue: a missing entry is created with 0.
pub fetch : ℕ → Nibbles → ℕ
fetch a mem = elim (mem a) [ some v ↦ v | none ↦ 0 ]

abbrev pub store : ℕ → ℕ → Nibbles → Nibbles
store a v mem b = if b == a then some v else mem b

pub touch : ℕ → Nibbles → Nibbles
unfolding fetch
touch a mem = store a (fetch a mem) mem

-- The cases of the `switch` at a rising edge.
idle_edge : Pins → Flash → Flash
idle_edge p f =
    if p.cs_n == 0 then record f { cnt = 1; phase = cmd_phase; cmd = bit_and p.dq 1 } else f

cmd_edge : Pins → Flash → Flash
cmd_edge p f0 =
    let f = record f0 { cnt = u32 (f0.cnt + 1) } in
    if ltb f0.cnt 8
    then record f { cmd = bit_or (bit_and p.dq 1) (shl f.cmd 1) % 2 ^ 8 }
    else if f.cmd == 0xeb
    then record f { phase = quad_read_addr_phase; cnt = 1; addr = p.dq }
    else f

addr_edge : Pins → Flash → Flash
addr_edge p f =
    if ltb f.cnt 6
    then record f { cnt = u32 (f.cnt + 1); addr = bit_or (u32 (shl f.addr 4)) p.dq }
    else record f { cnt = 2; dq_out = 0; phase = quad_read_dummy_phase }

dummy_edge : Flash → Flash
dummy_edge f0 =
    let f = record f0 { dq_out = 0; cnt = u32 (f0.cnt + 1) } in
    if leb f.dummy_cycles f.cnt
    then record f { phase = quad_read_resp_phase; cnt = 0; idx = 0; word = 0 }
    else f

resp_edge : Pins → Flash → Flash
unfolding fetch touch
resp_edge p f =
    let idx = u32 (f.addr * 2 + f.cnt) in
    let word = fetch idx f.conf_memory in
    if p.cs_n == 0
    then record f {
      idx = idx;
      word = word;
      conf_memory = touch idx f.conf_memory;
      cnt = u32 (f.cnt + 1);
      dq_out = word % 2 ^ 4;
    }
    else record f { phase = idle_phase }

rising : Phase → Pins → Flash → Flash
unfolding idle_edge cmd_edge addr_edge dummy_edge resp_edge
rising idle_phase p f = idle_edge p f
rising cmd_phase p f = cmd_edge p f
rising quad_read_addr_phase p f = addr_edge p f
rising quad_read_dummy_phase p f = dummy_edge f
rising quad_read_resp_phase p f = resp_edge p f

abbrev pub row_of : Flash → Row
row_of f = record { address = u32 (f.addr + f.cnt / 2); idx = f.idx; word = f.word }

-- In the response phase a falling edge logs a row and drives the same word again.
falling : Phase → Flash → Flash
falling quad_read_resp_phase f = record f {
  dq_out = f.word % 2 ^ 4;
  log = f.log ++ (row_of f ∷ []);
}
falling _ f = f

-- The process at a change of `clk` to the given level.
pub flash_handler : Bool → Pins → Flash → Flash
unfolding rising falling
flash_handler clk p f = if clk then rising f.phase p f else falling f.phase f

-- The loop over the file's bytes: the high half of each goes to the lower address.
pub store_bytes : List ℕ → ℕ → Nibbles → Nibbles
store_bytes [] address mem = mem
store_bytes (b ∷ bs) address mem =
    store_bytes bs (u32 (address + 2))
      (store (u32 (address + 1)) (bit_and b 0xf) (store address (bit_and (shr b 4) 0xf) mem))

pub configure_region : List ℕ → ℕ → Flash → Flash
unfolding store_bytes
configure_region bytes conf_addr f = record f {
  conf_memory = store_bytes bytes (u32 (shl conf_addr 1)) f.conf_memory;
}

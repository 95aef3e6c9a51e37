-- ===== src/Bridge.antt =====
-- tlms/tlm_adapters/tlm2wishbone.hpp: `TLM2WB<32>`, blocking transport calls onto wishbone cycles.
-- The callback and the clocked process share the fields below. The callback waits on `ack_event`:
-- `waiting` holds its local `_state` while it does. One call is in progress at a time.
pub mod Beats
pub mod Edges
pub mod Lanes
pub mod Tests
use deltamodels.Base.{
  ℕ, ◌+◌, ◌^◌, Bool, true, false, Option, none, some, leb, ◌==◌, if◌then◌else◌, u32, u64, sub32,
  shr, get_byte, put_byte, put_bit, Run, done, Handler, error, warning, report, ◌>>=◌, ◌>>◌,
}
use deltamodels.Tlm.{Bytes, Payload, Command}

pub data WbState : Type 0 where
  idle executing_write executing_read waiting_for_ack : WbState

pub record Bridge : Type 0 where
  pub state : WbState
  pub adr : ℕ
  pub ptr : ℕ
  pub len : ℕ
  pub byt : Option ℕ
  pub wid : ℕ
  pub wnr : Bool
  pub bv_data : ℕ
  pub bv_byteen : ℕ
  pub timeout : ℕ
  pub elapsed : ℕ
  pub waiting : Option WbState
  pub adr_o : ℕ
  pub dat_o : ℕ
  pub we_o : Bool
  pub sel_o : ℕ
  pub stb_o : Bool
  pub cyc_o : Bool

-- The bridge with the initiator's bytes; `notified` says that `ack_event` fired at this edge.
pub record Side : Type 0 where
  pub bridge : Bridge
  pub host : Bytes
  pub notified : Bool

set_timeout : ℕ → Bridge → Bridge
set_timeout n b = record b { timeout = n }

-- The loop of EXECUTING_WRITE over the data: lane `i` gets byte `3 - i`.
pub pack_data : Bytes → ℕ → ℕ → ℕ
pack_data host p w =
    put_byte (put_byte (put_byte (put_byte w 0 (host (p + 3))) 1 (host (p + 2))) 2 (host (p + 1))) 3
      (host p)

unfoldable pub enabled : Bytes → Option ℕ → ℕ → Bool
enabled host none k = true
enabled host (some p) k = host (p + k) == 0xff

-- The same loop over the byte enables.
pub pack_enables : Bytes → Option ℕ → ℕ → ℕ
unfolding enabled
pack_enables host byt s =
    put_bit
      (put_bit (put_bit (put_bit s 0 (enabled host byt 3)) 1 (enabled host byt 2)) 2
        (enabled host byt 1))
      3 (enabled host byt 0)

-- The loop that stores a word read from the bus: lane `i` goes to byte `3 - i`.
pub unpack_data : Bytes → ℕ → ℕ → Bytes
unpack_data host p w j =
    if j == p
    then get_byte w 3
    else if j == p + 1
    then get_byte w 2
    else if j == p + 2
    then get_byte w 1
    else if j == p + 3
    then get_byte w 0
    else host j

unfoldable pub drive_write : Side → Side
unfolding pack_data pack_enables
drive_write s =
    let b = s.bridge in
    let word = pack_data s.host b.ptr b.bv_data in
    let enables = pack_enables s.host b.byt b.bv_byteen in
    record s {
      bridge = record b {
        stb_o = true;
        cyc_o = true;
        we_o = true;
        adr_o = u32 b.adr;
        bv_data = word;
        bv_byteen = enables;
        dat_o = word;
        wnr = true;
        sel_o = enables;
        state = waiting_for_ack;
        elapsed = 0;
      };
    }

unfoldable pub drive_read : Side → Side
drive_read s =
    let b = s.bridge in
    record s {
      bridge = record b {
        stb_o = true;
        cyc_o = true;
        we_o = false;
        adr_o = u32 b.adr;
        sel_o = 0;
        wnr = false;
        state = waiting_for_ack;
        elapsed = 0;
      };
    }

-- The acknowledged end of a cycle: `dat` is the word on `dat_i`.
unfoldable pub acknowledge : ℕ → Side → Side
unfolding unpack_data
acknowledge dat s =
    let b = s.bridge in
    record {
      bridge = record b {
        stb_o = false;
        cyc_o = false;
        we_o = false;
        sel_o = 0;
        bv_data = if b.wnr then b.bv_data else dat;
        state = idle;
      };
      host = if b.wnr then s.host else unpack_data s.host b.ptr dat;
      notified = true;
    }

count_elapsed : Handler → Side → Run Side Side
count_elapsed throws s0 =
    let s = record s0 { bridge = record s0.bridge { elapsed = u32 (s0.bridge.elapsed + 1) } } in
    if leb s.bridge.timeout s.bridge.elapsed
    then (report throws error "TLM2WB" s >>= λ _. done s)
    else done s

handle : WbState → Handler → Bool → ℕ → Side → Run Side Side
unfolding drive_write drive_read acknowledge count_elapsed
handle idle throws ack dat s = done s
handle executing_write throws ack dat s = done (drive_write s)
handle executing_read throws ack dat s = done (drive_read s)
handle waiting_for_ack throws ack dat s =
    count_elapsed throws (if ack then acknowledge dat s else s)

-- The process at a rising edge, with `ack_i` and `dat_i` as they stand.
pub wishbone_handler : Handler → Bool → ℕ → Bridge → Bytes → Run Side Side
unfolding handle
wishbone_handler throws ack dat b host =
    handle b.state throws ack dat (record { bridge = b; host = host; notified = false })

direction : Command → WbState
direction Command.write = executing_write
direction _ = executing_read

check_command : Handler → Command → Bridge → Run Bridge (Unit {0})
check_command throws Command.ignore b = report throws error "TLM-2" b
check_command throws _ b = done tt

-- `b_transport` up to its first wait.
pub begin_transport : Handler → Payload → Bridge → Run Bridge Bridge
unfolding direction check_command
begin_transport throws p b0 = do
  check_command throws p.command b0
  let b = record b0 {
    state = direction p.command;
    adr = shr p.address 2;
    ptr = p.data_ptr;
    len = p.data_length;
    byt = p.byte_enable_ptr;
    wid = p.streaming_width;
    waiting = some (direction p.command);
  }
  if b.wid == 0
      then (report throws warning "TLM_WB2TLM" b >>= λ _. done (record b { wid = b.len }))
      else done b

advance : ℕ → Option ℕ → Option ℕ
advance n none = none
advance n (some p) = some (p + n)

-- One round of `b_transport`'s loop after `ack_event`: leave with TLM_OK_RESPONSE (`waiting` is
-- `none` again), or start the next beat.
pub resume : WbState → Bridge → Bridge
unfolding advance
resume local_state b0 =
    let b = record b0 { wid = sub32 b0.wid b0.len } in
    if b.wid == 0 then record b { waiting = none } else record b {
      state = local_state;
      adr = u64 (b.adr + b.len);
      ptr = b.ptr + b.len;
      byt = advance b.len b.byt;
    }

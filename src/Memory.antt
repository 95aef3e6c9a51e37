-- ===== src/Memory.antt =====
-- tlms/commons/memory.h: the target `Memory<SIZE>`. Its `int mem[SIZE]` is seen as 4 * SIZE bytes;
-- a copy that leaves the array is undefined. Operation counters do not wrap.
pub mod Access
pub mod Tests
use deltamodels.Base.{
  ℕ, ◌+◌, ◌-◌, ◌*◌, ◌/◌, ◌%◌, ◌^◌, Bool, true, ◌||◌, none, some, leb, ltb, if◌then◌else◌, sub64,
  u64, u32, Run, done, in_bounds, ◌>>=◌, ◌>>◌,
}
use deltamodels.Tlm.{
  Bytes, Call, Payload, Command, Response, Transport, memcpy, respond, address_error,
  byte_enable_error, burst_error,
}

pub record Memory : Type 0 where
  pub size : ℕ
  pub mem : Bytes
  pub rd_ops : ℕ
  pub wr_ops : ℕ

abbrev pub latency : ℕ
latency = 10

-- The two `memcpy` calls of `len` bytes at byte `4 * adr`; other commands copy nothing.
read_words : ℕ → ℕ → Memory × Call → Run (Memory × Call) (Memory × Call)
read_words adr len (m, c) = do
  in_bounds (leb (4 * adr + len) (4 * m.size))
  done (m, record c { host = memcpy c.host c.trans.data_ptr m.mem (4 * adr) len })

write_words : ℕ → ℕ → Memory × Call → Run (Memory × Call) (Memory × Call)
write_words adr len (m, c) = do
  in_bounds (leb (4 * adr + len) (4 * m.size))
  done (record m { mem = memcpy m.mem (4 * adr) c.host c.trans.data_ptr len }, c)

count_read : Memory × Call → Run (Memory × Call) (Memory × Call)
count_read (m, c) = done (record m { rd_ops = m.rd_ops + 1 }, c)

count_write : Memory × Call → Run (Memory × Call) (Memory × Call)
count_write (m, c) = done (record m { wr_ops = m.wr_ops + 1 }, c)

access : Command → ℕ → ℕ → Memory × Call → Run (Memory × Call) (Memory × Call)
unfolding read_words write_words count_read count_write
access Command.read adr len s = read_words adr len s >>= count_read
access Command.write adr len s = write_words adr len s >>= count_write
access Command.ignore adr len s = done s

-- The end of `b_transport`: latency, DMI hint, response.
complete : Memory × Call → Run (Memory × Call) (Memory × Call)
complete (m, c) = done (
  m,
  record c {
    trans = record c.trans { dmi_allowed = true; response = Response.ok };
    delay = c.delay + latency;
  },
)

pub b_transport : Transport Memory
unfolding access complete
b_transport (m, c) =
    let adr = c.trans.address / 4 in
    let len = c.trans.data_length in
    let run = access c.trans.command adr len (m, c) >>= complete in
    if ltb m.size adr then done (m, respond address_error c) else elim c.trans.byte_enable_ptr [
      | some _ ↦ done (m, respond byte_enable_error c)
      | none ↦
          if ltb 4 len || ltb c.trans.streaming_width len
          then done (m, respond burst_error c)
          else run
    ]

-- The fields of `tlm_dmi` that `get_direct_mem_ptr` sets; the pointer is the array itself.
pub record Dmi : Type 0 where
  pub allows_read_write : Bool
  pub start_address : ℕ
  pub end_address : ℕ
  pub read_latency : ℕ
  pub write_latency : ℕ

pub get_direct_mem_ptr : Memory → Bool × Dmi
get_direct_mem_ptr m = (
  true,
  record {
    allows_read_write = true;
    start_address = 0;
    end_address = (m.size * 4 + 2 ^ 32 - 1) % 2 ^ 32;
    read_latency = latency;
    write_latency = latency;
  },
)

-- `num_bytes` of `transport_dbg`, in 64-bit arithmetic, cut to 32 bits.
pub dbg_bytes : ℕ → ℕ → ℕ → ℕ
dbg_bytes size adr len =
    let room = u64 (sub64 size adr * 4) in u32 (if ltb len room then len else room)

dbg_access : Command → ℕ → ℕ → Memory × Call → Run (Memory × Call) (Memory × Call)
unfolding read_words write_words
dbg_access Command.read adr n s = read_words adr n s
dbg_access Command.write adr n s = write_words adr n s
dbg_access Command.ignore adr n s = done s

-- The bytes copied, and the state after it.
pub transport_dbg : Memory × Call → Run (Memory × Call) (ℕ × Memory × Call)
unfolding dbg_access
transport_dbg (m, c) = do
  let adr = c.trans.address / 4
  let n = dbg_bytes m.size adr c.trans.data_length
  (m', c') ← dbg_access c.trans.command adr n (m, c)
  done (n, m', c')

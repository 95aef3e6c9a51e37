-- ===== src/Memory/Access.antt =====
-- What a transport call to `Memory` promises: tlms/commons/memory.h.
use deltamodels.Base.{
  ℕ, min, ◌+◌, ◌-◌, ◌*◌, ◌/◌, ◌^◌, ◌≤◌, ◌<◌, ◌≡◌, ◌≢◌, ◌⊎◌, refl, true, none, some, arith, ltb,
  if◌then◌else◌, done, undefined,
}
use deltamodels.Tlm.{
  Call, Payload, Command, Response, memcpy, respond, address_error, byte_enable_error, burst_error,
}
use deltamodels.Memory.{Memory, latency, b_transport, transport_dbg, dbg_bytes}

-- A call that the block carries out: a word below SIZE, no byte enables, at most one word long and
-- no streaming shorter than the data.
pub record IsServed (size : ℕ) (p : Payload) : Type 0 where
  pub in_range : p.address / 4 < size
  pub all_bytes : p.byte_enable_ptr ≡ none
  pub one_word : p.data_length ≤ 4
  pub no_stream : p.data_length ≤ p.streaming_width

-- The payload of a call that succeeded.
abbrev pub completed : Payload → Payload
completed p = record p { dmi_allowed = true; response = Response.ok }

pub served_read :
    (m : Memory) (c : Call)
    → IsServed m.size c.trans
    → c.trans.command ≡ Command.read
    → b_transport (m, c)
      ≡ done (
        record m { rd_ops = m.rd_ops + 1 },
        record {
          host =
              memcpy c.host c.trans.data_ptr m.mem (4 * (c.trans.address / 4)) c.trans.data_length;
          trans = completed c.trans;
          delay = c.delay + latency;
        },
      )
unfolding b_transport
served_read m c v e = ground arith

pub served_write :
    (m : Memory) (c : Call)
    → IsServed m.size c.trans
    → c.trans.command ≡ Command.write
    → b_transport (m, c)
      ≡ done (
        record m {
          mem =
              memcpy m.mem (4 * (c.trans.address / 4)) c.host c.trans.data_ptr c.trans.data_length;
          wr_ops = m.wr_ops + 1;
        },
        record c { trans = completed c.trans; delay = c.delay + latency },
      )
unfolding b_transport
served_write m c v e = ground arith

-- After a served write, a served read of the same word and length succeeds, and what it does to
-- the reader's memory is one copy from the writer's buffer to the reader's.
pub b_transport_roundtrip :
    (m m' : Memory) (w w' r : Call) (j : ℕ)
    → IsServed m.size w.trans
    → w.trans.command ≡ Command.write
    → b_transport (m, w) ≡ done (m', w')
    → IsServed m.size r.trans
    → r.trans.command ≡ Command.read
    → r.trans.address / 4 ≡ w.trans.address / 4
    → r.trans.data_length ≡ w.trans.data_length
    → (out : Memory × Call) × (b_transport (m', r) ≡ done out)
      × (out.1.trans.response ≡ Response.ok)
      × (out.1.host j
          ≡ memcpy r.host r.trans.data_ptr w.host w.trans.data_ptr w.trans.data_length j)
b_transport_roundtrip m m' w w' r j v e ret v' e' word len = (
  (
    record m' { rd_ops = m'.rd_ops + 1 },
    record {
      host = memcpy r.host r.trans.data_ptr m'.mem (4 * (r.trans.address / 4)) r.trans.data_length;
      trans = completed r.trans;
      delay = r.delay + latency;
    },
  ),
  ground (arith, served_write m w v e, served_read m' r),
  refl,
  ground (arith, served_write m w v e),
)

abbrev rejection : ℕ → Payload → Response
rejection size p =
    if ltb size (p.address / 4)
    then address_error
    else elim p.byte_enable_ptr [ some _ ↦ byte_enable_error | none ↦ burst_error ]

-- A call that names a word past SIZE, or has byte enables, or is longer than a word or than its
-- streaming width, changes nothing but the response, and the response is an error.
pub b_transport_rejects :
    (m : Memory) (c : Call)
    → (m.size < c.trans.address / 4)
      ⊎ (c.trans.byte_enable_ptr ≢ none)
      ⊎ (4 < c.trans.data_length)
      ⊎ (c.trans.streaming_width < c.trans.data_length)
    → (r : Response) × (b_transport (m, c) ≡ done (m, respond r c)) × (r ≢ Response.ok)
unfolding b_transport
b_transport_rejects m c h = (rejection m.size c.trans, ground arith, ground arith)

-- The word just past the array passes the address check: a read or a write there of one to four
-- bytes, without byte enables and within its streaming width, leaves the array.
pub b_transport_past_end :
    (m : Memory) (c : Call)
    → c.trans.address / 4 ≡ m.size
    → c.trans.byte_enable_ptr ≡ none
    → c.trans.command ≢ Command.ignore
    → 0 < c.trans.data_length
    → c.trans.data_length ≤ 4
    → c.trans.data_length ≤ c.trans.streaming_width
    → b_transport (m, c) ≡ undefined
unfolding b_transport
b_transport_past_end m c e byt cmd pos short wide = ground arith

dbg_bytes_inside :
    (size adr len : ℕ)
    → size < 2 ^ 30
    → len < 2 ^ 32
    → adr < size
    → dbg_bytes size adr len ≡ min len (4 * size - 4 * adr)
unfolding dbg_bytes
dbg_bytes_inside size adr len small short inside = ground arith

dbg_bytes_outside :
    (size adr len : ℕ)
    → size < 2 ^ 30
    → adr < 2 ^ 62
    → 0 < len
    → len < 2 ^ 32
    → size < adr
    → 0 < dbg_bytes size adr len
unfolding dbg_bytes
dbg_bytes_outside size adr len small addr pos short outside = ground arith

-- A copy of `n` bytes between the array's word and the buffer, in the command's direction.
pub moved : Command → ℕ → Memory × Call → Memory × Call
moved Command.read n (m, c) =
    (m, record c { host = memcpy c.host c.trans.data_ptr m.mem (4 * (c.trans.address / 4)) n })
moved Command.write n (m, c) =
    (record m { mem = memcpy m.mem (4 * (c.trans.address / 4)) c.host c.trans.data_ptr n }, c)
moved Command.ignore n s = s

-- In an array of fewer than 2^30 words, a debug transaction of a 32-bit length on a word of the
-- array stays inside it: it copies its length, or as many bytes as the array has from that word on,
-- in the direction of its command, and returns that count.
pub transport_dbg_inside :
    (m : Memory) (c : Call)
    → m.size < 2 ^ 30
    → c.trans.data_length < 2 ^ 32
    → c.trans.address / 4 < m.size
    → let n = min c.trans.data_length (4 * m.size - 4 * (c.trans.address / 4)) in
      let after = moved c.trans.command n (m, c) in
      transport_dbg (m, c) ≡ done (n, after.0, after.1)
unfolding transport_dbg moved
transport_dbg_inside m c small len inside =
    ground
      (arith, dbg_bytes_inside m.size (c.trans.address / 4) c.trans.data_length small len inside)

-- In an array of fewer than 2^30 words, a debug read or write of at least one byte, with a 32-bit
-- length, at a 64-bit address of a word beyond the array's end copies some bytes all the same,
-- outside the array.
transport_dbg_past_end :
    (m : Memory) (c : Call)
    → m.size < 2 ^ 30
    → c.trans.address < 2 ^ 64
    → 0 < c.trans.data_length
    → c.trans.data_length < 2 ^ 32
    → m.size < c.trans.address / 4
    → c.trans.command ≢ Command.ignore
    → transport_dbg (m, c) ≡ undefined
unfolding transport_dbg
transport_dbg_past_end m c small addr pos len outside cmd = ground (
  arith,
  dbg_bytes_outside m.size (c.trans.address / 4) c.trans.data_length small (omega arith) pos len
      outside,
)

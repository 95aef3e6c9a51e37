-- ===== src/Wishbone/Calls.antt =====
-- One-beat calls on the bus: what a call stores or reads, and that the bus is free again
-- (tlms/tlm_adapters/tlm2wishbone.hpp and models/wishbone/wbram.hpp).
use deltamodels.Base.{ℕ, ◌/◌, ◌^◌, ◌≤◌, ◌<◌, ◌≡◌, none, arith, done, Handler}
use deltamodels.Tlm.{Payload, Command}
use deltamodels.WbRam.{merge, update, find_word}
use deltamodels.Bridge.{idle, executing_write, executing_read, pack_data, pack_enables, unpack_data}
use deltamodels.Bridge.Edges.{begun, begins_write, begins_read}
use deltamodels.Wishbone.{Bus, start, one_beat_call}
use deltamodels.Wishbone.Edges.{IsQuiet}
use deltamodels.Wishbone.Transfer.{write_transfer, read_transfer}

-- The call's payload asks for one beat on a word of a memory of the given size.
pub record IsBeat (size : ℕ) (c : Command) (p : Payload) : Type 0 where
  pub asks : p.command ≡ c
  pub word : p.address / 4 ≤ size
  pub positive : 0 < p.streaming_width
  pub single : p.streaming_width ≡ p.data_length

-- The bus can take a call: the last one has returned, and the bridge's process rests.
pub record IsFree (s : Bus) : Type 0 where
  pub returned : s.bridge.waiting ≡ none
  pub resting : s.bridge.state ≡ idle
  pub quiet : IsQuiet s
  pub narrow : s.ram.mem_size < 2 ^ 32
  pub patient : 2 < s.bridge.timeout

module _ (throws : Handler) (x_word : ℕ) where
  pub call_writes :
      (s : Bus) (w : Payload)
      → IsFree s
      → IsBeat s.ram.mem_size Command.write w
      → (t : Bus) × (one_beat_call throws x_word w s ≡ done t)
        × (t.bridge.waiting ≡ none)
        × IsFree t
        × (t.ram.mem_size ≡ s.ram.mem_size)
        × (t.host ≡ s.host)
        × (t.ram.memory
            ≡ update s.ram.memory (w.address / 4) (
                merge
                  (find_word throws x_word (w.address / 4) s.ram)
                  (pack_data s.host w.data_ptr s.bridge.bv_data)
                  (pack_enables s.host w.byte_enable_ptr s.bridge.bv_byteen)))
  unfolding one_beat_call
  call_writes s w free ws =
      let s' = record s { bridge = begun throws w s.bridge executing_write } in
      let (t, run, mem, host, quiet, size, patience, over, rests) =
        write_transfer throws x_word s' (ground arith) ws.single in
      (
        t,
        rw (begins_write throws w s.bridge ws.asks ws.positive, start) run,
        over,
        record {
          returned = over;
          resting = rests;
          quiet = quiet;
          narrow = rw size free.narrow;
          patient = rw patience free.patient;
        },
        size,
        host,
        mem,
      )

  pub call_reads :
      (t : Bus) (r : Payload)
      → IsFree t
      → IsBeat t.ram.mem_size Command.read r
      → (v : Bus) × (one_beat_call throws x_word r t ≡ done v)
        × (v.bridge.waiting ≡ none)
        × IsFree v
        × (v.ram.mem_size ≡ t.ram.mem_size)
        × (v.ram.memory ≡ t.ram.memory)
        × (v.host ≡ unpack_data t.host r.data_ptr (find_word throws x_word (r.address / 4) t.ram))
  unfolding one_beat_call
  call_reads t r t_free rs =
      let t' = record t { bridge = begun throws r t.bridge executing_read } in
      let (v, run, host, mem, quiet, size, patience, over, rests) =
        read_transfer throws x_word t' (ground arith) rs.single in
      (
        v,
        rw (begins_read throws r t.bridge rs.asks rs.positive, start) run,
        over,
        record {
          returned = over;
          resting = rests;
          quiet = quiet;
          narrow = rw size t_free.narrow;
          patient = rw patience t_free.patient;
        },
        size,
        mem,
        host,
      )

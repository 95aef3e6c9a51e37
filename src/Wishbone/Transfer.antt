-- ===== src/Wishbone/Transfer.antt =====
-- One beat of the bridge against the memory, from the request to its end: what is stored, what
-- reaches the caller, and that the bus is free again (tlms/tlm_adapters/tlm2wishbone.hpp and
-- models/wishbone/wbram.hpp).
use deltamodels.Base.{ℕ, ◌≡◌, refl, arith, done, Option, none, some, u32, Handler}
use deltamodels.WbRam.{merge, find_word, update}
use deltamodels.Bridge.{
  Bridge, WbState, executing_write, executing_read, idle, drive_write, drive_read, acknowledge,
  pack_data, pack_enables, unpack_data,
}
use deltamodels.Bridge.Edges.{resume-quiet}
use deltamodels.Bridge.Beats.{resume_last, resume_last-state}
use deltamodels.Wishbone.{Bus, edges, wake}
use deltamodels.Wishbone.Edges.{
  IsQuiet, IsRequested, ended, write_driven, write_served, read_driven, read_served, write_edges,
  read_edges,
}

wake-quiet :
    (o : Option WbState) (b : Bridge)
    → ((wake o b).stb_o ≡ b.stb_o) × ((wake o b).timeout ≡ b.timeout)
unfolding wake
wake-quiet none b = (refl, refl)
wake-quiet (some d) b = resume-quiet d b

wake_last :
    (o : Option WbState) (d : WbState) (b : Bridge)
    → o ≡ some d
    → b.wid ≡ b.len
    → ((wake o b).waiting ≡ none) × ((wake o b).state ≡ b.state)
unfolding wake
wake_last o d b e single = rw e (resume_last d b single, resume_last-state d b single)

module _ (throws : Handler) (x_word : ℕ) where
  -- Three edges after a write of one beat was requested it is over: the addressed word holds the
  -- merge of its old value with the caller's bytes under the byte enables, no other word and none
  -- of the caller's memory has changed, the bus is quiet, and the callback has returned.
  pub write_transfer :
      (s : Bus)
      → IsRequested executing_write s
      → s.bridge.wid ≡ s.bridge.len
      → let b = s.bridge in
        (t : Bus) × (edges throws x_word 3 s ≡ done t)
        × (t.ram.memory
            ≡ update s.ram.memory b.adr (
                merge
                  (find_word throws x_word b.adr s.ram)
                  (pack_data s.host b.ptr b.bv_data)
                  (pack_enables s.host b.byt b.bv_byteen)))
        × (t.host ≡ s.host)
        × IsQuiet t
        × (t.ram.mem_size ≡ s.ram.mem_size)
        × (t.bridge.timeout ≡ s.bridge.timeout)
        × (t.bridge.waiting ≡ none)
        × (t.bridge.state ≡ idle)
  unfolding drive_write acknowledge find_word
  write_transfer s q single =
      let t = ended (write_served throws x_word (write_driven s)) in
      let whole : u32 s.bridge.adr ≡ s.bridge.adr = omega arith in
      let calm = wake-quiet s.bridge.waiting _ in
      (
        t,
        write_edges throws x_word s q,
        rw whole,
        refl,
        record { no_strobe = calm.0; no_ack = refl; ready = refl },
        refl,
        calm.1,
        (wake_last s.bridge.waiting executing_write _ q.calls single).0,
        (wake_last s.bridge.waiting executing_write _ q.calls single).1,
      )

  -- Three edges after a read of one beat was requested it is over: the addressed word's lanes are
  -- in the caller's four bytes, the memory is unchanged, the bus is quiet, and the callback has
  -- returned.
  pub read_transfer :
      (s : Bus)
      → IsRequested executing_read s
      → s.bridge.wid ≡ s.bridge.len
      → let b = s.bridge in
        (t : Bus) × (edges throws x_word 3 s ≡ done t)
        × (t.host ≡ unpack_data s.host b.ptr (find_word throws x_word b.adr s.ram))
        × (t.ram.memory ≡ s.ram.memory)
        × IsQuiet t
        × (t.ram.mem_size ≡ s.ram.mem_size)
        × (t.bridge.timeout ≡ s.bridge.timeout)
        × (t.bridge.waiting ≡ none)
        × (t.bridge.state ≡ idle)
  unfolding drive_read acknowledge find_word
  read_transfer s q single =
      let t = ended (read_served throws x_word (read_driven s)) in
      let whole : u32 s.bridge.adr ≡ s.bridge.adr = omega arith in
      let calm = wake-quiet s.bridge.waiting _ in
      (
        t,
        read_edges throws x_word s q,
        rw whole,
        refl,
        record { no_strobe = calm.0; no_ack = refl; ready = refl },
        refl,
        calm.1,
        (wake_last s.bridge.waiting executing_read _ q.calls single).0,
        (wake_last s.bridge.waiting executing_read _ q.calls single).1,
      )

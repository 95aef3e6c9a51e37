-- ===== src/Bridge/Edges.antt =====
-- The bridge's process at one clock edge, state by state (tlms/tlm_adapters/tlm2wishbone.hpp).
use deltamodels.Base.{
  some, shr, warning, ℕ, ◌+◌, ◌^◌, ◌≤◌, ◌<◌, ◌≡◌, refl, if◌then◌else◌, Bool, true, false, arith,
  done, raised, Handler, error,
}
use deltamodels.Tlm.{Bytes, Payload, Command}
use deltamodels.Bridge.{
  Bridge, Side, idle, executing_write, executing_read, waiting_for_ack, wishbone_handler,
  drive_write, drive_read, acknowledge, resume, begin_transport, WbState,
}

module _ (throws : Handler) where
  abbrev side : Bridge → Bytes → Side
  side b host = record { bridge = b; host = host; notified = false }

  pub handler_writes :
      (ack : Bool) (dat : ℕ) (b : Bridge) (host : Bytes)
      → b.state ≡ executing_write
      → wishbone_handler throws ack dat b host ≡ done (drive_write (side b host))
  unfolding wishbone_handler
  handler_writes ack dat b host e = ground arith

  pub handler_reads :
      (ack : Bool) (dat : ℕ) (b : Bridge) (host : Bytes)
      → b.state ≡ executing_read
      → wishbone_handler throws ack dat b host ≡ done (drive_read (side b host))
  unfolding wishbone_handler
  handler_reads ack dat b host e = ground arith

  pub handler_waits :
      (dat : ℕ) (b : Bridge) (host : Bytes)
      → b.state ≡ waiting_for_ack
      → b.elapsed + 1 < b.timeout
      → b.elapsed < 2
      → wishbone_handler throws false dat b host
        ≡ done (side (record b { elapsed = b.elapsed + 1 }) host)
  unfolding wishbone_handler
  handler_waits dat b host e more small = ground arith

  pub handler_acks :
      (dat : ℕ) (b : Bridge) (host : Bytes)
      → b.state ≡ waiting_for_ack
      → b.elapsed + 1 < b.timeout
      → b.elapsed < 2
      → let s = acknowledge dat (side b host) in
        wishbone_handler throws true dat b host
        ≡ done (record s { bridge = record s.bridge { elapsed = b.elapsed + 1 } })
  unfolding wishbone_handler
  handler_acks dat b host e more small = ground arith

  -- The time-out is checked at every edge of the wait, the acknowledged one included: at the last
  -- permitted edge the error is raised, where an error report throws, and if the acknowledge came
  -- with it the strobe is released and the state is idle all the same.
  pub handler_times_out :
      (ack : Bool) (dat : ℕ) (b : Bridge) (host : Bytes)
      → throws error ≡ true
      → b.state ≡ waiting_for_ack
      → b.timeout ≤ b.elapsed + 1
      → b.elapsed + 1 < 2 ^ 32
      → (s : Side) × (wishbone_handler throws ack dat b host
          ≡ raised (record { severity = error; msg_type = "TLM2WB" }) s)
        × (s.notified ≡ ack)
        × (s.bridge.state ≡ (if ack then idle else waiting_for_ack))
        × (s.bridge.stb_o ≡ (if ack then false else b.stb_o))
  unfolding wishbone_handler acknowledge
  handler_times_out true dat b host halts e late small =
      let s = acknowledge dat (side b host) in
      (
        record s { bridge = record s.bridge { elapsed = b.elapsed + 1 } },
        ground arith,
        refl,
        refl,
        refl,
      )
  handler_times_out false dat b host halts e late small =
      (side (record b { elapsed = b.elapsed + 1 }) host, ground arith, refl, e, refl)

pub resume-quiet :
    (d : WbState) (b : Bridge) → ((resume d b).stb_o ≡ b.stb_o) × ((resume d b).timeout ≡ b.timeout)
unfolding resume
resume-quiet d b = ground arith

module _ (throws : Handler) (p : Payload) (b : Bridge) where
  abbrev pub begun : WbState → Bridge
  begun d = record b {
    state = d;
    adr = shr p.address 2;
    ptr = p.data_ptr;
    len = p.data_length;
    byt = p.byte_enable_ptr;
    wid = p.streaming_width;
    waiting = some d;
  }

  pub begins_write :
      p.command ≡ Command.write
      → 0 < p.streaming_width
      → begin_transport throws p b ≡ done (begun executing_write)
  unfolding begin_transport
  begins_write e wide = ground arith

  pub begins_read :
      p.command ≡ Command.read
      → 0 < p.streaming_width
      → begin_transport throws p b ≡ done (begun executing_read)
  unfolding begin_transport
  begins_read e wide = ground arith

  -- A streaming width of 0 is reported as a warning; where that does not throw, the call goes on
  -- with the data length in its place.
  begin_transport_zero_width :
      throws warning ≡ false
      → p.command ≡ Command.write
      → p.streaming_width ≡ 0
      → begin_transport throws p b ≡ done (record (begun executing_write) { wid = p.data_length })
  unfolding begin_transport
  begin_transport_zero_width quiet e zero_width = ground arith

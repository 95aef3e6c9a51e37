-- ===== src/Wishbone/Edges.antt =====
-- The three clock edges of one beat of the bridge against the memory
-- (tlms/tlm_adapters/tlm2wishbone.hpp and models/wishbone/wbram.hpp).
use deltamodels.Base.{ℕ, ◌+◌, ◌^◌, ◌≤◌, ◌<◌, ◌≡◌, refl, true, false, some, arith, done, Handler}
use deltamodels.WbRam.{merge, find_word, update}
use deltamodels.WbRam.Words.{handleop_writes, handleop_reads, handleop_waits, handleop_rests}
use deltamodels.Bridge.Edges.{handler_writes, handler_reads, handler_waits, handler_acks}
use deltamodels.Bridge.{
  Side, WbState, executing_write, executing_read, waiting_for_ack, drive_write, drive_read,
  acknowledge,
}
use deltamodels.Wishbone.{Bus, ram_inputs, clock_edge, edges, wake}

-- Nobody drives the bus, and the memory has finished its last cycle.
pub record IsQuiet (s : Bus) : Type 0 where
  pub no_strobe : s.bridge.stb_o ≡ false
  pub no_ack : s.ram.ack_o ≡ false
  pub ready : s.ram.n_tran ≡ false

-- A call in direction `d` has just set up a beat, on a word of the memory.
pub record IsRequested (d : WbState) (s : Bus) : Type 0 where
  pub quiet : IsQuiet s
  pub starts : s.bridge.state ≡ d
  pub calls : s.bridge.waiting ≡ some d
  pub word : s.bridge.adr ≤ s.ram.mem_size
  pub narrow : s.ram.mem_size < 2 ^ 32
  pub patient : 2 < s.bridge.timeout

-- The bridge waits with its request on the bus.
record IsDriving (s : Bus) : Type 0 where
  waits : s.bridge.state ≡ waiting_for_ack
  strobe : s.bridge.stb_o ≡ true
  cycle : s.bridge.cyc_o ≡ true
  patient : s.bridge.elapsed + 1 < s.bridge.timeout
  early : s.bridge.elapsed < 2

abbrev side_of : Bus → Side
side_of s = record { bridge = s.bridge; host = s.host; notified = false }

abbrev pub write_driven : Bus → Bus
write_driven s = record s {
  bridge = (drive_write (side_of s)).bridge;
  ram = record s.ram { ack_o = false };
}

abbrev pub read_driven : Bus → Bus
read_driven s = record s {
  bridge = (drive_read (side_of s)).bridge;
  ram = record s.ram { ack_o = false };
}

abbrev pub ended : Bus → Bus
ended s =
    let side = acknowledge s.ram.dat_o (side_of s) in
    record {
      bridge = wake s.bridge.waiting (record side.bridge { elapsed = s.bridge.elapsed + 1 });
      ram = record s.ram { ack_o = false; n_tran = false };
      host = side.host;
    }

module _ (throws : Handler) (x_word : ℕ) where
  abbrev pub write_served : Bus → Bus
  write_served s =
      let w = merge (find_word throws x_word s.bridge.adr_o s.ram) s.bridge.dat_o s.bridge.sel_o in
      record s {
        bridge = record s.bridge { elapsed = s.bridge.elapsed + 1 };
        ram = record s.ram {
          memory = update s.ram.memory s.bridge.adr_o w;
          word = w;
          dat_o = w;
          n_tran = true;
          ack_o = true;
          wr_ops = s.ram.wr_ops + 1;
        };
      }

  abbrev pub read_served : Bus → Bus
  read_served s =
      let w = find_word throws x_word s.bridge.adr_o s.ram in
      record s {
        bridge = record s.bridge { elapsed = s.bridge.elapsed + 1 };
        ram = record s.ram {
          word = w;
          dat_o = w;
          n_tran = true;
          ack_o = true;
          rd_ops = s.ram.rd_ops + 1;
        };
      }

  -- First edge: the bridge drives the request, the memory sees an idle bus.
  edge_drives_write :
      (s : Bus) → IsRequested executing_write s → clock_edge throws x_word s ≡ done (write_driven s)
  unfolding clock_edge drive_write
  edge_drives_write s q = ground (
    arith,
    handleop_rests throws x_word (ram_inputs s.bridge) s.ram,
    handler_writes throws s.ram.ack_o s.ram.dat_o s.bridge s.host,
  )

  edge_drives_read :
      (s : Bus) → IsRequested executing_read s → clock_edge throws x_word s ≡ done (read_driven s)
  unfolding clock_edge drive_read
  edge_drives_read s q = ground (
    arith,
    handleop_rests throws x_word (ram_inputs s.bridge) s.ram,
    handler_reads throws s.ram.ack_o s.ram.dat_o s.bridge s.host,
  )

  -- Second edge: the memory serves the request.
  edge_serves_write :
      (s : Bus)
      → IsDriving s
      → s.ram.ack_o ≡ false
      → s.ram.n_tran ≡ false
      → s.bridge.we_o ≡ true
      → s.bridge.adr_o ≤ s.ram.mem_size
      → clock_edge throws x_word s ≡ done (write_served s)
  unfolding clock_edge
  edge_serves_write s q silent free we bound = ground (
    arith,
    handleop_writes throws x_word (ram_inputs s.bridge) s.ram,
    handler_waits throws s.ram.dat_o s.bridge s.host,
  )

  edge_serves_read :
      (s : Bus)
      → IsDriving s
      → s.ram.ack_o ≡ false
      → s.ram.n_tran ≡ false
      → s.bridge.we_o ≡ false
      → s.bridge.adr_o ≤ s.ram.mem_size
      → clock_edge throws x_word s ≡ done (read_served s)
  unfolding clock_edge
  edge_serves_read s q silent free we bound = ground (
    arith,
    handleop_reads throws x_word (ram_inputs s.bridge) s.ram,
    handler_waits throws s.ram.dat_o s.bridge s.host,
  )

  -- Third edge: the bridge takes the acknowledge and wakes the callback, the memory rests.
  edge_ends :
      (s : Bus)
      → IsDriving s
      → s.ram.ack_o ≡ true
      → s.ram.n_tran ≡ true
      → clock_edge throws x_word s ≡ done (ended s)
  unfolding clock_edge acknowledge
  edge_ends s q ack busy = ground (
    arith,
    handleop_waits throws x_word (ram_inputs s.bridge) s.ram,
    handler_acks throws s.ram.dat_o s.bridge s.host,
  )

  pub write_edges :
      (s : Bus)
      → IsRequested executing_write s
      → edges throws x_word 3 s ≡ done (ended (write_served (write_driven s)))
  unfolding edges drive_write
  write_edges s q = rw (
    edge_drives_write s q,
    edge_serves_write (write_driven s) (ground arith) refl q.quiet.ready refl (omega arith),
    edge_ends (write_served (write_driven s)) (ground arith) refl refl,
  )

  pub read_edges :
      (s : Bus)
      → IsRequested executing_read s
      → edges throws x_word 3 s ≡ done (ended (read_served (read_driven s)))
  unfolding edges drive_read
  read_edges s q = rw (
    edge_drives_read s q,
    edge_serves_read (read_driven s) (ground arith) refl q.quiet.ready refl (omega arith),
    edge_ends (read_served (read_driven s)) (ground arith) refl refl,
  )

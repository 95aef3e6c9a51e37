-- ===== src/Wishbone.antt =====
-- The bridge and the memory on one bus, clocked together, as the test bench
-- tlms/tlm_adapters/tests/test_wishbone_adapter.cpp wires them. At a rising edge both processes read
-- the signals as they stood before it; `ack_event` resumes the callback at the same edge.
pub mod Edges
pub mod Transfer
pub mod Calls
pub mod Roundtrip
pub mod Flat
pub mod Refine
pub mod Tests
use deltamodels.Base.{
  ℕ, zero, suc, Bool, true, false, Option, none, some, if◌then◌else◌, Run, done, raised, undefined,
  Handler, ◌>>=◌,
}
use deltamodels.Tlm.{Bytes, Payload}
use deltamodels.WbRam.{WbRam, WbIn, handleop}
use deltamodels.Bridge.{Bridge, Side, WbState, wishbone_handler, resume, begin_transport}

pub record Bus : Type 0 where
  pub bridge : Bridge
  pub ram : WbRam
  pub host : Bytes

-- The bridge's outputs at the memory's ports.
abbrev pub ram_inputs : Bridge → WbIn
ram_inputs b = record {
  adr_i = b.adr_o;
  dat_i = b.dat_o;
  cyc_i = b.cyc_o;
  stb_i = b.stb_o;
  we_i = b.we_o;
  sel_i = b.sel_o;
}

-- The callback, if it waits for the event.
pub wake : Option WbState → Bridge → Bridge
wake none b = b
wake (some d) b = resume d b

module _ (throws : Handler) (x_word : ℕ) where
  at_ram : Bus → Run Bus WbRam
  at_ram s = elim (handleop throws x_word (ram_inputs s.bridge) s.ram) [
    | done r ↦ done r
    | raised e r ↦ raised e (record s { ram = r })
    | undefined ↦ undefined
  ]

  at_bridge : Bus → Run Bus Side
  at_bridge s = elim (wishbone_handler throws s.ram.ack_o s.ram.dat_o s.bridge s.host) [
    | done side ↦ done side
    | raised e side ↦ raised e (record s { bridge = side.bridge; host = side.host })
    | undefined ↦ undefined
  ]

  pub clock_edge : Bus → Run Bus Bus
  unfolding at_ram at_bridge wake
  clock_edge s = do
    r ← at_ram s
    side ← at_bridge s
    done (record {
      bridge = if side.notified then wake side.bridge.waiting side.bridge else side.bridge;
      ram = r;
      host = side.host;
    })

  pub edges : ℕ → Bus → Run Bus Bus
  unfolding clock_edge
  edges zero s = done s
  edges (suc n) s = clock_edge s >>= edges n

  pub start : Payload → Bus → Run Bus Bus
  start p s = elim (begin_transport throws p s.bridge) [
    | done b ↦ done (record s { bridge = b })
    | raised e b ↦ raised e (record s { bridge = b })
    | undefined ↦ undefined
  ]

  -- A transport call and the three edges of its first beat.
  pub one_beat_call : Payload → Bus → Run Bus Bus
  unfolding start
  one_beat_call p s = start p s >>= edges 3

-- ===== src/Initiator/Space.antt =====
-- The initiator in front of the router with a memory behind each of its sockets, against an address
-- space of plain bytes (tlms/commons/initiator.h, tlms/tlm_router/tlm_router.hpp,
-- tlms/commons/memory.h).
use mathlib.Core.Path.{fun_ext}
use deltamodels.Base.{
  ap, ◌∙◌, length, length-append, ℕ, ◌+◌, ◌≡◌, refl, Option, none, List, [], ◌∷◌, ◌++◌, arith, done,
  Handler, ◌==◌, if◌then◌else◌, Bool-cases, true, false, inl, inr,
}
use deltamodels.Tlm.{Call, Command, memcpy}
use deltamodels.Memory.{Memory, b_transport}
use deltamodels.Memory.Access.{IsServed, served_read, served_write, completed}
use deltamodels.Router.{row}
use deltamodels.Initiator.Calls.{word, write_returns, read_returns}
use deltamodels.Initiator.System.{routed, masked, routed_serves}
use deltamodels.Initiator.{do_write_len, do_read_len}
use deltamodels.Initiator.Banks.{
  count, set_bank, on_bank, Access, offset, IsRouted, AllRouted, flat_access, flat_accesses, System,
  view, sizes, set_bank-sizes, on_bank_serves, access, accesses,
}

module _ (throws : Handler) (id : ℕ) where
  -- The system after an access that ends with the memory `m` and the call `c'`.
  abbrev after : System → Access → Option ℕ → Call → Memory → Call → System
  after s a byt c m c' = record {
    init = record { addr = a.addr; wid = a.len; ptr = a.ptr; byt = byt };
    devices = (
      record s.devices.0 { traces = s.devices.0.traces ++ (row id a.socket c c' ∷ []) },
      set_bank a.socket m s.devices.1,
    );
    host = c'.host;
  }

  abbrev called : System → Access → Command → Call
  called s a cmd = record { host = s.host; trans = word cmd a.ptr a.addr a.len none; delay = 0 }

  abbrev pub Refines : System → Access → Type 0
  Refines s a =
      (t : System) × (access throws id a s ≡ done t)
      × (t.devices.0.initiators_config ≡ s.devices.0.initiators_config)
      × (sizes t.devices.1 ≡ sizes s.devices.1)
      × (length t.devices.0.traces ≡ length s.devices.0.traces + 1)
      × (view t ≡ flat_access a (view s))

  is_served :
      (s : System) (a : Access) (cmd : Command)
      → IsRouted s.devices.0.initiators_config (sizes s.devices.1) a
      → IsServed (s.devices.1 a.socket).size (masked a.region (called s a cmd)).trans
  is_served s a cmd ok = record {
    in_range = ok.inside;
    all_bytes = refl;
    one_word = omega arith;
    no_stream = omega (arith, ok.wide, ok.small);
  }

  route :
      (s : System) (a : Access) (cmd : Command) (m : Memory) (c' : Call)
      → IsRouted s.devices.0.initiators_config (sizes s.devices.1) a
      → b_transport (s.devices.1 a.socket, masked a.region (called s a cmd)) ≡ done (m, c')
      → routed throws on_bank id (s.devices, called s a cmd)
        ≡ done ((after s a none (called s a cmd) m c').devices, c')
  route s a cmd m c' ok ret =
      routed_serves throws on_bank id a.socket a.region s.devices.0 s.devices.1
        (set_bank a.socket m s.devices.1) (called s a cmd) c' ok.at ok.covers ok.free
        (on_bank_serves a.socket s.devices.1 m (masked a.region (called s a cmd)) c' ret)

  write-Refines :
      (s : System) (a : Access)
      → IsRouted s.devices.0.initiators_config (sizes s.devices.1) a
      → a.is_write ≡ true
      → Refines s a
  unfolding access do_write_len
  write-Refines s a ok asks =
      let c = called s a Command.write in
      let d = s.devices.1 a.socket in
      let m : Memory = record d {
        mem = memcpy d.mem (offset a) s.host a.ptr 4;
        wr_ops = d.wr_ops + 1;
      } in
      let c' : Call = record (masked a.region c) {
        trans = completed (masked a.region c).trans;
        delay = 0 + 10;
      } in
      let cell : (k : ℕ)
          → (set_bank a.socket m s.devices.1 k).mem ≡ (
              if k == a.socket
              then memcpy (s.devices.1 k).mem (offset a) s.host a.ptr 4
              else (s.devices.1 k).mem) =
        λ k. ground arith in
      let wrote : (k : ℕ)
          → (set_bank a.socket m s.devices.1 k).wr_ops
            ≡ count a.socket (λ j. (s.devices.1 j).wr_ops) k =
        λ k. ground arith in
      let read : (k : ℕ) → (set_bank a.socket m s.devices.1 k).rd_ops ≡ (s.devices.1 k).rd_ops =
        λ k. ground arith in
      (
        after s a none c m c',
        rw asks (
            write_returns throws (routed throws on_bank id) s a.ptr a.addr a.len a.len none _ c'
              (route s a Command.write m c' ok
                (served_write d (masked a.region c) (is_served s a Command.write ok) refl))
              refl),
        refl,
        set_bank-sizes a.socket m s.devices.1 refl,
        length-append s.devices.0.traces (row id a.socket c c' ∷ []),
        rw asks (λ j. record {
          cells = fun_ext cell j;
          writes = fun_ext wrote j;
          reads = fun_ext read j;
          host = s.host;
        }),
      )

  read-Refines :
      (s : System) (a : Access)
      → IsRouted s.devices.0.initiators_config (sizes s.devices.1) a
      → a.is_write ≡ false
      → Refines s a
  unfolding access do_read_len
  read-Refines s a ok asks =
      let c = called s a Command.read in
      let d = s.devices.1 a.socket in
      let m : Memory = record d { rd_ops = d.rd_ops + 1 } in
      let c' : Call = record {
        host = memcpy s.host a.ptr d.mem (offset a) 4;
        trans = completed (masked a.region c).trans;
        delay = 0 + 10;
      } in
      let cell : (k : ℕ) → (set_bank a.socket m s.devices.1 k).mem ≡ (s.devices.1 k).mem =
        λ k. ground arith in
      let wrote : (k : ℕ) → (set_bank a.socket m s.devices.1 k).wr_ops ≡ (s.devices.1 k).wr_ops =
        λ k. ground arith in
      let read : (k : ℕ)
          → (set_bank a.socket m s.devices.1 k).rd_ops
            ≡ count a.socket (λ j. (s.devices.1 j).rd_ops) k =
        λ k. ground arith in
      (
        after s a s.init.byt c m c',
        rw asks (
            read_returns throws (routed throws on_bank id) s a.ptr a.addr a.len a.len _ c'
              (route s a Command.read m c' ok
                (served_read d (masked a.region c) (is_served s a Command.read ok) refl))
              refl),
        refl,
        set_bank-sizes a.socket m s.devices.1 refl,
        length-append s.devices.0.traces (row id a.socket c c' ∷ []),
        rw asks (λ j. record {
          cells = fun_ext cell j;
          writes = fun_ext wrote j;
          reads = fun_ext read j;
          host = c'.host;
        }),
      )

  pub access-Refines :
      (s : System) (a : Access)
      → IsRouted s.devices.0.initiators_config (sizes s.devices.1) a
      → Refines s a
  access-Refines s a ok = elim (Bool-cases a.is_write) [
    | inl w ↦ write-Refines s a ok w
    | inr r ↦ read-Refines s a ok r
  ]

  -- Any sequence of 32-bit writes and reads with lengths from 4 to 2^32 - 1, each at an address
  -- whose first region leads to a memory that has the masked word, runs to its end: it leaves in the
  -- memories behind all sockets, and in the host, what the same accesses leave in one array of bytes
  -- for each socket and the host, and each memory has counted the writes and the reads of its
  -- socket. The router's regions and the memories' sizes are kept, and the router has logged one row
  -- for each access.
  pub accesses_refine :
      (ps : List Access) (s : System)
      → AllRouted s.devices.0.initiators_config (sizes s.devices.1) ps
      → (t : System) × (accesses throws id ps s ≡ done t)
        × (t.devices.0.initiators_config ≡ s.devices.0.initiators_config)
        × (sizes t.devices.1 ≡ sizes s.devices.1)
        × (length t.devices.0.traces ≡ length s.devices.0.traces + length ps)
        × (view t ≡ flat_accesses ps (view s))
  unfolding accesses
  accesses_refine [] s ok = (s, refl, refl, refl, omega arith, refl)
  accesses_refine (a ∷ rest) s ok =
      let (t, run, config, size, rows, same) = access-Refines s a ok.0 in
      let (u, runs, config', size', rows', same') =
        accesses_refine rest t (rw (config, size) ok.1) in
      (
        u,
        rw run runs,
        config' ∙ config,
        size' ∙ size,
        omega (arith, rows, rows'),
        same' ∙ ap (flat_accesses rest) same,
      )

-- ===== src/Initiator/Stops.antt =====
-- Accesses at addresses that no region of the router covers (tlms/commons/initiator.h,
-- tlms/tlm_router/tlm_router.hpp).
use deltamodels.Base.{
  ap, ◌∙◌, length, ℕ, ◌+◌, ◌^◌, ◌<◌, ◌≡◌, refl, true, none, List, [], ◌∷◌, ◌++◌, raised, Handler,
  error, Report, ◌>>=◌, Bool-cases, inl, inr, >>=_assoc, >>=_ext, sym,
}
use deltamodels.Tlm.{Call, Command, Transport}
use deltamodels.Router.{Router}
use deltamodels.Router.Decode.{Uncovered}
use deltamodels.Router.Forward.{b_transport_unmatched}
use deltamodels.Initiator.Calls.{word}
use deltamodels.Initiator.System.{routed}
use deltamodels.Initiator.Banks.{
  Banks, on_bank, Access, AllRouted, flat_accesses, System, view, sizes, access, accesses,
}
use deltamodels.Initiator.Space.{accesses_refine}
use deltamodels.Initiator.{Initiator, settle, do_write, do_read, do_write_len, do_read_len}

abbrev pub router_error : Report
router_error = record { severity = error; msg_type = "TLM-ROUTER" }

module _ (throws : Handler) (id : ℕ) where
  routed_unmatched :
      {D : Type 0} (targets : ℕ → Transport D) (r : Router) (d : D) (c : Call)
      → throws error ≡ true
      → Uncovered r.initiators_config (length r.initiators_config) c.trans.address
      → length r.initiators_config < 2 ^ 32
      → routed throws targets id ((r, d), c) ≡ raised router_error ((r, d), c)
  unfolding routed
  routed_unmatched targets r d c halts free small =
      rw
        (
          b_transport_unmatched throws targets id (record { router = r; devices = d; call = c })
              free small,
          halts,
          routed,
        )
        refl

  settle_raises :
      (target : Transport (Router × Banks)) (s : System) (e : Report) (c : Call)
      → c.host ≡ s.host
      → settle throws target s (raised e (s.devices, c)) ≡ raised e s
  unfolding settle
  settle_raises target s e c same = rw same refl

  pub access_unmapped :
      (a : Access) (s : System)
      → throws error ≡ true
      → Uncovered s.devices.0.initiators_config (length s.devices.0.initiators_config) a.addr
      → length s.devices.0.initiators_config < 2 ^ 32
      → (t : System) × (access throws id a s ≡ raised router_error t)
        × (t.devices ≡ s.devices)
        × (t.host ≡ s.host)
  unfolding access do_write_len do_read_len do_write do_read
  access_unmapped a s halts free small = elim (Bool-cases a.is_write) [
    | inl w ↦
        let i : Initiator = record { addr = a.addr; wid = a.len; ptr = a.ptr; byt = none } in
        let s' : System = record s { init = i } in
        let c : Call = record {
          host = s.host;
          trans = word Command.write a.ptr a.addr a.len none;
          delay = 0;
        } in
        (
          s',
          rw w (
              ap (settle throws (routed throws on_bank id) s')
                (routed_unmatched on_bank s.devices.0 s.devices.1 c halts free small)
              ∙ settle_raises (routed throws on_bank id) s' router_error c refl),
          refl,
          refl,
        )
    | inr r ↦
        let i : Initiator = record s.init { addr = a.addr; wid = a.len; ptr = a.ptr } in
        let s' : System = record s { init = i } in
        let c : Call = record {
          host = s.host;
          trans = word Command.read a.ptr a.addr a.len none;
          delay = 0;
        } in
        (
          s',
          rw r (
              ap (settle throws (routed throws on_bank id) s')
                (routed_unmatched on_bank s.devices.0 s.devices.1 c halts free small)
              ∙ settle_raises (routed throws on_bank id) s' router_error c refl),
          refl,
          refl,
        )
  ]

  accesses-++ :
      (ps qs : List Access) (s : System)
      → accesses throws id (ps ++ qs) s ≡ (accesses throws id ps s >>= accesses throws id qs)
  unfolding accesses
  accesses-++ [] qs s = refl
  accesses-++ (a ∷ ps) qs s =
      >>=_ext (access throws id a s) _ _ (accesses-++ ps qs)
      ∙ sym (>>=_assoc (access throws id a s) (accesses throws id ps) (accesses throws id qs))

  -- Where an error report throws, a sequence of writes and reads with lengths from 4 to 2^32 - 1,
  -- each at an address whose first region leads to a memory that has the masked word, followed by an
  -- access at an address that none of the router's fewer than 2^32 regions covers, ends with the
  -- router's error, whatever follows: the accesses before it have done to the memories, their
  -- counters and the host what they do to plain arrays of bytes and their counters, with one logged
  -- row each, and the last one has changed none of these.
  pub accesses_stop :
      (ps : List Access) (bad : Access) (rest : List Access) (s : System)
      → throws error ≡ true
      → AllRouted s.devices.0.initiators_config (sizes s.devices.1) ps
      → Uncovered s.devices.0.initiators_config (length s.devices.0.initiators_config) bad.addr
      → length s.devices.0.initiators_config < 2 ^ 32
      → (t : System) × (accesses throws id (ps ++ (bad ∷ rest)) s ≡ raised router_error t)
        × (length t.devices.0.traces ≡ length s.devices.0.traces + length ps)
        × (view t ≡ flat_accesses ps (view s))
  unfolding accesses
  accesses_stop ps bad rest s halts ok free small =
      let (t, run, config, size, rows, same) = accesses_refine throws id ps s ok in
      let (u, stops, devices, host) =
        access_unmapped bad t halts (rw config free) (rw config small) in
      (
        u,
        accesses-++ ps (bad ∷ rest) s ∙ rw (run, stops) refl,
        rw devices rows,
        rw (devices, host) same,
      )

-- ===== src/Benches/Routing.antt =====
-- The tests of tlms/tlm_router/tests/test_basic_routing.cpp and test_multiport.cpp. The initiators
-- call the router through its target sockets, and a memory stands behind each of its others. The
-- numbers of accesses are parameters: the source's are 3 and 10. A variable is four bytes of the
-- host's memory at an address of its own; integers below 2^31 are compared as they are. Console
-- output and the trace files are left out.
pub mod Words
pub mod Steps
pub mod Basic
use deltamodels.Base.{
  ℕ, zero, suc, ◌+◌, ◌-◌, ◌*◌, ◌^◌, Bool, true, false, List, [], ◌∷◌, ◌==◌, if◌then◌else◌, leb, ltb,
  ◌&&◌, u32, get_byte, Run, done, raised, undefined, Handler, ◌>>=◌,
}
use deltamodels.Benches.{or_failure}
use deltamodels.Or1k.Text.{Text, codes, hex}
use deltamodels.Checks.{Reports, check_values_match}
use deltamodels.Tlm.{Bytes}
use deltamodels.Memory.{Memory}
use deltamodels.Router.{Region, Router, init, set_initiator_properties}
use deltamodels.Initiator.{Initiator, Bench, do_write_len, do_read_len}
use deltamodels.Initiator.System.{routed}
use deltamodels.Initiator.Banks.{Banks, System, on_bank}

-- The initiators by the target socket that they are bound to.
pub record Ports : Type 0 where
  pub inits : ℕ → Initiator
  pub router : Router
  pub banks : Banks
  pub host : Bytes
  pub reports : Reports

-- A variable of type `uint32_t`: what is assigned to it and what it holds.
abbrev pub assign : ℕ → ℕ → Bytes → Bytes
assign ptr v host j = if leb ptr j && ltb j (ptr + 4) then get_byte v (j - ptr) else host j

abbrev pub value_of : ℕ → Bytes → ℕ
value_of ptr host =
    host ptr + (host (ptr + 1) * 2 ^ 8 + (host (ptr + 2) * 2 ^ 16 + host (ptr + 3) * 2 ^ 24))

-- The initiator at a target socket with what it acts on.
abbrev pub system : ℕ → Ports → System
system id s = record { init = s.inits id; devices = (s.router, s.banks); host = s.host }

abbrev pub back_from : ℕ → Ports → System → Ports
back_from id s t = record s {
  inits = λ k. if k == id then t.init else s.inits k;
  router = t.devices.0;
  banks = t.devices.1;
  host = t.host;
}

abbrev pub on_system : ℕ → Ports → Run System System → Run Ports Ports
on_system id s (done t) = done (back_from id s t)
on_system id s (raised e t) = raised e (back_from id s t)
on_system id s undefined = undefined

-- The `try` block: whether the call leaves it by a report.
abbrev pub detected : Run Ports Ports → Run Ports (Bool × Ports)
detected (done t) = done (false, t)
detected (raised e t) = done (true, t)
detected undefined = undefined

module _ (throws : Handler) where
  -- `_initiator_dowrite(init, &value, addr)` and `_initiator_doread(init, &value, addr)`
  unfoldable pub dowrite : ℕ → ℕ → ℕ → Ports → Run Ports Ports
  dowrite id ptr addr s =
      on_system id s (do_write_len throws (routed throws on_bank id) ptr (u32 addr) 4 (system id s))

  unfoldable pub doread : ℕ → ℕ → ℕ → Ports → Run Ports Ports
  doread id ptr addr s =
      on_system id s (do_read_len throws (routed throws on_bank id) ptr (u32 addr) 4 (system id s))

  -- `checkValuesMatch`
  unfoldable pub check : ℕ → ℕ → Text → Ports → Run Ports Ports
  check val1 val2 msg s = elim (check_values_match (◌==◌) hex throws val1 val2 msg s.reports) [
    | done r ↦ done (record s { reports = r })
    | raised e r ↦ raised e (record s { reports = r })
    | undefined ↦ undefined
  ]

  -- The loops of `test_simple_access` from round `i` on; the variable stands at `ptr`.
  unfoldable pub write_rounds : ℕ → ℕ → ℕ → Ports → Run Ports Ports
  write_rounds ptr zero i s = done s
  write_rounds ptr (suc n) i s =
      dowrite 0 ptr (i * 4) (record s { host = assign ptr (u32 i) s.host })
      >>= write_rounds ptr n (suc i)

  unfoldable pub read_rounds : ℕ → ℕ → ℕ → Ports → Run Ports Ports
  read_rounds ptr zero i s = done s
  read_rounds ptr (suc n) i s = do
    t ← doread 0 ptr (i * 4) s
    u ← check i (value_of ptr t.host) (codes "readback") t
    read_rounds ptr n (suc i) u

  unfoldable pub test_simple_access : ℕ → ℕ → Ports → Run Ports Ports
  test_simple_access ptr naccesses s = do
    t ← write_rounds ptr naccesses 0 s
    u ← read_rounds ptr naccesses 0 t
    v ← check naccesses (u.banks 0).wr_ops (codes "mem_wr") u
    check naccesses (v.banks 0).rd_ops (codes "mem_rd") v

  unfoldable pub test_out_of_bound_error : ℕ → Ports → Run Ports Ports
  test_out_of_bound_error ptr s =
      detected (dowrite 0 ptr 0x10000 (record s { host = assign ptr 32 s.host }))
      >>= λ (ex_triggered, t).
          check (if ex_triggered then 1 else 0) 1 (codes "out-of-bound-detection") t

  -- `sc_main` of test_basic_routing.cpp.
  unfoldable pub basic_routing : ℕ → ℕ → (ℕ → Initiator) → Memory → Bytes → Run Ports Ports
  basic_routing ptr naccesses inits mem host =
      let config : Region = record { base_address = 0; top_address = 0x1000; mask = 0xffffffff } in
      let s : Ports = record {
        inits = inits;
        router = set_initiator_properties 0 config (init 1);
        banks = λ i. mem;
        host = host;
        reports = [];
      } in
      or_failure throws (test_simple_access ptr naccesses s >>= test_out_of_bound_error ptr)

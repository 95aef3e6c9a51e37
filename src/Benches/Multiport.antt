-- ===== src/Benches/Multiport.antt =====
-- The program of tlms/tlm_router/tests/test_multiport.cpp: two initiators in front of the router, and
-- a memory behind each of its three other sockets. The number of accesses is a parameter: the
-- source's is 10. The three variables stand at `d1`, `d2` and `d3`.
pub mod Stored
pub mod Passing
use deltamodels.Base.{ℕ, zero, suc, ◌+◌, ◌*◌, [], u32, Run, done, Handler, ◌>>=◌}
use deltamodels.Or1k.Text.{codes}
use deltamodels.Tlm.{Bytes}
use deltamodels.Router.{Region, init, set_initiator_properties}
use deltamodels.Initiator.{Initiator}
use deltamodels.Initiator.Banks.{Banks}
use deltamodels.Benches.Routing.{Ports, assign, value_of, dowrite, doread, check}

abbrev pub mem1_config : Region
mem1_config = record { base_address = 0; top_address = 0x100; mask = 0xfff }

abbrev pub mem2_config : Region
mem2_config = record { base_address = 0x1000; top_address = 0x1100; mask = 0xefff }

abbrev pub mem3_config : Region
mem3_config = record { base_address = 0x10000; top_address = 0x10100; mask = 0xeffff }

-- The verification phase.
unfoldable pub verify : Handler → ℕ → Ports → Run Ports Ports
verify throws naccesses s = do
  s1 ← check throws naccesses (s.banks 0).wr_ops (codes "mem1_wr") s
  s2 ← check throws naccesses (s1.banks 0).rd_ops (codes "mem1_rd") s1
  s3 ← check throws naccesses (s2.banks 1).wr_ops (codes "mem2_wr") s2
  s4 ← check throws naccesses (s3.banks 1).rd_ops (codes "mem2_rd") s3
  s5 ← check throws naccesses (s4.banks 2).wr_ops (codes "mem3_wr") s4
  check throws naccesses (s5.banks 2).rd_ops (codes "mem3_rd") s5

module _ (throws : Handler) (d1 d2 d3 : ℕ) where
  -- The two loops, from round `i` on.
  unfoldable pub write_loop : ℕ → ℕ → Ports → Run Ports Ports
  write_loop zero i s = done s
  write_loop (suc n) i s = do
    let s0 : Ports = record s {
      host =
          assign d3 (u32 (i + 0x10000)) (assign d2 (u32 (i + 0x1000)) (assign d1 (u32 i) s.host));
    }
    s1 ← dowrite throws 0 d1 (i * 4) s0
    s2 ← dowrite throws 1 d2 (i * 4 + 0x1000) s1
    s3 ← dowrite throws 1 d3 (i * 4 + 0x10000) s2
    write_loop n (suc i) s3

  unfoldable pub read_loop : ℕ → ℕ → Ports → Run Ports Ports
  read_loop zero i s = done s
  read_loop (suc n) i s = do
    s1 ← doread throws 0 d1 (i * 4 + 0x10000) s
    s2 ← doread throws 1 d2 (i * 4 + 0x1000) s1
    s3 ← doread throws 0 d3 (i * 4) s2
    s4 ← check throws (i + 0x10000) (value_of d1 s3.host) (codes "readback1") s3
    s5 ← check throws (i + 0x1000) (value_of d2 s4.host) (codes "readback2") s4
    s6 ← check throws i (value_of d3 s5.host) (codes "readback3") s5
    read_loop n (suc i) s6

  -- `sc_main`
  unfoldable pub multiport : ℕ → (ℕ → Initiator) → Banks → Bytes → Run Ports Ports
  multiport naccesses inits banks host =
      let router = set_initiator_properties 2 mem3_config (
        set_initiator_properties 1 mem2_config (set_initiator_properties 0 mem1_config (init 3))) in
      let s : Ports = record {
        inits = inits;
        router = router;
        banks = banks;
        host = host;
        reports = [];
      } in
      do t ← write_loop naccesses 0 s; u ← read_loop naccesses 0 t; verify throws naccesses u

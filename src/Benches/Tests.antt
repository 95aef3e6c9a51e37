-- ===== src/Benches/Tests.antt =====
-- Runs of the routing tests with the source's numbers of accesses: 3 in
-- tlms/tlm_router/tests/test_basic_routing.cpp and 10 in test_multiport.cpp.
use deltamodels.Base.{ℕ, ◌+◌, ◌<◌, ◌≡◌, refl, inl, none, [], arith, done, default_handler}
use deltamodels.Tlm.{Bytes}
use deltamodels.Memory.{Memory}
use deltamodels.Initiator.{Initiator}
use deltamodels.Benches.Routing.{Ports, basic_routing}
use deltamodels.Benches.Routing.Steps.{word}
use deltamodels.Benches.Routing.Basic.{basic_routing_passes}
use deltamodels.Benches.Multiport.{multiport}
use deltamodels.Benches.Multiport.Stored.{base}
use deltamodels.Benches.Multiport.Passing.{multiport_passes}

abbrev memory : Memory
memory = record { size = 0x100; mem = λ j. 0; rd_ops = 0; wr_ops = 0 }

abbrev idle : ℕ → Initiator
idle i = record { addr = 0; wid = 0; ptr = 0; byt = none }

abbrev blank : Bytes
blank j = 0

basic_routing_passes_example :
    (t : Ports) × (basic_routing default_handler 100 3 idle memory blank ≡ done t)
    × (t.reports ≡ [])
    × ((j : ℕ) → j < 3 → word t 0 j ≡ j)
    × ((t.banks 0).wr_ops ≡ 3)
    × ((t.banks 0).rd_ops ≡ 3)
basic_routing_passes_example =
    basic_routing_passes default_handler 100 3 idle memory blank refl (omega arith) (omega arith)
      refl refl

multiport_passes_example :
    (t : Ports) × (multiport default_handler 100 104 108 10 idle (λ k. memory) blank ≡ done t)
    × (t.reports ≡ [])
    × ((k j : ℕ) → k < 3 → j < 10 → word t k j ≡ j + base k)
    × ((k : ℕ) → k < 3 → ((t.banks k).wr_ops ≡ 10) × ((t.banks k).rd_ops ≡ 10))
multiport_passes_example =
    multiport_passes default_handler 100 104 108 10 idle (λ k. memory) blank (inl (omega arith))
      (inl (omega arith)) (inl (omega arith)) (omega arith) (λ k below. omega arith)
      (λ k below. refl) (λ k below. refl)

-- ===== src/Flash/Tests.antt =====
-- Runs of the models of models/memories/flash/N25QX.hpp.
use deltamodels.Base.{
  Bool, true, false, ◌≡◌, refl, none, some, List, [], ◌∷◌, arith, ◌==◌, if◌then◌else◌,
}
use deltamodels.Flash.{Flash, Pins, idle_phase, init, fetch, configure_region}
use deltamodels.Flash.FileRead.{quad_read-configure_region}
use deltamodels.Flash.Cycles.{cycles, selected}
use deltamodels.Flash.Read.{transaction, quad_read}

abbrev flash : Flash
flash = record {
  phase = idle_phase;
  cmd = 0;
  cnt = 0;
  addr = 0;
  conf_memory = λ a. if a == 75 then some 9 else none;
  dummy_cycles = 5;
  idx = 0;
  word = 0;
  dq_out = 0;
  log = [];
}

abbrev three : List Pins
three = selected 0 ∷ selected 0 ∷ selected 0 ∷ []

-- Address 0x24; the fourth half-byte asked for.
quad_read_example :
    let g = cycles (transaction 0 0 0 0 2 4 (selected 0) three (0 ∷ 0 ∷ 0 ∷ [])) flash in
    ((cycles (selected 0 ∷ []) g).dq_out ≡ 9)
    × (g.log
        ≡ record { address = 0x24; idx = 0; word = 0 }
          ∷ record { address = 0x24; idx = 72; word = 0 }
          ∷ record { address = 0x25; idx = 73; word = 0 }
          ∷ record { address = 0x25; idx = 74; word = 0 }
          ∷ [])
unfolding fetch
quad_read_example =
    quad_read 0 0 0 0 2 4 0 (selected 0) three (0 ∷ 0 ∷ 0 ∷ []) flash refl
      (omega arith, omega arith, omega arith, omega arith, omega arith, omega arith) (omega arith)
      refl (omega arith) (omega arith)

-- Byte 0x34 at address 0x33, after the two half-bytes of the byte before it.
quad_read-configure_region_example :
    let f = configure_region (0x12 ∷ 0x34 ∷ []) 50 (init 5 1 2 3) in
    ((cycles
        (selected 0 ∷ [])
        (cycles (transaction 0 0 0 0 3 2 (selected 0) three (0 ∷ 0 ∷ [])) f)).dq_out
      ≡ 3)
    × ((cycles
          (selected 0 ∷ [])
          (cycles (transaction 0 0 0 0 3 2 (selected 0) three (0 ∷ 0 ∷ 0 ∷ [])) f)).dq_out
        ≡ 4)
quad_read-configure_region_example =
    quad_read-configure_region 0 0 0 0 3 2 0 0 1 (selected 0) three (0 ∷ 0 ∷ []) (0x12 ∷ 0x34 ∷ [])
      50 1 0x34 5 1 2 3 refl (omega arith) (omega arith)
      (omega arith, omega arith, omega arith, omega arith, omega arith, omega arith) (omega arith)
      refl (omega arith) refl (omega arith) refl

-- A rise and a fall with data 11, then a rise while not selected.
abbrev levels : List (Bool × Pins)
levels = (true, selected 11) ∷ (false, selected 11) ∷ (true, record { cs_n = 1; dq = 15 }) ∷ []

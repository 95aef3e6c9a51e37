-- ===== src/Initiator/Tests.antt =====
-- Runs of the model of tlms/commons/initiator.h: in front of a memory, and of a router with two
-- regions whose second one leads to a memory.
use deltamodels.Base.{
  ℕ, Bool, true, false, ◌+◌, ◌≡◌, refl, none, List, [], ◌∷◌, length, arith, done, raised,
  default_handler, zero, suc, ◌>>=◌,
}
use deltamodels.Tlm.{Response, Transport, respond}
use deltamodels.Memory.{Memory}
use deltamodels.Router.{Region}
use deltamodels.Router.Decode.{Uncovered}
use deltamodels.Initiator.{Initiator, Bench, do_write_len, do_read_len}
use deltamodels.Initiator.Banks.{Access, IsRouted, System, accesses, flat_accesses, view, sizes}
use deltamodels.Initiator.Space.{accesses_refine}
use deltamodels.Initiator.Stops.{router_error, accesses_stop}

abbrev four_words : Memory
four_words = record { size = 4; mem = λ j. 0; rd_ops = 0; wr_ops = 0 }

abbrev fresh : Initiator
fresh = record { addr = 0; wid = 0; ptr = 0; byt = none }

abbrev bench : Bench Memory
bench = record { init = fresh; devices = four_words; host = λ j. j + 1 }

abbrev low : Region
low = record { base_address = 0; top_address = 0x1000; mask = 0xfff }

abbrev high : Region
high = record { base_address = 0x1000; top_address = 0x2000; mask = 0xff }

abbrev regions : List Region
regions = low ∷ high ∷ []

before_high : Uncovered regions 1 0x1008
before_high zero c lt e h = ground arith
before_high (suc j) c lt e h = absurd (omega arith)

-- A target that counts the calls that it serves.
abbrev counter : Transport ℕ
counter (n, c) = done (n + 1, respond Response.ok c)

abbrev counted : ℕ → Bench ℕ
counted n = record { init = fresh; devices = n; host = λ j. j + 1 }

two_calls :
    (do_write_len default_handler counter 100 8 4 (counted 0)
      >>= do_read_len default_handler counter 200 12 8)
    ≡ done (record (counted 2) { init = record { addr = 12; wid = 8; ptr = 200; byt = none } })
unfolding do_write_len do_read_len
two_calls = refl

-- The memories behind the two sockets, and accesses to both of them.
abbrev two_banks : System
two_banks = record {
  init = fresh;
  devices = (record { initiators_config = regions; traces = [] }, λ i. four_words);
  host = λ j. j + 1;
}

abbrev to_high : Bool → ℕ → Access
to_high is_write ptr = record {
  is_write = is_write;
  ptr = ptr;
  addr = 0x1008;
  len = 4;
  socket = 1;
  region = high;
}

abbrev to_low : Access
to_low = record { is_write = true; ptr = 50; addr = 8; len = 4; socket = 0; region = low }

before_low : Uncovered regions 0 8
before_low j c lt e h = absurd (omega arith)

high-IsRouted : (b : Bool) (ptr : ℕ) → IsRouted regions (λ _. 4) (to_high b ptr)
high-IsRouted b ptr = record {
  at = refl;
  covers = (omega arith, omega arith);
  free = before_high;
  inside = omega arith;
  wide = omega arith;
  small = omega arith;
}

low-IsRouted : IsRouted regions (λ _. 4) to_low
low-IsRouted = record {
  at = refl;
  covers = (omega arith, omega arith);
  free = before_low;
  inside = omega arith;
  wide = omega arith;
  small = omega arith;
}

abbrev mixed : List Access
mixed = to_high true 100 ∷ to_low ∷ to_high false 200 ∷ []

accesses_refine_example :
    (t : System) × (accesses default_handler 9 mixed two_banks ≡ done t)
    × (t.devices.0.initiators_config ≡ regions)
    × (sizes t.devices.1 ≡ (λ _. 4))
    × (length t.devices.0.traces ≡ 3)
    × (view t ≡ flat_accesses mixed (view two_banks))
accesses_refine_example =
    accesses_refine default_handler 9 mixed two_banks
      (high-IsRouted true 100, (low-IsRouted, (high-IsRouted false 200, tt)))

outside_all : Uncovered regions 2 0x3000
outside_all zero c lt e h = ground arith
outside_all (suc zero) c lt e h = ground arith
outside_all (suc (suc j)) c lt e h = absurd (omega arith)

-- A write to each memory, an access outside both regions, and one that is not reached.
accesses_stop_example :
    (t : System) × (accesses default_handler 9
        (to_high true 100 ∷ to_low ∷ record to_low { addr = 0x3000 } ∷ to_low ∷ [])
        two_banks
      ≡ raised router_error t)
    × (length t.devices.0.traces ≡ 2)
    × (view t ≡ flat_accesses (to_high true 100 ∷ to_low ∷ []) (view two_banks))
accesses_stop_example =
    accesses_stop default_handler 9 (to_high true 100 ∷ to_low ∷ [])
      (record to_low { addr = 0x3000 }) (to_low ∷ []) two_banks refl
      (high-IsRouted true 100, (low-IsRouted, tt)) outside_all (omega arith)

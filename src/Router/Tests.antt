-- ===== src/Router/Tests.antt =====
-- Runs of the models of tlms/tlm_router/tlm_router.hpp on a router with two regions.
use deltamodels.Base.{
  ℕ, zero, suc, ◌+◌, ◌≡◌, refl, true, false, none, List, [], ◌∷◌, arith, done, raised,
  default_handler, error,
}
use deltamodels.Tlm.{Call, Command, Response, Transport, respond}
use deltamodels.Router.{Region, Bus, init, set_initiator_properties, decode_address, b_transport}
use deltamodels.Router.Decode.{Uncovered, decode_address_configured}
use deltamodels.Router.Forward.{b_transport-routes}

abbrev low : Region
low = record { base_address = 0; top_address = 0x1000; mask = 0xfff }

abbrev high : Region
high = record { base_address = 0x1000; top_address = 0x2000; mask = 0xff }

abbrev regions : List Region
regions = low ∷ high ∷ []

abbrev call_at : ℕ → Call
call_at a = record {
  host = λ j. 7;
  trans = record {
    command = Command.write;
    address = a;
    data_ptr = 0;
    data_length = 4;
    streaming_width = 4;
    byte_enable_ptr = none;
    dmi_allowed = false;
    response = Response.incomplete;
  };
  delay = 0;
}

abbrev bus_at : ℕ → Bus ℕ
bus_at a = record {
  router = record { initiators_config = regions; traces = [] };
  devices = 0;
  call = call_at a;
}

-- Socket 1 counts the calls that it serves; the others raise an error.
abbrev target : ℕ → Transport ℕ
target (suc zero) (n, c) = done (n + 1, respond Response.ok c)
target _ (n, c) = raised (record { severity = error; msg_type = "DEVICE" }) (n, c)

before_high : Uncovered regions 1 0x1234
before_high zero c lt e h = ground arith
before_high (suc j) c lt e h = absurd (omega arith)

before_low : (a : ℕ) → Uncovered regions 0 a
before_low a j c lt e h = omega arith

outside_all : Uncovered regions 2 0x3000
outside_all zero c lt e h = ground arith
outside_all (suc zero) c lt e h = ground arith
outside_all (suc (suc j)) c lt e h = absurd (omega arith)

decode_address_configured_example :
    decode_address {S = Unit {0}} default_handler
      (set_initiator_properties 1 high (init 4)).initiators_config
      0x1234
      tt
    ≡ done (1, 0x34)
decode_address_configured_example =
    decode_address_configured default_handler tt 4 1 0x1234 high (omega arith)

b_transport-routes_example :
    b_transport default_handler target 9 (bus_at 0x1234)
    ≡ done (record {
      router = record {
        initiators_config = regions;
        traces =
            record {
              target_id = 9;
              initiator_nr = 1;
              address = 0x1234;
              is_write = true;
              len = 4;
              wid = 4;
              enables = 0;
              word = 0x07070707;
            }
            ∷ [];
      };
      devices = 1;
      call = respond Response.ok (call_at 0x34);
    })
b_transport-routes_example =
    b_transport-routes default_handler target 9 (bus_at 0x1234) 1 high 1
      (respond Response.ok (call_at 0x34)) refl (omega arith, omega arith) before_high
      (λ j. omega arith) refl

-- ===== src/Wishbone/Tests.antt =====
-- A run of the bridge and the memory on one bus.
use deltamodels.Base.{
  ℕ, ◌<◌, ◌≡◌, refl, none, some, arith, false, ◌==◌, if◌then◌else◌, done, default_handler, List, [],
  ◌∷◌, inl, inr,
}
use deltamodels.Tlm.{Payload, Command, Response}
use deltamodels.Bridge.{idle}
use deltamodels.Wishbone.{Bus}
use deltamodels.Wishbone.Calls.{IsFree}
use deltamodels.Wishbone.Flat.{AllBeats, flat_calls}
use deltamodels.Wishbone.Refine.{calls, view, calls_refine}

abbrev bus : Bus
bus = record {
  bridge = record {
    state = idle;
    adr = 0;
    ptr = 0;
    len = 0;
    byt = none;
    wid = 0;
    wnr = false;
    bv_data = 0;
    bv_byteen = 0;
    timeout = 100;
    elapsed = 0;
    waiting = none;
    adr_o = 0;
    dat_o = 0;
    we_o = false;
    sel_o = 0;
    stb_o = false;
    cyc_o = false;
  };
  ram = record {
    memory = λ a. none;
    word = 0;
    n_tran = false;
    mem_size = 16;
    wr_ops = 0;
    rd_ops = 0;
    ack_o = false;
    dat_o = 0;
  };
  host = λ j. if j == 100 then 77 else if j == 300 then 0xff else 3;
}

abbrev word : Command → ℕ → Payload
word cmd ptr = record {
  command = cmd;
  address = 12;
  data_ptr = ptr;
  data_length = 4;
  streaming_width = 4;
  byte_enable_ptr = none;
  dmi_allowed = false;
  response = Response.incomplete;
}

free : IsFree bus
free = record {
  returned = refl;
  resting = refl;
  quiet = record { no_strobe = refl; no_ack = refl; ready = refl };
  narrow = omega arith;
  patient = omega arith;
}

small : (j : ℕ) → bus.host j < 256
small j = ground arith

-- A write of the first byte only, then of the whole word below it, and a read of the first word.
abbrev sequence : List Payload
sequence =
    record (word Command.write 100) { byte_enable_ptr = some 300 }
    ∷ record (word Command.write 100) { address = 8 }
    ∷ word Command.read 200
    ∷ []

sequence-AllBeats : AllBeats 16 sequence
sequence-AllBeats = (
  inl (record { asks = refl; word = omega arith; positive = omega arith; single = refl }),
  (
    inl (record { asks = refl; word = omega arith; positive = omega arith; single = refl }),
    (inr (record { asks = refl; word = omega arith; positive = omega arith; single = refl }), tt),
  ),
)

calls_refine_example :
    (t : Bus) × (calls default_handler 0xffffffff sequence bus ≡ done t)
    × (t.bridge.waiting ≡ none)
    × (t.bridge.state ≡ idle)
    × IsFree t
    × (view default_handler 0xffffffff t
        ≡ flat_calls sequence (view default_handler 0xffffffff bus))
calls_refine_example =
    calls_refine default_handler 0xffffffff sequence bus free small sequence-AllBeats

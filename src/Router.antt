-- ===== src/Router.antt =====
-- tlms/tlm_router/tlm_router.hpp: the address decoder and the transport callback of `TLMRouter`.
-- `initiatorsConfig` is a list of N_INITIATORS regions; the blocks bound to the initiator sockets
-- are a parameter, one transport function for each socket over a common state. A trace row is what
-- the callback hands to the logger, without the time stamp.
pub mod Decode
pub mod Forward
pub mod Tests
use deltamodels.Base.{
  ℕ, zero, suc, ◌+◌, ◌*◌, ◌-◌, ◌^◌, ◌%◌, Bool, true, false, ◌&&◌, Option, none, some, List, [], ◌∷◌,
  ◌++◌, leb, ltb, if◌then◌else◌, bit_and, bit_or, shl, u32, length, set, replicate, Run, done,
  raised, undefined, Handler, report, error, in_bounds, ◌>>=◌, ◌>>◌,
}
use deltamodels.Tlm.{Bytes, Call, Command, Transport}

-- `InitiatorConfig`
pub record Region : Type 0 where
  pub base_address : ℕ
  pub top_address : ℕ
  pub mask : ℕ

pub record Row : Type 0 where
  pub target_id : ℕ
  pub initiator_nr : ℕ
  pub address : ℕ
  pub is_write : Bool
  pub len : ℕ
  pub wid : ℕ
  pub enables : ℕ
  pub word : ℕ

pub record Router : Type 0 where
  pub initiators_config : List Region
  pub traces : List Row

-- The constructor's loop over `initiatorsConfig`.
unfoldable pub init : ℕ → Router
init n = record {
  initiators_config = replicate n (record { base_address = 0; top_address = 0; mask = 0 });
  traces = [];
}

unfoldable pub set_initiator_properties : ℕ → Region → Router → Router
set_initiator_properties nr config r = record r {
  initiators_config = set r.initiators_config nr config;
}

abbrev pub in_region : Region → ℕ → Bool
in_region c address = leb c.base_address address && ltb address c.top_address

-- The loop of `decode_address` from index `i` on: the index it breaks at, and `masked_address`.
pub find_region : ℕ → List Region → ℕ → Option (ℕ × ℕ)
find_region i [] address = none
find_region i (c ∷ cs) address =
    if in_region c address then some (i, bit_and address c.mask) else find_region (i + 1) cs address

-- Where no region fits and the report does not throw, `index` is -1 and `masked_address` stays 0.
pub decode_address : {S : Type 0} → Handler → List Region → ℕ → S → Run S (ℕ × ℕ)
unfolding find_region
decode_address throws configs address s = elim (find_region 0 configs address) [
  | some hit ↦ done hit
  | none ↦ report throws error "TLM-ROUTER" s >>= λ _. done (2 ^ 32 - 1, 0)
]

-- Four bytes, the lowest first.
pub word_at : Bytes → ℕ → ℕ
word_at host p =
    bit_or (bit_or (bit_or (host p) (shl (host (p + 1)) 8)) (shl (host (p + 2)) 16))
      (shl (host (p + 3)) 24)

unfoldable pub enables_at : Bytes → Option ℕ → ℕ
unfolding word_at
enables_at host none = 0
enables_at host (some p) = word_at host p

unfoldable pub is_write_command : Command → Bool
is_write_command Command.write = true
is_write_command _ = false

-- The router, the blocks behind it and the call.
pub record Bus (D : Type 0) : Type 0 where
  pub router : Router
  pub devices : D
  pub call : Call

-- What the callback logs about a call `before`, whose bytes are read once it is over.
pub row : ℕ → ℕ → Call → Call → Row
unfolding enables_at is_write_command word_at
row id nr before after = record {
  target_id = id;
  initiator_nr = nr;
  address = before.trans.address;
  is_write = is_write_command before.trans.command;
  len = before.trans.data_length;
  wid = before.trans.streaming_width;
  enables = enables_at after.host before.trans.byte_enable_ptr;
  word = word_at after.host before.trans.data_ptr;
}

-- The call through an initiator socket, in the state of the whole bus.
pub through : {D : Type 0} → Transport D → Bus D → Call → Run (Bus D) (Bus D)
through target b call = elim (target (b.devices, call)) [
  | done (d, c) ↦ done (record b { devices = d; call = c })
  | raised r (d, c) ↦ raised r (record b { devices = d; call = c })
  | undefined ↦ undefined
]

pub b_transport : {D : Type 0} → Handler → (ℕ → Transport D) → ℕ → Bus D → Run (Bus D) (Bus D)
unfolding decode_address through row
b_transport throws targets id b = do
  (nr, masked) ← decode_address throws b.router.initiators_config b.call.trans.address b
  let call = record b.call { trans = record b.call.trans { address = masked } }
  in_bounds (ltb nr (length b.router.initiators_config))
  after ← through (targets nr) b call
  done (record after {
    router = record after.router {
      traces = after.router.traces ++ (row id nr b.call after.call ∷ []);
    };
  })

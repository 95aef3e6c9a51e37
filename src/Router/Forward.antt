-- ===== src/Router/Forward.antt =====
-- `b_transport`: what reaches the block behind a socket, and what is logged
-- (tlms/tlm_router/tlm_router.hpp).
use deltamodels.Base.{
  refl, ap, ◌∙◌, Bool, true, false, Option, none, ℕ, ◌+◌, ◌-◌, ◌*◌, ◌^◌, ◌<◌, ◌≡◌, some, [], ◌∷◌,
  ◌++◌, arith, if◌then◌else◌, inl, inr, Bool-cases, lt→ltb, le→ltb, bit_and, bit_or_low, shl,
  length, get_elem?, get_elem?-bound, Handler, Report, error, done, raised, undefined,
}
use deltamodels.Tlm.{Bytes, Call, Command, Transport}
use deltamodels.Router.{
  Region, Row, Bus, b_transport, through, row, word_at, is_write_command, enables_at,
}
use deltamodels.Router.Decode.{Covers, Uncovered, decode_address-first, decode_address_unmatched}

-- The number of four bytes, the first one lowest.
abbrev pub little_endian : Bytes → ℕ → ℕ
little_endian host p = host p + 256 * host (p + 1) + 65536 * host (p + 2) + 16777216 * host (p + 3)

-- For bytes below 256, a logged word is the little-endian number of four bytes.
word_at-little_endian :
    (host : Bytes) (p : ℕ) → ((i : ℕ) → host i < 256) → word_at host p ≡ little_endian host p
unfolding word_at
word_at-little_endian host p bytes =
    rw
      (
        bit_or_low 8 (host (p + 1)) (host p) (bytes p),
        bit_or_low 16 (host (p + 2)) (shl (host (p + 1)) 8 + host p)
            (omega (arith, bytes p, bytes (p + 1))),
        bit_or_low 24 (host (p + 3)) (shl (host (p + 2)) 16 + (shl (host (p + 1)) 8 + host p))
            (omega (arith, bytes p, bytes (p + 1), bytes (p + 2))),
      )
      (omega (arith, bytes p, bytes (p + 1), bytes (p + 2), bytes (p + 3)))

is_write_command_lem :
    (c : Command)
    → is_write_command c ≡ elim c as (λ _. Bool) [
      | Command.write ↦ true
      | Command.read ↦ false
      | Command.ignore ↦ false
    ]
unfolding is_write_command
is_write_command_lem Command.write = refl
is_write_command_lem Command.read = refl
is_write_command_lem Command.ignore = refl

enables_lem :
    (host : Bytes) (o : Option ℕ)
    → ((j : ℕ) → host j < 256)
    → enables_at host o ≡ elim o as (λ _. ℕ) [ none ↦ 0 | some p ↦ little_endian host p ]
unfolding enables_at
enables_lem host none bytes = refl
enables_lem host (some p) bytes = word_at-little_endian host p bytes

-- The row of a call, field by field.
row_lem :
    (id nr : ℕ) (before after : Call)
    → ((j : ℕ) → after.host j < 256)
    → row id nr before after ≡ record {
      target_id = id;
      initiator_nr = nr;
      address = before.trans.address;
      is_write = elim before.trans.command [
        | Command.write ↦ true
        | Command.read ↦ false
        | Command.ignore ↦ false
      ];
      len = before.trans.data_length;
      wid = before.trans.streaming_width;
      enables = elim before.trans.byte_enable_ptr [
        | none ↦ 0
        | some p ↦ little_endian after.host p
      ];
      word = little_endian after.host before.trans.data_ptr;
    }
unfolding row
row_lem id nr before after bytes = cc (
  is_write_command_lem before.trans.command,
  enables_lem after.host before.trans.byte_enable_ptr bytes,
  word_at-little_endian after.host before.trans.data_ptr bytes,
)

module _ {D : Type 0} (throws : Handler) (targets : ℕ → Transport D) (id : ℕ) where
  -- The call that a region's block gets: the bus's, at the masked address.
  abbrev masked_call : Bus D → Region → Call
  masked_call b c = record b.call {
    trans = record b.call.trans { address = bit_and b.call.trans.address c.mask };
  }

  -- If the block behind the first region that covers the address returns from the masked call, the
  -- callback returns with that block's state and call; the router keeps its configuration and logs
  -- one row of the original call.
  pub b_transport-forwards :
      (b : Bus D) (i : ℕ) (c : Region) (d : D) (after : Call)
      → get_elem? b.router.initiators_config i ≡ some c
      → Covers c b.call.trans.address
      → Uncovered b.router.initiators_config i b.call.trans.address
      → targets i (b.devices, masked_call b c) ≡ done (d, after)
      → b_transport throws targets id b
        ≡ done (record {
          router = record b.router { traces = b.router.traces ++ (row id i b.call after ∷ []) };
          devices = d;
          call = after;
        })
  unfolding b_transport through
  b_transport-forwards b i c d after e h free ret = rw (
    decode_address-first throws b b.router.initiators_config i b.call.trans.address c e h free,
    lt→ltb i (length b.router.initiators_config) (get_elem?-bound b.router.initiators_config i e),
    ret,
    through,
  )

  -- If the block behind the first region that covers the address returns from the masked call, with
  -- bytes in the host's memory, the callback returns with that block's state and call, and the router
  -- keeps its configuration and logs one row behind those before: the sockets, the address before
  -- masking, whether the command was a write, the lengths before the call, and, of the four bytes
  -- each at the byte enables, if the call has any, and at the data after the call, the number with
  -- the first byte lowest.
  pub b_transport-routes :
      (b : Bus D) (i : ℕ) (c : Region) (d : D) (after : Call)
      → get_elem? b.router.initiators_config i ≡ some c
      → Covers c b.call.trans.address
      → Uncovered b.router.initiators_config i b.call.trans.address
      → ((j : ℕ) → after.host j < 256)
      → targets i (b.devices, masked_call b c) ≡ done (d, after)
      → b_transport throws targets id b
        ≡ done (record {
          router = record {
            initiators_config = b.router.initiators_config;
            traces =
                b.router.traces
                ++ (record {
                  target_id = id;
                  initiator_nr = i;
                  address = b.call.trans.address;
                  is_write = elim b.call.trans.command [
                    | Command.write ↦ true
                    | Command.read ↦ false
                    | Command.ignore ↦ false
                  ];
                  len = b.call.trans.data_length;
                  wid = b.call.trans.streaming_width;
                  enables = elim b.call.trans.byte_enable_ptr [
                    | none ↦ 0
                    | some p ↦ little_endian after.host p
                  ];
                  word = little_endian after.host b.call.trans.data_ptr;
                }
                    ∷ []);
          };
          devices = d;
          call = after;
        })
  b_transport-routes b i c d after e h free bytes ret =
      b_transport-forwards b i c d after e h free ret
      ∙ ap
          (λ (r : Row). done (record {
            router = record b.router { traces = b.router.traces ++ (r ∷ []) };
            devices = d;
            call = after;
          }))
          (row_lem id i b.call after bytes)

  -- What the block behind the first region that covers the address raises from the masked call goes
  -- to the caller with that block's state and call; the router is as it was, with nothing logged.
  b_transport-raises :
      (b : Bus D) (i : ℕ) (c : Region) (r : Report) (d : D) (after : Call)
      → get_elem? b.router.initiators_config i ≡ some c
      → Covers c b.call.trans.address
      → Uncovered b.router.initiators_config i b.call.trans.address
      → targets i (b.devices, masked_call b c) ≡ raised r (d, after)
      → b_transport throws targets id b ≡ raised r (record b { devices = d; call = after })
  unfolding b_transport through
  b_transport-raises b i c r d after e h free ret = rw (
    decode_address-first throws b b.router.initiators_config i b.call.trans.address c e h free,
    lt→ltb i (length b.router.initiators_config) (get_elem?-bound b.router.initiators_config i e),
    ret,
    through,
  )

  -- An address outside every region leaves the bus as it was: with a report handler that throws,
  -- the caller gets the router's error; with one that does not, the callback goes on to index the
  -- sockets with 2^32 - 1, which is undefined for any array of at most that many.
  pub b_transport_unmatched :
      (b : Bus D)
      → Uncovered b.router.initiators_config
          (length b.router.initiators_config)
          b.call.trans.address
      → length b.router.initiators_config < 2 ^ 32
      → b_transport throws targets id b ≡ (
          if throws error
          then raised (record { severity = error; msg_type = "TLM-ROUTER" }) b
          else undefined)
  unfolding b_transport
  b_transport_unmatched b free small = elim (Bool-cases (throws error)) [
    | inl t ↦
        rw (
          decode_address_unmatched throws b b.router.initiators_config b.call.trans.address free,
          t,
        )
    | inr f ↦ rw (
      decode_address_unmatched throws b b.router.initiators_config b.call.trans.address free,
      f,
      le→ltb (2 ^ 32 - 1) (length b.router.initiators_config) (omega arith),
    )
  ]

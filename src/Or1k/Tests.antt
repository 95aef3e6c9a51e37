-- ===== src/Or1k/Tests.antt =====
-- Runs of the models of models/wishbone/or1k/ on words and bus cycles.
use deltamodels.Base.{
  false, List, [], ◌∷◌, ◌≡◌, refl, some, default_handler, true, raised, error, arith, if◌then◌else◌,
}
use Prim.Native.String.{String}
use deltamodels.Or1k.Text.{codes, decimal}
use deltamodels.Or1k.Descriptor.{
  Or1kDescriptor, to_string, operands, operand, reg_d, reg_a, reg_b, register,
}
use deltamodels.Or1k.Defs.{
  get_opcodes, moves, control, load_store, extends, alu_regs, alu_imms, compare_regs, compare_imms,
  multiplies, systems,
}
use deltamodels.Or1k.Decoder.{find_match, parse}
use deltamodels.Or1k.Shadows.{live, is_covered, find_match-live}
use deltamodels.Or1k.Tracers.{
  InstructionTracer, InstructionRow, Ibus, Dbus, log_text, trace_instruction, init,
}
use deltamodels.Or1k.Streams.{
  Shows, trace_instructions, trace_instructions-fetches, trace_clock, cycles, trace_clock-cycles,
}

-- The names of the entries that an earlier one covers.
dead_names : List Or1kDescriptor → List Or1kDescriptor → List String
dead_names kept [] = []
dead_names kept (e ∷ es) =
    if is_covered kept e then e.rep ∷ dead_names kept es else dead_names (e ∷ kept) es

-- The four entries of the table that no word decodes to.
table_dead : dead_names [] get_opcodes ≡ "l.cmov" ∷ "l.ff1" ∷ "l.maci" ∷ "l.macrc" ∷ []
unfolding get_opcodes moves control load_store extends alu_regs alu_imms compare_regs compare_imms
    multiplies systems dead_names is_covered
table_dead = refl

abbrev add : Or1kDescriptor
add = record {
  rep = "l.add";
  mask = 0xfc00030f;
  matcher = 0xe0000000;
  regs = "reg_d" ∷ "reg_a" ∷ "reg_b" ∷ [];
}

abbrev catch_all : Or1kDescriptor
catch_all = record { rep = "any"; mask = 0; matcher = 0; regs = [] }

abbrev table : List Or1kDescriptor
table = add ∷ catch_all ∷ add ∷ []

found_any : find_match table 0x12345678 ≡ some catch_all
unfolding find_match
found_any = refl

find_match-live_example : find_match (live [] table) 0xe0000000 ≡ find_match table 0xe0000000
find_match-live_example = find_match-live table 0xe0000000

abbrev cycle : Ibus
cycle = record { clk = 1; ibus_adr = 0x100; ibus_dat = 0xe0642800; ibus_ack = 1 }

-- A register field keeps four of its five bits: register 19 is printed as 3.
add_text : to_string add 0xe0730000 ≡ codes "l.add r3, r3, r0, "
unfolding to_string operands operand reg_d reg_a reg_b register decimal codes
add_text = refl

-- A word that the table without its last two entries has, one that is not acknowledged and one
-- that it lacks.
abbrev strict : InstructionTracer
strict = record { descriptors = add ∷ []; stop_on_invalid = true; rows = [] }

abbrev fetched : List Ibus
fetched = cycle ∷ record cycle { ibus_ack = 0 } ∷ record cycle { ibus_dat = 0 } ∷ cycle ∷ []

trace_instructions-fetches_example :
    (rows : List InstructionRow) × (trace_instructions default_handler fetched strict
      ≡ raised
          (record { severity = error; msg_type = "TLM-ROUTER" })
          (record strict { rows = rows }))
    × Shows (add ∷ []) rows (cycle ∷ [])
unfolding parse find_match
trace_instructions-fetches_example =
    trace_instructions-fetches default_handler fetched strict refl
      (omega arith, (omega arith, (omega arith, (omega arith, tt))))

abbrev access : Dbus
access = record { clk = 0; dbus_adr = 8; dbus_dat_w = 7; dbus_dat_r = 9; dbus_ack = 1; dbus_we = 0 }

trace_clock-cycles_example :
    trace_clock (cycles (access ∷ record access { dbus_ack = 0 } ∷ [])) []
    ≡ record { address = 8; word = 7; is_write = false } ∷ []
trace_clock-cycles_example = trace_clock-cycles (access ∷ record access { dbus_ack = 0 } ∷ []) []

-- The word of all ones stops a new tracer that stops on invalid words.
all_ones :
    trace_instruction default_handler
      (record { clk = 1; ibus_adr = 0; ibus_dat = 0xffffffff; ibus_ack = 1 })
      (init true)
    ≡ raised (record { severity = error; msg_type = "TLM-ROUTER" }) (init true)
unfolding trace_instruction log_text parse find_match init get_opcodes moves control load_store
    extends alu_regs alu_imms compare_regs compare_imms multiplies systems
all_ones = refl

-- ===== src/Or1k/Tracers.antt =====
-- `Or1kInstructionTracer::parse` and `Or1kDataTracer::trace` (models/wishbone/or1k/
-- or1k_instruction_tracer.hpp and or1k_data_tracer.hpp): the record that a clock change logs,
-- without the time stamp and the column layout, which are the simulator's and the logger's.
use deltamodels.Base.{
  ℕ, Bool, Option, none, some, List, [], ◌∷◌, ◌++◌, ◌==◌, if◌then◌else◌, bit_and, shr, Run, done,
  Handler, error, report, ◌>>=◌,
}
use deltamodels.Or1k.Text.{Text}
use deltamodels.Or1k.Descriptor.{Or1kDescriptor}
use deltamodels.Or1k.Defs.{get_opcodes}
use deltamodels.Or1k.Decoder.{parse}

-- The address, the four bytes of the word from the top, and its text if it has one.
pub record InstructionRow : Type 0 where
  pub address : ℕ
  pub byte3 : ℕ
  pub byte2 : ℕ
  pub byte1 : ℕ
  pub byte0 : ℕ
  pub instruction : Option Text

pub record InstructionTracer : Type 0 where
  pub descriptors : List Or1kDescriptor
  pub stop_on_invalid : Bool
  pub rows : List InstructionRow

-- The constructor, whose `check_opcodes` only prints; the file's logger is set up in Logs.
unfoldable pub init : Bool → InstructionTracer
init stop_on_invalid = record {
  descriptors = get_opcodes;
  stop_on_invalid = stop_on_invalid;
  rows = [];
}

pub record Ibus : Type 0 where
  pub clk : ℕ
  pub ibus_adr : ℕ
  pub ibus_dat : ℕ
  pub ibus_ack : ℕ

unfoldable pub instruction_row : Ibus → Option Text → InstructionRow
instruction_row i text = record {
  address = i.ibus_adr;
  byte3 = bit_and (shr i.ibus_dat 24) 0xff;
  byte2 = bit_and (shr i.ibus_dat 16) 0xff;
  byte1 = bit_and (shr i.ibus_dat 8) 0xff;
  byte0 = bit_and i.ibus_dat 0xff;
  instruction = text;
}

unfoldable pub log_row : Ibus → Option Text → InstructionTracer → InstructionTracer
unfolding instruction_row
log_row i text t = record t { rows = t.rows ++ (instruction_row i text ∷ []) }

-- The two branches on what the decoder answered.
unfoldable pub log_text :
    Handler → Ibus → InstructionTracer → Option Text → Run InstructionTracer InstructionTracer
unfolding log_row
log_text throws i t (some text) = done (log_row i (some text) t)
log_text throws i t none =
    if t.stop_on_invalid
    then (report throws error "TLM-ROUTER" t >>= λ _. done t)
    else done (log_row i none t)

unfoldable pub trace_instruction :
    Handler → Ibus → InstructionTracer → Run InstructionTracer InstructionTracer
unfolding log_text
trace_instruction throws i t =
    if i.clk == 1
    then (if i.ibus_ack == 1 then log_text throws i t (parse t.descriptors i.ibus_dat) else done t)
    else done t

pub record Dbus : Type 0 where
  pub clk : ℕ
  pub dbus_adr : ℕ
  pub dbus_dat_w : ℕ
  pub dbus_dat_r : ℕ
  pub dbus_ack : ℕ
  pub dbus_we : ℕ

pub record DataRow : Type 0 where
  pub address : ℕ
  pub word : ℕ
  pub is_write : Bool

-- Both branches read `dbus_dat_w`.
unfoldable pub data_row : Dbus → DataRow
data_row d = record { address = d.dbus_adr; word = d.dbus_dat_w; is_write = d.dbus_we == 1 }

unfoldable pub trace_data : Dbus → List DataRow → List DataRow
unfolding data_row
trace_data d rows =
    if d.clk == 1 then (if d.dbus_ack == 1 then rows ++ (data_row d ∷ []) else rows) else rows

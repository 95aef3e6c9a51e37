-- ===== src/Or1k/Streams.antt =====
-- What the two tracers of models/wishbone/or1k/ log over a sequence of clock changes.
use mathlib.Core.List.{append_assoc, append-nil}
use deltamodels.Base.{
  ◌^◌, ◌<◌, ◌≡◌, refl, sym, ap, ◌∙◌, Bool, true, false, ◌&&◌, Bool-cases, inl, inr, Option, none,
  some, List, [], ◌∷◌, ◌++◌, ◌==◌, if◌then◌else◌, arith, Run, done, raised, Handler, error, ◌>>=◌,
}
use deltamodels.Or1k.Text.{Text}
use deltamodels.Or1k.Descriptor.{Or1kDescriptor}
use deltamodels.Or1k.Decoder.{parse}
use deltamodels.Or1k.Tracers.{
  InstructionRow, InstructionTracer, Ibus, Dbus, DataRow, instruction_row, log_row, log_text,
  trace_instruction, trace_data, data_row,
}
use deltamodels.Or1k.Traces.{row_word, bytes_of_word}

-- The process, called at each change of the clock.
pub trace_instructions :
    Handler → List Ibus → InstructionTracer → Run InstructionTracer InstructionTracer
trace_instructions throws [] t = done t
trace_instructions throws (i ∷ is) t = trace_instruction throws i t >>= trace_instructions throws is

abbrev acknowledged : Ibus → Bool
acknowledged i = i.clk == 1 && i.ibus_ack == 1

abbrev is_invalid : List Or1kDescriptor → Ibus → Bool
is_invalid ds i = elim (parse ds i.ibus_dat) [ some _ ↦ false | none ↦ true ]

-- The acknowledged fetches up to the one that the tracer stops at, and whether it gets to the end.
abbrev pub fetches : List Or1kDescriptor → Bool → List Ibus → List Ibus × Bool
fetches ds stop [] = ([], true)
fetches ds stop (i ∷ is) =
    let rest = fetches ds stop is in
    if acknowledged i
    then (if stop && is_invalid ds i then ([], false) else (i ∷ rest.0, rest.1))
    else rest

-- A row for each fetch: its address, its word and the decoder's text for the word.
abbrev pub Shows : List Or1kDescriptor → List InstructionRow → List Ibus → Type 0
Shows ds [] [] = Unit
Shows ds (r ∷ rs) (i ∷ is) =
    (r.address ≡ i.ibus_adr)
    × (row_word r ≡ i.ibus_dat)
    × (r.instruction ≡ parse ds i.ibus_dat)
    × Shows ds rs is
Shows ds _ _ = ⊥

abbrev pub AllWords : List Ibus → Type 0
AllWords [] = Unit
AllWords (i ∷ is) = (i.ibus_dat < 2 ^ 32) × AllWords is

module _ (throws : Handler) where
  passes :
      (i : Ibus) (t : InstructionTracer)
      → acknowledged i ≡ false
      → trace_instruction throws i t ≡ done t
  unfolding trace_instruction
  passes i t quiet = ground arith

  logs :
      (i : Ibus) (t : InstructionTracer)
      → acknowledged i ≡ true
      → (t.stop_on_invalid && is_invalid t.descriptors i) ≡ false
      → trace_instruction throws i t ≡ done (log_row i (parse t.descriptors i.ibus_dat) t)
  unfolding trace_instruction log_text
  logs i t ack valid = ground arith

  stops :
      (i : Ibus) (t : InstructionTracer)
      → throws error ≡ true
      → acknowledged i ≡ true
      → (t.stop_on_invalid && is_invalid t.descriptors i) ≡ true
      → trace_instruction throws i t
        ≡ raised (record { severity = error; msg_type = "TLM-ROUTER" }) t
  unfolding trace_instruction log_text
  stops i t halts ack invalid = ground arith

  -- The tracer with these rows more, and whether the process came to the end of the changes.
  abbrev pub outcome :
      Bool → InstructionTracer → List InstructionRow → Run InstructionTracer InstructionTracer
  outcome complete t rows =
      let t' : InstructionTracer = record t { rows = t.rows ++ rows } in
      if complete then done t' else raised (record { severity = error; msg_type = "TLM-ROUTER" }) t'

  outcome-log_row :
      (complete : Bool) (t : InstructionTracer) (i : Ibus) (text : Option Text)
      (rows : List InstructionRow)
      → outcome complete (log_row i text t) rows
        ≡ outcome complete t (instruction_row i text ∷ rows)
  unfolding log_row
  outcome-log_row complete t i text rows =
      ap
        (λ (all : List InstructionRow).
          if complete
          then done (record t { rows = all })
          else raised (record { severity = error; msg_type = "TLM-ROUTER" })
              (record t { rows = all }))
        (append_assoc t.rows (instruction_row i text ∷ []) rows)

  outcome-nil :
      (complete : Bool) (t : InstructionTracer)
      → outcome complete t [] ≡ (
          if complete
          then done t
          else raised (record { severity = error; msg_type = "TLM-ROUTER" }) t)
  outcome-nil complete t = rw (append-nil t.rows) refl

  -- Over any sequence of clock changes with 32-bit words on the bus, where an error report throws,
  -- the tracer logs one row for each acknowledged fetch at a clock of 1, in order, with the fetch's
  -- address, its word in four bytes and the decoder's text, if any. A tracer that stops on invalid
  -- words raises the error at the first such fetch that no descriptor matches, with the rows of the
  -- fetches before it; otherwise the process comes to the end of the changes.
  pub trace_instructions-fetches :
      (is : List Ibus) (t : InstructionTracer)
      → throws error ≡ true
      → AllWords is
      → let seen = fetches t.descriptors t.stop_on_invalid is in
        (rows : List InstructionRow) × (trace_instructions throws is t ≡ outcome seen.1 t rows)
        × Shows t.descriptors rows seen.0
  unfolding trace_instructions instruction_row log_row
  trace_instructions-fetches [] t halts words = ([], sym (outcome-nil true t), tt)
  trace_instructions-fetches (i ∷ is) t halts words = elim (Bool-cases (acknowledged i)) [
    | inr quiet ↦
        let (rows, run, shown) = trace_instructions-fetches is t halts words.1 in
        (rows, rw (quiet, passes i t quiet) run, rw quiet shown)
    | inl ack ↦ elim (Bool-cases (t.stop_on_invalid && is_invalid t.descriptors i)) [
      | inl invalid ↦ (
        [],
        rw (ack, invalid, stops i t halts ack invalid) (sym (outcome-nil false t)),
        rw (ack, invalid) tt,
      )
      | inr valid ↦
          let text = parse t.descriptors i.ibus_dat in
          let (rows, run, shown) = trace_instructions-fetches is (log_row i text t) halts words.1 in
          (
            instruction_row i text ∷ rows,
            rw (ack, valid, logs i t ack valid) (run ∙ outcome-log_row _ t i text rows),
            rw (ack, valid) (refl, bytes_of_word i.ibus_dat words.0, refl, shown),
          )
    ]
  ]

-- The data tracer's process, called at each change of the clock.
pub trace_clock : List Dbus → List DataRow → List DataRow
unfolding trace_data
trace_clock [] rows = rows
trace_clock (d ∷ ds) rows = trace_clock ds (trace_data d rows)

-- The two clock changes of each bus cycle.
abbrev pub cycles : List Dbus → List Dbus
cycles [] = []
cycles (d ∷ ds) = record d { clk = 1 } ∷ record d { clk = 0 } ∷ cycles ds

-- A row for each acknowledged cycle, with the word on the bus's write lines.
abbrev pub transfers : List Dbus → List DataRow
transfers [] = []
transfers (d ∷ ds) =
    if d.dbus_ack == 1
    then record { address = d.dbus_adr; word = d.dbus_dat_w; is_write = d.dbus_we == 1 }
      ∷ transfers ds
    else transfers ds

append_if :
    (b : Bool) (r : DataRow) (rows more : List DataRow)
    → (if b then rows ++ (r ∷ []) else rows) ++ more ≡ rows ++ (if b then r ∷ more else more)
append_if true r rows more = append_assoc rows (r ∷ []) more
append_if false r rows more = refl

-- Over any sequence of bus cycles, each with a rise and a fall of the clock, the data tracer adds
-- one row for each acknowledged cycle, in order: the address, the direction, and, for reads as for
-- writes, the word on the write lines.
pub trace_clock-cycles :
    (ds : List Dbus) (rows : List DataRow) → trace_clock (cycles ds) rows ≡ rows ++ transfers ds
unfolding trace_clock trace_data data_row
trace_clock-cycles [] rows = sym (append-nil rows)
trace_clock-cycles (d ∷ ds) rows =
    trace_clock-cycles ds (if d.dbus_ack == 1 then rows ++ (data_row d ∷ []) else rows)
    ∙ append_if (d.dbus_ack == 1) (data_row d) rows (transfers ds)

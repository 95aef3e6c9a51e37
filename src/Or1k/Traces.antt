-- ===== src/Or1k/Traces.antt =====
-- What the instruction tracer logs, against the word on the bus.
use deltamodels.Base.{
  ℕ, ◌+◌, ◌*◌, ◌^◌, ◌<◌, ◌≡◌, refl, false, Option, none, some, [], ◌∷◌, ◌++◌, arith, bit_and,
  bit_and-ones, shr, done, Handler,
}
use deltamodels.Or1k.Text.{Text}
use deltamodels.Or1k.Decoder.{parse}
use deltamodels.Or1k.Tracers.{
  InstructionRow, InstructionTracer, Ibus, instruction_row, log_row, log_text, trace_instruction,
}

pub bytes_of_word :
    (w : ℕ)
    → w < 2 ^ 32
    → bit_and (shr w 24) 0xff * 2 ^ 24
        + (bit_and (shr w 16) 0xff * 2 ^ 16 + (bit_and (shr w 8) 0xff * 2 ^ 8 + bit_and w 0xff))
      ≡ w
bytes_of_word w small = omega (
  arith,
  bit_and-ones 8 (shr w 24),
  bit_and-ones 8 (shr w 16),
  bit_and-ones 8 (shr w 8),
  bit_and-ones 8 w,
)

log_text-logs :
    (throws : Handler) (i : Ibus) (t : InstructionTracer) (text : Option Text)
    → t.stop_on_invalid ≡ false
    → log_text throws i t text ≡ done (log_row i text t)
unfolding log_text
log_text-logs throws i t (some text) go = refl
log_text-logs throws i t none go = rw go refl

-- The number whose bytes a row shows.
abbrev pub row_word : InstructionRow → ℕ
row_word r = r.byte3 * 2 ^ 24 + (r.byte2 * 2 ^ 16 + (r.byte1 * 2 ^ 8 + r.byte0))

-- At a clock change to 1 with the acknowledge at 1, a tracer that does not stop on invalid words
-- returns and appends one row: the address of the bus, four bytes that make up the 32-bit word of
-- the bus, and the decoder's text for that word, or no text where it has none.
trace_instruction-logs :
    (throws : Handler) (i : Ibus) (t : InstructionTracer)
    → i.clk ≡ 1
    → i.ibus_ack ≡ 1
    → i.ibus_dat < 2 ^ 32
    → t.stop_on_invalid ≡ false
    → (row : InstructionRow) × ((trace_instruction throws i t
          ≡ done (record t { rows = t.rows ++ (row ∷ []) }))
        × ((row.address ≡ i.ibus_adr)
            × ((row_word row ≡ i.ibus_dat) × (row.instruction ≡ parse t.descriptors i.ibus_dat))))
unfolding trace_instruction log_row instruction_row
trace_instruction-logs throws i t high ack small go =
    let row = instruction_row i (parse t.descriptors i.ibus_dat) in
    let runs = log_text-logs throws i t (parse t.descriptors i.ibus_dat) go in
    (row, (rw (high, ack) runs, (refl, (bytes_of_word i.ibus_dat small, refl))))

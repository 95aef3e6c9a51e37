-- ===== src/Flash/Read.antt =====
-- A quad read over consecutive clock cycles (models/memories/flash/N25QX.hpp).
use mathlib.Core.List.{append_assoc}
use deltamodels.Base.{
  sym, u32, ◌/◌, ℕ, ◌+◌, ◌*◌, ◌%◌, ◌^◌, ◌<◌, ◌≡◌, refl, ap, ◌∙◌, List, [], ◌∷◌, ◌++◌, arith, length,
}
use deltamodels.Flash.{
  Flash, Pins, idle_phase, quad_read_addr_phase, quad_read_dummy_phase, fetch, flash_handler, Row,
}
use deltamodels.Flash.Cycles.{
  cycles, cycles-++, selected, selects, addr_one, addr_last, resp_one, dummies, responses,
  answering, view, answer_rows,
}

-- The bits of the quad-read command on the lowest data line, the highest first.
abbrev pub quad_read_bits : List ℕ
quad_read_bits = 1 ∷ 1 ∷ 1 ∷ 0 ∷ 1 ∷ 0 ∷ 1 ∷ 1 ∷ []

commanded :
    (d : ℕ) (f : Flash)
    → f.phase ≡ idle_phase
    → cycles (selected d ∷ []) (cycles (selects quad_read_bits) f)
      ≡ record f { phase = quad_read_addr_phase; cmd = 0xeb; cnt = 1; addr = d }
unfolding cycles selects flash_handler
commanded d f ph = rw ph refl

-- The address phase after `k` cycles.
abbrev addressing : Flash → ℕ → ℕ → Flash
addressing f k a = record f { phase = quad_read_addr_phase; cmd = 0xeb; cnt = k; addr = a }

-- The number of six half-bytes, the highest first.
abbrev pub address : ℕ → ℕ → ℕ → ℕ → ℕ → ℕ → ℕ
address d0 d1 d2 d3 d4 d5 = 16 * (16 * (16 * (16 * (16 * d0 + d1) + d2) + d3) + d4) + d5

address_taken :
    (d0 d1 d2 d3 d4 d5 : ℕ) (f : Flash)
    → (d0 < 16) × (d1 < 16) × (d2 < 16) × (d3 < 16) × (d4 < 16) × (d5 < 16)
    → cycles (selects (d1 ∷ d2 ∷ d3 ∷ d4 ∷ d5 ∷ [])) (addressing f 1 d0)
      ≡ addressing f 6 (address d0 d1 d2 d3 d4 d5)
unfolding cycles selects
address_taken d0 d1 d2 d3 d4 d5 f small =
    let a1 : ℕ = 16 * d0 + d1 in
    let a2 : ℕ = 16 * a1 + d2 in
    let a3 : ℕ = 16 * a2 + d3 in
    let a4 : ℕ = 16 * a3 + d4 in
    ap (cycles (selects (d2 ∷ d3 ∷ d4 ∷ d5 ∷ [])))
      (addr_one d1 (addressing f 1 d0) refl (omega arith) (omega arith) small.1)
    ∙ ap (cycles (selects (d3 ∷ d4 ∷ d5 ∷ [])))
        (addr_one d2 (addressing f 2 a1) refl (omega arith) (omega arith) small.2)
    ∙ ap (cycles (selects (d4 ∷ d5 ∷ [])))
        (addr_one d3 (addressing f 3 a2) refl (omega arith) (omega arith) small.3)
    ∙ ap (cycles (selects (d5 ∷ [])))
        (addr_one d4 (addressing f 4 a3) refl (omega arith) (omega arith) small.4)
    ∙ addr_one d5 (addressing f 5 a4) refl (omega arith) (omega arith) small.5

-- A read transaction: the command, six half-bytes of address, one cycle more, the dummy cycles `ds`,
-- and a cycle for each half-byte asked for.
abbrev pub transaction : ℕ → ℕ → ℕ → ℕ → ℕ → ℕ → Pins → List Pins → List ℕ → List Pins
transaction d0 d1 d2 d3 d4 d5 turn ds ns =
    selects quad_read_bits
    ++ (selected d0 ∷ (selects (d1 ∷ d2 ∷ d3 ∷ d4 ∷ d5 ∷ []) ++ (turn ∷ (ds ++ selects ns))))

-- The parts of a transaction one after the other.
pub transaction_lem :
    (d0 d1 d2 d3 d4 d5 m : ℕ) (ms ns : List ℕ) (f : Flash)
    → cycles (selects ns) (
        cycles
          (selects (m ∷ ms))
          (cycles (selects (d0 ∷ d1 ∷ d2 ∷ d3 ∷ d4 ∷ d5 ∷ [])) (cycles (selects quad_read_bits) f)))
      ≡ cycles (transaction d0 d1 d2 d3 d4 d5 (selected m) (selects ms) ns) f
unfolding cycles selects
transaction_lem d0 d1 d2 d3 d4 d5 m ms ns f =
    let nibbles = selects (d1 ∷ d2 ∷ d3 ∷ d4 ∷ d5 ∷ []) in
    let tail = selected m ∷ (selects ms ++ selects ns) in
    let f1 = cycles (selected d0 ∷ []) (cycles (selects quad_read_bits) f) in
    sym (
      cycles-++ (selects quad_read_bits) (selected d0 ∷ (nibbles ++ tail)) f
      ∙ cycles-++ nibbles tail f1
      ∙ cycles-++ (selects ms) (selects ns) (cycles (selected m ∷ []) (cycles nibbles f1)))

-- From the idle phase, a read transaction with two dummy cycles fewer than configured brings the
-- flash to the response phase at the address, with nothing answered yet.
ready :
    (d0 d1 d2 d3 d4 d5 : ℕ) (turn : Pins) (ds : List Pins) (ns : List ℕ) (f : Flash)
    → f.phase ≡ idle_phase
    → (d0 < 16) × (d1 < 16) × (d2 < 16) × (d3 < 16) × (d4 < 16) × (d5 < 16)
    → 2 < f.dummy_cycles
    → 2 + length ds ≡ f.dummy_cycles
    → f.dummy_cycles < 2 ^ 32
    → cycles (transaction d0 d1 d2 d3 d4 d5 turn ds ns) f
      ≡ cycles (selects ns) (answering (addressing f 6 (address d0 d1 d2 d3 d4 d5)))
unfolding cycles
ready d0 d1 d2 d3 d4 d5 turn ds ns f ph small more enough bound =
    let a : ℕ = address d0 d1 d2 d3 d4 d5 in
    let waiting : Flash = record (addressing f 6 a) {
      phase = quad_read_dummy_phase;
      cnt = 2;
      dq_out = 0;
    } in
    let nibbles = selects (d1 ∷ d2 ∷ d3 ∷ d4 ∷ d5 ∷ []) in
    let tail = turn ∷ (ds ++ selects ns) in
    cycles-++ (selects quad_read_bits) (selected d0 ∷ (nibbles ++ tail)) f
    ∙ ap (cycles (nibbles ++ tail)) (commanded d0 f ph)
    ∙ cycles-++ nibbles tail (addressing f 1 d0)
    ∙ ap (cycles tail) (address_taken d0 d1 d2 d3 d4 d5 f small)
    ∙ ap (cycles (ds ++ selects ns)) (addr_last turn (addressing f 6 a) refl refl)
    ∙ cycles-++ ds (selects ns) waiting
    ∙ ap (cycles (selects ns)) (dummies ds waiting refl (omega arith) enough bound)

-- From the idle phase, a read transaction with two dummy cycles fewer than configured (at least one,
-- and fewer than 2^32) that has asked for fewer than 2^31 half-bytes answers the next cycle with the
-- stored half-byte at twice the address plus their number, or with 0 where nothing is stored. Before
-- that cycle it has logged a row for half-byte 0, with the value 0, that nobody asked for, and a row
-- for each half-byte asked for; the row of a low half-byte has the address of the byte after its
-- own.
pub quad_read :
    (d0 d1 d2 d3 d4 d5 n : ℕ) (turn : Pins) (ds : List Pins) (ns : List ℕ) (f : Flash)
    → f.phase ≡ idle_phase
    → (d0 < 16) × (d1 < 16) × (d2 < 16) × (d3 < 16) × (d4 < 16) × (d5 < 16)
    → 2 < f.dummy_cycles
    → 2 + length ds ≡ f.dummy_cycles
    → f.dummy_cycles < 2 ^ 32
    → length ns < 2 ^ 31
    → let g = cycles (transaction d0 d1 d2 d3 d4 d5 turn ds ns) f in
      let a = address d0 d1 d2 d3 d4 d5 in
      ((cycles (selected n ∷ []) g).dq_out ≡ fetch (2 * a + length ns) f.conf_memory % 2 ^ 4)
      × (g.log
          ≡ f.log
            ++ (record { address = a; idx = 0; word = 0 }
                ∷ answer_rows a 0 (length ns) (view f.conf_memory)))
quad_read d0 d1 d2 d3 d4 d5 n turn ds ns f ph small more enough bound few =
    let a : ℕ = address d0 d1 d2 d3 d4 d5 in
    let begun : Flash = answering (addressing f 6 a) in
    let g : Flash = cycles (selects ns) begun in
    let r = responses ns begun refl (omega arith) in
    let place : g.addr * 2 + g.cnt ≡ 2 * a + length ns = omega (arith, r.addressed, r.counted) in
    let begins = ready d0 d1 d2 d3 d4 d5 turn ds ns f ph small more enough bound in
    let nobody : Row = record { address = a; idx = 0; word = 0 } in
    let first : u32 (a + 0 / 2) ≡ a = omega arith in
    let rows = answer_rows a 0 (length ns) (view f.conf_memory) in
    (
      ap (λ (t : Flash). (cycles (selected n ∷ []) t).dq_out) begins
          ∙ ap (λ (t : Flash). t.dq_out) (resp_one n g r.responds (omega (arith, place)))
          ∙ ap (λ (t : ℕ). fetch t g.conf_memory % 2 ^ 4) place
          ∙ ap (λ (half : ℕ → ℕ). half (2 * a + length ns) % 2 ^ 4) r.kept,
      ap (λ (t : Flash). t.log) begins
          ∙ r.shown
          ∙ ap (λ (b : ℕ). (f.log ++ (record nobody { address = b } ∷ [])) ++ rows) first
          ∙ append_assoc f.log (nobody ∷ []) rows,
    )

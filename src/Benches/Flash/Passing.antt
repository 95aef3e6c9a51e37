-- ===== src/Benches/Flash/Passing.antt =====
-- The program of models/memories/tests/test_flash.cpp reads the image back.
use mathlib.Core.List.{append_assoc}
use deltamodels.Base.{
  ℕ, zero, suc, ◌+◌, ◌-◌, ◌*◌, ◌/◌, ◌%◌, ◌^◌, ◌<◌, ◌≤◌, ◌≡◌, refl, sym, ap, ◌∙◌, some, List, [],
  ◌∷◌, ◌++◌, arith, bit_and, bit_and-ones, bit_or, bit_or_low, shl, shr, ones, u8, length,
  length-append, get_elem?, done, Run, ◌>>=◌, Handler, ◌==◌, ==_iff, true, lt→ltb,
}
use deltamodels.Or1k.Text.{Text, codes}
use deltamodels.Checks.{Reports, same_vector}
use deltamodels.Checks.Passing.{match_passes, same_vector_iff}
use deltamodels.Sdram.Images.{AllBytes}
use deltamodels.Flash.Load.{configured_idle}
use deltamodels.Flash.{idle_phase, Flash, init, configure_region}
use deltamodels.Flash.Cycles.{rests_idle, cycles, selected, selects}
use deltamodels.Flash.Read.{transaction_lem, address}
use deltamodels.Flash.FileRead.{quad_read-configure_region}
use deltamodels.Benches.Flash.{
  deselected, fields, held, read_bytes, transaction, content_read, compared, sc_main,
}

-- The half-bytes that the address is sent as.
address_sent :
    (a : ℕ)
    → a < 2 ^ 24
    → let d = λ (k : ℕ). bit_and (shr a (4 * k)) (ones 4) in
      (address (d 5) (d 4) (d 3) (d 2) (d 1) (d 0) ≡ a)
      × ((d 5 < 16) × (d 4 < 16) × (d 3 < 16) × (d 2 < 16) × (d 1 < 16) × (d 0 < 16))
address_sent a small =
    let d = λ (k : ℕ). bit_and-ones 4 (shr a (4 * k)) in omega (arith, d 5, d 4, d 3, d 2, d 1, d 0)

get_elem?-append : (pre post : List ℕ) (b : ℕ) → get_elem? (pre ++ (b ∷ post)) (length pre) ≡ some b
get_elem?-append [] post b = refl
get_elem?-append (x ∷ pre) post b = get_elem?-append pre post b

-- Waiting is a number of cycles with something on the lines.
held-cycles :
    (n dq : ℕ) (f : Flash)
    → (ns : List ℕ) × (length ns ≡ n) × ((held n (dq, f)).1 ≡ cycles (selects ns) f)
unfolding cycles selects
held-cycles zero dq f = ([], refl, refl)
held-cycles (suc n) dq f =
    let (ns, len, run) =
      held-cycles n (cycles (selected dq ∷ []) f).dq_out (cycles (selected dq ∷ []) f) in
    (dq ∷ ns, omega (arith, len), run)

length-selects : (ns : List ℕ) → length (selects ns) ≡ length ns
unfolding selects
length-selects [] = refl
length-selects (n ∷ ns) = omega (arith, length-selects ns)

idle_lem : (n : ℕ) (f : Flash) → f.phase ≡ idle_phase → cycles (deselected n) f ≡ f
unfolding cycles
idle_lem zero f idle = refl
idle_lem (suc n) f idle = ap (cycles (deselected n)) (rests_idle 0 f idle) ∙ idle_lem n f idle

cycles-snoc :
    (ns : List ℕ) (x : ℕ) (f : Flash)
    → cycles (selects (ns ++ (x ∷ []))) f ≡ cycles (selected x ∷ []) (cycles (selects ns) f)
unfolding cycles selects
cycles-snoc [] x f = refl
cycles-snoc (n ∷ ns) x f = cycles-snoc ns x (cycles (selected n ∷ []) f)

join_byte : (b : ℕ) → b < 256 → u8 (bit_or (b % 16) (shl (u8 (b / 16)) 4)) ≡ b
join_byte b small =
    let low : bit_or (b % 16) (shl (u8 (b / 16)) 4) ≡ shl (u8 (b / 16)) 4 + b % 16 =
      bit_or_low 4 (u8 (b / 16)) (b % 16) (omega arith) in
    omega (arith, low)

module _ (a dummy_cycles cmd cnt addr m : ℕ) (ms file : List ℕ) (low : a < 2 ^ 24)
    (few : length file ≤ 2 ^ 29) (more : 2 < dummy_cycles) (enough : 2 + length ms ≡ dummy_cycles)
    (bound : dummy_cycles < 2 ^ 32) where
  abbrev new : Flash
  new = configure_region file a (init dummy_cycles cmd cnt addr)

  abbrev digit : ℕ → ℕ
  digit k = bit_and (shr a (4 * k)) (ones 4)

  -- The flash once the dummy cycles are over.
  abbrev ready : Flash
  ready =
      cycles (selects (m ∷ ms))
        (cycles (selects (fields 4 6 a)) (cycles (selects (fields 1 8 0xeb)) new))

  answers :
      (ns pre post : List ℕ) (n o b : ℕ)
      → file ≡ pre ++ (b ∷ post)
      → length ns ≡ 2 * length pre
      → b < 256
      → ((cycles (selected n ∷ []) (cycles (selects ns) ready)).dq_out ≡ b / 16)
        × ((cycles (selected o ∷ []) (cycles (selects (ns ++ (n ∷ []))) ready)).dq_out ≡ b % 16)
  answers ns pre post n o b whole count small =
      let (sent, digits) = address_sent a low in
      let lens = length-append pre (b ∷ post) in
      let size = ap (λ (bs : List ℕ). length bs) whole in
      let d5 = digit 5 in
      let d4 = digit 4 in
      let d3 = digit 3 in
      let d2 = digit 2 in
      let d1 = digit 1 in
      let d0 = digit 0 in
      let (high, low_half) =
        quad_read-configure_region d5 d4 d3 d2 d1 d0 n o (length pre) (selected m) (selects ms) ns
          file a (length pre) b dummy_cycles cmd cnt addr
          (ap (λ (bs : List ℕ). get_elem? bs (length pre)) whole ∙ get_elem?-append pre post b)
          small (omega (arith, few, low)) digits more (omega (arith, enough, length-selects ms))
          bound count (omega (arith, few, lens, size)) (omega (arith, sent)) in
      (
        ap (λ (f : Flash). (cycles (selected n ∷ []) f).dq_out)
              (transaction_lem d5 d4 d3 d2 d1 d0 m ms ns new)
            ∙ high,
        ap (λ (f : Flash). (cycles (selected o ∷ []) f).dq_out)
              (transaction_lem d5 d4 d3 d2 d1 d0 m ms (ns ++ (n ∷ [])) new)
            ∙ low_half,
      )

  read_bytes_lem :
      (post pre ns : List ℕ) (dq : ℕ) (f : Flash)
      → f ≡ cycles (selects ns) ready
      → file ≡ pre ++ post
      → length ns ≡ 2 * length pre
      → AllBytes post
      → (read_bytes (length post) (dq, f)).0 ≡ post
  read_bytes_lem [] pre ns dq f at whole count small = refl
  read_bytes_lem (b ∷ post) pre ns dq f at whole count small =
      let f1 = cycles (selected dq ∷ []) f in
      let o = f1.dq_out in
      let f2 = cycles (selected o ∷ []) f1 in
      let (high, low_half) = answers ns pre post dq o b whole count small.0 in
      let at1 : f1 ≡ cycles (selects (ns ++ (dq ∷ []))) ready =
        ap (cycles (selected dq ∷ [])) at ∙ sym (cycles-snoc ns dq ready) in
      let at2 : f2 ≡ cycles (selects ((ns ++ (dq ∷ [])) ++ (o ∷ []))) ready =
        ap (cycles (selected o ∷ [])) at1 ∙ sym (cycles-snoc (ns ++ (dq ∷ [])) o ready) in
      let out1 : o ≡ b / 16 = ap (λ (t : Flash). (cycles (selected dq ∷ []) t).dq_out) at ∙ high in
      let out2 : f2.dq_out ≡ b % 16 =
        ap (λ (t : Flash). (cycles (selected o ∷ []) t).dq_out) at1 ∙ low_half in
      let byte : u8 (bit_or f2.dq_out (shl (u8 o) 4)) ≡ b =
        ap (λ (x : ℕ). u8 (bit_or x (shl (u8 o) 4))) out2
        ∙ ap (λ (x : ℕ). u8 (bit_or (b % 16) (shl (u8 x) 4))) out1
        ∙ join_byte b small.0 in
      let rest =
        read_bytes_lem post (pre ++ (b ∷ [])) ((ns ++ (dq ∷ [])) ++ (o ∷ [])) f2.dq_out f2 at2
          (whole ∙ sym (append_assoc pre (b ∷ []) post))
          (omega (
            arith,
            count,
            length-append pre (b ∷ []),
            length-append (ns ++ (dq ∷ [])) (o ∷ []),
            length-append ns (dq ∷ []),
          ))
          small.1 in
      ap (λ (x : ℕ). x ∷ (read_bytes (length post) (f2.dq_out, f2)).0) byte
      ∙ ap (λ (xs : List ℕ). b ∷ xs) rest

-- The flash that a transaction has been sent to.
abbrev sent : ℕ → Flash → Flash
sent a f = cycles (selects (fields 4 6 a)) (cycles (selects (fields 1 8 0xeb)) f)

waited_lem :
    (dummy_cycles cmd cnt addr a : ℕ) (file ns : List ℕ) (s : ℕ × Flash)
    → a < 2 ^ 24
    → length file ≤ 2 ^ 29
    → 2 < dummy_cycles
    → dummy_cycles < 2 ^ 32
    → AllBytes file
    → length ns ≡ dummy_cycles - 1
    → s.1 ≡ cycles (selects ns) (sent a (configure_region file a (init dummy_cycles cmd cnt addr)))
    → (read_bytes (length file) s).0 ≡ file
unfolding cycles selects
waited_lem dummy_cycles cmd cnt addr a file [] s low few more bound bytes count at =
    absurd (omega arith)
waited_lem dummy_cycles cmd cnt addr a file (m ∷ ms) s low few more bound bytes count at =
    read_bytes_lem a dummy_cycles cmd cnt addr m ms file low few more (omega (arith, count)) bound
      file [] [] s.0 s.1 at refl refl bytes

transaction-reads :
    (dummy_cycles cmd cnt addr a : ℕ) (file : List ℕ)
    → let new = configure_region file a (init dummy_cycles cmd cnt addr) in
      a < 2 ^ 24
      → length file ≤ 2 ^ 29
      → 2 < dummy_cycles
      → dummy_cycles < 2 ^ 32
      → AllBytes file
      → (transaction dummy_cycles a (length file) new).0 ≡ file
unfolding transaction
transaction-reads dummy_cycles cmd cnt addr a file low few more bound bytes =
    let new = configure_region file a (init dummy_cycles cmd cnt addr) in
    let still = idle_lem 10 new (configured_idle file a dummy_cycles cmd cnt addr) in
    let begun = sent a (cycles (deselected 10) new) in
    let (ns, count, waited) = held-cycles (dummy_cycles - 1) (bit_and a (ones 4)) begun in
    waited_lem dummy_cycles cmd cnt addr a file ns
      (held (dummy_cycles - 1) (bit_and a (ones 4), begun)) low few more bound bytes count
      (waited ∙ ap (λ (f : Flash). cycles (selects ns) (sent a f)) still)

content_read_lem :
    {S : Type 0} (dummy_cycles address n : ℕ) (flash : Flash)
    → dummy_cycles < 2 ^ 31
    → content_read {S = S} dummy_cycles address n flash
      ≡ done (transaction dummy_cycles address n flash)
unfolding content_read
content_read_lem dummy_cycles address n flash bound = rw (lt→ltb dummy_cycles (2 ^ 31) bound) refl

compared-same :
    (throws : Handler) (file : List ℕ) (answer : List ℕ × Flash)
    → answer.0 ≡ file
    → compared throws file answer ≡ done (cycles (deselected 10) answer.1, [])
unfolding compared
compared-same throws file answer reads =
    let same : same_vector (◌==◌) answer.0 file ≡ true =
      (same_vector_iff (◌==◌) ==_iff answer.0 file).1 reads in
    rw
      (
        compared,
        match_passes (same_vector (◌==◌)) (λ (t : Text). t) throws answer.0 file (codes "check") []
            same,
      )
      refl

-- The flash test returns without a report for every image of at most 2^29 bytes, every address of 24
-- bits and every number of dummy cycles from 3 to 2^31 - 1, whatever a new flash's fields without an
-- initial value hold, if as many bytes are read as the image has.
pub sc_main_reads_back :
    (throws : Handler) (dummy_cycles cmd cnt addr a : ℕ) (file : List ℕ)
    → a < 2 ^ 24
    → length file ≤ 2 ^ 29
    → 2 < dummy_cycles
    → dummy_cycles < 2 ^ 31
    → AllBytes file
    → (f : Flash) × (sc_main throws dummy_cycles cmd cnt addr a file (length file) ≡ done (f, []))
unfolding sc_main
sc_main_reads_back throws dummy_cycles cmd cnt addr a file low few more bound bytes =
    let flash = configure_region file a (init dummy_cycles cmd cnt addr) in
    let answer = transaction dummy_cycles a (length file) flash in
    (
      cycles (deselected 10) answer.1,
      ap (λ (m : Run Reports (List ℕ × Flash)). m >>= compared throws file)
            (content_read_lem dummy_cycles a (length file) flash bound)
          ∙ compared-same throws file answer
              (transaction-reads dummy_cycles cmd cnt addr a file low few more (omega arith) bytes),
    )

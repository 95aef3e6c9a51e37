-- ===== src/Benches/Flash.antt =====
-- The program of models/memories/tests/test_flash.cpp. The bytes of the image, the address that they
-- are loaded at and read from, the number of dummy cycles and the number of bytes read are parameters:
-- the source's are its image of 52 bytes, 0x123456, 11 and 52. A call of `sc_start(1, SC_NS)` is one
-- cycle of the clock, a rise and a fall. Console output and the trace file are left out.
pub mod Passing
pub mod Tests
use deltamodels.Base.{
  ℕ, zero, suc, ◌-◌, ◌*◌, List, [], ◌∷◌, ◌==◌, bit_and, bit_or, shl, shr, ones, u8, ltb, ◌^◌,
  if◌then◌else◌, ◌>>=◌, Run, done, raised, undefined, Handler,
}
use deltamodels.Or1k.Text.{Text, codes}
use deltamodels.Checks.{Reports, same_vector, check_values_match}
use deltamodels.Flash.{Flash, Pins, init, configure_region}
use deltamodels.Flash.Cycles.{cycles, selected, selects}

-- `n` cycles with the chip not selected.
abbrev pub deselected : ℕ → List Pins
deselected zero = []
deselected (suc n) = record { cs_n = 1; dq = 0 } ∷ deselected n

-- The last `n` fields of `width` bits, the highest first, as the two sending loops put them on `dq`.
abbrev pub fields : ℕ → ℕ → ℕ → List ℕ
fields width zero v = []
fields width (suc n) v = bit_and (shr v (width * n)) (ones width) ∷ fields width n v

-- `n` cycles in which the bench writes nothing: the flash drives `dq` in each of them.
abbrev pub held : ℕ → ℕ × Flash → ℕ × Flash
held zero s = s
held (suc n) (dq, f) = let f' = cycles (selected dq ∷ []) f in held n (f'.dq_out, f')

-- The loop that reads `n` bytes.
abbrev pub read_bytes : ℕ → ℕ × Flash → List ℕ × Flash
read_bytes zero (dq, f) = ([], f)
read_bytes (suc n) s =
    let s1 = held 1 s in
    let s2 = held 1 s1 in
    let val = u8 (bit_or s2.0 (shl (u8 s1.0) 4)) in
    let (content, t) = read_bytes n s2 in (val ∷ content, t)

-- The read transaction and the bytes that it answers.
unfoldable pub transaction : ℕ → ℕ → ℕ → Flash → List ℕ × Flash
transaction dummy_cycles address n flash =
    let f1 = cycles (deselected 10) flash in
    let f2 = cycles (selects (fields 1 8 0xeb)) f1 in
    let f3 = cycles (selects (fields 4 6 address)) f2 in
    read_bytes n (held (dummy_cycles - 1) (bit_and address (ones 4), f3))

-- From 2^31 dummy cycles on, the `int` that `sc_start` is called with is negative, and nothing says
-- how long that waits.
unfoldable pub content_read : {S : Type 0} → ℕ → ℕ → ℕ → Flash → Run S (List ℕ × Flash)
unfolding transaction
content_read dummy_cycles address n flash =
    if ltb dummy_cycles (2 ^ 31) then done (transaction dummy_cycles address n flash) else undefined

-- The check of the bytes read, and the last ten cycles.
unfoldable pub compared : Handler → List ℕ → List ℕ × Flash → Run Reports (Flash × Reports)
compared throws file (content, f) =
    elim (check_values_match (same_vector (◌==◌)) (λ (t : Text). t) throws content file
      (codes "check") []) [
        | done r ↦ done (cycles (deselected 10) f, r)
        | raised e r ↦ raised e r
        | undefined ↦ undefined
      ]

-- `sc_main`, on a new flash whose fields without an initial value hold `cmd`, `cnt` and `addr`: its
-- state at the end and the reports.
unfoldable pub sc_main : Handler → ℕ → ℕ → ℕ → ℕ → ℕ → List ℕ → ℕ → Run Reports (Flash × Reports)
sc_main throws dummy_cycles cmd cnt addr address file n =
    let flash = configure_region file address (init dummy_cycles cmd cnt addr) in
    content_read dummy_cycles address n flash >>= compared throws file

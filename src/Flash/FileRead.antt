-- ===== src/Flash/FileRead.antt =====
-- A file loaded into a new flash and read back (models/memories/flash/N25QX.hpp).
use deltamodels.Base.{
  ℕ, ◌+◌, ◌*◌, ◌/◌, ◌%◌, ◌^◌, ◌<◌, ◌≡◌, refl, ap, ◌∙◌, some, List, [], ◌∷◌, ◌++◌, arith, length,
  length-append, get_elem?,
}
use deltamodels.Flash.{Pins, init, fetch, configure_region}
use deltamodels.Flash.Cycles.{cycles, selected}
use deltamodels.Flash.Load.{loaded}
use deltamodels.Flash.Read.{transaction, address, quad_read}

-- A new flash with at least three dummy cycles, whatever its fields without an initial value hold,
-- into which a file of bytes that fits below half-byte 2^32 was loaded, answers a read transaction
-- with the file: after an even number of half-bytes, below 2^30, the next two cycles answer the
-- high and the low half of the byte that lies as far behind the address. The transaction has two
-- dummy cycles fewer than configured.
pub quad_read-configure_region :
    (d0 d1 d2 d3 d4 d5 n o k : ℕ) (turn : Pins) (ds : List Pins) (ns file : List ℕ)
    (conf_addr i b dummy_cycles cmd cnt addr : ℕ)
    → get_elem? file i ≡ some b
    → b < 256
    → 2 * conf_addr + 2 * length file < 2 ^ 32
    → (d0 < 16) × (d1 < 16) × (d2 < 16) × (d3 < 16) × (d4 < 16) × (d5 < 16)
    → 2 < dummy_cycles
    → 2 + length ds ≡ dummy_cycles
    → dummy_cycles < 2 ^ 32
    → length ns ≡ 2 * k
    → k < 2 ^ 29
    → address d0 d1 d2 d3 d4 d5 + k ≡ conf_addr + i
    → let f = configure_region file conf_addr (init dummy_cycles cmd cnt addr) in
      ((cycles (selected n ∷ []) (cycles (transaction d0 d1 d2 d3 d4 d5 turn ds ns) f)).dq_out
        ≡ b / 16)
      × ((cycles
            (selected o ∷ [])
            (cycles (transaction d0 d1 d2 d3 d4 d5 turn ds (ns ++ (n ∷ []))) f)).dq_out
          ≡ b % 16)
unfolding init configure_region
quad_read-configure_region d0 d1 d2 d3 d4 d5 n o k turn ds ns file conf_addr i b dummy_cycles cmd
      cnt addr there byte fits small more enough bound asked few hits =
    let new = init dummy_cycles cmd cnt addr in
    let f = configure_region file conf_addr new in
    let a = address d0 d1 d2 d3 d4 d5 in
    let halves = loaded file conf_addr i b new there fits in
    let more_asked = length-append ns (n ∷ []) in
    let high : 2 * a + length ns ≡ 2 * conf_addr + 2 * i = omega arith in
    let low : 2 * a + length (ns ++ (n ∷ [])) ≡ 2 * conf_addr + 2 * i + 1 =
      omega (arith, more_asked) in
    (
      (quad_read d0 d1 d2 d3 d4 d5 n turn ds ns f refl small more enough bound (omega arith)).0
          ∙ ap (λ (t : ℕ). fetch t f.conf_memory % 2 ^ 4) high
          ∙ ap (λ (t : ℕ). t % 2 ^ 4) halves.0
          ∙ omega arith,
      (quad_read d0 d1 d2 d3 d4 d5 o turn ds (ns ++ (n ∷ [])) f refl small more enough bound
            (omega (arith, more_asked))).0
          ∙ ap (λ (t : ℕ). fetch t f.conf_memory % 2 ^ 4) low
          ∙ ap (λ (t : ℕ). t % 2 ^ 4) halves.1
          ∙ omega arith,
    )

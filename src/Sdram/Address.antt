-- ===== src/Sdram/Address.antt =====
-- Bus addresses and row, bank, column triples (models/memories/sdram/generic_sdram.hpp).
use deltamodels.Base.{
  ℕ, ◌+◌, ◌*◌, ◌/◌, ◌%◌, ◌^◌, ◌<◌, ◌≤◌, ◌≡◌, sym, ap, arith, bit_and-ones, shr, shl, pow-add, u32,
}
use native.Mathlib.Nat.{div-div-eq-div-mul, one-le-pow, mul_comm, mod-eq_of_lt, mod-lt}
use deltamodels.Sdram.{Geometry, to_address, to_word_address, to_row_bank_column}

-- The number of words of a memory of this geometry.
abbrev pub words : Geometry → ℕ
words g = 2 ^ g.row_bits * 2 ^ g.bank_bits * 2 ^ g.col_bits

-- A number in base `P`, taken apart and put together.
fields_of : (w P R : ℕ) → 0 < P → w < R * P → (w / P * P + w % P ≡ w) × (w / P < R) × (w % P < P)
fields_of w P R pos h = grind arith

join_fields : (x c P : ℕ) → c < P → ((x * P + c) / P ≡ x) × ((x * P + c) % P ≡ c)
join_fields x c P h = grind arith

join_bound : (x c P R : ℕ) → c < P → x < R → x * P + c < R * P
join_bound x c P R h k = grind arith

div_parts : (w P Q : ℕ) → w / (Q * P) ≡ w / P / Q
div_parts w P Q = rw (mul_comm Q P) (sym (div-div-eq-div-mul w P Q))

-- The three fields of a word address, for any three moduli.
split_join :
    (w R Q P : ℕ)
    → 0 < P
    → 0 < Q
    → w < R * Q * P
    → w / (Q * P) % R * (Q * P) + w / P % Q * P + w % P ≡ w
split_join w R Q P p q h =
    let low = fields_of w P (R * Q) p h in
    let high = fields_of (w / P) Q R q low.1 in
    let top = div_parts w P Q in
    rw (top, mod-eq_of_lt high.1) (omega (arith, low.0, high.0, ap (λ (t : ℕ). t * P) high.0))

join_split :
    (r b c R Q P : ℕ)
    → r < R
    → b < Q
    → c < P
    → let w = r * (Q * P) + b * P + c in
      (w / (Q * P) % R ≡ r) × (w / P % Q ≡ b) × (w % P ≡ c) × (w < R * Q * P)
join_split r b c R Q P hr hb hc =
    let w : ℕ = r * (Q * P) + b * P + c in
    let e : w ≡ (r * Q + b) * P + c = omega arith in
    let low = join_fields (r * Q + b) c P hc in
    let high = join_fields r b Q hb in
    let top = div_parts w P Q in
    let mid : w / P ≡ r * Q + b = rw e low.0 in
    (
      rw (top, mid, high.0) (mod-eq_of_lt hr),
      rw (mid, high.1),
      rw e low.1,
      rw e (join_bound (r * Q + b) c P (R * Q) hc (join_bound r b Q R hb hr)),
    )

-- What an address splits into names its word, and fits the geometry.
pub to_row_bank_column_lem :
    (g : Geometry) (addr : ℕ)
    → words g ≤ 2 ^ 30
    → addr / 4 < words g
    → let (row, bank, col) = to_row_bank_column g addr in
      (to_word_address g row bank col ≡ addr / 4)
      × (row < 2 ^ g.row_bits)
      × (bank < 2 ^ g.bank_bits)
      × (col < 2 ^ g.col_bits)
unfolding to_word_address to_row_bank_column
to_row_bank_column_lem g addr size inside =
    let row_pos = one-le-pow g.row_bits 2 (omega arith) in
    let bank_pos = one-le-pow g.bank_bits 2 (omega arith) in
    let col_pos = one-le-pow g.col_bits 2 (omega arith) in
    let back =
      split_join (addr / 4) (2 ^ g.row_bits) (2 ^ g.bank_bits) (2 ^ g.col_bits) col_pos bank_pos
        inside in
    let row = bit_and-ones g.row_bits (addr / 4 / 2 ^ (g.bank_bits + g.col_bits)) in
    let bank = bit_and-ones g.bank_bits (addr / 4 / 2 ^ g.col_bits) in
    let col = bit_and-ones g.col_bits (addr / 4) in
    (
      rw (row, bank, col, pow-add g.bank_bits g.col_bits, back) (omega arith),
      rw row (mod-lt _ row_pos),
      rw bank (mod-lt _ bank_pos),
      rw col (mod-lt _ col_pos),
    )

-- In a geometry of at most 2^30 words, splitting a word-aligned address of the memory into row,
-- bank and column, and putting these together again, gives the address back.
pub to_address-to_row_bank_column :
    (g : Geometry) (addr : ℕ)
    → words g ≤ 2 ^ 30
    → addr % 4 ≡ 0
    → addr / 4 < words g
    → let (row, bank, col) = to_row_bank_column g addr in to_address g row bank col ≡ addr
unfolding to_address
to_address-to_row_bank_column g addr size aligned inside =
    let (word, _, _, _) = to_row_bank_column_lem g addr size inside in rw word (omega arith)

-- In a geometry of at most 2^30 words, the address of a row, bank and column that fit their numbers
-- of bits splits into that row, bank and column.
pub to_row_bank_column-to_address :
    (g : Geometry) (row bank col : ℕ)
    → words g ≤ 2 ^ 30
    → row < 2 ^ g.row_bits
    → bank < 2 ^ g.bank_bits
    → col < 2 ^ g.col_bits
    → to_row_bank_column g (to_address g row bank col) ≡ (row, bank, col)
unfolding to_address to_row_bank_column
to_row_bank_column-to_address g row bank col size hr hb hc =
    let parts =
      join_split row bank col (2 ^ g.row_bits) (2 ^ g.bank_bits) (2 ^ g.col_bits) hr hb hc in
    let w : ℕ = row * (2 ^ g.bank_bits * 2 ^ g.col_bits) + bank * 2 ^ g.col_bits + col in
    let e : shr (u32 (shl (u32 w) 2)) 2 ≡ w = omega (arith, parts.3) in
    rw (
      pow-add g.bank_bits g.col_bits,
      e,
      bit_and-ones g.row_bits (w / (2 ^ g.bank_bits * 2 ^ g.col_bits)),
      bit_and-ones g.bank_bits (w / 2 ^ g.col_bits),
      bit_and-ones g.col_bits w,
      parts.0,
      parts.1,
      parts.2,
    )

-- ===== src/Benches/Routing/Words.antt =====
-- The variables of the tests of tlms/tlm_router/tests/ as words, and what copies of four bytes do to
-- words.
use deltamodels.Base.{
  ℕ, ◌+◌, ◌-◌, ◌^◌, ◌≤◌, ◌<◌, ◌≡◌, ◌⊎◌, arith, get_byte, refl, ap, ◌∙◌, leb, ltb, le→leb, lt→ltb,
  false, ◌&&◌,
}
use deltamodels.Tlm.{Bytes, memcpy}
use deltamodels.Benches.Routing.{assign, value_of}

-- Two variables that do not overlap.
abbrev pub Apart : ℕ → ℕ → Type 0
Apart p q = (p + 4 ≤ q) ⊎ (q + 4 ≤ p)

assign_inside : (p v k : ℕ) (host : Bytes) → k < 4 → assign p v host (p + k) ≡ get_byte v k
assign_inside p v k host lt =
    let place : p + k - p ≡ k = omega arith in
    rw (le→leb p (p + k) (omega arith), lt→ltb (p + k) (p + 4) (omega arith), place) refl

copied_inside : (p q k : ℕ) (dst src : Bytes) → k < 4 → memcpy dst p src q 4 (p + k) ≡ src (q + k)
copied_inside p q k dst src lt =
    let place : p + k - p ≡ k = omega arith in
    rw (le→leb p (p + k) (omega arith), lt→ltb (p + k) (p + 4) (omega arith), place) refl

outside : (p j : ℕ) → (j < p) ⊎ (p + 4 ≤ j) → (leb p j && ltb j (p + 4)) ≡ false
outside p j out = ground arith

-- A word is its bytes.
value_of_bytes :
    (p q : ℕ) (a b : Bytes)
    → ((k : ℕ) → k < 4 → a (p + k) ≡ b (q + k))
    → value_of p a ≡ value_of q b
value_of_bytes p q a b same =
    let first : a p ≡ b q = ap a (omega arith) ∙ same 0 (omega arith) ∙ ap b (omega arith) in
    cc (first, same 1 (omega arith), same 2 (omega arith), same 3 (omega arith))

pub value_of-assign : (p v : ℕ) (host : Bytes) → v < 2 ^ 32 → value_of p (assign p v host) ≡ v
unfolding get_byte
value_of-assign p v host small =
    let first : assign p v host p ≡ get_byte v 0 =
      ap (assign p v host) (omega arith) ∙ assign_inside p v 0 host (omega arith) in
    omega (
      arith,
      first,
      assign_inside p v 1 host (omega arith),
      assign_inside p v 2 host (omega arith),
      assign_inside p v 3 host (omega arith),
    )

pub value_of-assign-Apart :
    (p q v : ℕ) (host : Bytes) → Apart p q → value_of q (assign p v host) ≡ value_of q host
value_of-assign-Apart p q v host apart =
    value_of_bytes q q (assign p v host) host
      λ k lt. rw (outside p (q + k) (omega (arith, apart))) refl

-- The copy of a word to its place, and of a place to a word.
pub value_of-memcpy :
    (p q : ℕ) (dst src : Bytes) → value_of p (memcpy dst p src q 4) ≡ value_of q src
value_of-memcpy p q dst src =
    value_of_bytes p q (memcpy dst p src q 4) src λ k lt. copied_inside p q k dst src lt

pub value_of-memcpy-Apart :
    (p q r : ℕ) (dst src : Bytes) → Apart p r → value_of r (memcpy dst p src q 4) ≡ value_of r dst
value_of-memcpy-Apart p q r dst src apart =
    value_of_bytes r r (memcpy dst p src q 4) dst
      λ k lt. rw (outside p (r + k) (omega (arith, apart))) refl

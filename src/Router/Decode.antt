-- ===== src/Router/Decode.antt =====
-- `decode_address` against the regions that it searches: tlms/tlm_router/tlm_router.hpp.
use deltamodels.Base.{
  ℕ, zero, suc, ◌+◌, ◌-◌, ◌^◌, ◌≤◌, ◌<◌, ◌≡◌, ◌≢◌, refl, ap, ◌∙◌, sym, inl, inr, Bool-cases, none,
  some, List, [], ◌∷◌, arith, if◌then◌else◌, bit_and, length, get_elem?, set, replicate,
  get_elem?-set_self, get_elem?-set_ne, Handler, error, done, raised,
}
use native.Mathlib.Decide.{ℕ_discrete}
use deltamodels.Router.{
  Region, init, set_initiator_properties, find_region, decode_address, in_region,
}

-- The address lies in the region; its top is excluded.
abbrev pub Covers : Region → ℕ → Type 0
Covers c a = (c.base_address ≤ a) × (a < c.top_address)

-- No region before index `i` covers the address.
abbrev pub Uncovered : List Region → ℕ → ℕ → Type 0
Uncovered cs i a = (j : ℕ) (c : Region) → j < i → get_elem? cs j ≡ some c → ¬ Covers c a

Uncovered-tail :
    (c : Region) (cs : List Region) (i a : ℕ) → Uncovered (c ∷ cs) (suc i) a → Uncovered cs i a
Uncovered-tail c cs i a free j d h e = free (suc j) d (omega arith) e

find_region-first :
    (k i a : ℕ) (c : Region) (cs : List Region)
    → get_elem? cs i ≡ some c
    → Covers c a
    → Uncovered cs i a
    → find_region k cs a ≡ some (k + i, bit_and a c.mask)
unfolding find_region
find_region-first k i a c [] e h free = absurd (cc)
find_region-first k zero a c (d ∷ cs) e h free = ground arith
find_region-first k (suc i) a c (d ∷ cs) e h free =
    ground (arith, free 0 d, find_region-first (k + 1) i a c cs e h (Uncovered-tail d cs i a free))

find_region-none :
    (k a : ℕ) (cs : List Region) → Uncovered cs (length cs) a → find_region k cs a ≡ none
unfolding find_region
find_region-none k a [] free = refl
find_region-none k a (d ∷ cs) free =
    ground (arith, free 0 d, find_region-none (k + 1) a cs (Uncovered-tail d cs (length cs) a free))

module _ {S : Type 0} (throws : Handler) (s : S) where
  -- The decoder returns the index of the first region that covers the address, with the address
  -- cut down by that region's mask.
  pub decode_address-first :
      (cs : List Region) (i a : ℕ) (c : Region)
      → get_elem? cs i ≡ some c
      → Covers c a
      → Uncovered cs i a
      → decode_address throws cs a s ≡ done (i, bit_and a c.mask)
  unfolding decode_address
  decode_address-first cs i a c e h free = ground (arith, find_region-first 0 i a c cs e h free)

  -- An address that no region covers raises the router's error; where the report handler does not
  -- throw, the decoder returns -1 as an unsigned index, with the masked address 0.
  pub decode_address_unmatched :
      (cs : List Region) (a : ℕ)
      → Uncovered cs (length cs) a
      → decode_address throws cs a s ≡ (
          if throws error
          then raised (record { severity = error; msg_type = "TLM-ROUTER" }) s
          else done (2 ^ 32 - 1, 0))
  unfolding decode_address
  decode_address_unmatched cs a free = ground (arith, find_region-none 0 a cs free)

-- No address lies in two regions.
abbrev AreDisjoint : List Region → Type 0
AreDisjoint cs =
    (i j a : ℕ) (c d : Region)
    → get_elem? cs i ≡ some c
    → get_elem? cs j ≡ some d
    → Covers c a
    → Covers d a
    → i ≡ j

-- Where the regions are disjoint their order does not matter: the region that covers the address
-- is the one decoded.
decode_address-disjoint :
    {S : Type 0} (throws : Handler) (s : S) (cs : List Region) (i a : ℕ) (c : Region)
    → AreDisjoint cs
    → get_elem? cs i ≡ some c
    → Covers c a
    → decode_address throws cs a s ≡ done (i, bit_and a c.mask)
decode_address-disjoint throws s cs i a c apart e h =
    decode_address-first throws s cs i a c e h
      λ j d lt f k. let same : j ≡ i = apart j i a d c f e k h in omega arith

length-replicate : {A : Type 0} (n : ℕ) (x : A) → length (replicate n x) ≡ n
length-replicate zero x = refl
length-replicate (suc n) x = ap suc (length-replicate n x)

get_elem?-replicate :
    {A : Type 0} (n i : ℕ) (x y : A) → get_elem? (replicate n x) i ≡ some y → x ≡ y
get_elem?-replicate zero i x y h = absurd (cc)
get_elem?-replicate (suc n) zero x y h = cc
get_elem?-replicate (suc n) (suc i) x y h = get_elem?-replicate n i x y h

abbrev unset : Region
unset = record { base_address = 0; top_address = 0; mask = 0 }

unset_uncovered :
    (n nr j a : ℕ) (c d : Region)
    → nr ≢ j
    → get_elem? (set (replicate n unset) nr c) j ≡ some d
    → ¬ Covers d a
unset_uncovered n nr j a c d ne e covered =
    let old = sym (get_elem?-set_ne (replicate n unset) nr j c ne) ∙ e in
    ground (arith, get_elem?-replicate n j unset d old)

-- Configuring one socket of a new router makes it the only one: an address in the region is decoded
-- to that socket, with the region's mask; every other address raises the router's error, or gives
-- -1 where that does not throw.
pub decode_address_configured :
    {S : Type 0} (throws : Handler) (s : S) (n nr a : ℕ) (c : Region)
    → nr < n
    → decode_address throws (set_initiator_properties nr c (init n)).initiators_config a s ≡ (
        if in_region c a
        then done (nr, bit_and a c.mask)
        else if throws error
        then raised (record { severity = error; msg_type = "TLM-ROUTER" }) s
        else done (2 ^ 32 - 1, 0))
unfolding set_initiator_properties init
decode_address_configured throws s n nr a c h = elim (Bool-cases (in_region c a)) [
  | inl inside ↦ rw inside (
      decode_address-first throws s cs nr a c found (ground arith)
        λ j d lt e. unset_uncovered n nr j a c d (λ same. omega arith) e)
  | inr outside ↦ rw outside (
      decode_address_unmatched throws s cs a λ j d lt e. elim (ℕ_discrete nr j) [
        | yes same ↦ λ covered.
            let here : get_elem? cs j ≡ some c = rw (← same) found in
            ground (arith, e, here, covered)
        | no ne ↦ unset_uncovered n nr j a c d ne e
      ])
]
  where
    cs : List Region
    cs = set (replicate n unset) nr c

    found : get_elem? cs nr ≡ some c
    found = get_elem?-set_self (replicate n unset) nr c (rw (length-replicate n unset) h)

-- ===== src/Or1k/Shadows.antt =====
-- Which entry of a table `Or1kDecoder` finds, and which entries it can never find.
use deltamodels.Base.{
  ℕ, zero, suc, ◌/◌, ◌≤◌, ◌≡◌, refl, sym, ap, ◌∙◌, Bool, true, false, not, ◌&&◌, ◌||◌, Option, some,
  List, [], ◌∷◌, ◌++◌, ◌==◌, if◌then◌else◌, arith, bit_and, bit_and_digit, bit_and_le, ==_iff,
  Bool-cases, inl, inr,
}
use mathlib.Core.Option.{some-injective}
use deltamodels.Or1k.Descriptor.{Or1kDescriptor, matches}
use deltamodels.Or1k.Decoder.{find_match}

bit_and_assoc_bounded : (n a b c : ℕ) → a ≤ n → bit_and (bit_and a b) c ≡ bit_and a (bit_and b c)
bit_and_assoc_bounded n zero b c h =
    omega (arith, bit_and_le 0 b, bit_and_le (bit_and 0 b) c, bit_and_le 0 (bit_and b c))
bit_and_assoc_bounded zero (suc a) b c h = absurd (omega arith)
bit_and_assoc_bounded (suc n) (suc a) b c h = ground (
  arith,
  bit_and_digit (suc a) b,
  bit_and_digit b c,
  bit_and_digit (bit_and (suc a) b) c,
  bit_and_digit (suc a) (bit_and b c),
  bit_and_assoc_bounded n (suc a / 2) (b / 2) (c / 2) (omega arith),
)

bit_and_assoc : (a b c : ℕ) → bit_and (bit_and a b) c ≡ bit_and a (bit_and b c)
bit_and_assoc a b c = bit_and_assoc_bounded a a b c (omega arith)

-- Every word that matches `e` matches `d` too.
abbrev covers : Or1kDescriptor → Or1kDescriptor → Bool
covers d e = bit_and e.mask d.mask == d.mask && bit_and e.matcher d.mask == d.matcher

and-both : (a b : Bool) → (a && b) ≡ true → (a ≡ true) × (b ≡ true)
and-both true true h = (refl, refl)
and-both true false h = absurd (ground arith)
and-both false b h = absurd (ground arith)

covers-matches :
    (d e : Or1kDescriptor) (word : ℕ)
    → covers d e ≡ true
    → matches e word ≡ true
    → matches d word ≡ true
covers-matches d e word covered matched =
    let (mask_h, matcher_h) = and-both _ _ covered in
    let same_mask : bit_and e.mask d.mask ≡ d.mask = (==_iff _ _).0 mask_h in
    let same_matcher : bit_and e.matcher d.mask ≡ d.matcher = (==_iff _ _).0 matcher_h in
    let hit : bit_and word e.mask ≡ e.matcher = (==_iff _ _).0 matched in
    (==_iff (bit_and word d.mask) d.matcher).1 (
      ap (bit_and word) (sym same_mask)
      ∙ sym (bit_and_assoc word e.mask d.mask)
      ∙ ap (λ (t : ℕ). bit_and t d.mask) hit
      ∙ same_matcher)

-- Some entry of the list covers `e`.
unfoldable pub is_covered : List Or1kDescriptor → Or1kDescriptor → Bool
is_covered [] e = false
is_covered (d ∷ ds) e = covers d e || is_covered ds e

-- The table without the entries that an earlier kept one covers; `kept` holds those met so far.
pub live : List Or1kDescriptor → List Or1kDescriptor → List Or1kDescriptor
unfolding is_covered
live kept [] = []
live kept (e ∷ es) = if is_covered kept e then live kept es else e ∷ live (e ∷ kept) es

-- No entry of the list matches.
is_unmatched : List Or1kDescriptor → ℕ → Bool
is_unmatched [] word = true
is_unmatched (d ∷ ds) word = not (matches d word) && is_unmatched ds word

unmatched-covered :
    (kept : List Or1kDescriptor) (e : Or1kDescriptor) (word : ℕ)
    → is_covered kept e ≡ true
    → is_unmatched kept word ≡ true
    → matches e word ≡ false
unfolding is_covered is_unmatched
unmatched-covered [] e word covered free = absurd (ground arith)
unmatched-covered (d ∷ ds) e word covered free =
    let here = covers-matches d e word in
    let there = unmatched-covered ds e word in
    elim (Bool-cases (covers d e)) [
      | inl same ↦ ground (arith, here same)
      | inr other ↦ ground (arith, there)
    ]

-- A table without the covered entries finds the same entry for every word that none of the kept
-- entries matches.
live_search :
    (kept ds : List Or1kDescriptor) (word : ℕ)
    → is_unmatched kept word ≡ true
    → find_match (live kept ds) word ≡ find_match ds word
unfolding find_match live is_unmatched
live_search kept [] word free = refl
live_search kept (e ∷ es) word free =
    let step = live_search (e ∷ kept) es word in
    elim (Bool-cases (is_covered kept e)) [
      | inl covered ↦
          rw (covered, unmatched-covered kept e word covered free) (live_search kept es word free)
      | inr new ↦ elim (Bool-cases (matches e word)) [
        | inl hit ↦ rw (new, hit) refl
        | inr miss ↦ rw (new, miss) (ap (λ (o : Option Or1kDescriptor). o) (step (rw miss free)))
      ]
    ]

-- Leaving out of any table the entries that an earlier entry covers changes the answer for no word.
pub find_match-live :
    (ds : List Or1kDescriptor) (word : ℕ) → find_match (live [] ds) word ≡ find_match ds word
unfolding is_unmatched
find_match-live ds word = live_search [] ds word refl

-- The entry found for a word is the first of the table that matches it: it matches, the table is
-- the entries before it, itself and the entries after it, and none of those before it matches.
find_match-first :
    (ds : List Or1kDescriptor) (word : ℕ) (d : Or1kDescriptor)
    → find_match ds word ≡ some d
    → (matches d word ≡ true)
      × ((before : List Or1kDescriptor) × ((after : List Or1kDescriptor) × ((ds
                ≡ before ++ (d ∷ after))
              × (is_unmatched before word ≡ true))))
unfolding find_match is_unmatched
find_match-first [] word d found = absurd (ground (arith, found))
find_match-first (e ∷ es) word d found = elim (Bool-cases (matches e word)) [
  | inl hit ↦
      let same : e ≡ d = some-injective _ _ (sym (rw hit refl) ∙ found) in
      (
        ap (λ (t : Or1kDescriptor). matches t word) (sym same) ∙ hit,
        ([], (es, (ap (λ (t : Or1kDescriptor). t ∷ es) same, refl))),
      )
  | inr miss ↦
      let (hit, (before, (after, (split, free)))) =
        find_match-first es word d (sym (rw miss refl) ∙ found) in
      (hit, (e ∷ before, (after, (ap (λ (t : List Or1kDescriptor). e ∷ t) split, rw miss free))))
]

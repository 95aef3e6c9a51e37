-- ===== src/Or1k/Decoder.antt =====
-- `Or1kDecoder` of models/wishbone/or1k/or1k_decoder.hpp.
use text.Mathlib.Text.{◌==◌ as str_eq}
use deltamodels.Base.{
  ℕ, Bool, true, not, ◌&&◌, Option, none, some, List, [], ◌∷◌, ◌==◌, if◌then◌else◌,
}
use deltamodels.Or1k.Text.{Text}
use deltamodels.Or1k.Descriptor.{Or1kDescriptor, matches, to_string}

-- `std::find_if` with the matching test.
unfoldable pub find_match : List Or1kDescriptor → ℕ → Option Or1kDescriptor
find_match [] word = none
find_match (d ∷ ds) word = if matches d word then some d else find_match ds word

unfoldable pub parse : List Or1kDescriptor → ℕ → Option Text
unfolding find_match to_string
parse ds word = elim (find_match ds word) [ some d ↦ some (to_string d word) | none ↦ none ]

abbrev clash : Or1kDescriptor → Or1kDescriptor → Bool
clash d k = not (str_eq d.rep k.rep) && d.matcher == k.matcher

-- The inner loop of `check_opcodes`.
check_against : Or1kDescriptor → List Or1kDescriptor → Bool
check_against d [] = true
check_against d (k ∷ ks) = not (clash d k) && check_against d ks

check_all : List Or1kDescriptor → List Or1kDescriptor → Bool
unfolding check_against
check_all [] ks = true
check_all (d ∷ ds) ks = check_against d ks && check_all ds ks

check_opcodes : List Or1kDescriptor → Bool
unfolding check_all
check_opcodes ds = check_all ds ds

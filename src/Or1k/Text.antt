-- ===== src/Or1k/Text.antt =====
-- Text as code points, and what a `std::stringstream` prints of a 32-bit number: decimal, or
-- hexadecimal with small letters. Thirty-two digits are more than a 32-bit number has in base 2.
use Prim.Native.Char.{code}
use Prim.Native.String.{String}
use deltamodels.Base.{ℕ, zero, suc, ◌+◌, ◌/◌, ◌%◌, List, [], ◌∷◌, ltb, if◌then◌else◌}

abbrev pub Text : Type 0
Text = List ℕ

unfoldable pub codes : String → Text
codes String.[] = []
codes (String.◌∷◌ c s) = code c ∷ codes s

digit : ℕ → ℕ
digit d = if ltb d 10 then 48 + d else 87 + d

-- The digits of `n` put in front of `acc`, at most `fuel` of them.
print_onto : ℕ → ℕ → ℕ → Text → Text
unfolding digit
print_onto zero base n acc = acc
print_onto (suc fuel) base n acc =
    let acc' = digit (n % base) ∷ acc in
    let rest = print_onto fuel base (n / base) acc' in if ltb n base then acc' else rest

unfoldable pub decimal : ℕ → Text
unfolding print_onto
decimal n = print_onto 32 10 n []

unfoldable pub hex : ℕ → Text
unfolding print_onto
hex n = print_onto 32 16 n []

-- ===== src/Or1k/Descriptor.antt =====
-- `Or1kDescriptor` of models/wishbone/or1k/or1k_defs.hpp: matching a word and printing it.
use Prim.Native.String.{String}
use text.Mathlib.Text.{◌==◌ as str_eq}
use deltamodels.Base.{
  ℕ, ◌+◌, ◌-◌, ◌^◌, Bool, List, [], ◌∷◌, ◌++◌, ltb, ◌==◌, if◌then◌else◌, bit_and, bit_or, shl, shr,
  u32,
}
use deltamodels.Or1k.Text.{Text, codes, decimal, hex}

pub record Or1kDescriptor : Type 0 where
  pub rep : String
  pub mask : ℕ
  pub matcher : ℕ
  pub regs : List String

abbrev pub matches : Or1kDescriptor → ℕ → Bool
matches d word = bit_and word d.mask == d.matcher

-- A 32-bit pattern shifted right by `k` as an int32_t.
unfoldable pub shift_signed : ℕ → ℕ → ℕ
shift_signed t k = if ltb t (2 ^ 31) then shr t k else shr t k + (2 ^ 32 - 2 ^ (32 - k))

unfoldable pub extend_sign : ℕ → ℕ → ℕ
unfolding shift_signed
extend_sign dat i = shift_signed (u32 (shl dat (31 - i))) (31 - i)

unfoldable pub register : ℕ → ℕ → Text
register shift word = b'r' ∷ decimal (bit_and (shr word shift) 0xf)

unfoldable pub reg_d : ℕ → Text
unfolding register
reg_d word = register 21 word

unfoldable pub reg_a : ℕ → Text
unfolding register
reg_a word = register 16 word

unfoldable pub reg_b : ℕ → Text
unfolding register
reg_b word = register 11 word

-- An int32_t printed in hexadecimal if it is not negative, in decimal otherwise.
signed_text : ℕ → Text
unfolding decimal hex codes
signed_text imm = if ltb imm (2 ^ 31) then codes "0x" ++ hex imm else b'-' ∷ decimal (2 ^ 32 - imm)

imm_i : ℕ → Text
unfolding extend_sign signed_text
imm_i word = signed_text (extend_sign word 15)

imm_n : ℕ → Text
unfolding extend_sign signed_text
imm_n word = signed_text (extend_sign word 25)

unsigned_text : ℕ → Text
unfolding hex codes
unsigned_text imm = if imm == 0 then codes "0" else codes "0x" ++ hex imm

imm_k : ℕ → Text
unfolding unsigned_text
imm_k word = unsigned_text (bit_and word 0xffff)

imm_k2 : ℕ → Text
unfolding unsigned_text
imm_k2 word = unsigned_text (bit_or (shl (bit_and (shr word 21) 0xf) 11) (bit_and word 0x3ff))

imm_l : ℕ → Text
unfolding unsigned_text
imm_l word = unsigned_text (bit_and word 0x3f)

-- What the loop of `to_string` appends for one name of `regs`.
unfoldable pub operand : String → ℕ → Text
unfolding reg_d reg_a reg_b imm_i imm_k imm_k2 imm_l imm_n codes
operand r word =
    if str_eq r "reg_d"
    then reg_d word ++ codes ", "
    else if str_eq r "reg_a"
    then reg_a word ++ codes ", "
    else if str_eq r "reg_b"
    then reg_b word ++ codes ", "
    else if str_eq r "imm_i"
    then imm_i word ++ codes ", "
    else if str_eq r "imm_k"
    then imm_k word ++ codes ", "
    else if str_eq r "imm_k2"
    then imm_k2 word ++ codes ", "
    else if str_eq r "imm_l"
    then imm_l word ++ codes ", "
    else if str_eq r "imm_n"
    then imm_n word ++ codes ", "
    else []

unfoldable pub operands : List String → ℕ → Text
unfolding operand
operands [] word = []
operands (r ∷ rs) word = operand r word ++ operands rs word

unfoldable pub to_string : Or1kDescriptor → ℕ → Text
unfolding operands codes
to_string d word = codes d.rep ++ (codes " " ++ operands d.regs word)

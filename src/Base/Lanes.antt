-- ===== src/Base/Lanes.antt =====
-- The bytes and bits of a bus word: `range((i+1)*8-1, i*8)`, `get_bit` and `set_bit` of `sc_bv`.
use Prim.Native.Nat.{ℕ, ◌+◌, ◌*◌, ◌/◌, ◌%◌, ◌^◌, ◌<◌}
use mathlib.Core.Path.{◌≡◌}
use mathlib.Core.Bool.{Bool}
use native.Mathlib.Omega.{arith}
use deltamodels.Base.Tests.{◌==◌, if◌then◌else◌}

unfoldable pub get_byte : ℕ → ℕ → ℕ
get_byte w i = w / 256 ^ i % 256

unfoldable pub put_byte : ℕ → ℕ → ℕ → ℕ
put_byte w i v = w / 256 ^ (i + 1) * 256 ^ (i + 1) + v * 256 ^ i + w % 256 ^ i

abbrev pub get_bit : ℕ → ℕ → Bool
get_bit w i = w / 2 ^ i % 2 == 1

abbrev pub put_bit : ℕ → ℕ → Bool → ℕ
put_bit w i b = w / 2 ^ (i + 1) * 2 ^ (i + 1) + (if b then 2 ^ i else 0) + w % 2 ^ i

pub get_byte-lt : (w i : ℕ) → get_byte w i < 256
unfolding get_byte
get_byte-lt w i = omega arith

-- Words that agree in all four lanes.
abbrev pub SameLanes : ℕ → ℕ → ℕ → ℕ → ℕ → Type 0
SameLanes w b0 b1 b2 b3 =
    (get_byte w 0 ≡ b0) × (get_byte w 1 ≡ b1) × (get_byte w 2 ≡ b2) × (get_byte w 3 ≡ b3)

module _ (w v : ℕ) (byte : v < 256) where
  pub put_byte_zero : SameLanes (put_byte w 0 v) v (get_byte w 1) (get_byte w 2) (get_byte w 3)
  unfolding get_byte put_byte
  put_byte_zero = omega arith

  pub put_byte_one : SameLanes (put_byte w 1 v) (get_byte w 0) v (get_byte w 2) (get_byte w 3)
  unfolding get_byte put_byte
  put_byte_one = omega arith

  pub put_byte_two : SameLanes (put_byte w 2 v) (get_byte w 0) (get_byte w 1) v (get_byte w 3)
  unfolding get_byte put_byte
  put_byte_two = omega arith

  pub put_byte_three : SameLanes (put_byte w 3 v) (get_byte w 0) (get_byte w 1) (get_byte w 2) v
  unfolding get_byte put_byte
  put_byte_three = omega arith

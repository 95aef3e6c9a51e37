-- ===== src/Base/Bits.antt =====
-- Laws of `&` and `|` at variables, each from one equation for the lowest binary digit.
use Prim.Native.Nat.{
  ℕ, zero, suc, ◌+◌, ◌*◌, ◌/◌, ◌%◌, ◌^◌, ◌≤◌, ◌<◌, min, max, bit_and, bit_or, digits,
  bit_and-bitwise, bit_or-bitwise,
}
use mathlib.Core.Path.{◌≡◌, refl, sym, ap, ◌∙◌}
use native.Mathlib.Nat.{pow-suc, one-le-pow, mul_comm, div-div-eq-div-mul}
use native.Mathlib.Omega.{arith}
use deltamodels.Base.Words.{ones, shl}

-- A count of digits beyond those of the number changes nothing; `k` bounds the recursion.
digits_stable :
    (z : ℕ → ℕ) (f : ℕ → ℕ → ℕ) (k m a b : ℕ) → m ≤ k → a ≤ m → digits z f m a b ≡ digits z f a a b
digits_stable z f k zero zero b le fits = refl
digits_stable z f k (suc m) zero b le fits = refl
digits_stable z f k zero (suc a) b le fits = absurd (omega arith)
digits_stable z f zero (suc m) (suc a) b le fits = absurd (omega arith)
digits_stable z f (suc k) (suc m) (suc a) b le fits =
    let high = digits_stable z f k m (suc a / 2) (b / 2) (omega arith) (omega arith) in
    let low = digits_stable z f k a (suc a / 2) (b / 2) (omega arith) (omega arith) in
    ap (λ (t : ℕ). t * 2 + f (suc a % 2) (b % 2)) (high ∙ sym low)

pub bit_and_digit : (a b : ℕ) → bit_and a b ≡ bit_and (a / 2) (b / 2) * 2 + min (a % 2) (b % 2)
bit_and_digit zero b = omega (arith, bit_and-bitwise 0 b, bit_and-bitwise 0 (b / 2))
bit_and_digit (suc a) b = omega (
  arith,
  bit_and-bitwise (suc a) b,
  bit_and-bitwise (suc a / 2) (b / 2),
  digits_stable (λ y. zero) min a a (suc a / 2) (b / 2) (omega arith) (omega arith),
)

pub bit_or_digit : (a b : ℕ) → bit_or a b ≡ bit_or (a / 2) (b / 2) * 2 + max (a % 2) (b % 2)
bit_or_digit zero b = omega (arith, bit_or-bitwise 0 b, bit_or-bitwise 0 (b / 2))
bit_or_digit (suc a) b = omega (
  arith,
  bit_or-bitwise (suc a) b,
  bit_or-bitwise (suc a / 2) (b / 2),
  digits_stable (λ y. y) max a a (suc a / 2) (b / 2) (omega arith) (omega arith),
)

-- Inductions over the digits run on a bound of both numbers.
bit_and_bounded : (n a b : ℕ) → a ≤ n → (bit_and a b ≤ a) × (bit_and a b ≤ b)
bit_and_bounded n zero b h = omega (arith, bit_and-bitwise 0 b)
bit_and_bounded zero (suc a) b h = absurd (omega arith)
bit_and_bounded (suc n) (suc a) b h =
    omega (arith, bit_and_digit (suc a) b, bit_and_bounded n (suc a / 2) (b / 2) (omega arith))

pub bit_and_le : (a b : ℕ) → (bit_and a b ≤ a) × (bit_and a b ≤ b)
bit_and_le a b = bit_and_bounded a a b (omega arith)

mod_double : (P a : ℕ) → 0 < P → a % (2 * P) ≡ a / 2 % P * 2 + a % 2
mod_double P a pos = grind arith

-- `&` with the mask of the `k` lowest bits keeps the remainder by `2 ^ k`.
pub bit_and-ones : (k a : ℕ) → bit_and a (ones k) ≡ a % 2 ^ k
bit_and-ones zero a = omega (arith, bit_and_le a 0)
bit_and-ones (suc k) a = ground (
  arith,
  one-le-pow k 2,
  pow-suc 2 k,
  mod_double (2 ^ k) a,
  bit_and_digit a (ones (suc k)),
  bit_and-ones k (a / 2),
)

bit_or-zero_bounded : (n a : ℕ) → a ≤ n → bit_or a 0 ≡ a
bit_or-zero_bounded n zero h = omega (arith, bit_or-bitwise 0 0)
bit_or-zero_bounded zero (suc a) h = absurd (omega arith)
bit_or-zero_bounded (suc n) (suc a) h =
    omega (arith, bit_or_digit (suc a) 0, bit_or-zero_bounded n (suc a / 2) (omega arith))

-- `(q << k) | r` is a sum when `r` fits in `k` bits.
pub bit_or-shl : (k q r : ℕ) → r < 2 ^ k → bit_or (shl q k) r ≡ shl q k + r
bit_or-shl zero q r h = ground (arith, bit_or-zero_bounded q q)
bit_or-shl (suc k) q r h =
    let even : shl q (suc k) ≡ 2 * shl q k = omega (arith, ap (λ (t : ℕ). q * t) (pow-suc 2 k)) in
    ground (arith, pow-suc 2 k, even, bit_or_digit (shl q (suc k)) r, bit_or-shl k q (r / 2))

-- The same with the low field written first.
pub bit_or_low : (k q r : ℕ) → r < 2 ^ k → bit_or r (shl q k) ≡ shl q k + r
bit_or_low zero q zero h = omega (arith, bit_or-bitwise 0 (shl q 0))
bit_or_low zero q (suc r) h = absurd (omega arith)
bit_or_low (suc k) q r h =
    let even : shl q (suc k) ≡ 2 * shl q k = omega (arith, ap (λ (t : ℕ). q * t) (pow-suc 2 k)) in
    ground (arith, pow-suc 2 k, even, bit_or_digit r (shl q (suc k)), bit_or_low k q (r / 2))

pub bit_or-zero : (a : ℕ) → bit_or a 0 ≡ a
bit_or-zero a = bit_or-zero_bounded a a (omega arith)

-- A mask of high bits keeps what stands above it.
pub bit_and-shl : (k a m : ℕ) → bit_and a (shl m k) ≡ shl (bit_and (a / 2 ^ k) m) k
bit_and-shl zero a m =
    let low : a / 2 ^ 0 ≡ a = omega arith in
    let one_times : shl m 0 ≡ m = omega arith in rw (low, one_times) (omega arith)
bit_and-shl (suc k) a m =
    let even : shl m (suc k) ≡ 2 * shl m k = omega (arith, ap (λ (t : ℕ). m * t) (pow-suc 2 k)) in
    let half : a / 2 ^ suc k ≡ a / 2 / 2 ^ k =
      rw (pow-suc 2 k, mul_comm (2 ^ k) 2) (sym (div-div-eq-div-mul a 2 (2 ^ k))) in
    let top : shl (bit_and (a / 2 ^ suc k) m) (suc k) ≡ 2 * shl (bit_and (a / 2 ^ suc k) m) k =
      omega (arith, ap (λ (t : ℕ). bit_and (a / 2 ^ suc k) m * t) (pow-suc 2 k)) in
    let rest : bit_and (a / 2) (shl m k) ≡ shl (bit_and (a / 2 ^ suc k) m) k =
      rw half (bit_and-shl k (a / 2) m) in
    rw (even, top) (ground (arith, bit_and_digit a (2 * shl m k), rest))

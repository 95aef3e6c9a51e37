-- ===== src/Base/Powers.antt =====
-- Powers of two at variable exponents.
use Prim.Native.Nat.{ℕ, zero, suc, ◌+◌, ◌*◌, ◌^◌}
use mathlib.Core.Path.{◌≡◌, ap}
use native.Mathlib.Nat.{pow-suc}
use native.Mathlib.Omega.{arith}

pub pow-add : (b c : ℕ) → 2 ^ (b + c) ≡ 2 ^ b * 2 ^ c
pow-add zero c =
    let same : 2 ^ (0 + c) ≡ 2 ^ c = ap (λ (t : ℕ). 2 ^ t) (omega arith) in omega (arith, same)
pow-add (suc b) c =
    let step : 2 ^ (suc b + c) ≡ 2 ^ suc (b + c) = ap (λ (t : ℕ). 2 ^ t) (omega arith) in
    omega (
      arith,
      step,
      pow-suc 2 (b + c),
      pow-suc 2 b,
      pow-add b c,
      ap (λ (t : ℕ). t * 2 ^ c) (pow-suc 2 b),
    )

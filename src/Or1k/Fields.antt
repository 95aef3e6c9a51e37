-- ===== src/Or1k/Fields.antt =====
-- The immediate fields of models/wishbone/or1k/or1k_defs.hpp against two's complement.
use deltamodels.Base.{ℕ, ◌+◌, ◌-◌, ◌%◌, ◌^◌, ◌≡◌, if◌then◌else◌, ltb, arith}
use deltamodels.Or1k.Descriptor.{extend_sign, shift_signed}

-- `extend_sign` with sign bit 15 and with sign bit 25, its two uses: the field is kept where its top
-- bit is 0, and is otherwise the 32-bit pattern of the field less 2^16 (or 2^26).
extend_sign-field :
    (word : ℕ)
    → (extend_sign word 15 ≡ (
        if ltb (word % 2 ^ 16) (2 ^ 15) then word % 2 ^ 16 else word % 2 ^ 16 + (2 ^ 32 - 2 ^ 16)))
      × (extend_sign word 25 ≡ (
          if ltb (word % 2 ^ 26) (2 ^ 25)
          then word % 2 ^ 26
          else word % 2 ^ 26 + (2 ^ 32 - 2 ^ 26)))
unfolding extend_sign shift_signed
extend_sign-field word = (ground arith, ground arith)

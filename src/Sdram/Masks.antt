-- ===== src/Sdram/Masks.antt =====
-- The data mask of a WRITE (models/memories/sdram/generic_sdram.hpp).
use deltamodels.Base.{
  ℕ, ◌+◌, ◌-◌, ◌*◌, ◌/◌, ◌%◌, ◌^◌, ◌<◌, ◌≡◌, arith, ◌==◌, if◌then◌else◌, bit_and, bit_and-ones,
  bit_and-shl, bit_or-shl, bit_or-zero, ones, shl,
}
use deltamodels.Sdram.{write_mask, masked}

-- Only the lowest of the four data-mask pins has an effect: it masks the lowest byte.
write_mask_lem : (dm : ℕ) → write_mask dm ≡ (if dm % 2 == 1 then 0xff else 0)
unfolding write_mask
write_mask_lem dm = ground (
  arith,
  bit_and-ones 1 (shl dm 0),
  bit_and-ones 1 (shl dm 1),
  bit_and-ones 1 (shl dm 2),
  bit_and-ones 1 (shl dm 3),
)

masked_none : (value prev : ℕ) → value < 2 ^ 32 → masked value prev 0 ≡ value
unfolding masked
masked_none value prev h =
    let whole : bit_and value (2 ^ 32 - 1 - 0) ≡ value = omega (arith, bit_and-ones 32 value) in
    let nothing : bit_and prev 0 ≡ 0 = omega (arith, bit_and-ones 0 prev) in
    rw (whole, nothing, bit_or-zero)

masked_low :
    (value prev : ℕ) → value < 2 ^ 32 → masked value prev 0xff ≡ value / 256 * 256 + prev % 256
unfolding masked
masked_low value prev h =
    let high : bit_and value (2 ^ 32 - 1 - 0xff) ≡ shl (value / 256) 8 =
      omega (arith, bit_and-shl 8 value (ones 24), bit_and-ones 24 (value / 256)) in
    let low : bit_and prev 0xff ≡ prev % 256 = omega (arith, bit_and-ones 8 prev) in
    rw (high, low, bit_or-shl 8 (value / 256) (prev % 256) (omega arith))

-- A written 32-bit word is stored whole whatever the upper three data-mask pins say; if the lowest
-- pin is high, the lowest stored byte is kept.
pub masked-write_mask :
    (value prev dm : ℕ)
    → value < 2 ^ 32
    → masked value prev (write_mask dm)
      ≡ (if dm % 2 == 1 then value / 256 * 256 + prev % 256 else value)
masked-write_mask value prev dm h =
    rw (write_mask_lem dm) (ground (arith, masked_none value prev h, masked_low value prev h))

-- ===== src/Net/Sums.antt =====
-- The checksum of models/network/network_helpers.hpp against the sum in ones' complement (RFC 1071).
use deltamodels.Base.{
  ℕ, ◌+◌, ◌*◌, ◌/◌, ◌%◌, ◌^◌, ◌≤◌, ◌<◌, ◌≡◌, ◌∙◌, List, [], ◌∷◌, arith, bit_and, bit_and-ones, shr,
  u64, length,
}
use deltamodels.Net.Packet.{htons, sum_words, checksum}

-- The sum of the words in network order, with no bound on it.
pub total : List ℕ → ℕ
total [] = 0
total (w ∷ ws) = htons w + total ws

-- Sixteen-bit words.
abbrev AllWords : List ℕ → Type 0
AllWords [] = Unit
AllWords (w ∷ ws) = (w < 2 ^ 16) × AllWords ws

total_bound : (ws : List ℕ) → AllWords ws → total ws ≤ 65535 * length ws
unfolding total
total_bound [] h = omega arith
total_bound (w ∷ ws) h = omega (arith, total_bound ws h.1)

sum_words_lem :
    (s : ℕ) (ws : List ℕ) → AllWords ws → s + total ws < 2 ^ 64 → sum_words s ws ≡ s + total ws
unfolding sum_words total
sum_words_lem s [] h small = omega arith
sum_words_lem s (w ∷ ws) h small =
    let one : u64 (s + htons w) ≡ s + htons w = omega arith in
    rw one (sum_words_lem (s + htons w) ws h.1 (omega arith) ∙ omega arith)

fold_once : (s : ℕ) → s < 2 ^ 32 → shr s 16 + bit_and s 0xffff ≡ s / 65536 + s % 65536
fold_once s h = omega (arith, bit_and-ones 16 s)

-- Of at most 2^16 16-bit words, the checksum is a 16-bit word that makes the sum of all in network
-- order, itself included, a multiple of 65535: the sum in ones' complement of a checked packet is 0.
pub checksum_completes :
    (ws : List ℕ)
    → AllWords ws
    → length ws ≤ 2 ^ 16
    → ((total ws + checksum ws) % 65535 ≡ 0) × (checksum ws < 2 ^ 16)
unfolding checksum
checksum_completes ws h few =
    let bound = total_bound ws h in
    let sum = sum_words_lem 0 ws h (omega arith) in
    let s32 : total ws < 2 ^ 32 = omega arith in
    omega (arith, sum, fold_once (sum_words 0 ws) (omega (arith, sum)))

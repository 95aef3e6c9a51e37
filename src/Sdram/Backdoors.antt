-- ===== src/Sdram/Backdoors.antt =====
-- The backdoor process: copying and clearing words (models/memories/sdram/generic_sdram.hpp).
use deltamodels.Base.{
  ℕ, zero, suc, ◌+◌, ◌-◌, ◌/◌, ◌^◌, ◌≤◌, ◌<◌, ◌≡◌, refl, ◌∙◌, ◌⊎◌, ◌&&◌, some, arith, leb, ltb,
  ◌==◌, if◌then◌else◌, u32,
}
use deltamodels.Sdram.Sequences.{fetch-store, fetch-touch}
use deltamodels.Sdram.{Sdram, fetch, touch, store, info, to_wishbone, backdoor_cleared}
use deltamodels.Sdram.Backdoor.{
  Backdoor, copy_word, copy_words, clear_words, from_wishbone, backdoor_handler,
}

clear_words_lem :
    (n i a : ℕ) (s : Sdram)
    → (clear_words n i s).mem a ≡ (if leb i a && ltb a (i + n) then some 0 else s.mem a)
unfolding clear_words
clear_words_lem zero i a s = ground arith
clear_words_lem (suc n) i a s = ground (
  arith,
  clear_words_lem n (i + 1) a
      (record (info (backdoor_cleared (to_wishbone s.offset i)) s) { mem = store i 0 s.mem }),
)

-- The word copied in round `i` is seen by a later read, and nothing else is.
copied_one :
    (a from to : ℕ) (s : Sdram)
    → fetch a (copy_word from to s).mem ≡ (if a == to then fetch from s.mem else fetch a s.mem)
unfolding copy_word
copied_one a from to s = rw (
  fetch-store a to (fetch from (touch from s.mem)) (touch from s.mem),
  fetch-touch from from s.mem,
  fetch-touch a from s.mem,
)

-- One round of the loop and the rounds after it, on the words as reads see them.
copied_then :
    (n i from to a u : ℕ) (f g : ℕ → ℕ)
    → (from + i + suc n ≤ to + i) ⊎ (to + i + suc n ≤ from + i)
    → ((b : ℕ) → f b ≡ (if b == to + i then g (from + i) else g b))
    → u ≡ (if leb (to + (i + 1)) a && ltb a (to + (i + 1) + n) then f (from + (a - to)) else f a)
    → u ≡ (if leb (to + i) a && ltb a (to + i + suc n) then g (from + (a - to)) else g a)
copied_then n i from to a u f g apart one rest = ground (arith, one a, one (from + (a - to)))

copy_words_lem :
    (n i from to a : ℕ) (s : Sdram)
    → from + i + n ≤ 2 ^ 32
    → to + i + n ≤ 2 ^ 32
    → (from + i + n ≤ to + i) ⊎ (to + i + n ≤ from + i)
    → fetch a (copy_words n i from to s).mem ≡ (
        if leb (to + i) a && ltb a (to + i + n)
        then fetch (from + (a - to)) s.mem
        else fetch a s.mem)
unfolding copy_words
copy_words_lem zero i from to a s f t apart = ground arith
copy_words_lem (suc n) i from to a s f t apart =
    let x : ℕ = u32 (from + i) in
    let y : ℕ = u32 (to + i) in
    let ex : x ≡ from + i = omega arith in
    let ey : y ≡ to + i = omega arith in
    copied_then n i from to a _ (λ b. fetch b (copy_word x y s).mem) (λ b. fetch b s.mem) apart
      (λ b. copied_one b x y s ∙ rw (ex, ey) refl)
      (copy_words_lem n (i + 1) from to a (copy_word x y s) (omega arith) (omega arith)
        (ground arith))

-- A clear without a copy, between two 32-bit addresses in order and not below the offset, sets
-- every word from the first address up to the second one, excluded, to 0, and leaves every other
-- word as it was.
backdoor_clears :
    (p : Backdoor) (s : Sdram) (a : ℕ)
    → p.copy ≡ 0
    → p.clear ≡ 1
    → s.offset ≤ p.clear_from
    → p.clear_from ≤ p.clear_to
    → p.clear_to < 2 ^ 32
    → (backdoor_handler p s).mem a ≡ (
        if leb ((p.clear_from - s.offset) / 4) a && ltb a ((p.clear_to - s.offset) / 4)
        then some 0
        else s.mem a)
unfolding backdoor_handler
backdoor_clears p s a nc c lo order hi = ground (
  arith,
  clear_words_lem (from_wishbone s.offset p.clear_to - from_wishbone s.offset p.clear_from)
      (from_wishbone s.offset p.clear_from) a s,
)

-- A copy without a clear, of 32-bit addresses not below the offset and regions that do not overlap,
-- moves the source's words to the destination: a later read there finds the word at the same place
-- of the source, and any other word is as before.
pub backdoor_copies :
    (p : Backdoor) (s : Sdram) (a : ℕ)
    → p.copy ≡ 1
    → p.clear ≡ 0
    → s.offset ≤ p.copy_from
    → p.copy_from < 2 ^ 32
    → s.offset ≤ p.copy_to
    → p.copy_to < 2 ^ 32
    → p.copy_size < 2 ^ 32
    → ((p.copy_from - s.offset) / 4 + p.copy_size / 4 ≤ (p.copy_to - s.offset) / 4)
      ⊎ ((p.copy_to - s.offset) / 4 + p.copy_size / 4 ≤ (p.copy_from - s.offset) / 4)
    → let from = (p.copy_from - s.offset) / 4 in
      let to = (p.copy_to - s.offset) / 4 in
      fetch a (backdoor_handler p s).mem ≡ (
        if leb to a && ltb a (to + p.copy_size / 4)
        then fetch (from + (a - to)) s.mem
        else fetch a s.mem)
unfolding backdoor_handler
backdoor_copies p s a c nc lo hi lo' hi' size apart = ground (
  arith,
  copy_words_lem (p.copy_size / 4) 0 ((p.copy_from - s.offset) / 4) ((p.copy_to - s.offset) / 4) a
      s,
)

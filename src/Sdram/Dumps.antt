-- ===== src/Sdram/Dumps.antt =====
-- A dump read back (models/memories/sdram/generic_sdram.hpp).
use deltamodels.Base.{
  ℕ, zero, suc, ◌+◌, ◌*◌, ◌/◌, ◌%◌, ◌^◌, ◌≤◌, ◌<◌, ◌≡◌, refl, ap, ◌∙◌, ◌⊎◌, inl, inr, Bool,
  Bool-cases, true, false, List, [], ◌∷◌, ◌++◌, arith, ltb, ◌==◌, if◌then◌else◌, get_byte, u32,
}
use deltamodels.Sdram.Files.{Token, address, byte, newline, word_tokens, dump_from, hexdump}

-- A reader: `k` bytes of a word are read, with the value `acc`; the word stands at `at`.
pub read_tokens : ℕ → ℕ → ℕ → List Token → List (ℕ × ℕ)
read_tokens at acc k [] = []
read_tokens at acc k (newline ∷ ts) = read_tokens at acc k ts
read_tokens at acc k (address a ∷ ts) = read_tokens a 0 0 ts
read_tokens at acc zero (byte b ∷ ts) = read_tokens at b 1 ts
read_tokens at acc (suc k) (byte b ∷ ts) = elim (k == 2) [
  | true ↦ (at / 4, acc * 256 + b) ∷ read_tokens (at + 4) 0 0 ts
  | false ↦ read_tokens at (acc * 256 + b) (suc (suc k)) ts
]

read_word_tokens :
    (at acc val : ℕ) (ts : List Token)
    → val < 2 ^ 32
    → read_tokens at acc 0 (word_tokens val ++ ts) ≡ (at / 4, val) ∷ read_tokens (at + 4) 0 0 ts
unfolding read_tokens word_tokens get_byte
read_word_tokens at acc val ts h =
    ap (λ (v : ℕ). (at / 4, v) ∷ read_tokens (at + 4) 0 0 ts) (omega arith)

-- Entries as the map holds them: keys from `low` on that increase and are addresses of words of a
-- 32-bit space, and 32-bit values.
abbrev Increasing : ℕ → List (ℕ × ℕ) → Type 0
Increasing low [] = Unit
Increasing low ((key, val) ∷ entries) =
    (low ≤ key) × (key < 2 ^ 30) × (val < 2 ^ 32) × Increasing (key + 1) entries

-- The last two parts of an entry's output, once the reader stands at its address.
read_tail :
    (key val n : ℕ) (b : Bool) (ts : List Token)
    → val < 2 ^ 32
    → read_tokens (key * 4) 0 0 (word_tokens val ++ ((if b then newline ∷ [] else []) ++ ts))
      ≡ (key, val) ∷ read_tokens (key * 4 + 4) 0 0 ts
unfolding read_tokens
read_tail key val n true ts h =
    read_word_tokens (key * 4) 0 val (newline ∷ ts) h
    ∙ ap (λ (k : ℕ). (k, val) ∷ read_tokens (key * 4 + 4) 0 0 ts) (omega arith)
read_tail key val n false ts h =
    read_word_tokens (key * 4) 0 val ts h
    ∙ ap (λ (k : ℕ). (k, val) ∷ read_tokens (key * 4 + 4) 0 0 ts) (omega arith)

-- A whole entry, for a reader that stands at its address unless the address is printed.
read_entry :
    (jump start ending : Bool) (at key val : ℕ) (ts : List Token)
    → val < 2 ^ 32
    → (start ≡ true) ⊎ (at ≡ key * 4)
    → read_tokens at 0 0 (
        (if jump then newline ∷ [] else [])
        ++ ((if start then address (key * 4) ∷ [] else [])
            ++ (word_tokens val ++ ((if ending then newline ∷ [] else []) ++ ts))))
      ≡ (key, val) ∷ read_tokens (key * 4 + 4) 0 0 ts
unfolding read_tokens
read_entry true true ending at key val ts h stands = read_tail key val 0 ending ts h
read_entry false true ending at key val ts h stands = read_tail key val 0 ending ts h
read_entry true false ending at key val ts h (inl wrong) = cc
read_entry true false ending at key val ts h (inr same) = rw same (read_tail key val 0 ending ts h)
read_entry false false ending at key val ts h (inl wrong) = cc
read_entry false false ending at key val ts h (inr same) = rw same (read_tail key val 0 ending ts h)

-- Where the map jumps the counter is reset and the address printed; elsewhere the keys follow.
stands_at :
    (k key cnt at : ℕ)
    → k + 1 ≤ key
    → key < 2 ^ 30
    → at ≡ k * 4 + 4
    → (((if ltb (u32 (k * 4 + 4)) (key * 4) then 0 else cnt) % 4 == 0) ≡ true) ⊎ (at ≡ key * 4)
stands_at k key cnt at above small e = elim (Bool-cases (ltb (u32 (k * 4 + 4)) (key * 4))) [
  | inl jump ↦ inl (rw jump refl)
  | inr follows ↦ inr (ground arith)
]

-- After an entry at word `k`.
dump_from_read :
    (entries : List (ℕ × ℕ)) (cnt k at : ℕ)
    → Increasing (k + 1) entries
    → at ≡ k * 4 + 4
    → read_tokens at 0 0 (dump_from cnt (k * 4) entries) ≡ entries
unfolding read_tokens dump_from
dump_from_read [] cnt k at inc e = refl
dump_from_read ((key, val) ∷ entries) cnt k at inc e =
    let here : u32 (key * 4) ≡ key * 4 = omega arith in
    let n : ℕ = if ltb (u32 (k * 4 + 4)) (key * 4) then 0 else cnt in
    let rest = dump_from_read entries (n + 1) key (key * 4 + 4) inc.3 refl in
    rw here (
      read_entry (ltb (u32 (k * 4 + 4)) (key * 4)) (n % 4 == 0) (n % 4 == 3) at key val
        (dump_from (n + 1) (key * 4) entries) inc.2 (stands_at k key cnt at inc.0 inc.1 e)
      ∙ ap (λ (es : List (ℕ × ℕ)). (key, val) ∷ es) rest)

-- A dump read back, from any place, is the map: for every list of entries with increasing keys of
-- words in a 32-bit space and 32-bit values, the printed addresses and bytes determine the entries.
pub read_tokens-hexdump :
    (entries : List (ℕ × ℕ)) (at : ℕ)
    → Increasing 0 entries
    → read_tokens at 0 0 (hexdump entries) ≡ entries
unfolding read_tokens hexdump
read_tokens-hexdump [] at inc = refl
read_tokens-hexdump ((key, val) ∷ entries) at inc =
    let here : u32 (key * 4) ≡ key * 4 = omega arith in
    let n : ℕ = if ltb 4 (key * 4) then 0 else 0 in
    let start : (n % 4 == 0) ≡ true = ground arith in
    let rest = dump_from_read entries (n + 1) key (key * 4 + 4) inc.3 refl in
    rw here (
      read_entry (ltb 4 (key * 4)) (n % 4 == 0) (n % 4 == 3) at key val
        (dump_from (n + 1) (key * 4) entries) inc.2 (inl start)
      ∙ ap (λ (es : List (ℕ × ℕ)). (key, val) ∷ es) rest)

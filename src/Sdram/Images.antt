-- ===== src/Sdram/Images.antt =====
-- What loading a file leaves in the memory (models/memories/sdram/generic_sdram.hpp).
use deltamodels.Base.{
  ℕ, zero, suc, ◌+◌, ◌-◌, ◌*◌, ◌/◌, ◌%◌, ◌^◌, ◌≤◌, ◌<◌, ◌≡◌, ◌≢◌, sym, Bool, Bool-cases, inl, inr,
  true, false, ◌&&◌, some, List, [], ◌∷◌, arith, ltb, leb, ◌==◌, if◌then◌else◌, get_byte, put_byte,
  put_byte_zero, put_byte_one, put_byte_two, SameLanes, get_or, length, u32, refl, lt→ltb,
}
use deltamodels.Sdram.{Words, store}
use deltamodels.Sdram.Files.{
  buffer_of, word_at, bswap, load_words, last_word, patch, load_image, configure_region,
  buffer_length,
}

-- The memory that loading leaves, if `length` is not cut down.
abbrev pub loaded : List ℕ → (ℕ → ℕ) → ℕ → ℕ → Bool → Words → Words
loaded file junk conf_addr first_byte msb mem =
    load_image (length file + first_byte) msb (buffer_of file junk first_byte) conf_addr mem

-- The word of four bytes, the first one lowest or highest.
abbrev pub word_of : Bool → (ℕ → ℕ) → ℕ → ℕ
word_of msb f p =
    if msb
    then f p + f (p + 1) * 2 ^ 8 + f (p + 2) * 2 ^ 16 + f (p + 3) * 2 ^ 24
    else f p * 2 ^ 24 + f (p + 1) * 2 ^ 16 + f (p + 2) * 2 ^ 8 + f (p + 3)

converted :
    (msb : Bool) (f : ℕ → ℕ) (p : ℕ)
    → ((j : ℕ) → f j < 256)
    → (if msb then word_at f p else bswap (word_at f p)) ≡ word_of msb f p
unfolding word_at bswap get_byte
converted true f p small = omega arith
converted false f p small = omega (arith, small p, small (p + 1), small (p + 2), small (p + 3))

load_words_lem :
    (n : ℕ) (msb : Bool) (f : ℕ → ℕ) (i addr a : ℕ) (mem : Words)
    → ((j : ℕ) → f j < 256)
    → addr + n < 2 ^ 32
    → load_words n msb f i addr mem a ≡ (
        if leb addr a && ltb a (addr + n) then some (word_of msb f (i + 4 * (a - addr))) else mem a)
unfolding load_words
load_words_lem zero msb f i addr a mem small room = ground arith
load_words_lem (suc n) msb f i addr a mem small room =
    let next : u32 (addr + 1) ≡ addr + 1 = omega arith in
    let ih =
      load_words_lem n msb f (i + 4) (addr + 1) a
        (store addr (if msb then word_at f i else bswap (word_at f i)) mem) small (omega arith) in
    let shifted : addr + 1 ≤ a → i + 4 + 4 * (a - (addr + 1)) ≡ i + 4 * (a - addr) =
      λ later. omega arith in
    let start : a ≡ addr → i ≡ i + 4 * (a - addr) = λ same. omega arith in
    rw (next) (
      rw (ih) (elim (Bool-cases (leb (addr + 1) a)) [
        | inl l ↦ rw (shifted (ground (arith, l))) (ground (arith, l))
        | inr g ↦ elim (Bool-cases (a == addr)) [
          | inl e ↦
              rw (sym (start (ground (arith, e)))) (ground (arith, g, e, converted msb f i small))
          | inr ne ↦ ground (arith, g, ne)
        ]
      ]))

-- Bytes of a file.
abbrev pub AllBytes : List ℕ → Type 0
AllBytes [] = Unit
AllBytes (b ∷ bs) = (b < 256) × AllBytes bs

get_or-lt : (bs : List ℕ) (i : ℕ) → AllBytes bs → get_or bs i 0 < 256
get_or-lt [] i h = omega arith
get_or-lt (b ∷ bs) zero h = h.0
get_or-lt (b ∷ bs) (suc i) h = get_or-lt bs i h.1

patch_lem :
    (rem : ℕ) (f : ℕ → ℕ) (p val : ℕ)
    → ((j : ℕ) → f j < 256)
    → SameLanes
        (patch rem f p val)
        (f p)
        (if ltb 1 rem then f (p + 1) else get_byte val 1)
        (if ltb 2 rem then f (p + 2) else get_byte val 2)
        (get_byte val 3)
unfolding patch
patch_lem rem f p val small =
    let v0 = put_byte val 0 (f p) in
    let v1 = put_byte v0 1 (f (p + 1)) in
    ground (
      arith,
      put_byte_zero val (f p) (small p),
      put_byte_one v0 (f (p + 1)) (small (p + 1)),
      put_byte_two v0 (f (p + 2)) (small (p + 2)),
      put_byte_two v1 (f (p + 2)) (small (p + 2)),
    )

-- The byte `k` of the word before the tail, 0 if there is none.
abbrev pub before : ℕ → (ℕ → ℕ) → ℕ → ℕ
before zero f k = 0
before (suc n) f k = f (4 * n + k)

word_at_lem :
    (f : ℕ → ℕ) (p : ℕ)
    → ((j : ℕ) → f j < 256)
    → SameLanes (word_at f p) (f p) (f (p + 1)) (f (p + 2)) (f (p + 3))
unfolding word_at get_byte
word_at_lem f p small = omega (arith, small p, small (p + 1), small (p + 2), small (p + 3))

last_word_lem :
    (n : ℕ) (f : ℕ → ℕ)
    → ((j : ℕ) → f j < 256)
    → (get_byte (last_word n f) 1 ≡ before n f 1)
      × (get_byte (last_word n f) 2 ≡ before n f 2)
      × (get_byte (last_word n f) 3 ≡ before n f 3)
unfolding last_word get_byte
last_word_lem zero f small = omega arith
last_word_lem (suc n) f small = let h = word_at_lem f (4 * n) small in (h.1, h.2, h.3)

buffer_of-small :
    (file : List ℕ) (junk : ℕ → ℕ) (first_byte j : ℕ)
    → AllBytes file
    → junk j < 256
    → buffer_of file junk first_byte j < 256
buffer_of-small file junk first_byte j h small =
    elim (Bool-cases (ltb (first_byte + j) (length file))) [
      | inl e ↦ rw (e) (get_or-lt file (first_byte + j) h)
      | inr e ↦ rw (e) small
    ]

-- A file whose length with the first byte's position fits in an `int` is loaded.
pub configure_region-loads :
    (file : List ℕ) (junk : ℕ → ℕ) (conf_addr first_byte : ℕ) (msb : Bool) (mem : Words)
    → length file + first_byte < 2 ^ 31
    → configure_region file junk conf_addr first_byte msb mem
      ≡ some (loaded file junk conf_addr first_byte msb mem)
unfolding configure_region buffer_length
configure_region-loads file junk conf_addr first_byte msb mem fits =
    let len : u32 (length file + first_byte) ≡ length file + first_byte = omega arith in
    rw (len, lt→ltb (length file + first_byte) (2 ^ 31) fits) refl

module _ (file : List ℕ) (junk : ℕ → ℕ) (conf_addr first_byte : ℕ) (msb : Bool) (mem : Words)
    (bytes : AllBytes file) (junk_bytes : (j : ℕ) → junk j < 256)
    (room : conf_addr / 4 + (length file + first_byte) / 4 < 2 ^ 32) where
  -- Loading a file of bytes leaves, from the word address of the target on, the buffer's whole
  -- words, as many as the file's length and the first byte's position together have, lowest byte
  -- first if `msb` is set and highest byte first otherwise; every other word is as before, the one
  -- right behind them excepted. The room up to the top of the 32-bit word addresses is a condition.
  pub loaded_words :
      (a : ℕ)
      → a ≢ conf_addr / 4 + (length file + first_byte) / 4
      → loaded file junk conf_addr first_byte msb mem a ≡ (
          if leb (conf_addr / 4) a && ltb a (conf_addr / 4 + (length file + first_byte) / 4)
          then some (word_of msb (buffer_of file junk first_byte) (4 * (a - conf_addr / 4)))
          else mem a)
  unfolding load_image
  loaded_words a apart =
      let f = buffer_of file junk first_byte in
      let n = (length file + first_byte) / 4 in
      let small : (j : ℕ) → f j < 256 =
        λ j. buffer_of-small file junk first_byte j bytes (junk_bytes j) in
      let whole = load_words_lem n msb f 0 (conf_addr / 4) a mem small room in
      let place : u32 (conf_addr / 4 + n) ≡ conf_addr / 4 + n = omega arith in
      let start : 4 * (a - conf_addr / 4) ≡ 0 + 4 * (a - conf_addr / 4) = omega arith in
      let other : (a == conf_addr / 4 + n) ≡ false = ground (arith, apart) in
      elim (Bool-cases ((length file + first_byte) % 4 == 0)) [
        | inl e ↦ rw (e, start) whole
        | inr e ↦ rw (e, place, other, start) whole
      ]

  -- If the file's length and the first byte's position together leave one to three bytes over, the
  -- word behind the whole ones has these bytes in its lowest lanes whether `msb` is set or not, and
  -- in its other lanes those of the last whole word, or 0 if there is none. The file and the buffer
  -- hold bytes, the two together are below 2^31, and the words lie below word address 2^32.
  pub configure_region_tail :
      length file + first_byte < 2 ^ 31
      → (length file + first_byte) % 4 ≢ 0
      → let f = buffer_of file junk first_byte in
        let n = (length file + first_byte) / 4 in
        let rem = (length file + first_byte) % 4 in
        let next = 4 * n in
        (after : Words) × (configure_region file junk conf_addr first_byte msb mem ≡ some after)
        × (w : ℕ) × (after (conf_addr / 4 + n) ≡ some w)
        × SameLanes w
            (f next)
            (if ltb 1 rem then f (next + 1) else before n f 1)
            (if ltb 2 rem then f (next + 2) else before n f 2)
            (before n f 3)
  unfolding load_image
  configure_region_tail fits over =
      let f = buffer_of file junk first_byte in
      let len = length file + first_byte in
      let n = len / 4 in
      let rem = len % 4 in
      let small : (j : ℕ) → f j < 256 =
        λ j. buffer_of-small file junk first_byte j bytes (junk_bytes j) in
      let at : len - rem ≡ 4 * n = omega arith in
      let place : u32 (conf_addr / 4 + n) ≡ conf_addr / 4 + n = omega arith in
      (
        loaded file junk conf_addr first_byte msb mem,
        configure_region-loads file junk conf_addr first_byte msb mem fits,
        patch rem f (len - rem) (last_word n f),
        ground (arith, place),
        ground (arith, at, patch_lem rem f (4 * n) (last_word n f) small, last_word_lem n f small),
      )

-- ===== src/Sdram/Files.antt =====
-- Loading and dumping of models/memories/sdram/generic_sdram.hpp. The bytes of a loaded file and
-- those that the freshly allocated buffer holds are parameters; a dump is the list of what is
-- printed, and its entries are the map's, in the order of their keys.
use deltamodels.Base.{
  ℕ, zero, suc, ◌+◌, ◌-◌, ◌*◌, ◌/◌, ◌%◌, ◌^◌, Bool, Option, none, some, List, [], ◌∷◌, ◌++◌, ltb,
  ◌==◌, if◌then◌else◌, get_byte, put_byte, get_or, length, u32, shr,
}
use deltamodels.Sdram.{Words, store}

-- What the stream leaves in the buffer: the file from `first_byte` on, and then whatever was there.
abbrev pub buffer_of : List ℕ → (ℕ → ℕ) → ℕ → ℕ → ℕ
buffer_of file junk first_byte j =
    if ltb (first_byte + j) (length file) then get_or file (first_byte + j) 0 else junk j

-- `int length`: the position `first_byte` bytes beyond the file's end, cut down to 32 bits.
unfoldable pub buffer_length : List ℕ → ℕ → ℕ
buffer_length file first_byte = u32 (length file + first_byte)

-- `memcpy(&val, &(buffer[p]), 4)`
unfoldable pub word_at : (ℕ → ℕ) → ℕ → ℕ
word_at buffer p =
    buffer p + (buffer (p + 1) * 2 ^ 8 + (buffer (p + 2) * 2 ^ 16 + buffer (p + 3) * 2 ^ 24))

-- `__bswap_32`
unfoldable pub bswap : ℕ → ℕ
bswap w = get_byte w 3 + (get_byte w 2 * 2 ^ 8 + (get_byte w 1 * 2 ^ 16 + get_byte w 0 * 2 ^ 24))

-- The loop over whole words: the memory after `n` rounds, from byte `i` on.
unfoldable pub load_words : ℕ → Bool → (ℕ → ℕ) → ℕ → ℕ → Words → Words
unfolding word_at bswap
load_words zero msb buffer i addr mem = mem
load_words (suc n) msb buffer i addr mem =
    let val = word_at buffer i in
    load_words n msb buffer (i + 4) (u32 (addr + 1))
      (store addr (if msb then val else bswap val) mem)

-- `val` after the loop.
unfoldable pub last_word : ℕ → (ℕ → ℕ) → ℕ
unfolding word_at
last_word zero buffer = 0
last_word (suc n) buffer = word_at buffer (4 * n)

-- `memcpy(&val, &(buffer[p]), rem)` for one to three bytes.
unfoldable pub patch : ℕ → (ℕ → ℕ) → ℕ → ℕ → ℕ
patch rem buffer p val =
    let v0 = put_byte val 0 (buffer p) in
    let v1 = if ltb 1 rem then put_byte v0 1 (buffer (p + 1)) else v0 in
    if ltb 2 rem then put_byte v1 2 (buffer (p + 2)) else v1

unfoldable pub load_image : ℕ → Bool → (ℕ → ℕ) → ℕ → Words → Words
unfolding load_words last_word patch
load_image len msb buffer conf_addr mem =
    let n = len / 4 in
    let rem = len % 4 in
    let addr = shr conf_addr 2 in
    let whole = load_words n msb buffer 0 addr mem in
    if rem == 0
    then whole
    else store (u32 (addr + n)) (patch rem buffer (len - rem) (last_word n buffer)) whole

-- A file that opens: `none` where `length` is negative, so that `new char [length]` throws and the
-- memory is as it was.
unfoldable pub configure_region : List ℕ → (ℕ → ℕ) → ℕ → ℕ → Bool → Words → Option Words
unfolding load_image buffer_length
configure_region file junk conf_addr first_byte msb mem =
    let len = buffer_length file first_byte in
    let loaded = load_image len msb (buffer_of file junk first_byte) conf_addr mem in
    if ltb len (2 ^ 31) then some loaded else none

-- What is printed: an address of eight digits, a byte of two after a blank, an end of line.
pub data Token : Type 0 where
  address byte : ℕ → Token
  newline : Token

unfoldable pub word_tokens : ℕ → List Token
word_tokens val =
    byte (get_byte val 3)
    ∷ byte (get_byte val 2)
    ∷ byte (get_byte val 1)
    ∷ byte (get_byte val 0)
    ∷ []

abbrev when : Bool → Token → List Token
when b t = if b then t ∷ [] else []

-- The loop over the map.
unfoldable pub dump_from : ℕ → ℕ → List (ℕ × ℕ) → List Token
unfolding word_tokens
dump_from cnt last_address [] = []
dump_from cnt last_address ((key, val) ∷ entries) =
    let at = u32 (key * 4) in
    let jump = ltb (u32 (last_address + 4)) at in
    let n = if jump then 0 else cnt in
    when jump newline
    ++ (when (n % 4 == 0) (address at)
        ++ (word_tokens val ++ (when (n % 4 == 3) newline ++ dump_from (n + 1) at entries)))

unfoldable pub hexdump : List (ℕ × ℕ) → List Token
unfolding dump_from
hexdump entries = dump_from 0 0 entries

-- ===== src/Flash/Load.antt =====
-- Loading a file into the flash (models/memories/flash/N25QX.hpp).
use deltamodels.Base.{
  ℕ, zero, suc, ◌+◌, ◌*◌, ◌/◌, ◌%◌, ◌^◌, ◌<◌, ◌≡◌, refl, ◌∙◌, some, List, [], ◌∷◌, arith,
  bit_and-ones, shl, shr, u32, ap, length, get_elem?,
}
use deltamodels.Flash.{
  init, idle_phase, Flash, Nibbles, fetch, store, store_bytes, configure_region,
}

-- The memory with the two halves of a byte stored from a place on.
abbrev halves : ℕ → ℕ → Nibbles → Nibbles
halves b at mem = store (at + 1) (b % 16) (store at (b / 16 % 16) mem)

store_one :
    (b : ℕ) (bs : List ℕ) (at : ℕ) (mem : Nibbles)
    → at + 2 < 2 ^ 32
    → store_bytes (b ∷ bs) at mem ≡ store_bytes bs (at + 2) (halves b at mem)
unfolding store_bytes
store_one b bs at mem small =
    let next : u32 (at + 2) ≡ at + 2 = omega arith in
    let upper : u32 (at + 1) ≡ at + 1 = omega arith in
    rw (next, upper, bit_and-ones 4 b, bit_and-ones 4 (shr b 4)) refl

store_none : (at : ℕ) (mem : Nibbles) → store_bytes [] at mem ≡ mem
unfolding store_bytes
store_none at mem = refl

-- The places below the first address keep what they hold.
stored_below :
    (bs : List ℕ) (at a : ℕ) (mem : Nibbles)
    → a < at
    → at + 2 * length bs < 2 ^ 32
    → store_bytes bs at mem a ≡ mem a
stored_below [] at a mem below small = ap (λ (m : Nibbles). m a) (store_none at mem)
stored_below (b ∷ bs) at a mem below small =
    ap (λ (m : Nibbles). m a) (store_one b bs at mem (omega arith))
    ∙ stored_below bs (at + 2) a (halves b at mem) (omega arith) (omega arith)
    ∙ ground arith

stored_bytes :
    (bs : List ℕ) (at i b : ℕ) (mem : Nibbles)
    → get_elem? bs i ≡ some b
    → at + 2 * length bs < 2 ^ 32
    → (store_bytes bs at mem (at + 2 * i) ≡ some (b / 16 % 16))
      × (store_bytes bs at mem (at + 2 * i + 1) ≡ some (b % 16))
stored_bytes [] at i b mem e small = absurd cc
stored_bytes (c ∷ bs) at zero b mem e small =
    let first = store_one c bs at mem (omega arith) in
    let keep : (a : ℕ)
        → a < at + 2
        → store_bytes bs (at + 2) (halves c at mem) a ≡ halves c at mem a =
      λ a h. stored_below bs (at + 2) a (halves c at mem) h (omega arith) in
    (
      ap (λ (m : Nibbles). m (at + 2 * 0)) first ∙ keep (at + 2 * 0) (omega arith) ∙ ground arith,
      ap (λ (m : Nibbles). m (at + 2 * 0 + 1)) first
          ∙ keep (at + 2 * 0 + 1) (omega arith)
          ∙ ground arith,
    )
stored_bytes (c ∷ bs) at (suc i) b mem e small =
    let first = store_one c bs at mem (omega arith) in
    let rest = stored_bytes bs (at + 2) i b (halves c at mem) e (omega arith) in
    let place : at + 2 * suc i ≡ at + 2 + 2 * i = omega arith in rw (first, place) rest

fetch_found : (a v : ℕ) (mem : Nibbles) → mem a ≡ some v → fetch a mem ≡ v
unfolding fetch
fetch_found a v mem h = rw (h, fetch)

fetch_same : (a : ℕ) (mem old : Nibbles) → mem a ≡ old a → fetch a mem ≡ fetch a old
unfolding fetch
fetch_same a mem old h = rw (h, fetch)

-- Loading moves the flash in no other way.
pub configured_idle :
    (bytes : List ℕ) (conf_addr dummy_cycles cmd cnt addr : ℕ)
    → (configure_region bytes conf_addr (init dummy_cycles cmd cnt addr)).phase ≡ idle_phase
unfolding configure_region init
configured_idle bytes conf_addr dummy_cycles cmd cnt addr = refl

pub loaded :
    (bytes : List ℕ) (conf_addr i b : ℕ) (f : Flash)
    → get_elem? bytes i ≡ some b
    → 2 * conf_addr + 2 * length bytes < 2 ^ 32
    → let mem = (configure_region bytes conf_addr f).conf_memory in
      (fetch (2 * conf_addr + 2 * i) mem ≡ b / 16 % 16)
      × (fetch (2 * conf_addr + 2 * i + 1) mem ≡ b % 16)
unfolding configure_region
loaded bytes conf_addr i b f e small =
    let at : u32 (shl conf_addr 1) ≡ 2 * conf_addr = omega arith in
    let both = stored_bytes bytes (2 * conf_addr) i b f.conf_memory e small in
    rw at (fetch_found _ _ _ both.0, fetch_found _ _ _ both.1)

-- After a file has been loaded at an address, the half-bytes at twice that address plus `2 * i`, and
-- at the place after it, are the high and the low half of the file's byte `i`, if the file fits
-- below half-byte 2^32; what is stored below twice the address is as before.
configure_region_lem :
    (bytes : List ℕ) (conf_addr i b a : ℕ) (f : Flash)
    → get_elem? bytes i ≡ some b
    → 2 * conf_addr + 2 * length bytes < 2 ^ 32
    → a < 2 * conf_addr
    → let mem = (configure_region bytes conf_addr f).conf_memory in
      (fetch (2 * conf_addr + 2 * i) mem ≡ b / 16 % 16)
      × (fetch (2 * conf_addr + 2 * i + 1) mem ≡ b % 16)
      × (fetch a mem ≡ fetch a f.conf_memory)
unfolding configure_region
configure_region_lem bytes conf_addr i b a f e small below =
    let at : u32 (shl conf_addr 1) ≡ 2 * conf_addr = omega arith in
    let both = loaded bytes conf_addr i b f e small in
    (
      both.0,
      both.1,
      rw at (fetch_same a _ _ (stored_below bytes (2 * conf_addr) a f.conf_memory below small)),
    )

-- ===== src/Wishbone/Flat.antt =====
-- The bytes that calls on the bus act on (tlms/tlm_adapters/tlm2wishbone.hpp,
-- models/wishbone/wbram.hpp).
use deltamodels.Base.{
  ℕ, zero, suc, ◌+◌, ◌-◌, ◌*◌, ◌/◌, ◌%◌, ◌<◌, ◌≡◌, ◌⊎◌, refl, Bool, true, ◌&&◌, Option, none, some,
  List, [], ◌∷◌, arith, ◌==◌, if◌then◌else◌, get_byte,
}
use deltamodels.Tlm.{Bytes, Payload, Command, memcpy}
use deltamodels.WbRam.{merge}
use deltamodels.WbRam.Words.{merge_lanes}
use deltamodels.Bridge.{pack_data, pack_enables, enabled}
use deltamodels.Bridge.Lanes.{pack_data_lanes, pack_enables_bits}
use deltamodels.Wishbone.Calls.{IsBeat}

-- The specification: the memory is an array of bytes, beside the caller's bytes.
pub record Flat : Type 0 where
  pub cells : Bytes
  pub host : Bytes

-- Byte enables: without a pointer all bytes count, else those whose enable is 0xff.
abbrev pub selected : Bytes → Option ℕ → ℕ → Bool
selected host none k = true
selected host (some q) k = host (q + k) == 0xff

pub flat_ext : {f g : Flat} → f.cells ≡ g.cells → f.host ≡ g.host → f ≡ g
flat_ext c h = λ i. record { cells = c i; host = h i }

-- A call moves four bytes between the caller and the word of its address.
abbrev pub flat_call : Payload → Flat → Flat
flat_call p f = elim p.command [
  | Command.write ↦ record f {
    cells = λ j.
        if j / 4 == p.address / 4 && selected f.host p.byte_enable_ptr (j % 4)
        then f.host (p.data_ptr + j % 4)
        else f.cells j;
  }
  | Command.read ↦ record f { host = memcpy f.host p.data_ptr f.cells (4 * (p.address / 4)) 4 }
  | Command.ignore ↦ f
]

abbrev pub flat_calls : List Payload → Flat → Flat
flat_calls [] f = f
flat_calls (p ∷ ps) f = flat_calls ps (flat_call p f)

-- Reads and writes of one beat on the words of a memory of the given size.
abbrev pub AllBeats : ℕ → List Payload → Type 0
AllBeats size [] = Unit
AllBeats size (p ∷ ps) =
    ((IsBeat size Command.write p) ⊎ (IsBeat size Command.read p)) × AllBeats size ps

module _ (host : Bytes) (p d e w : ℕ) (byt : Option ℕ) (bytes : (j : ℕ) → host j < 256) where
  enabled-selected : (k : ℕ) → enabled host byt k ≡ selected host byt k
  unfolding enabled
  enabled-selected k = elim byt [ none ↦ refl | some q ↦ refl ]

  -- What the merged word holds at the place of byte `k`.
  pub merged_byte :
      (k : ℕ)
      → k < 4
      → get_byte (merge w (pack_data host p d) (pack_enables host byt e)) (3 - k)
        ≡ (if selected host byt k then host (p + k) else get_byte w (3 - k))
  merged_byte zero h = ground (
    arith,
    merge_lanes w (pack_data host p d) (pack_enables host byt e),
    pack_data_lanes host p d bytes,
    pack_enables_bits host byt e,
    enabled-selected 0,
  )
  merged_byte (suc zero) h = ground (
    arith,
    merge_lanes w (pack_data host p d) (pack_enables host byt e),
    pack_data_lanes host p d bytes,
    pack_enables_bits host byt e,
    enabled-selected 1,
  )
  merged_byte (suc (suc zero)) h = ground (
    arith,
    merge_lanes w (pack_data host p d) (pack_enables host byt e),
    pack_data_lanes host p d bytes,
    pack_enables_bits host byt e,
    enabled-selected 2,
  )
  merged_byte (suc (suc (suc zero))) h = ground (
    arith,
    merge_lanes w (pack_data host p d) (pack_enables host byt e),
    pack_data_lanes host p d bytes,
    pack_enables_bits host byt e,
    enabled-selected 3,
  )
  merged_byte (suc (suc (suc (suc k)))) h = absurd (omega arith)

-- ===== src/Sdram/ImageTests.antt =====
-- Runs of loading and dumping of models/memories/sdram/generic_sdram.hpp.
use deltamodels.Base.{ℕ, ◌≡◌, false, none, some, List, [], ◌∷◌, arith, SameLanes, done, refl}
use deltamodels.Sdram.Commands.{Selects}
use deltamodels.Sdram.FileRead.{read_back, read_back-configure_region}
use deltamodels.Sdram.{Words, Geometry, Sdram, Pins, init, nop_1, activate, read, to_word_address}
use deltamodels.Sdram.Files.{configure_region, hexdump}
use deltamodels.Sdram.Images.{AllBytes, configure_region_tail}
use deltamodels.Sdram.Dumps.{read_tokens, read_tokens-hexdump}

abbrev file : List ℕ
file = 1 ∷ 2 ∷ 3 ∷ 4 ∷ 5 ∷ 6 ∷ []

abbrev ones_behind : ℕ → ℕ
ones_behind j = 255

abbrev empty : Words
empty a = none

file-AllBytes : AllBytes file
file-AllBytes =
    (omega arith, (omega arith, (omega arith, (omega arith, (omega arith, (omega arith, tt))))))

abbrev geometry : Geometry
geometry = record { row_bits = 13; bank_bits = 2; col_bits = 9 }

abbrev pins : ℕ → ℕ → ℕ → ℕ → Pins
pins ras cas we a = record {
  ck = 1;
  cke = 1;
  cs_n = 0;
  ras_n = ras;
  cas_n = cas;
  we_n = we;
  a = a;
  ba = 0;
  dq = 0;
  dm = 0;
}

opens : Selects activate (pins 0 1 1 0)
opens = record { clock = refl; enable = refl; chip = refl; ras = refl; cas = refl; we = refl }

reads : Selects read (pins 1 0 1 64)
reads = record { clock = refl; enable = refl; chip = refl; ras = refl; cas = refl; we = refl }

rests : Selects nop_1 (pins 1 1 1 0)
rests = record { clock = refl; enable = refl; chip = refl; ras = refl; cas = refl; we = refl }

abbrev new : Sdram
new = init 2 geometry 0

read_back-configure_region_example :
    (mem : Words) × (configure_region file ones_behind 0x100 0 false new.mem ≡ some mem)
    × (t : Sdram) × (read_back
          (pins 0 1 1 0)
          (pins 1 0 1 64)
          (pins 1 1 1 0)
          (record new { mem = mem })
        ≡ done t)
    × (t.dq_out ≡ 0x01020304)
unfolding to_word_address
read_back-configure_region_example =
    read_back-configure_region (pins 0 1 1 0) (pins 1 0 1 64) (pins 1 1 1 0) opens refl reads refl
      refl rests refl 2 0 0x100 geometry file ones_behind false (omega arith) file-AllBytes
      (λ j. omega arith) (omega arith) (omega arith) (omega arith) (omega arith)

-- The upper lanes are those of the first word.
configure_region_tail_example :
    (after : Words) × (configure_region file ones_behind 0x100 0 false empty ≡ some after)
    × (w : ℕ) × (after 65 ≡ some w)
    × SameLanes w 5 6 3 4
configure_region_tail_example =
    configure_region_tail file ones_behind 0x100 0 false empty file-AllBytes (λ j. omega arith)
      (omega arith) (omega arith) (omega arith)

read_tokens-hexdump_example :
    read_tokens 9 0 0 (hexdump ((2, 0xdeadbeef) ∷ (3, 1) ∷ (700, 2) ∷ []))
    ≡ (2, 0xdeadbeef) ∷ (3, 1) ∷ (700, 2) ∷ []
read_tokens-hexdump_example = read_tokens-hexdump ((2, 0xdeadbeef) ∷ (3, 1) ∷ (700, 2) ∷ []) 9 (
  omega arith,
  omega arith,
  omega arith,
  (omega arith, omega arith, omega arith, (omega arith, omega arith, omega arith, tt)),
)

-- ===== src/Flash/Widths.antt =====
-- The widths of the fields and signals of models/memories/flash/N25QX.hpp.
use deltamodels.Base.{ℕ, ◌^◌, ◌<◌, Bool, List, [], ◌∷◌}
use deltamodels.Flash.{Flash, Pins, Nibbles, fetch, flash_handler}

-- Every stored half-byte has four bits.
abbrev pub AllNibbles : Nibbles → Type 0
AllNibbles mem = (i : ℕ) → fetch i mem < 16

-- Each field fits its C++ type, and what is driven on the data lines is what was stored.
pub record IsTyped (f : Flash) : Type 0 where
  pub cmd : f.cmd < 2 ^ 8
  pub cnt : f.cnt < 2 ^ 32
  pub addr : f.addr < 2 ^ 32
  pub idx : f.idx < 2 ^ 32
  pub word : f.word < 2 ^ 4
  pub dq_out : f.dq_out < 2 ^ 4
  pub half_bytes : AllNibbles f.conf_memory

-- Changes of the clock to the given levels, with what the pins are then.
abbrev pub changes : List (Bool × Pins) → Flash → Flash
changes [] f = f
changes ((clk, p) ∷ cs) f = changes cs (flash_handler clk p f)

abbrev pub AllFour : List (Bool × Pins) → Type 0
AllFour [] = Unit
AllFour ((clk, p) ∷ cs) = (p.dq < 16) × AllFour cs

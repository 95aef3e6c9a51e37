-- ===== src/Or1k/Invalid.antt =====
-- A word that the table of models/wishbone/or1k/or1k_defs.hpp has no instruction for.
use deltamodels.Base.{◌≡◌, refl, none}
use deltamodels.Or1k.Defs.{
  get_opcodes, moves, control, load_store, extends, alu_regs, alu_imms, compare_regs, compare_imms,
  multiplies, systems,
}
use deltamodels.Or1k.Decoder.{parse, find_match}

pub parse-all_ones : parse get_opcodes 0xffffffff ≡ none
unfolding parse find_match get_opcodes moves control load_store extends alu_regs alu_imms
    compare_regs compare_imms multiplies systems
parse-all_ones = refl

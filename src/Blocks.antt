-- ===== src/Blocks.antt =====
-- models/basic_blocks/FDPE.hpp, models/basic_blocks/tristate.hpp and commons/testbench_utils.hpp:
-- one call of each block's process. A value of `sc_bv<W>` is a number, one of `sc_bv<1>` 0 or 1.
pub mod Settling
pub mod Tests
use deltamodels.Base.{ℕ, Bool, true, false, ◌==◌, not, if◌then◌else◌}

-- The ports of `FDPE`, its clock left out.
pub record Fdpe : Type 0 where
  pub pre : ℕ
  pub ce : ℕ
  pub d : ℕ
  pub c : ℕ
  pub q : ℕ

-- At a rising edge of `clk`.
unfoldable pub handle : Fdpe → Fdpe
handle f = record f { q = f.d }

-- The ports of `TriState`, each with the value of its signal.
pub record TriState : Type 0 where
  pub dout : ℕ
  pub din : ℕ
  pub dinout : ℕ
  pub oe : ℕ

unfoldable pub assign : TriState → TriState
assign t = if t.oe == 1 then record t { dinout = t.din } else record t { dout = t.dinout }

-- `ClkCast<sc_bv<1>>::run` and `BvToBool::convert`.
pub run : Bool → ℕ
run clk = if clk then 1 else 0

pub convert : ℕ → Bool
convert bv = not (bv == 0)

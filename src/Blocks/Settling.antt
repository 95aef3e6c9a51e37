-- ===== src/Blocks/Settling.antt =====
-- What the basic blocks settle to (models/basic_blocks/, commons/testbench_utils.hpp).
use deltamodels.Base.{Bool, true, false, ◌≡◌, refl, arith}
use deltamodels.Blocks.{TriState, assign, run, convert}

-- Two buffers on one signal: the second sees what the first leaves there.
pub joined : TriState → TriState → TriState
joined driver listener = record listener { dinout = driver.dinout }

-- Running the process again, as a change of its own signals makes it run, changes nothing.
assign_settles : (t : TriState) → assign (assign t) ≡ assign t
unfolding assign
assign_settles t = ground arith

-- A buffer with its output enabled passes its input over a shared signal to the output of one whose
-- output is not enabled.
pub assign-joined :
    (driver listener : TriState)
    → driver.oe ≡ 1
    → listener.oe ≡ 0
    → (assign (joined (assign driver) listener)).dout ≡ driver.din
unfolding assign joined
assign-joined driver listener on off = ground (arith, on, off)

-- Converting a clock level to a bit and back.
convert-run : (clk : Bool) → convert (run clk) ≡ clk
unfolding convert run
convert-run true = refl
convert-run false = refl

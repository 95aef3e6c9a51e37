-- ===== src/Blocks/Tests.antt =====
-- Runs of the models of models/basic_blocks/.
use deltamodels.Base.{ℕ, ◌≡◌, refl}
use deltamodels.Blocks.{TriState, handle, assign}
use deltamodels.Blocks.Settling.{joined, assign-joined}

abbrev buffer : ℕ → ℕ → TriState
buffer din oe = record { dout = 0; din = din; dinout = 3; oe = oe }

nine_passed_on : (assign (joined (assign (buffer 9 1)) (buffer 5 0))).dout ≡ 9
nine_passed_on = assign-joined (buffer 9 1) (buffer 5 0) refl refl

-- Neither the preset nor the clock enable holds the output back.
preset_ignored : (handle (record { pre = 1; ce = 0; d = 0; c = 1; q = 1 })).q ≡ 0
unfolding handle
preset_ignored = refl

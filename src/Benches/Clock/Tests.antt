-- ===== src/Benches/Clock/Tests.antt =====
-- The program of models/clocking/tests/test_clockgen.cpp on a clock of 1 ns that rises at once.
use deltamodels.Base.{◌≡◌, true, [], arith, done, default_handler}
use deltamodels.Benches.Clock.{sc_main}
use deltamodels.Benches.Clock.Passing.{levels, sc_main_counts}

sc_main_counts_example : sc_main default_handler true 500 (levels 0 500 []) ≡ done []
sc_main_counts_example =
    sc_main_counts default_handler true 500 0 500 [] (omega arith) (omega arith) (omega arith)
      (omega arith)

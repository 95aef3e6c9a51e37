-- ===== src/Clock/Measure.antt =====
-- What `measure_edges` of models/clocking/clockgen.hpp measures.
use deltamodels.Base.{
  ℕ, zero, suc, ◌+◌, ◌^◌, ◌<◌, lt→ltb, ◌≡◌, ◌∙◌, Bool, true, false, some, List, ◌∷◌, ◌++◌, arith,
  replicate,
}
use deltamodels.Clock.{count_high, measure_edges}

count_high_lem :
    (n pos : ℕ) (rest : List Bool)
    → pos + n < 2 ^ 31
    → count_high pos (replicate n true ++ (false ∷ rest)) ≡ some (pos + n, rest)
unfolding count_high
count_high_lem zero pos rest small = ground arith
count_high_lem (suc n) pos rest small =
    rw (count_high_lem n (pos + 1) rest (omega arith), lt→ltb (pos + 1) (2 ^ 31) (omega arith))
      (ground arith)

-- The clock is measured by its first high phase, however long it was low before; the output locks one
-- picosecond after the phase's end. The phase is taken from the first sample on: where the
-- measurement starts inside it, only what is left of it is counted. The phase is below 2^31 samples.
pub measure_edges_lem :
    (k n : ℕ) (rest : List Bool)
    → suc n < 2 ^ 31
    → measure_edges (replicate k false ++ (replicate (suc n) true ++ (false ∷ rest)))
      ≡ some (suc n, rest)
unfolding measure_edges
measure_edges_lem zero n rest small = count_high_lem (suc n) 0 rest (omega arith) ∙ ground arith
measure_edges_lem (suc k) n rest small = measure_edges_lem k n rest small

-- ===== src/Checks/Tests.antt =====
-- Runs of the checks of commons/assertions.hpp on numbers.
use deltamodels.Base.{
  ℕ, ◌≡◌, ◌≢◌, ◌↔◌, refl, ==_iff, ◌==◌, true, List, [], ◌∷◌, done, default_handler,
}
use deltamodels.Or1k.Text.{codes, hex}
use deltamodels.Checks.{
  check_values_match, check_values_different_from, check_vectors_match, vector_text,
}
use deltamodels.Checks.Passing.{returns, check_vectors_match_returns, checks_exclude}

unequal_vectors :
    (check_vectors_match (◌==◌) (λ n. n) default_handler (1 ∷ 2 ∷ []) (1 ∷ 3 ∷ []) (codes "m") []
      ≡ done [])
    ↔ (◌≡◌ {A = List ℕ} (1 ∷ 2 ∷ []) (1 ∷ 3 ∷ []))
unequal_vectors =
    check_vectors_match_returns (◌==◌) ==_iff default_handler refl (codes "m") [] (λ n. n)
      (1 ∷ 2 ∷ []) (1 ∷ 3 ∷ [])

three_and_four :
    ((returns (check_values_match (◌==◌) hex default_handler 3 4 (codes "m") []) ≡ true)
      ↔ (◌≡◌ {A = ℕ} 3 4))
    × ((returns (check_values_different_from (◌==◌) hex default_handler 3 4 (codes "m") []) ≡ true)
        ↔ (◌≢◌ {A = ℕ} 3 4))
three_and_four = checks_exclude (◌==◌) ==_iff default_handler refl (codes "m") [] hex 3 4

-- Different vectors whose messages show the same digits.
same_digits :
    vector_text (codes "m") (0x1 ∷ 0x12 ∷ []) (0x11 ∷ 0x2 ∷ [])
    ≡ codes "m failed: first value 112 doesn't match with 112\n"
unfolding vector_text codes hex
same_digits = refl

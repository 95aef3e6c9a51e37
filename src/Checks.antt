-- ===== src/Checks.antt =====
-- commons/assertions.hpp: the three checks of the test benches. The comparison, the printing and
-- the cast to `unsigned` of the checked type are its own, and parameters. A check that fails adds
-- its message to the reports and then reports an error.
pub mod Passing
pub mod Tests
use deltamodels.Base.{
  ℕ, Bool, true, false, ◌&&◌, List, [], ◌∷◌, ◌++◌, map, if◌then◌else◌, Run, done, Handler, error,
  report, ◌>>=◌,
}
use deltamodels.Or1k.Text.{Text, codes, hex}

abbrev pub Reports : Type 0
Reports = List Text

-- `SC_REPORT_ERROR("ASSERTION_MISMATCH", text)`, and what follows it: nothing.
pub mismatch : Handler → Text → Reports → Run Reports Reports
mismatch throws text reports =
    let reports' = reports ++ (text ∷ []) in
    report throws error "ASSERTION_MISMATCH" reports' >>= λ _. done reports'

value_text : Text → Text → Text → Text
value_text msg shown1 shown2 =
    msg
    ++ (codes " failed: Value 0x"
        ++ (shown1 ++ (codes " does not match with 0x" ++ (shown2 ++ codes "\n"))))

-- The elements one after the other.
pub digits : List ℕ → Text
digits [] = []
digits (n ∷ ns) = hex n ++ digits ns

pub vector_text : Text → List ℕ → List ℕ → Text
unfolding digits
vector_text msg val1 val2 =
    msg
    ++ (codes " failed: first value "
        ++ (digits val1 ++ (codes " doesn't match with " ++ (digits val2 ++ codes "\n"))))

module _ {A : Type 0} (same : A → A → Bool) where
  -- `==` of `std::vector`.
  pub same_vector : List A → List A → Bool
  same_vector [] [] = true
  same_vector [] (y ∷ ys) = false
  same_vector (x ∷ xs) [] = false
  same_vector (x ∷ xs) (y ∷ ys) = same x y && same_vector xs ys

  module _ (shown : A → Text) (throws : Handler) where
    pub check_values_match : A → A → Text → Reports → Run Reports Reports
    unfolding mismatch value_text
    check_values_match val1 val2 msg reports =
        if same val1 val2
        then done reports
        else mismatch throws (value_text msg (shown val1) (shown val2)) reports

    pub check_values_different_from : A → A → Text → Reports → Run Reports Reports
    unfolding mismatch value_text
    check_values_different_from val1 val2 msg reports =
        if same val1 val2
        then mismatch throws (value_text msg (shown val1) (shown val2)) reports
        else done reports

  module _ (unsigned : A → ℕ) (throws : Handler) where
    pub check_vectors_match : List A → List A → Text → Reports → Run Reports Reports
    unfolding same_vector mismatch vector_text
    check_vectors_match val1 val2 msg reports =
        if same_vector val1 val2
        then done reports
        else mismatch throws (vector_text msg (map unsigned val1) (map unsigned val2)) reports

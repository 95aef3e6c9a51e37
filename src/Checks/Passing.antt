-- ===== src/Checks/Passing.antt =====
-- When the checks of commons/assertions.hpp let a test bench go on.
use deltamodels.Base.{
  ℕ, Bool, Bool-cases, inl, inr, true, false, ◌≡◌, ◌≢◌, ◌↔◌, refl, ap, List, [], ◌∷◌, ◌++◌, arith,
  Run, done, raised, undefined, Handler, error, ◌==◌, ==_iff,
}
use deltamodels.Or1k.Text.{Text}
use deltamodels.Checks.{
  Reports, mismatch, value_text, same_vector, check_values_match, check_values_different_from,
  check_vectors_match,
}

-- Whether a call returns.
abbrev pub returns : {S A : Type 0} → Run S A → Bool
returns (done a) = true
returns (raised r s) = false
returns undefined = false

mismatch-returns :
    (throws : Handler) (text : Text) (reports : Reports)
    → throws error ≡ true
    → returns (mismatch throws text reports) ≡ false
unfolding mismatch
mismatch-returns throws text reports h = rw (h) refl

module _ {A : Type 0} (same : A → A → Bool) (shown : A → Text) (throws : Handler) (x y : A)
    (msg : Text) (reports : Reports) where
  pub match_passes :
      same x y ≡ true → check_values_match same shown throws x y msg reports ≡ done reports
  unfolding check_values_match
  match_passes equal = rw equal refl

  -- A failed check, where errors throw.
  pub match_fails :
      throws error ≡ true
      → same x y ≡ false
      → (more : Reports) × (check_values_match same shown throws x y msg reports
          ≡ raised (record { severity = error; msg_type = "ASSERTION_MISMATCH" }) more)
  unfolding check_values_match mismatch
  match_fails halts differ =
      (reports ++ (value_text msg (shown x) (shown y) ∷ []), rw (differ, halts) refl)

-- Two equal numbers pass.
pub equal_match :
    (shown : ℕ → Text) (throws : Handler) (x y : ℕ) (msg : Text) (reports : Reports)
    → x ≡ y
    → check_values_match (◌==◌) shown throws x y msg reports ≡ done reports
equal_match shown throws x y msg reports e =
    match_passes (◌==◌) shown throws x y msg reports ((==_iff x y).1 e)

module _ {A : Type 0} (same : A → A → Bool) (lawful : (x y : A) → (same x y ≡ true) ↔ (x ≡ y)) where
  pub same_vector_iff : (xs ys : List A) → (same_vector same xs ys ≡ true) ↔ (xs ≡ ys)
  unfolding same_vector
  same_vector_iff [] [] = (λ _. refl, λ _. refl)
  same_vector_iff [] (y ∷ ys) = (λ h. cc, λ h. cc)
  same_vector_iff (x ∷ xs) [] = (λ h. cc, λ h. cc)
  same_vector_iff (x ∷ xs) (y ∷ ys) =
      let heads = lawful x y in
      let tails = same_vector_iff xs ys in (λ h. grind arith, λ h. grind arith)

  module _ (throws : Handler) (stops : throws error ≡ true) (msg : Text) (reports : Reports) where
    -- If errors throw and the comparison of the elements decides their equality, the check of two
    -- vectors returns exactly for equal vectors, lengths included; the reports are then as before.
    pub check_vectors_match_returns :
        (unsigned : A → ℕ) (xs ys : List A)
        → (check_vectors_match same unsigned throws xs ys msg reports ≡ done reports) ↔ (xs ≡ ys)
    unfolding check_vectors_match mismatch
    check_vectors_match_returns unsigned xs ys =
        let iff = same_vector_iff xs ys in
        elim (Bool-cases (same_vector same xs ys)) [
          | inl e ↦ (λ h. iff.0 e, λ h. rw (e) refl)
          | inr e ↦
              let fails : returns (check_vectors_match same unsigned throws xs ys msg reports)
                  ≡ false =
                rw (e, stops) refl in
              (λ h. let ends = ap returns h in cc, λ h. let equal = iff.1 h in cc)
        ]

    -- If errors throw and the comparison decides equality, exactly one of the two checks of a pair
    -- of values returns: `checkValuesMatch` if they are equal, else `checkValuesDifferentFrom`.
    pub checks_exclude :
        (shown : A → Text) (x y : A)
        → ((returns (check_values_match same shown throws x y msg reports) ≡ true) ↔ (x ≡ y))
          × ((returns (check_values_different_from same shown throws x y msg reports) ≡ true)
              ↔ (x ≢ y))
    unfolding check_values_match check_values_different_from mismatch
    checks_exclude shown x y =
        let iff = lawful x y in
        elim (Bool-cases (same x y)) [
          | inl e ↦
              let passes : returns (check_values_match same shown throws x y msg reports) ≡ true =
                rw (e) refl in
              let fails : returns (check_values_different_from same shown throws x y msg reports)
                  ≡ false =
                rw (e, stops) refl in
              ((λ h. iff.0 e, λ h. passes), (λ h. cc, λ h. absurd (h (iff.0 e))))
          | inr e ↦
              let fails : returns (check_values_match same shown throws x y msg reports) ≡ false =
                rw (e, stops) refl in
              let passes : returns (check_values_different_from same shown throws x y msg reports)
                  ≡ true =
                rw (e) refl in
              (
                (λ h. cc, λ h. let equal = iff.1 h in cc),
                (λ h p. let equal = iff.1 p in cc, λ h. passes),
              )
        ]

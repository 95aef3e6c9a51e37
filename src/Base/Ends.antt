-- ===== src/Base/Ends.antt =====
-- Rules for calls that return, and for what holds of those that do.
use mathlib.Core.Path.{◌≡◌, refl, sym, subst}
use deltamodels.Base.Outcome.{Run, done, raised, undefined, ◌>>=◌}

-- The call returns, and `P` holds of what it returns.
pub data Returns {S A : Type 0} (P : A → Type 0) : Run S A → Type 0 where
  returns : {a : A} → P a → Returns P (done a)

-- If the call returns, `P` holds of what it returns.
abbrev pub Ensures : {S A : Type 0} → (A → Type 0) → Run S A → Type 0
Ensures P (done a) = P a
Ensures P (raised r s) = Unit
Ensures P undefined = Unit

pub done-Returns :
    {S A : Type 0} {P : A → Type 0} {m : Run S A} {a : A} → m ≡ done a → P a → Returns P m
done-Returns {P = P} run p = subst (Returns P) (sym run) (returns p)

pub Returns-bind :
    {S A B : Type 0} {P : A → Type 0} {Q : B → Type 0} {m : Run S A} {f : A → Run S B}
    → Returns P m
    → ((a : A) → P a → Returns Q (f a))
    → Returns Q (m >>= f)
Returns-bind (returns p) k = k _ p

pub Returns-map :
    {S A : Type 0} {P Q : A → Type 0} {m : Run S A}
    → Returns P m
    → ((a : A) → P a → Q a)
    → Returns Q m
Returns-map (returns p) k = returns (k _ p)

pub Returns-inv :
    {S A : Type 0} {P : A → Type 0} {m : Run S A} → Returns P m → (a : A) × (m ≡ done a) × P a
Returns-inv (returns p) = (_, refl, p)

pub Returns-Ensures :
    {S A : Type 0} {P Q : A → Type 0} {m : Run S A}
    → Returns P m
    → Ensures Q m
    → Returns (λ a. P a × Q a) m
Returns-Ensures (returns p) q = returns (p, q)

pub Ensures-bind :
    {S A B : Type 0} (P : A → Type 0) (Q : B → Type 0) (m : Run S A) (f : A → Run S B)
    → Ensures P m
    → ((a : A) → P a → Ensures Q (f a))
    → Ensures Q (m >>= f)
Ensures-bind P Q (done a) f p k = k a p
Ensures-bind P Q (raised r s) f p k = tt
Ensures-bind P Q undefined f p k = tt

-- What holds after the second part, whatever the first does.
pub Ensures-then :
    {S A B : Type 0} (Q : B → Type 0) (m : Run S A) (f : A → Run S B)
    → ((a : A) → Ensures Q (f a))
    → Ensures Q (m >>= f)
Ensures-then Q (done a) f k = k a
Ensures-then Q (raised r s) f k = tt
Ensures-then Q undefined f k = tt

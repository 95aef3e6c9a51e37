-- ===== src/Base/Outcome.antt =====
-- How a call of a simulation process ends: it returns, the report handler throws out of it (with
-- the state reached by then), or it touches memory that is not its own, which C++ leaves undefined.
-- What the report handler does with a severity is SystemC's: a parameter of every model that
-- reports.
use Prim.Native.String.{String}
use mathlib.Core.Path.{◌≡◌, refl}
use mathlib.Core.Bool.{Bool, true, false}
use deltamodels.Base.Tests.{if◌then◌else◌}

pub data Severity : Type 0 where
  warning error fatal : Severity

pub record Report : Type 0 where
  pub severity : Severity
  pub msg_type : String

-- Which severities leave the reporting call by an exception.
abbrev pub Handler : Type 0
Handler = Severity → Bool

-- SystemC's defaults: an error throws, a fatal report aborts, a warning is displayed.
abbrev pub default_handler : Handler
default_handler warning = false
default_handler error = true
default_handler fatal = true

pub data Run (S A : Type 0) : Type 0 where
  done : A → Run S A
  raised : Report → S → Run S A
  undefined : Run S A

infixl 5 ◌>>=◌ ◌>>◌
abbrev pub ◌>>=◌ : {S A B : Type 0} → Run S A → (A → Run S B) → Run S B
done a >>= f = f a
raised r s >>= f = raised r s
undefined >>= f = undefined

abbrev pub ◌>>◌ : {S B : Type 0} → Run S (Unit {0}) → Run S B → Run S B
m >> k = m >>= λ _. k

-- `SC_REPORT_…` at a point where the state is `s`.
abbrev pub report : {S : Type 0} → Handler → Severity → String → S → Run S (Unit {0})
report throws level msg s =
    if throws level then raised (record { severity = level; msg_type = msg }) s else done tt

-- Memory accesses that must stay inside an object.
abbrev pub in_bounds : {S : Type 0} → Bool → Run S (Unit {0})
in_bounds true = done tt
in_bounds false = undefined

-- Sequencing is associative, and looks at its second part only where the first returns.
pub >>=_assoc :
    {S A B C : Type 0} (m : Run S A) (f : A → Run S B) (g : B → Run S C)
    → ((m >>= f) >>= g) ≡ (m >>= λ x. f x >>= g)
>>=_assoc (done a) f g = refl
>>=_assoc (raised r s) f g = refl
>>=_assoc undefined f g = refl

pub >>=_ext :
    {S A B : Type 0} (m : Run S A) (f g : A → Run S B)
    → ((x : A) → f x ≡ g x)
    → (m >>= f) ≡ (m >>= g)
>>=_ext (done a) f g same = same a
>>=_ext (raised r s) f g same = refl
>>=_ext undefined f g same = refl

-- ===== src/Base/Results.antt =====
-- A computation that may raise: a value, or the exception.
use mathlib.Core.Path.{◌≡◌, refl}
use mathlib.Core.Bool.{Bool, true, false}
use mathlib.Core.Logic.{◌≢◌, ◌⊎◌, inl, inr}
use mathlib.Core.Option.{Option, none, some}

pub data Result (E A : Type 0) : Type 0 where
  ok : A → Result E A
  err : E → Result E A

infixl 5 ◌>>=◌ ◌>>◌
abbrev pub ◌>>=◌ : {E A B : Type 0} → Result E A → (A → Result E B) → Result E B
ok a >>= f = f a
err e >>= f = err e

abbrev pub ◌>>◌ : {E A B : Type 0} → Result E A → Result E B → Result E B
m >> k = m >>= λ _. k

-- `if test: raise e`
abbrev pub raise_if : {E : Type 0} → Bool → E → Result E (Unit {0})
raise_if true e = err e
raise_if false e = ok tt

-- `try: m  except …: raise e`
abbrev pub or_raise : {E F A : Type 0} → F → Result E A → Result F A
or_raise e (ok a) = ok a
or_raise e (err _) = err e

abbrev pub from_option : {E A : Type 0} → E → Option A → Result E A
from_option e none = err e
from_option e (some a) = ok a

-- What holds of the value, if the computation returns one.
abbrev pub OnOk : {E A : Type 0} → (A → Type 0) → Result E A → Type 0
OnOk P (ok a) = P a
OnOk P (err e) = Unit

-- Inversions, for proofs where the parts stay shut.
pub >>=-eq-ok :
    {E A B : Type 0} (first : Result E A) (then : A → Result E B) {result : B}
    → (first >>= then) ≡ ok result
    → (a : A) × (first ≡ ok a) × (then a ≡ ok result)
>>=-eq-ok (err raised) then is_ok = cc
>>=-eq-ok (ok a) then is_ok = (a, refl, is_ok)

pub raise_if-eq-ok :
    {E B : Type 0} (t : Bool) (e : E) (m : Result E B) {b : B}
    → (raise_if t e >> m) ≡ ok b
    → (t ≡ false) × (m ≡ ok b)
raise_if-eq-ok true e m h = cc
raise_if-eq-ok false e m h = (refl, h)

pub or_raise-eq-ok :
    {E F A : Type 0} (e : F) (m : Result E A) {a : A} → or_raise e m ≡ ok a → m ≡ ok a
or_raise-eq-ok e (ok a) h = cc
or_raise-eq-ok e (err _) h = cc

pub from_option-eq-ok :
    {E A : Type 0} (e : E) (o : Option A) {a : A} → from_option e o ≡ ok a → o ≡ some a
from_option-eq-ok e none h = cc
from_option-eq-ok e (some a) h = cc

pub Result-cases :
    {E A : Type 0} (m : Result E A) → ((a : A) × (m ≡ ok a)) ⊎ ((e : E) × (m ≡ err e))
Result-cases (ok a) = inl (a, refl)
Result-cases (err e) = inr (e, refl)

-- A computation that raises nothing has a value.
pub ok_unless_err : {E A : Type 0} (m : Result E A) → ((e : E) → m ≢ err e) → (a : A) × (m ≡ ok a)
ok_unless_err (ok a) h = (a, refl)
ok_unless_err (err e) h = absurd (h e refl)

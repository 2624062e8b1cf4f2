-- ===== src/Prelude/Result.antt =====
-- The outcome of code that may throw: the exceptions of the standard library that the sources raise.
use mathlib.Core.Bool.{Bool, true, false}
use cs144_me.Prelude.Tests.{if◌then◌else◌}

pub data Exception : Type 0 where
  out_of_range runtime_error : Exception

-- What a call comes to: an exception that leaves it, or the value that it returns.
pub data Result (A : Type 0) : Type 0 where
  throw : Exception → Result A
  ok : A → Result A

infixl 5 ◌>>=◌
-- The code after a call runs on the value; an exception passes it over.
abbrev pub ◌>>=◌ : {A B : Type 0} → Result A → (A → Result B) → Result B
throw ex >>= rest = throw ex
ok value >>= rest = rest value

-- An exception, or a value that satisfies P.
abbrev pub IfOk {ℓ} : {A : Type 0} → (A → Type ℓ) → Result A → Type ℓ
IfOk P (ok a) = P a
IfOk P (throw e) = Unit

pub IfOk-bind :
    {A B : Type 0} (P : A → Type 0) (Q : B → Type 0) (m : Result A) (f : A → Result B)
    → IfOk P m
    → ((a : A) → P a → IfOk Q (f a))
    → IfOk Q (m >>= f)
IfOk-bind P Q (ok a) f h k = k a h
IfOk-bind P Q (throw e) f h k = tt

pub IfOk-map :
    {A : Type 0} (P Q : A → Type 0) (m : Result A) → IfOk P m → ((a : A) → P a → Q a) → IfOk Q m
IfOk-map P Q (throw e) h k = tt
IfOk-map P Q (ok a) h k = k a h

pub any_ok : {A : Type 0} (m : Result A) → IfOk (λ a. Unit {0}) m
any_ok (throw e) = tt
any_ok (ok a) = tt

-- A property of both branches.
pub if-both {ℓ κ} :
    {A : Type ℓ} (P : A → Type κ) (b : Bool) (x y : A) → P x → P y → P (if b then x else y)
if-both P true x y p q = p
if-both P false x y p q = q

-- ===== src/Prelude/Outcome.antt =====
-- The outcome of a fallible run that takes fuel, and postconditions on it.
use mathlib.Core.Path.{◌≡◌, refl, subst}
use mathlib.Core.Logic.{◌≢◌}
use mathlib.Core.Bool.{Bool, true, false}
use jsonc.Prelude.Tests.{if◌then◌else◌}

-- `out_of_fuel` has no counterpart in the program: it is proved not to occur.
pub data Result (E A : Type 0) : Type 0 where
  ok : A → Result E A
  err : E → Result E A
  out_of_fuel : Result E A

infixl 5 ◌>>=◌
abbrev pub ◌>>=◌ : {E A B : Type 0} → Result E A → (A → Result E B) → Result E B
ok a >>= f = f a
err e >>= f = err e
out_of_fuel >>= f = out_of_fuel

-- The run stays within its fuel; `P` holds of its value, or `Q` of its error.
pub data Ensures {E A : Type 0} (P : A → Type 0) (Q : E → Type 0) : Result E A → Type 0 where
  holds : {a : A} → P a → Ensures P Q (ok a)
  fails : {e : E} → Q e → Ensures P Q (err e)

module _ {E A : Type 0} {P : A → Type 0} {Q : E → Type 0} where
  pub Ensures-ok : {r : Result E A} {a : A} → Ensures P Q r → r ≡ ok a → P a
  Ensures-ok (holds h) e = subst P (cc) h
  Ensures-ok (fails h) e = cc

  pub Ensures-err : {r : Result E A} {x : E} → Ensures P Q r → r ≡ err x → Q x
  Ensures-err (holds h) e = cc
  Ensures-err (fails h) e = subst Q (cc) h

  pub Ensures-out_of_fuel : {r : Result E A} → Ensures P Q r → r ≢ out_of_fuel
  Ensures-out_of_fuel (holds h) = cc
  Ensures-out_of_fuel (fails h) = cc

  pub Ensures-if :
      (b : Bool) {x y : Result E A}
      → (b ≡ true → Ensures P Q x)
      → (b ≡ false → Ensures P Q y)
      → Ensures P Q (if b then x else y)
  Ensures-if true hx hy = hx refl
  Ensures-if false hx hy = hy refl

  pub Ensures-weaken :
      {P' : A → Type 0} {Q' : E → Type 0} {r : Result E A}
      → Ensures P Q r
      → ((a : A) → P a → P' a)
      → ((e : E) → Q e → Q' e)
      → Ensures P' Q' r
  Ensures-weaken (holds {a} h) f g = holds (f a h)
  Ensures-weaken (fails {e} h) f g = fails (g e h)

  pub Ensures-bind :
      {B : Type 0} {R : B → Type 0} {m : Result E A} {f : A → Result E B}
      → Ensures P Q m
      → ((a : A) → P a → Ensures R Q (f a))
      → Ensures R Q (m >>= f)
  Ensures-bind (holds {a} h) k = k a h
  Ensures-bind (fails h) k = fails h

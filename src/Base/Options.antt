-- ===== src/Base/Options.antt =====
-- `Option` as a monad: a parser that returns false stops the parse.
use mathlib.Core.Option.{Option, none, some}
use mathlib.Core.Path.{◌≡◌, refl}

module _ {ℓ κ} {A : Type ℓ} {B : Type κ} where
  infixl 5 ◌>>=◌
  abbrev pub ◌>>=◌ : Option A → (A → Option B) → Option B
  none >>= f = none
  some a >>= f = f a

  pub bind-eq-some :
      (m : Option A) (f : A → Option B) {b : B}
      → m >>= f ≡ some b
      → (a : A) × (m ≡ some a) × (f a ≡ some b)
  bind-eq-some (some a) f h = (a, refl, h)
  bind-eq-some none f h = cc

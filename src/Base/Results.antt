-- ===== src/Base/Results.antt =====
-- Python exceptions as values: what a call returns or raises, over the errors of the program.
use mathlib.Core.Option.{Option, none, some}
use mathlib.Core.Logic.{◌⊎◌, inl, inr}
use mathlib.Core.Path.{◌≡◌, refl}

pub data Result {ℓ κ} (E : Type κ) (A : Type ℓ) : Type (ℓ ⊔ κ) where
  ok : A → Result E A
  err : E → Result E A

module _ {ℓ κ} {E : Type κ} {A : Type ℓ} where
  -- `if x is None: raise e`
  abbrev pub or_raise : Option A → E → Result E A
  or_raise none e = err e
  or_raise (some a) e = ok a

  pub Result-cases : (r : Result E A) → ((a : A) × (r ≡ ok a)) ⊎ ((e : E) × (r ≡ err e))
  Result-cases (ok a) = inl (a, refl)
  Result-cases (err e) = inr (e, refl)

  abbrev pub IsOk : Result E A → Type 0
  IsOk (ok a) = Unit
  IsOk (err e) = ⊥

-- ===== src/Base/Results.antt =====
-- `Result<A, E>`, and its chain `?`.
use mathlib.Core.Path.{◌≡◌, refl}
use mathlib.Core.Logic.{◌⊎◌, inl, inr}
use mathlib.Core.Option.{Option, none, some}

pub data Result {ℓ κ} (A : Type ℓ) (E : Type κ) : Type (ℓ ⊔ κ) where
  ok : A → Result A E
  err : E → Result A E

pub Result-cases {ℓ κ} :
    {A : Type ℓ} {E : Type κ} (r : Result A E) → ((a : A) × (r ≡ ok a)) ⊎ ((e : E) × (r ≡ err e))
Result-cases (ok a) = inl (a, refl)
Result-cases (err e) = inr (e, refl)

module _ {ℓ κ} {A : Type ℓ} {E : Type κ} where
  -- `Result::ok`
  abbrev pub ok_value : Result A E → Option A
  ok_value (ok a) = some a
  ok_value (err e) = none

  -- `Result::err`
  abbrev pub err_value : Result A E → Option E
  err_value (ok a) = none
  err_value (err e) = some e

  -- `unwrap_or` (and `unwrap_or_default`, with the default as an argument)
  abbrev pub unwrap_or : Result A E → A → A
  unwrap_or (ok a) d = a
  unwrap_or (err e) d = d

  abbrev pub map_err {μ} : {F : Type μ} → Result A E → (E → F) → Result A F
  map_err (ok a) f = ok a
  map_err (err e) f = err (f e)

-- `?`: an error ends the block.
infixl 5 ◌>>=◌
abbrev pub ◌>>=◌ {ℓ κ μ} :
    {A : Type ℓ} {B : Type κ} {E : Type μ} → Result A E → (A → Result B E) → Result B E
ok a >>= f = f a
err e >>= f = err e

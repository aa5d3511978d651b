-- ===== src/Base/Result.antt =====
-- A Go result `(value, error)`: a value, or an error of the type `E`.
use mathlib.Core.Path.{◌≡◌, refl}

pub data Result {ℓ} (E : Type 0) (A : Type ℓ) : Type ℓ where
  ok : A → Result E A
  err : E → Result E A

module _ {E : Type 0} where
  -- `if err != nil { return err }` between two steps.
  infixl 5 ◌>>=◌
  abbrev pub ◌>>=◌ {ℓ κ} : {A : Type ℓ} {B : Type κ} → Result E A → (A → Result E B) → Result E B
  ◌>>=◌ step next = elim step [ ok a ↦ next a | err why ↦ err why ]

  -- The two steps of a chain that succeeded.
  pub ok_chain {ℓ κ} :
      {A : Type ℓ} {B : Type κ} (step : Result E A) (next : A → Result E B) {b : B}
      → step >>= next ≡ ok b
      → (a : A) × (step ≡ ok a) × (next a ≡ ok b)
  ok_chain (ok a) next h = (a, refl, h)
  ok_chain (err why) next h = cc

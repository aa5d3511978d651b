-- ===== src/Base/Dict.antt =====
-- Go's maps as association lists, in the order in which the keys were first written.
pub mod Laws
use tennis_wiki.Base.Tests.{◌==◌, ==_iff, if◌then◌else◌, Bool-cases}
use tennis_wiki.Base.Text.{Bytes, equal}
use tennis_wiki.Base.Text.Words.{equal_refl, equal-true}
use Prim.Native.Nat.{ℕ}
use mathlib.Core.Path.{◌≡◌, refl, ap₂}
use mathlib.Core.Logic.{inl, inr}
use mathlib.Core.Bool.{Bool, true, ◌&&◌}
use mathlib.Core.List.{List, [], ◌∷◌}
use mathlib.Core.Option.{Option, none, some}
use native.Mathlib.Omega.{arith}

-- `==` on the keys of a map.
pub record Eq {ℓ} (K : Type ℓ) : Type ℓ where
  pub same : K → K → Bool
  pub same_refl : (a : K) → same a a ≡ true
  pub same-true : (a b : K) → same a b ≡ true → a ≡ b

pub ==_refl : (a : ℕ) → (a == a) ≡ true
==_refl a = ground arith

instance abbrev pub number_eq : Eq ℕ
number_eq = record { same = ◌==◌; same_refl = ==_refl; same-true = λ a b. (==_iff a b).0 }

instance abbrev pub text_eq : Eq Bytes
text_eq = record { same = equal; same_refl = equal_refl; same-true = equal-true }

abbrev pub both {ℓ κ} : {A : Type ℓ} {B : Type κ} → Eq A → Eq B → A × B → A × B → Bool
both p q (a, b) (c, d) = p.same a c && q.same b d

pub both-true {ℓ κ} :
    {A : Type ℓ} {B : Type κ} (p : Eq A) (q : Eq B) (x y : A × B) → both p q x y ≡ true → x ≡ y
both-true p q (a, b) (c, d) e = elim (Bool-cases (p.same a c)) [
  | inl f ↦ ap₂ (λ x y. (x, y)) (p.same-true a c f) (q.same-true b d (ground (arith, f, e)))
  | inr f ↦ absurd (ground (arith, f, e))
]

pub both_refl {ℓ κ} :
    {A : Type ℓ} {B : Type κ} (p : Eq A) (q : Eq B) (x : A × B) → both p q x x ≡ true
both_refl p q (a, b) = rw (p.same_refl a, q.same_refl b) refl

abbrev pub pair_eq {ℓ κ} : {A : Type ℓ} {B : Type κ} → Eq A → Eq B → Eq (A × B)
pair_eq p q = record { same = both p q; same_refl = both_refl p q; same-true = both-true p q }

module _ {ℓ κ} {K : Type ℓ} {V : Type κ} ⦃eq : Eq K⦄ where
  -- `m[k]`
  unfoldable pub find? : K → List (K × V) → Option V
  find? k [] = none
  find? k ((j, v) ∷ m) = if eq.same j k then some v else find? k m

  -- `m[k] = f(m[k])`, where a missing entry reads as `d`.
  unfoldable pub modify : K → V → (V → V) → List (K × V) → List (K × V)
  modify k d f [] = (k, f d) ∷ []
  modify k d f ((j, v) ∷ m) = if eq.same j k then (j, f v) ∷ m else (j, v) ∷ modify k d f m

  -- `m[k] = v`
  unfoldable pub put : K → V → List (K × V) → List (K × V)
  unfolding modify
  put k v m = modify k v (λ w. v) m

  -- `m[k]`, where a missing entry reads as `d`.
  unfoldable pub find_or : K → V → List (K × V) → V
  find_or k d [] = d
  find_or k d ((j, v) ∷ m) = if eq.same j k then v else find_or k d m

  -- `delete(m, k)`
  unfoldable pub remove : K → List (K × V) → List (K × V)
  remove k [] = []
  remove k ((j, v) ∷ m) = let rest = remove k m in if eq.same j k then rest else (j, v) ∷ rest

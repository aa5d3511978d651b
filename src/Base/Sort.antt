-- ===== src/Base/Sort.antt =====
-- Go's `sort.Slice` as an insertion sort by its test. Which sorting it is makes no difference where
-- no two elements tie.
use mathlib.Core.Path.{◌≡◌, refl}
use mathlib.Core.Logic.{◌⊎◌, inl, inr}
use mathlib.Core.Bool.{Bool, true}
use mathlib.Core.List.{List, [], ◌∷◌, Permᴰ}
use mathlib.Core.List.Permᴰ
use native.Mathlib.Omega.{arith}
use tennis_wiki.Base.Tests.{if◌then◌else◌, Bool-cases}
use tennis_wiki.Base.Pairs.{Pairs}
use tennis_wiki.Base.Lists.{All, All-mono, All_perm}

module _ {ℓ} {A : Type ℓ} (less : A → A → Bool) where
  unfoldable pub insert : A → List A → List A
  insert a [] = a ∷ []
  insert a (b ∷ ys) = if less b a then b ∷ insert a ys else a ∷ b ∷ ys

  unfoldable pub sort : List A → List A
  unfolding insert
  sort [] = []
  sort (a ∷ xs) = insert a (sort xs)

module _ {ℓ} {A : Type ℓ} (less : A → A → Bool) where
  abbrev pub Untied : A → A → Type 0
  Untied a b = (less a b ≡ true) ⊎ (less b a ≡ true)

  -- Each element is less than all that follow it.
  abbrev pub Increasing : List A → Type 0
  Increasing = Pairs (λ a b. less a b ≡ true)

  pub insert-perm : (a : A) (xs : List A) → Permᴰ (insert less a xs) (a ∷ xs)
  unfolding insert
  insert-perm a [] = Permᴰ.refl _
  insert-perm a (b ∷ ys) = elim (Bool-cases (less b a)) [
    | inl e ↦ rw e (Permᴰ.trans (Permᴰ.cons refl (insert-perm a ys)) (Permᴰ.swap refl refl))
    | inr e ↦ rw e (Permᴰ.refl _)
  ]

  pub sort-perm : (xs : List A) → Permᴰ (sort less xs) xs
  unfolding sort
  sort-perm [] = Permᴰ.refl _
  sort-perm (a ∷ xs) = Permᴰ.trans (insert-perm a (sort less xs)) (Permᴰ.cons refl (sort-perm xs))

  module _ (trans : (a b c : A) → less a b ≡ true → less b c ≡ true → less a c ≡ true) where
    pub insert-Increasing :
        (a : A) (xs : List A) → All (Untied a) xs → Increasing xs → Increasing (insert less a xs)
    unfolding insert
    insert-Increasing a [] u h = (tt, tt)
    insert-Increasing a (b ∷ ys) u h = elim (Bool-cases (less b a)) [
      | inl e ↦ rw e (
        All_perm (λ c. less b c ≡ true) (Permᴰ.symm (insert-perm a ys)) (e, h.0),
        insert-Increasing a ys u.1 h.1,
      )
      | inr e ↦
          let first : less a b ≡ true = elim u.0 [
            | inl f ↦ f
            | inr f ↦ absurd (ground (arith, e, f))
          ] in
          rw e ((first, All-mono (λ c l. trans a b c first l) ys h.0), h)
    ]

    -- Sorting puts elements that do not tie in a strict order.
    pub sort-Increasing : (xs : List A) → Pairs Untied xs → Increasing (sort less xs)
    unfolding sort
    sort-Increasing [] u = tt
    sort-Increasing (a ∷ xs) u =
        insert-Increasing a (sort less xs) (All_perm (Untied a) (Permᴰ.symm (sort-perm xs)) u.0)
          (sort-Increasing xs u.1)

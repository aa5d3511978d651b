-- ===== src/Base/Count.antt =====
-- How many elements pass a test, and the place of an element in a sorted list.
use Prim.Native.Nat.{ℕ, suc, ◌+◌}
use mathlib.Core.Path.{◌≡◌, refl, ◌∙◌}
use mathlib.Core.Bool.{Bool, true, false}
use mathlib.Core.List.{List, [], ◌∷◌, ◌++◌, map, Permᴰ}
use native.Mathlib.Omega.{arith}
use tennis_wiki.Base.Tests.{if◌then◌else◌}
use tennis_wiki.Base.Lists.{All, length}

module _ {ℓ} {A : Type ℓ} (test : A → Bool) where
  unfoldable pub count : List A → ℕ
  count [] = 0
  count (x ∷ xs) = let rest = count xs in if test x then suc rest else rest

  unfoldable pub keep : List A → List A
  keep [] = []
  keep (x ∷ xs) = let rest = keep xs in if test x then x ∷ rest else rest

  abbrev one : A → ℕ
  one x = if test x then 1 else 0

  count_cons : (x : A) (xs : List A) → count (x ∷ xs) ≡ one x + count xs
  unfolding count
  count_cons x xs = ground arith

  pub count_perm : {xs ys : List A} → Permᴰ xs ys → count xs ≡ count ys
  count_perm Permᴰ.nil = refl
  count_perm (Permᴰ.cons {a} {b} {l₁ = l₁} {l₂ = l₂} e p) =
      rw (count_cons a l₁, count_cons b l₂, e, count_perm p) refl
  count_perm (Permᴰ.swap {a} {b} {a'} {b'} {l} e f) =
      rw (count_cons a (b ∷ l), count_cons b l, count_cons a' (b' ∷ l), count_cons b' l, e, f)
        (omega arith)
  count_perm (Permᴰ.trans p q) = count_perm p ∙ count_perm q

  pub count-none : (xs : List A) → All (λ x. test x ≡ false) xs → count xs ≡ 0
  unfolding count
  count-none [] h = refl
  count-none (x ∷ xs) h = rw h.0 (count-none xs h.1)

  pub count-prefix :
      (xs ys : List A) → All (λ x. test x ≡ true) xs → count (xs ++ ys) ≡ length xs + count ys
  unfolding count
  count-prefix [] ys h = omega arith
  count-prefix (x ∷ xs) ys h = rw h.0 (ground (arith, count-prefix xs ys h.1))

-- What passes two tests.
pub count-keep {ℓ} :
    {A : Type ℓ} (test more : A → Bool) (xs : List A)
    → count more (keep test xs) ≡ count (λ x. if test x then more x else false) xs
unfolding count keep
count-keep test more [] = refl
count-keep test more (x ∷ xs) = ground (arith, count-keep test more xs)

pub count-map {ℓ κ} :
    {A : Type ℓ} {B : Type κ} (test : B → Bool) (f : A → B) (xs : List A)
    → count test (map f xs) ≡ count (λ x. test (f x)) xs
unfolding count
count-map test f [] = refl
count-map test f (x ∷ xs) = ground (arith, count-map test f xs)

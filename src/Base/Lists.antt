-- ===== src/Base/Lists.antt =====
-- Lists measured and indexed by native numbers, and a predicate that holds of every element.
use Prim.Native.Nat.{ℕ, zero, suc, ◌+◌}
use mathlib.Core.Path.{◌≡◌, subst}
use mathlib.Core.List.{Permᴰ}
use mathlib.Core.Bool.{Bool, true, false}
use mathlib.Core.List.{List, [], ◌∷◌, ◌++◌, map}
use mathlib.Core.Option.{Option, none, some}
use native.Mathlib.Omega.{arith}

module _ {ℓ} {A : Type ℓ} where
  abbrev pub length : List A → ℕ
  length [] = 0
  length (x ∷ xs) = suc (length xs)

  abbrev pub get_elem? : List A → ℕ → Option A
  get_elem? [] i = none
  get_elem? (x ∷ xs) zero = some x
  get_elem? (x ∷ xs) (suc i) = get_elem? xs i

  abbrev pub get_or : List A → ℕ → A → A
  get_or [] i d = d
  get_or (x ∷ xs) zero d = x
  get_or (x ∷ xs) (suc i) d = get_or xs i d

  -- A write past the end, which is a panic in Go, is left out.
  abbrev pub set : List A → ℕ → A → List A
  set [] i v = []
  set (x ∷ xs) zero v = v ∷ xs
  set (x ∷ xs) (suc i) v = x ∷ set xs i v

  abbrev pub take : ℕ → List A → List A
  take zero xs = []
  take (suc n) [] = []
  take (suc n) (x ∷ xs) = x ∷ take n xs

  -- `len(xs) == 0`
  abbrev pub is_empty : List A → Bool
  is_empty [] = true
  is_empty (x ∷ xs) = false

  pub length-append : (xs ys : List A) → length (xs ++ ys) ≡ length xs + length ys
  length-append [] ys = omega arith
  length-append (x ∷ xs) ys = omega (arith, length-append xs ys)

module _ {ℓ κ} {A : Type ℓ} (P : A → Type κ) where
  abbrev pub All : List A → Type κ
  All [] = Unit
  All (x ∷ xs) = P x × All xs

  pub All-append : (xs ys : List A) → All xs → All ys → All (xs ++ ys)
  All-append [] ys hx hy = hy
  All-append (x ∷ xs) ys (px, hx) hy = (px, All-append xs ys hx hy)

module _ {ℓ κ} {A : Type ℓ} (P : A → Type κ) where
  pub All_left : (xs ys : List A) → All P (xs ++ ys) → All P xs
  All_left [] ys h = tt
  All_left (x ∷ xs) ys h = (h.0, All_left xs ys h.1)

  pub All_right : (xs ys : List A) → All P (xs ++ ys) → All P ys
  All_right [] ys h = h
  All_right (x ∷ xs) ys h = All_right xs ys h.1

  pub All_perm : {xs ys : List A} → Permᴰ xs ys → All P xs → All P ys
  All_perm Permᴰ.nil h = tt
  All_perm (Permᴰ.cons e p) h = (subst P e h.0, All_perm p h.1)
  All_perm (Permᴰ.swap e f) h = (subst P f h.1.0, (subst P e h.0, h.1.1))
  All_perm (Permᴰ.trans p q) h = All_perm q (All_perm p h)

  -- An element put into the list.
  pub All_middle :
      (xs : List A) (y : A) (ys : List A) → All P (xs ++ ys) → P y → All P (xs ++ (y ∷ ys))
  All_middle xs y ys h p = All-append P xs (y ∷ ys) (All_left xs ys h) (p, All_right xs ys h)

pub All-mono {ℓ κ μ} :
    {A : Type ℓ} {P : A → Type κ} {Q : A → Type μ}
    → ((a : A) → P a → Q a)
    → (xs : List A) → All P xs
    → All Q xs
All-mono f [] h = tt
All-mono f (x ∷ xs) h = (f x h.0, All-mono f xs h.1)

pub All-map {ℓ κ μ} :
    {A : Type ℓ} {B : Type κ} {P : A → Type μ} (Q : B → Type μ) (f : A → B)
    → ((a : A) → P a → Q (f a))
    → (xs : List A) → All P xs
    → All Q (map f xs)
All-map Q f g [] h = tt
All-map Q f g (x ∷ xs) h = (g x h.0, All-map Q f g xs h.1)

pub All_both {ℓ κ μ} :
    {A : Type ℓ} (P : A → Type κ) (Q : A → Type μ) (xs : List A)
    → All P xs
    → All Q xs
    → All (λ x. P x × Q x) xs
All_both P Q [] p q = tt
All_both P Q (x ∷ xs) p q = ((p.0, q.0), All_both P Q xs p.1 q.1)

-- ===== src/Base/Pairs.antt =====
-- A relation that holds of every element of a list and each that follows it.
use mathlib.Core.Path.{subst}
use mathlib.Core.List.{List, [], ◌∷◌, ◌++◌, map, Permᴰ}
use tennis_wiki.Base.Lists.{All, All-mono, All_perm, All_left, All_right}

abbrev pub Pairs {ℓ κ} : {A : Type ℓ} → (A → A → Type κ) → List A → Type κ
Pairs R [] = Unit
Pairs R (x ∷ xs) = All (R x) xs × Pairs R xs

module _ {ℓ κ} {A : Type ℓ} (R : A → A → Type κ) where
  pub Pairs-left : (xs ys : List A) → Pairs R (xs ++ ys) → Pairs R xs
  Pairs-left [] ys h = tt
  Pairs-left (x ∷ xs) ys h = (All_left (R x) xs ys h.0, Pairs-left xs ys h.1)

  pub Pairs-right : (xs ys : List A) → Pairs R (xs ++ ys) → Pairs R ys
  Pairs-right [] ys h = h
  Pairs-right (x ∷ xs) ys h = Pairs-right xs ys h.1

  -- What comes first is so related to what comes next.
  pub Pairs_across : (xs ys : List A) → Pairs R (xs ++ ys) → All (λ x. All (R x) ys) xs
  Pairs_across [] ys h = tt
  Pairs_across (x ∷ xs) ys h = (All_right (R x) xs ys h.0, Pairs_across xs ys h.1)

  -- A symmetric relation does not see the order.
  pub Pairs-perm :
      ((a b : A) → R a b → R b a) → {xs ys : List A} → Permᴰ xs ys → Pairs R xs → Pairs R ys
  Pairs-perm s Permᴰ.nil h = h
  Pairs-perm s (Permᴰ.cons {b} {l₂ = l₂} e p) h =
      (subst (λ x. All (R x) l₂) e (All_perm (R _) p h.0), Pairs-perm s p h.1)
  Pairs-perm s (Permᴰ.swap {a} {b} {a'} {b'} {l} e f) h = (
    (subst (λ x. R x b') f (subst (λ y. R b y) e (s a b h.0.0)), subst (λ x. All (R x) l) f h.1.0),
    (subst (λ x. All (R x) l) e h.0.1, h.1.1),
  )
  Pairs-perm s (Permᴰ.trans p q) h = Pairs-perm s q (Pairs-perm s p h)

pub Pairs-mono {ℓ κ μ} :
    {A : Type ℓ} {R : A → A → Type κ} {S : A → A → Type μ}
    → ((a b : A) → R a b → S a b)
    → (xs : List A) → Pairs R xs
    → Pairs S xs
Pairs-mono f [] h = tt
Pairs-mono f (x ∷ xs) h = (All-mono (f x) xs h.0, Pairs-mono f xs h.1)

-- Under a function, where a predicate also holds of the elements.
pub Pairs-map {ℓ κ μ ν ι} :
    {A : Type ℓ} {B : Type κ} {P : A → Type μ} {R : A → A → Type ν} (S : B → B → Type ι) (f : A → B)
    → ((a b : A) → P a → P b → R a b → S (f a) (f b))
    → (xs : List A) → All P xs
    → Pairs R xs
    → Pairs S (map f xs)
Pairs-map S f g [] p h = tt
Pairs-map {A} {P} {R} S f g (x ∷ xs) p h =
    (related xs p.1 h.0, Pairs-map {P = P} {R = R} S f g xs p.1 h.1)
  where
    related : (ys : List A) → All P ys → All (R x) ys → All (S (f x)) (map f ys)
    related [] q r = tt
    related (y ∷ ys) q r = (g x y p.0 q.0 r.0, related ys q.1 r.1)

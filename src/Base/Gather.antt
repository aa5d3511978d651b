-- ===== src/Base/Gather.antt =====
-- The lists that a function makes of the elements of a list, one after another.
use mathlib.Core.Path.{subst}
use mathlib.Core.List.{List, [], ◌∷◌, ◌++◌, map, Permᴰ, append_assoc}
use mathlib.Core.List.Permᴰ
use tennis_wiki.Base.Lists.{All}
use tennis_wiki.Base.Pairs.{Pairs, Pairs-left, Pairs-right}

module _ {ℓ κ} {A : Type ℓ} {B : Type κ} (f : A → List B) where
  abbrev pub gather : List A → List B
  gather [] = []
  gather (x ∷ xs) = f x ++ gather xs

  swap_blocks : (xs ys zs : List B) → Permᴰ (xs ++ (ys ++ zs)) (ys ++ (xs ++ zs))
  swap_blocks xs ys zs =
      rw (← append_assoc xs ys zs, ← append_assoc ys xs zs)
        (Permᴰ.append_right zs (Permᴰ.append_comm xs ys))

  pub gather_perm : {xs ys : List A} → Permᴰ xs ys → Permᴰ (gather xs) (gather ys)
  gather_perm Permᴰ.nil = Permᴰ.nil
  gather_perm (Permᴰ.cons {a} {l₁ = l₁} {l₂ = l₂} e p) =
      subst (λ y. Permᴰ (f a ++ gather l₁) (f y ++ gather l₂)) e
        (Permᴰ.append_left (f a) (gather_perm p))
  gather_perm (Permᴰ.swap {a} {b} {l = l} e f') =
      rw (← e, ← f') (swap_blocks (f a) (f b) (gather l))
  gather_perm (Permᴰ.trans p q) = Permᴰ.trans (gather_perm p) (gather_perm q)

-- What holds between elements of the whole holds within each part.
pub gather-Pairs {ℓ κ μ} :
    {A : Type ℓ} {B : Type κ} (R : B → B → Type μ) (f : A → List B) (xs : List A)
    → Pairs R (gather f xs)
    → All (λ x. Pairs R (f x)) xs
gather-Pairs R f [] h = tt
gather-Pairs R f (x ∷ xs) h =
    (Pairs-left R (f x) _ h, gather-Pairs R f xs (Pairs-right R (f x) _ h))

pub gather_map_perm {ℓ κ μ} :
    {A : Type ℓ} {B : Type κ} {C : Type μ} (f : A → List C) (g : B → List C) (h : A → B)
    → ((a : A) → Permᴰ (g (h a)) (f a))
    → (xs : List A) → Permᴰ (gather g (map h xs)) (gather f xs)
gather_map_perm f g h e [] = Permᴰ.nil
gather_map_perm f g h e (x ∷ xs) =
    Permᴰ.trans (Permᴰ.append_right _ (e x)) (Permᴰ.append_left (f x) (gather_map_perm f g h e xs))

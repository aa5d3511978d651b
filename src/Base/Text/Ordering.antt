-- ===== src/Base/Text/Ordering.antt =====
-- Go's `<` on strings is a strict total order.
use mathlib.Core.Path.{◌≡◌, refl, ap}
use mathlib.Core.Logic.{inl, inr}
use mathlib.Core.Bool.{true, false}
use mathlib.Core.List.{[], ◌∷◌}
use native.Mathlib.Omega.{arith}
use tennis_wiki.Base.Tests.{Bool-cases}
use tennis_wiki.Base.Text.Words.{equal-true, equal_refl}
use tennis_wiki.Base.Text.{Bytes, equal, text_less}

pub text_less_irrefl : (s : Bytes) → text_less s s ≡ false
unfolding text_less
text_less_irrefl [] = refl
text_less_irrefl (c ∷ s) = ground (arith, text_less_irrefl s)

pub text_less_trans :
    (r s t : Bytes) → text_less r s ≡ true → text_less s t ≡ true → text_less r t ≡ true
unfolding text_less
text_less_trans [] [] t h k = k
text_less_trans [] (d ∷ s) [] h k = k
text_less_trans [] (d ∷ s) (e ∷ t) h k = refl
text_less_trans (c ∷ r) [] t h k = absurd (ground (arith, h))
text_less_trans (c ∷ r) (d ∷ s) [] h k = k
text_less_trans (c ∷ r) (d ∷ s) (e ∷ t) h k = ground (arith, h, k, text_less_trans r s t)

pub text_less_asym : (s t : Bytes) → text_less s t ≡ true → text_less t s ≡ false
text_less_asym s t h = elim (Bool-cases (text_less t s)) [
  | inl e ↦ absurd (ground (arith, text_less_trans s t s h e, text_less_irrefl s))
  | inr e ↦ e
]

pub text_less_total : (s t : Bytes) → text_less s t ≡ false → text_less t s ≡ false → s ≡ t
unfolding text_less
text_less_total [] [] h k = refl
text_less_total [] (d ∷ t) h k = absurd (ground (arith, h))
text_less_total (c ∷ s) [] h k = absurd (ground (arith, k))
text_less_total (c ∷ s) (d ∷ t) h k =
    rw (text_less_total s t (ground (arith, h, k)) (ground (arith, h, k)))
      (ap (λ x. x ∷ t) (ground (arith, h, k)))

-- Texts that differ are in order one way or the other.
pub text_less_connected :
    (s t : Bytes) → equal s t ≡ false → text_less s t ≡ false → text_less t s ≡ true
text_less_connected s t e h = elim (Bool-cases (text_less t s)) [
  | inl f ↦ f
  | inr f ↦ absurd (ground (arith, e, same (text_less_total s t h f)))
]
  where
    same : s ≡ t → equal s t ≡ true
    same q = rw q (equal_refl t)

-- Texts that `==` takes for one are alike to both tests.
pub equal_congr :
    (s t r : Bytes)
    → equal s t ≡ true
    → (equal s r ≡ equal t r) × (text_less s r ≡ text_less t r) × (text_less r s ≡ text_less r t)
equal_congr s t r e = rw (equal-true s t e) (refl, refl, refl)

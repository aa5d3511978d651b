-- ===== src/Base/Text/Words.antt =====
-- Go's `strings.Fields`, `strings.Join`, `strings.TrimSpace` and searches, on texts made of words.
use Prim.Native.Nat.{ℕ}
use mathlib.Core.Path.{◌≡◌, refl, ap, ◌∙◌}
use mathlib.Core.Logic.{◌≢◌, inl, inr}
use mathlib.Core.Bool.{Bool, true, false, ◌&&◌}
use mathlib.Core.List.{List, [], ◌∷◌, ◌++◌, append-nil, append_assoc}
use mathlib.Core.Option.{none}
use native.Mathlib.Omega.{arith}
use tennis_wiki.Base.Tests.{Bool-cases}
use tennis_wiki.Base.Lists.{is_empty, All, All-append}
use tennis_wiki.Base.Text.{
  Bytes, is_space, has_prefix, ends_with, contains, index, trim_left, trim_right, trim, fields_from,
  fields, join, equal,
}

-- A byte string with a byte in it, and no white space.
abbrev pub IsWord : Bytes → Type 0
IsWord w = (w ≢ []) × All (λ c. is_space c ≡ false) w

fields_from-append :
    (w word rest : Bytes)
    → All (λ c. is_space c ≡ false) w
    → fields_from word (w ++ rest) ≡ fields_from (word ++ w) rest
unfolding fields_from
fields_from-append [] word rest h = rw append-nil
fields_from-append (c ∷ w) word rest h =
    rw (h.0, fields_from) (fields_from-append w (word ++ c ∷ []) rest h.1 ∙ rw append_assoc)

fields_from_last : (word : Bytes) → word ≢ [] → fields_from word [] ≡ word ∷ []
unfolding fields_from
fields_from_last [] h = absurd (h refl)
fields_from_last (c ∷ w) h = refl

fields_from_blank :
    (word rest : Bytes) → word ≢ [] → fields_from word (32 ∷ rest) ≡ word ∷ fields_from [] rest
unfolding fields_from is_space
fields_from_blank [] rest h = absurd (h refl)
fields_from_blank (c ∷ w) rest h = refl

-- Words joined by blanks are the fields of the text.
pub fields-join : (ws : List Bytes) → All IsWord ws → fields (join ws) ≡ ws
unfolding fields join
fields-join [] h = unfold fields_from in refl
fields-join (w ∷ []) h =
    rw (← append-nil w)
      (fields_from-append w [] [] h.0.1 ∙ fields_from_last w h.0.0 ∙ rw append-nil)
fields-join (w ∷ v ∷ ws) h =
    fields_from-append w [] _ h.0.1
    ∙ fields_from_blank w (join (v ∷ ws)) h.0.0
    ∙ ap (λ fs. w ∷ fs) (fields-join (v ∷ ws) h.1)

fields_from-trim_right :
    (s word : Bytes) → fields_from word (trim_right is_space s) ≡ fields_from word s
unfolding fields_from trim_right
fields_from-trim_right [] word = refl
fields_from-trim_right (c ∷ s) word =
    ground (arith, fields_from-trim_right s [], fields_from-trim_right s (word ++ c ∷ []))

fields-trim_left : (s : Bytes) → fields (trim_left is_space s) ≡ fields s
unfolding fields trim_left fields_from
fields-trim_left [] = refl
fields-trim_left (c ∷ s) = ground (arith, fields-trim_left s)

-- White space round a text does not change its fields.
pub fields-trim : (s : Bytes) → fields (trim is_space s) ≡ fields s
unfolding trim
fields-trim s =
    unfold fields in (fields_from-trim_right (trim_left is_space s) [] ∙ fields-trim_left s)

module _ {ℓ} (P : ℕ → Type ℓ) where
  pub All-trim_left : (cut : ℕ → Bool) (s : Bytes) → All P s → All P (trim_left cut s)
  unfolding trim_left
  All-trim_left cut [] h = h
  All-trim_left cut (c ∷ s) h = elim (Bool-cases (cut c)) [
    | inl e ↦ rw e (All-trim_left cut s h.1)
    | inr e ↦ rw e h
  ]

  pub All-trim_right : (cut : ℕ → Bool) (s : Bytes) → All P s → All P (trim_right cut s)
  unfolding trim_right
  All-trim_right cut [] h = h
  All-trim_right cut (c ∷ s) h = elim (Bool-cases (cut c && is_empty (trim_right cut s))) [
    | inl e ↦ rw e tt
    | inr e ↦ rw e (h.0, All-trim_right cut s h.1)
  ]

  pub All-trim : (cut : ℕ → Bool) (s : Bytes) → All P s → All P (trim cut s)
  unfolding trim
  All-trim cut s h = All-trim_right cut (trim_left cut s) (All-trim_left cut s h)

  pub All-join : (ws : List Bytes) → P 32 → All (All P) ws → All P (join ws)
  unfolding join
  All-join [] b h = tt
  All-join (w ∷ []) b h = h.0
  All-join (w ∷ v ∷ ws) b h = All-append P w _ h.0 (b, All-join (v ∷ ws) b h.1)

-- A word is not found in a text that lacks one of its letters.
prefix_letters :
    (c : ℕ) (s sub : Bytes) → contains c sub ≡ true → has_prefix s sub ≡ true → contains c s ≡ true
unfolding contains has_prefix
prefix_letters c s [] h p = cc
prefix_letters c [] (y ∷ ys) h p = cc
prefix_letters c (x ∷ xs) (y ∷ ys) h p = ground (arith, prefix_letters c xs ys)

contains_tail : (c x : ℕ) (s : Bytes) → contains c (x ∷ s) ≡ false → contains c s ≡ false
unfolding contains
contains_tail c x s e = ground arith

pub index_absent :
    (c : ℕ) (s sub : Bytes) → contains c sub ≡ true → contains c s ≡ false → index s sub ≡ none
unfolding index
index_absent c [] sub h e = ground (arith, prefix_letters c [] sub h)
index_absent c (x ∷ s) sub h e =
    ground (arith, prefix_letters c (x ∷ s) sub h, index_absent c s sub h (contains_tail c x s e))

pub All-contains : (c : ℕ) (s : Bytes) → All (λ b. b ≢ c) s → contains c s ≡ false
unfolding contains
All-contains c [] h = refl
All-contains c (x ∷ s) h = ground (arith, All-contains c s h.1)

pub ends_with-append : (c d : ℕ) (s t : Bytes) → ends_with c (s ++ (d ∷ t)) ≡ ends_with c (d ∷ t)
unfolding ends_with
ends_with-append c d [] t = refl
ends_with-append c d (x ∷ []) t = refl
ends_with-append c d (x ∷ y ∷ s) t = ends_with-append c d (y ∷ s) t

pub equal-true : (s t : Bytes) → equal s t ≡ true → s ≡ t
unfolding equal
equal-true [] [] h = refl
equal-true [] (c ∷ t) h = absurd (ground (arith, h))
equal-true (c ∷ s) [] h = absurd (ground (arith, h))
equal-true (c ∷ s) (d ∷ t) h =
    rw (equal-true s t (ground (arith, h))) (ap (λ x. x ∷ t) (ground (arith, h)))

pub equal_refl : (s : Bytes) → equal s s ≡ true
unfolding equal
equal_refl [] = refl
equal_refl (c ∷ s) = ground (arith, equal_refl s)

pub equal_sym : (s t : Bytes) → equal s t ≡ equal t s
unfolding equal
equal_sym [] [] = refl
equal_sym [] (d ∷ t) = refl
equal_sym (c ∷ s) [] = refl
equal_sym (c ∷ s) (d ∷ t) = ground (arith, equal_sym s t)

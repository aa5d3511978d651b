-- ===== src/Name/Agreement.antt =====
-- internal/name/name.go: slugs and search queries.
use tennis_wiki.Base.{
  ℕ, ◌≡◌, refl, ap, inl, inr, Bool, true, false, ◌&&◌, List, [], ◌∷◌, ◌++◌, map, ltb, ◌==◌,
  if◌then◌else◌, is_empty, arith, All, Bool-cases,
}
use mathlib.Core.List.{map-append}
use mathlib.Core.Path.{ap₂}
use tennis_wiki.Base.Text.{Bytes, trim, trim_right}
use tennis_wiki.Name.{
  Unicode, is_upper, is_space_rune, fold, to_lower_rune, is_alphanumeric, write_rune, write_runes,
  convert, slug, normalise,
}
use tennis_wiki.Name.Folding.{is_word, fold-All}
use tennis_wiki.Name.Keys.{Clean, write_runes-Clean, trim_left-Clean, lowered, ascii_word}

-- Hyphens read as blanks.
abbrev pub spaced : ℕ → ℕ
spaced c = if c == b'-' then 32 else c

spaced_word : (c : ℕ) → is_word c ≡ true → spaced c ≡ c
spaced_word c w = ground arith

spaced_words : (w : Bytes) → All (λ c. is_word c ≡ true) w → map spaced w ≡ w
spaced_words [] h = refl
spaced_words (c ∷ w) h = ap₂ (λ x t. x ∷ t) (spaced_word c h.0) (spaced_words w h.1)

is_empty-map : (f : ℕ → ℕ) (s : Bytes) → is_empty (map f s) ≡ is_empty s
is_empty-map f [] = refl
is_empty-map f (c ∷ s) = refl

spaced-trim_right :
    (last : Bool) (s : Bytes)
    → Clean b'-' last s
    → map spaced (trim_right (λ c. c == b'-') s) ≡ trim_right (λ c. c == 32) (map spaced s)
unfolding trim_right
spaced-trim_right last [] k = refl
spaced-trim_right last (c ∷ s) (inl (w, k)) =
    let blank : (c == 32) ≡ false = ground arith in
    let hyphen : (c == b'-') ≡ false = ground arith in
    rw (hyphen, blank) (ap₂ (λ x t. x ∷ t) (spaced_word c w) (spaced-trim_right false s k))
spaced-trim_right last (c ∷ s) (inr (e, f, k)) =
    let rest = spaced-trim_right true s k in
    elim (Bool-cases (is_empty (trim_right (λ x. x == b'-') s))) [
      | inl q ↦ rw (e, ← rest, is_empty-map spaced, q) refl
      | inr q ↦ rw (e, ← rest, is_empty-map spaced, q) refl
    ]

module _ (u : Unicode) where
  -- The same runes are written, but for the separator.
  spaced-write_runes :
      (last : Bool) (rs : List ℕ)
      → All (λ r. is_upper r ≡ false) rs
      → map spaced (write_runes u b'-' last rs) ≡ write_runes u 32 last rs
  unfolding write_runes write_rune
  spaced-write_runes last [] h = refl
  spaced-write_runes last (r ∷ rs) h = elim (Bool-cases (ltb r 127 && is_alphanumeric u r)) [
    | inl e ↦
        let w = ascii_word u b'-' (omega arith) refl r h.0 e in
        rw e (ap₂ (λ x t. x ∷ t) (spaced_word r w) (spaced-write_runes false rs h.1))
    | inr e ↦ elim (Bool-cases (is_empty (fold r))) [
      | inr f ↦
          rw (e, f, map-append spaced)
            (ap₂ (λ w t. w ++ t) (spaced_words (fold r) (fold-All r))
              (spaced-write_runes false rs h.1))
      | inl f ↦ elim (Bool-cases (is_alphanumeric u r)) [
        | inl g ↦ rw (e, f, g) (spaced-write_runes last rs h.1)
        | inr g ↦ elim (Bool-cases last) [
          | inl l ↦ rw (e, f, g, l) (spaced-write_runes true rs h.1)
          | inr l ↦ rw (e, f, g, l) (ap (λ t. 32 ∷ t) (spaced-write_runes true rs h.1))
        ]
      ]
    ]
  ]

  -- The search query of a text is its slug with a blank for each hyphen, so that a name is found by
  -- whatever has its slug.
  pub normalise-slug : (s : List ℕ) → normalise u s ≡ map spaced (slug u s)
  unfolding normalise slug convert trim
  normalise-slug s =
      let rs = map (to_lower_rune u) (trim is_space_rune s) in
      let low = lowered u 32 (omega arith) refl (trim is_space_rune s) in
      let clean = write_runes-Clean u b'-' (omega arith) refl true rs low in
      let clean' = write_runes-Clean u 32 (omega arith) refl true rs low in
      rw
        (
          trim_left-Clean u b'-' (omega arith) refl (write_runes u b'-' true rs) clean,
          trim_left-Clean u 32 (omega arith) refl (write_runes u 32 true rs) clean',
          spaced-trim_right true (write_runes u b'-' true rs) clean,
          spaced-write_runes true rs low,
        )
        refl

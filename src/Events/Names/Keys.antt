-- ===== src/Events/Names/Keys.antt =====
-- internal/events/events.go: the parts of a name key.
use mathlib.Core.Path.{subst}
use tennis_wiki.Base.{
  ℕ, ◌<◌, ◌≤◌, ◌≡◌, ◌≢◌, refl, sym, ap, ◌∙◌, Bool, true, false, [], ◌∷◌, ◌++◌, inl, inr, ltb, ◌==◌,
  if◌then◌else◌, arith, All, All-mono, Bool-cases, append_assoc,
}
use tennis_wiki.Base.Int
use tennis_wiki.Base.Int.Decimal.{atoi-itoa, itoa-digits}
use tennis_wiki.Base.Text.{Bytes, codes, equal}
use tennis_wiki.Name.{Unicode, slug}
use tennis_wiki.Name.Keys.{IsKey, Joined, convert-IsKey}
use tennis_wiki.Events.Names.{normalise, name_key, split_colons, ordinal_of}

-- A text without a colon.
abbrev pub IsPart : Bytes → Type 0
IsPart = All (λ c. c ≢ b':')

split_colons_last : (w : Bytes) → IsPart w → split_colons w ≡ w ∷ []
unfolding split_colons
split_colons_last [] h = refl
split_colons_last (c ∷ w) h = elim (Bool-cases (c == b':')) [
  | inl e ↦ absurd (ground (arith, h.0, e))
  | inr e ↦ rw (e, split_colons_last w h.1) refl
]

split_colons_part : (w s : Bytes) → IsPart w → split_colons (w ++ b':' ∷ s) ≡ w ∷ split_colons s
unfolding split_colons
split_colons_part [] s h = refl
split_colons_part (c ∷ w) s h = elim (Bool-cases (c == b':')) [
  | inl e ↦ absurd (ground (arith, h.0, e))
  | inr e ↦ rw (e, split_colons_part w s h.1) refl
]

Joined-IsPart : (last : Bool) (s : Bytes) → Joined b'-' last s → IsPart s
Joined-IsPart last [] h = tt
Joined-IsPart last (c ∷ s) (inl (w, h)) = (ground (arith, w), Joined-IsPart false s h)
Joined-IsPart last (c ∷ s) (inr (e, l, h)) = (ground (arith, e), Joined-IsPart true s h)

IsKey-IsPart : (s : Bytes) → IsKey b'-' s → IsPart s
IsKey-IsPart s (inl e) = subst IsPart (sym e) tt
IsKey-IsPart s (inr h) = Joined-IsPart true s h

-- A normalised name has no colon.
pub normalise-IsPart : (u : Unicode) (s : Bytes) → IsPart (normalise u s)
unfolding normalise slug
normalise-IsPart u s = IsKey-IsPart _ (convert-IsKey u b'-' (omega arith) refl _)

kind_IsPart : IsPart (codes "name")
kind_IsPart = (omega arith, (omega arith, (omega arith, (omega arith, tt))))

-- The parts of the key of a run's first rows, and of the later ones.
pub split-name_key_first :
    (tier norm : Bytes) (n : ℕ)
    → IsPart tier
    → IsPart norm
    → n ≤ 1
    → split_colons (name_key tier norm n) ≡ codes "name" ∷ tier ∷ norm ∷ []
unfolding name_key
split-name_key_first tier norm n t m h = elim (Bool-cases (ltb 1 n)) [
  | inl e ↦ absurd (ground (arith, h, e))
  | inr e ↦ rw e (
      split_colons_part (codes "name") (tier ++ b':' ∷ norm) kind_IsPart
      ∙ ap (λ ws. codes "name" ∷ ws)
          (split_colons_part tier norm t ∙ ap (λ ws. tier ∷ ws) (split_colons_last norm m)))
]

pub split-name_key :
    (tier norm : Bytes) (n : ℕ)
    → IsPart tier
    → IsPart norm
    → 1 < n
    → n < Int.two_63
    → split_colons (name_key tier norm n) ≡ codes "name" ∷ tier ∷ norm ∷ Int.itoa n ∷ []
unfolding name_key
split-name_key tier norm n t m h b = elim (Bool-cases (ltb 1 n)) [
  | inr e ↦ absurd (ground (arith, h, e))
  | inl e ↦
      rw (e, append_assoc, append_assoc)
        (split_colons_part (codes "name") (tier ++ b':' ∷ (norm ++ b':' ∷ Int.itoa n)) kind_IsPart
          ∙ ap (λ ws. codes "name" ∷ ws)
              (split_colons_part tier (norm ++ b':' ∷ Int.itoa n) t
                ∙ ap (λ ws. tier ∷ ws)
                    (split_colons_part norm (Int.itoa n) m
                      ∙ ap (λ ws. norm ∷ ws) (split_colons_last (Int.itoa n) (number_IsPart n b)))))
]
  where
    number_IsPart : (n : ℕ) → n < Int.two_63 → IsPart (Int.itoa n)
    number_IsPart n b = All-mono (λ c d. omega (arith, d)) (Int.itoa n) (itoa-digits n b)

-- The ordinal is read back off the key of a run joined by name: the ordinal itself where it is in
-- the key, and 0 for the first of a name. The tier holds no colon.
pub ordinal_of-name_key :
    (u : Unicode) (tier name : Bytes) (n : ℕ)
    → IsPart tier
    → n < Int.two_63
    → ordinal_of (name_key tier (normalise u name) n) ≡ (if ltb 1 n then n else 0)
unfolding ordinal_of equal
ordinal_of-name_key u tier name n t b = elim (Bool-cases (ltb 1 n)) [
  | inl e ↦
      let later : 1 < n = ground (arith, e) in
      rw
        (
          e,
          split-name_key tier (normalise u name) n t (normalise-IsPart u name) later b,
          atoi-itoa n (omega (arith, later)) b,
        )
        refl
  | inr e ↦
      rw
        (
          e,
          split-name_key_first tier (normalise u name) n t (normalise-IsPart u name)
              (ground (arith, e)),
        )
        refl
]

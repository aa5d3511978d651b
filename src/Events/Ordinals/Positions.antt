-- ===== src/Events/Ordinals/Positions.antt =====
-- internal/events/events.go: the rows that wait on the name rule, by their positions.
use mathlib.Core.Path.{subst}
use tennis_wiki.Base.{
  ℕ, suc, zero, ◌+◌, ◌<◌, ◌≤◌, ◌≡◌, ◌≢◌, refl, sym, ap, ◌∙◌, List, [], ◌∷◌, map, none, some, inl,
  inr, arith, All, All-mono, All_both, Bool-cases, get_or, get_elem?, some_injective, length,
}
use tennis_wiki.Base.Pairs.{Pairs}
use tennis_wiki.Events.Ordinals.{Pending, Group, group_eq, group_of}
use tennis_wiki.Events.Ordinals.Grouping.{placed, placed_in}
use tennis_wiki.Events.Ordinals.Numbering.{AreDistinct}

-- The list `qs` stands in the whole from position `i` on.
abbrev pub StandsAt : List Pending → ℕ → List Pending → Type 0
StandsAt whole i qs = (k : ℕ) → get_elem? whole (i + k) ≡ get_elem? qs k

pub next-StandsAt :
    (whole : List Pending) (i : ℕ) (q : Pending) (qs : List Pending)
    → StandsAt whole i (q ∷ qs)
    → StandsAt whole (i + 1) qs
next-StandsAt whole i q qs h k = ap (get_elem? whole) (omega arith) ∙ h (suc k)

pub first_of :
    (whole : List Pending) (i : ℕ) (q p : Pending) (qs : List Pending)
    → StandsAt whole i (q ∷ qs)
    → get_elem? whole i ≡ some p
    → q ≡ p
first_of whole i q p qs h e =
    some_injective q p (sym (h 0) ∙ ap (get_elem? whole) (omega arith) ∙ e)

pub placed_in-group :
    (whole : List Pending) (g : Group) (i : ℕ) (qs : List Pending)
    → StandsAt whole i qs
    → All
        (λ x. (p : Pending) → get_elem? whole x.0 ≡ some p → (group_of p ≡ g) × (x.1 ≡ p.row))
        (placed_in g i qs)
placed_in-group whole g i [] h = tt
placed_in-group whole g i (q ∷ qs) h = elim (Bool-cases (group_eq.same (group_of q) g)) [
  | inl e ↦ rw e (
    (λ p f.
        let same : q ≡ p = first_of whole i q p qs h f in
        (ap group_of (sym same) ∙ group_eq.same-true (group_of q) g e, ap (λ r. r.row) same)),
    placed_in-group whole g (i + 1) qs (next-StandsAt whole i q qs h),
  )
  | inr e ↦ rw e (placed_in-group whole g (i + 1) qs (next-StandsAt whole i q qs h))
]

placed-above : (i : ℕ) (ps : List Pending) → All (λ x. (i ≤ x.0)) (placed i ps)
placed-above i [] = tt
placed-above i (p ∷ ps) =
    (omega arith, All-mono (λ x l. omega (arith, l)) (placed (i + 1) ps) (placed-above (i + 1) ps))

pub placed-below : (i : ℕ) (ps : List Pending) → All (λ x. x.0 < i + length ps) (placed i ps)
placed-below i [] = tt
placed-below i (p ∷ ps) =
    (omega arith, All-mono (λ x l. omega (arith, l)) (placed (i + 1) ps) (placed-below (i + 1) ps))

pub placed-AreDistinct :
    (i : ℕ) (ps : List Pending) → Pairs (λ a b. a.row.id ≢ b.row.id) ps → AreDistinct (placed i ps)
placed-AreDistinct i [] d = tt
placed-AreDistinct i (p ∷ ps) d = (
  All_both (λ x. i ≢ x.0) (λ x. p.row.id ≢ x.1.id) (placed (i + 1) ps)
      (All-mono (λ x l e. absurd (omega (arith, l, e))) (placed (i + 1) ps)
        (placed-above (i + 1) ps))
      (ids (i + 1) ps d.0),
  placed-AreDistinct (i + 1) ps d.1,
)
  where
    ids :
        (j : ℕ) (qs : List Pending)
        → All (λ q. p.row.id ≢ q.row.id) qs
        → All (λ x. p.row.id ≢ x.1.id) (placed j qs)
    ids j [] h = tt
    ids j (q ∷ qs) h = (h.0, ids (j + 1) qs h.1)

pub at_position :
    (V : ℕ → Type 0) (i : ℕ) (ps : List Pending)
    → All (λ x. V x.0) (placed i ps)
    → (k : ℕ) (p : Pending) → get_elem? ps k ≡ some p
    → V (i + k)
at_position V i [] h k p e = absurd (none-some e)
  where
    none-some : none ≡ some p → ⊥
    none-some e = absurd (cc)
at_position V i (q ∷ ps) h zero p e = subst V (omega arith) h.0
at_position V i (q ∷ ps) h (suc k) p e = subst V (omega arith) (at_position V (i + 1) ps h.1 k p e)

pub pointwise :
    (f : Pending → ℕ) (ps : List Pending) (ords : List ℕ)
    → length ords ≡ length ps
    → ((k : ℕ) (p : Pending) → get_elem? ps k ≡ some p → get_or ords k 0 ≡ f p)
    → ords ≡ map f ps
pointwise f [] [] l h = refl
pointwise f [] (x ∷ ords) l h = absurd (omega (arith, l))
pointwise f (p ∷ ps) [] l h = absurd (omega (arith, l))
pointwise f (p ∷ ps) (x ∷ ords) l h =
    rw (h 0 p refl, pointwise f ps ords (omega (arith, l)) λ k q e. h (suc k) q e) refl

-- ===== src/Events/Resolve/Order.antt =====
-- internal/events/events.go: the tests that `Resolve` sorts by.
use tennis_wiki.Base.{◌≤◌, ◌≡◌, ◌≢◌, ◌∙◌, true, false, ◌⊎◌, inl, inr, Bool-cases, arith}
use tennis_wiki.Base.Sort.{Untied}
use tennis_wiki.Base.Text.{equal, text_less}
use tennis_wiki.Base.Text.Ordering.{text_less_irrefl, text_less_trans, text_less_total}
use tennis_wiki.Base.Text.Words.{equal-true, equal_refl, equal_sym}
use tennis_wiki.Events.{Edition, Event}
use tennis_wiki.Events.Resolve.{edition_before, event_before}

-- A tour before the other, or the same tour and a key before the other.
abbrev EventBefore : Event → Event → Type 0
EventBefore a b =
    (text_less a.tour b.tour ≡ true) ⊎ ((a.tour ≡ b.tour) × (text_less a.key b.key ≡ true))

event_before-true : (a b : Event) → event_before a b ≡ true → EventBefore a b
unfolding event_before
event_before-true a b h = elim (Bool-cases (equal a.tour b.tour)) [
  | inl e ↦ inr (equal-true a.tour b.tour e, ground (arith, h, e))
  | inr e ↦ inl (ground (arith, h, e))
]

event_before_of : (a b : Event) → EventBefore a b → event_before a b ≡ true
unfolding event_before
event_before_of a b (inl h) = elim (Bool-cases (equal a.tour b.tour)) [
  | inl e ↦ absurd (ground (arith, h, text_less_self (equal-true a.tour b.tour e)))
  | inr e ↦ rw e h
]
  where
    text_less_self : a.tour ≡ b.tour → text_less a.tour b.tour ≡ false
    text_less_self e = rw e (text_less_irrefl b.tour)
event_before_of a b (inr (e, h)) = rw (e, equal_refl b.tour) h

pub event_before_trans :
    (a b c : Event) → event_before a b ≡ true → event_before b c ≡ true → event_before a c ≡ true
event_before_trans a b c h k =
    event_before_of a c (go (event_before-true a b h) (event_before-true b c k))
  where
    go : EventBefore a b → EventBefore b c → EventBefore a c
    go (inl p) (inl q) = inl (text_less_trans a.tour b.tour c.tour p q)
    go (inl p) (inr (e, q)) = inl (rw (← e) p)
    go (inr (e, p)) (inl q) = inl (rw e q)
    go (inr (e, p)) (inr (f, q)) = inr (e ∙ f, text_less_trans a.key b.key c.key p q)

-- Events that differ in the tour or the key do not tie.
pub event_before-Untied :
    (a b : Event) → ((a.tour ≡ b.tour) → (a.key ≡ b.key) → ⊥) → Untied event_before a b
unfolding event_before
event_before-Untied a b h = elim (Bool-cases (event_before a b)) [
  | inl e ↦ inl e
  | inr e ↦ elim (Bool-cases (event_before b a)) [ inl f ↦ inr f | inr f ↦ absurd (tie e f) ]
]
  where
    equal_self : a.tour ≡ b.tour → equal a.tour b.tour ≡ true
    equal_self e = rw e (equal_refl b.tour)

    tie : event_before a b ≡ false → event_before b a ≡ false → ⊥
    tie e f = elim (Bool-cases (equal a.tour b.tour)) [
      | inl t ↦ h (equal-true a.tour b.tour t) (
          text_less_total a.key b.key (ground (arith, e, t))
            (ground (arith, f, t, equal_sym a.tour b.tour)))
      | inr t ↦
          let same : a.tour ≡ b.tour =
            text_less_total a.tour b.tour (ground (arith, e, t))
              (ground (arith, f, t, equal_sym a.tour b.tour)) in
          absurd (ground (arith, t, equal_self same))
    ]

pub edition_before_trans :
    (a b c : Edition)
    → edition_before a b ≡ true
    → edition_before b c ≡ true
    → edition_before a c ≡ true
unfolding edition_before
edition_before_trans a b c h k = ground (arith, h, k)

pub edition_before-Untied : (a b : Edition) → a.row.id ≢ b.row.id → Untied edition_before a b
unfolding edition_before
edition_before-Untied a b h = elim (Bool-cases (edition_before a b)) [
  | inl e ↦ inl e
  | inr e ↦ inr (ground (arith, h, e))
]

-- An edition before another is of no later season.
pub edition_before-season :
    (a b : Edition) → edition_before a b ≡ true → a.row.season ≤ b.row.season
unfolding edition_before
edition_before-season a b h = ground (arith, h)

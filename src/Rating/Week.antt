-- ===== src/Rating/Week.antt =====
-- internal/rating/engine.go: `WeekOf`, on days counted from Go's zero time, Monday 1 January of
-- the year 1. Earlier days are not modelled.
use tennis_wiki.Base.{ℕ, ◌+◌, ◌-◌, ◌%◌, ◌≤◌, ◌<◌, ◌≡◌, ◌↔◌, arith}

-- `t.Weekday()`; Sunday is 0.
abbrev pub weekday : ℕ → ℕ
weekday t = (t + 1) % 7

unfoldable pub week_of : ℕ → ℕ
week_of t = t - (weekday t + 6) % 7

-- The week of a day is the last Monday at or before it, two days have one week exactly if one is
-- among the seven days from the Monday of the other, and a later day has no earlier week.
pub week_of-Monday :
    (t u : ℕ)
    → (weekday (week_of t) ≡ 1)
      × (week_of t ≤ t)
      × (t < week_of t + 7)
      × ((week_of u ≡ week_of t) ↔ ((week_of t ≤ u) × (u < week_of t + 7)))
      × (week_of t ≤ week_of (t + u))
unfolding week_of
week_of-Monday t u = omega arith

-- ===== src/Identity/Safety/Reconciled.antt =====
-- internal/identity/identity.go: the proposals of `Reconcile` over all the groups.
use mathlib.Core.List.{Permᴰ}
use tennis_wiki.Base.{
  ◌≡◌, refl, sym, ◌∙◌, List, [], ◌∷◌, ltb, length, is_empty, All, All-append, All_perm, Bool-cases,
  inl, inr,
}
use tennis_wiki.Base.Text.{Bytes, equal}
use tennis_wiki.Base.Text.Words.{equal-true}
use tennis_wiki.Name.{Unicode}
use tennis_wiki.Identity.{Date, Player}
use tennis_wiki.Identity.Group.{Placed, reconcile_group}
use tennis_wiki.Identity.Key.{key}
use tennis_wiki.Identity.Reconcile.{Group, add_to_group, group_by_key, reconcile_groups, reconcile}
use tennis_wiki.Identity.Safety.{IsSafe, group-IsSafe}

module _ (u : Unicode) where
  -- A group's key, and the key of each of its rows.
  abbrev Keyed : Group → Type 0
  Keyed (k, ps) = All (λ p. key u p.full_name ≡ k) ps

  add_to_group-Keyed :
      (k : Bytes) (p : Player) (groups : List Group)
      → key u p.full_name ≡ k
      → All Keyed groups
      → All Keyed (add_to_group k p groups)
  unfolding add_to_group
  add_to_group-Keyed k p [] e h = ((e, tt), tt)
  add_to_group-Keyed k p ((j, ps) ∷ groups) e h = elim (Bool-cases (equal j k)) [
    | inl f ↦ rw f (
      All-append (λ q. key u q.full_name ≡ j) ps (p ∷ []) h.0 (e ∙ sym (equal-true j k f), tt),
      h.1,
    )
    | inr f ↦ rw f (h.0, add_to_group-Keyed k p groups e h.1)
  ]

  group_by_key-Keyed :
      (ps : List Player) (groups : List Group)
      → All Keyed groups
      → All Keyed (group_by_key u ps groups)
  unfolding group_by_key
  group_by_key-Keyed [] groups h = h
  group_by_key-Keyed (p ∷ ps) groups h = elim (Bool-cases (is_empty (key u p.full_name))) [
    | inl e ↦ rw e (group_by_key-Keyed ps groups h)
    | inr e ↦ rw e (
        group_by_key-Keyed ps (add_to_group (key u p.full_name) p groups)
          (add_to_group-Keyed (key u p.full_name) p groups refl h))
  ]

  module _ (visit : List Group → List Group)
      (visit_days : List (Date × List Placed) → List (Date × List Placed))
      (visits : (groups : List Group) → Permᴰ groups (visit groups))
      (visits_days : (days : List (Date × List Placed)) → Permᴰ days (visit_days days)) where
    groups-IsSafe :
        (groups : List Group)
        → All Keyed groups
        → All (IsSafe u) (reconcile_groups u visit visit_days groups)
    unfolding reconcile_groups
    groups-IsSafe [] h = tt
    groups-IsSafe ((k, ps) ∷ groups) h = elim (Bool-cases (ltb (length ps) 2)) [
      | inl e ↦ rw e (groups-IsSafe groups h.1)
      | inr e ↦ rw e (
          All-append (IsSafe u) (reconcile_group visit_days ps)
            (reconcile_groups u visit visit_days groups)
            (group-IsSafe u k visit_days visits_days ps h.0) (groups-IsSafe groups h.1))
    ]

    -- However the two maps are visited, each proposal of `Reconcile` is of two rows with one name
    -- key, keeps a row that a player table backs, folds into it a stub or a row that, as the kept
    -- one, carries a date of birth, joins no two rows whose known dates of birth are different days,
    -- and links without review only on one birth day or one birth year.
    pub reconcile-IsSafe :
        (players : List Player) → All (IsSafe u) (reconcile u visit visit_days players)
    unfolding reconcile
    reconcile-IsSafe players =
        groups-IsSafe (visit (group_by_key u players []))
          (All_perm Keyed (visits (group_by_key u players [])) (group_by_key-Keyed players [] tt))

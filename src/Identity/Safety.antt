-- ===== src/Identity/Safety.antt =====
-- internal/identity/identity.go: the proposals within one group of rows.
pub mod Reconciled
use mathlib.Core.List.{Permᴰ}
use tennis_wiki.Base.{
  ℕ, ◌+◌, ◌≤◌, ◌≡◌, refl, sym, ◌∙◌, ap, ◌⊎◌, inl, inr, Bool, true, false, List, [], ◌∷◌, Option,
  none, some, ltb, arith, length, is_empty, All, All-append, All_right, All_perm, Bool-cases,
  Option-cases,
}
use tennis_wiki.Base.Text.{Bytes, equal}
use tennis_wiki.Base.Text.Words.{equal-true}
use tennis_wiki.Name.{Unicode}
use tennis_wiki.Identity.{Date, Player, Match, auto_link, review_floor, is_stub, same_day, score}
use tennis_wiki.Identity.Group.{
  Placed, insert, sort, longer, add_day, add_dated, by_day, fold_onto, fold_sorted, fold_days,
  keep_rest, contains, propose, match_stubs, select, fold_same_source, reconcile_group,
}
use tennis_wiki.Identity.Key.{key}
use tennis_wiki.Identity.Evidence.{Confirmed, score-same_day, score_confirmed}
use tennis_wiki.Identity.Best.{IsProposal, propose-IsProposal}
use tennis_wiki.Identity.Reconcile.{Group, add_to_group, group_by_key, reconcile_groups, reconcile}

-- A date of birth that the row carries.
abbrev pub Dated : Player → Type 0
Dated p = (d : Date) × (p.birth_date ≡ some d)

module _ (u : Unicode) where
  -- What a proposal promises. The two rows have one name key; the row that is kept is one that a
  -- player table backs, and the other is a stub, or both carry a date of birth; where both carry
  -- one, it is the same day; and what links without review rests on a birth day or a birth year.
  pub record IsSafe (m : Match) : Type 0 where
    pub one_name : key u m.canonical.full_name ≡ key u m.duplicate.full_name
    pub backed : is_stub m.canonical ≡ false
    pub folded : (is_stub m.duplicate ≡ true) ⊎ (Dated m.canonical × Dated m.duplicate)
    pub one_day :
        (d e : Date)
        → m.canonical.birth_date ≡ some d
        → m.duplicate.birth_date ≡ some e
        → same_day d e ≡ true
    pub confirmed : auto_link ≤ m.confidence → Confirmed m.canonical m.duplicate

  module _ (k : Bytes) where
    -- A row of the group, and one of its backed rows.
    abbrev Member : Player → Type 0
    Member p = key u p.full_name ≡ k

    abbrev Backed : Player → Type 0
    Backed p = Member p × (is_stub p ≡ false)

    abbrev Day : Date × List Placed → Type 0
    Day (d, ps) = All (λ p. Backed p.1 × Dated p.1) ps

    add_day-Day :
        (d : Date) (p : Placed) (days : List (Date × List Placed))
        → Backed p.1 × Dated p.1
        → All Day days
        → All Day (add_day d p days)
    unfolding add_day
    add_day-Day d p [] q h = ((q, tt), tt)
    add_day-Day d p ((e, ps) ∷ days) q h = elim (Bool-cases (same_day e d)) [
      | inl f ↦ rw f (All-append _ ps (p ∷ []) h.0 (q, tt), h.1)
      | inr f ↦ rw f (h.0, add_day-Day d p days q h.1)
    ]

    add_dated-Day :
        (o : Option Date) (p : Placed) (days : List (Date × List Placed))
        → p.1.birth_date ≡ o
        → Backed p.1
        → All Day days
        → All Day (add_dated o p days)
    add_dated-Day none p days e b h = h
    add_dated-Day (some d) p days e b h = add_day-Day d p days (b, (d, e)) h

    by_day-Day :
        (i : ℕ) (ps : List Player) (days : List (Date × List Placed))
        → All Backed ps
        → All Day days
        → All Day (by_day i ps days)
    unfolding by_day
    by_day-Day i [] days b h = h
    by_day-Day i (p ∷ ps) days b h =
        by_day-Day (i + 1) ps (add_dated p.birth_date (i, p) days) b.1
          (add_dated-Day p.birth_date (i, p) days refl b.0 h)

    insert-All :
        (P : Player → Type 0) (p : Placed) (qs : List Placed)
        → P p.1
        → All (λ q. P q.1) qs
        → All (λ q. P q.1) (insert p qs)
    unfolding insert
    insert-All P p [] h a = (h, tt)
    insert-All P p (q ∷ qs) h a = elim (Bool-cases (longer p.1 q.1)) [
      | inl e ↦ rw e (h, a)
      | inr e ↦ rw e (a.0, insert-All P p qs h a.1)
    ]

    sort-All :
        (P : Player → Type 0) (qs : List Placed) → All (λ q. P q.1) qs → All (λ q. P q.1) (sort qs)
    unfolding sort
    sort-All P [] a = tt
    sort-All P (q ∷ qs) a = insert-All P q (sort qs) a.0 (sort-All P qs a.1)

    fold_onto-IsSafe :
        (keep : Player) (ps : List Placed)
        → Backed keep × Dated keep
        → All (λ p. Backed p.1 × Dated p.1) ps
        → All IsSafe (fold_onto keep ps).0
    unfolding fold_onto
    fold_onto-IsSafe keep [] b h = tt
    fold_onto-IsSafe keep ((i, p) ∷ ps) b h =
        elim (Bool-cases (ltb (score keep p).0 review_floor)) [
          | inl e ↦ rw e (fold_onto-IsSafe keep ps b h.1)
          | inr e ↦ rw e (
            record {
              one_name = b.0.0 ∙ sym h.0.0.0;
              backed = b.0.1;
              folded = inr (b.1, h.0.1);
              one_day = λ d f x y. score-same_day keep p d f x y (ground (arith, e));
              confirmed = λ l. score_confirmed keep p l;
            },
            fold_onto-IsSafe keep ps b h.1,
          )
        ]

    fold_sorted-IsSafe :
        (ps : List Placed) → All (λ p. Backed p.1 × Dated p.1) ps → All IsSafe (fold_sorted ps).0
    unfolding fold_sorted
    fold_sorted-IsSafe [] h = tt
    fold_sorted-IsSafe (p ∷ []) h = tt
    fold_sorted-IsSafe (p ∷ q ∷ ps) h = fold_onto-IsSafe p.1 (q ∷ ps) h.0 h.1

    fold_days-IsSafe :
        (days : List (Date × List Placed)) → All Day days → All IsSafe (fold_days days).0
    unfolding fold_days
    fold_days-IsSafe [] h = tt
    fold_days-IsSafe ((d, ps) ∷ days) h =
        All-append IsSafe (fold_sorted (sort ps)).0 (fold_days days).0
          (fold_sorted-IsSafe (sort ps) (sort-All (λ p. Backed p × Dated p) ps h.0))
          (fold_days-IsSafe days h.1)

    keep_rest-All :
        (P : Player → Type 0) (gone : List ℕ) (i : ℕ) (ps : List Player)
        → All P ps
        → All P (keep_rest gone i ps)
    unfolding keep_rest
    keep_rest-All P gone i [] h = tt
    keep_rest-All P gone i (p ∷ ps) h = elim (Bool-cases (contains i gone)) [
      | inl e ↦ rw e (keep_rest-All P gone (i + 1) ps h.1)
      | inr e ↦ rw e (h.0, keep_rest-All P gone (i + 1) ps h.1)
    ]

    select-All :
        (stub : Bool) (ps : List Player)
        → All Member ps
        → All (λ p. Member p × (is_stub p ≡ stub)) (select stub ps)
    unfolding select
    select-All stub [] h = tt
    select-All true (p ∷ ps) h = elim (Bool-cases (is_stub p)) [
      | inl e ↦ rw e ((h.0, e), select-All true ps h.1)
      | inr e ↦ rw e (select-All true ps h.1)
    ]
    select-All false (p ∷ ps) h = elim (Bool-cases (is_stub p)) [
      | inl e ↦ rw e (select-All false ps h.1)
      | inr e ↦ rw e ((h.0, e), select-All false ps h.1)
    ]

    proposal-IsSafe :
        (cs : List Player) (dup : Player) (m : Match)
        → All Backed cs
        → Member dup × (is_stub dup ≡ true)
        → IsProposal dup cs m
        → IsSafe m
    proposal-IsSafe cs dup m b s p =
        let kept = (All_right Backed p.before (m.canonical ∷ p.behind) (rw p.candidate at b)).0 in
        record {
          one_name = kept.0 ∙ sym (ap (λ q. key u q.full_name) p.of_stub ∙ s.0);
          backed = kept.1;
          folded = inl (ap (λ q. is_stub q) p.of_stub ∙ s.1);
          one_day = λ d e x y.
              score-same_day m.canonical dup d e x (sym (ap (λ q. q.birth_date) p.of_stub) ∙ y)
                p.over_floor;
          confirmed =
              λ l. rw p.of_stub (score_confirmed m.canonical dup (omega (arith, l, p.at_most)));
        }

    match_stubs-IsSafe :
        (cs dups : List Player)
        → All Backed cs
        → All (λ p. Member p × (is_stub p ≡ true)) dups
        → All IsSafe (match_stubs cs dups)
    unfolding match_stubs
    match_stubs-IsSafe cs [] b h = tt
    match_stubs-IsSafe cs (dup ∷ dups) b h = elim (Option-cases (propose cs dup)) [
      | inl e ↦ rw e (match_stubs-IsSafe cs dups b h.1)
      | inr (m, e) ↦ rw e (
        proposal-IsSafe cs dup m b h.0 (propose-IsProposal dup cs m e),
        match_stubs-IsSafe cs dups b h.1,
      )
    ]

    module _ (visit_days : List (Date × List Placed) → List (Date × List Placed))
        (visits_days : (days : List (Date × List Placed)) → Permᴰ days (visit_days days)) where
      pub group-IsSafe :
          (group : List Player) → All Member group → All IsSafe (reconcile_group visit_days group)
      unfolding reconcile_group fold_same_source
      group-IsSafe group h =
          let backed = select-All false group h in
          let days = by_day 0 (select false group) [] in
          let safe =
            fold_days-IsSafe (visit_days days)
              (All_perm Day (visits_days days) (by_day-Day 0 (select false group) [] backed tt)) in
          let rest = keep_rest (fold_days (visit_days days)).1 0 (select false group) in
          elim (Bool-cases (is_empty rest)) [
            | inl e ↦ rw e safe
            | inr e ↦ rw e (
                All-append IsSafe (match_stubs rest (select true group))
                  (fold_days (visit_days days)).0
                  (match_stubs-IsSafe rest (select true group)
                    (keep_rest-All Backed (fold_days (visit_days days)).1 0 (select false group)
                      backed)
                    (select-All true group h))
                  safe)
          ]

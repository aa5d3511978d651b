-- ===== src/Events/Ordinals/Ranks.antt =====
-- internal/events/events.go: the ordinals of the rows that wait on the name rule.
use mathlib.Core.Path.{subst}
use mathlib.Core.List.{Permᴰ}
use mathlib.Core.List.Permᴰ
use tennis_wiki.Base.{
  ℕ, suc, ◌+◌, ◌<◌, ◌≡◌, ◌≢◌, refl, sym, ap, ◌∙◌, List, [], ◌∷◌, map, some, inl, inr, arith, All,
  All-append, All-mono, All_both, All_perm, Bool-cases, get_or, get_elem?, length, if◌then◌else◌,
}
use tennis_wiki.Base.Count.{count}
use tennis_wiki.Base.Dict.{find_or}
use tennis_wiki.Base.Dict.Laws.{find_or-entries}
use tennis_wiki.Base.Gather.{gather_perm}
use tennis_wiki.Base.Pairs.{Pairs}
use tennis_wiki.Events.{Row}
use tennis_wiki.Events.Ordinals.{
  Pending, Placed, Group, group_eq, group_of, by_group, played_before, number_groups,
  ordinals_within_season,
}
use tennis_wiki.Events.Ordinals.Grouping.{
  placed, placed_in, by_group-members, by_group-placed_in, by_group-HasDistinctKeys,
}
use tennis_wiki.Events.Ordinals.Numbering.{
  members, AreDistinct-perm, number_groups-rank, length-number_groups,
}
use tennis_wiki.Events.Ordinals.Positions.{
  placed_in-group, placed-below, placed-AreDistinct, at_position, pointwise,
}

-- The rows of one group that were played before a row.
unfoldable pub earlier : Pending → List Pending → ℕ
unfolding played_before
earlier p [] = 0
earlier p (q ∷ qs) =
    let rest = earlier p qs in
    if group_eq.same (group_of q) (group_of p)
    then if played_before (0, q.row) (0, p.row) then suc rest else rest
    else rest

played_before_placed :
    (i j : ℕ) (x y : Row) → played_before (i, x) (j, y) ≡ played_before (0, x) (0, y)
unfolding played_before
played_before_placed i j x y = refl

count-earlier :
    (p : Pending) (j i : ℕ) (qs : List Pending)
    → count (λ q. played_before q (j, p.row)) (placed_in (group_of p) i qs) ≡ earlier p qs
unfolding count earlier played_before
count-earlier p j i [] = refl
count-earlier p j i (q ∷ qs) = elim (Bool-cases (group_eq.same (group_of q) (group_of p))) [
  | inl e ↦ rw (e, count-earlier p j (i + 1) qs) refl
  | inr e ↦ rw (e, count-earlier p j (i + 1) qs) refl
]

-- The row that stands at a position of the whole list is in the entry of its group.
abbrev HasRank : List Pending → List ℕ → Placed → Type 0
HasRank named ords x =
    (p : Pending) → get_elem? named x.0 ≡ some p → get_or ords x.0 0 ≡ suc (earlier p named)

abbrev zeros : List Pending → List ℕ
zeros = map (λ p. 0)

length-zeros : (ps : List Pending) → length (zeros ps) ≡ length ps
length-zeros [] = refl
length-zeros (p ∷ ps) = ap suc (length-zeros ps)

-- An element of a group: a row of the whole at its position.
abbrev IsIn : List Pending → Group → Placed → Type 0
IsIn named g x = (p : Pending) → get_elem? named x.0 ≡ some p → (group_of p ≡ g) × (x.1 ≡ p.row)

ranked :
    (named : List Pending) (ords : List ℕ) (g : Group) (idx : List Placed) (x : Placed)
    → idx ≡ placed_in g 0 named
    → IsIn named g x
    → get_or ords x.0 0 ≡ suc (count (λ q. played_before q x) idx)
    → HasRank named ords x
ranked named ords g idx (i, r) e within h p f =
    let (same, row) = within p f in h ∙ rw (e, row, ← same) (ap suc (count-earlier p i 0 named))

entry-HasRank :
    (named : List Pending) (ords : List ℕ) (g : Group) (idx : List Placed)
    → idx ≡ placed_in g 0 named
    → All (λ x. get_or ords x.0 0 ≡ suc (count (λ q. played_before q x) idx)) idx
    → All (HasRank named ords) idx
entry-HasRank named ords g idx e h =
    All-mono (λ x r. ranked named ords g idx x e r.1 r.0) idx
      (All_both _ (IsIn named g) idx h (
        subst (All (IsIn named g)) (sym e)
          (placed_in-group named g 0 named (λ k. ap (get_elem? named) (omega arith)))))

-- The groups that are visited: each has its rows, and together they are the whole.
module _ (visit : List (Group × List Placed) → List (Group × List Placed))
    (visit-perm : (m : List (Group × List Placed)) → Permᴰ (visit m) m) where
  visited-placed_in :
      (named : List Pending) → All (λ e. e.1 ≡ placed_in e.0 0 named) (visit (by_group 0 named []))
  unfolding find_or
  visited-placed_in named =
      All_perm (λ e. e.1 ≡ placed_in e.0 0 named) (Permᴰ.symm (visit-perm (by_group 0 named [])))
        (All-mono (λ e h. sym h ∙ by_group-placed_in e.0 0 named []) (by_group 0 named [])
          (find_or-entries [] (by_group 0 named []) (by_group-HasDistinctKeys 0 named [] tt)))

  visited-members :
      (named : List Pending) → Permᴰ (members (visit (by_group 0 named []))) (placed 0 named)
  visited-members named =
      Permᴰ.trans (gather_perm (λ g. g.1) (visit-perm (by_group 0 named [])))
        (by_group-members 0 named [])

  groups-HasRank :
      (named : List Pending) (ords : List ℕ) (groups : List (Group × List Placed))
      → All (λ e. e.1 ≡ placed_in e.0 0 named) groups
      → All
          (λ g. All (λ x. get_or ords x.0 0 ≡ suc (count (λ q. played_before q x) g.1)) g.1)
          groups
      → All (HasRank named ords) (members groups)
  groups-HasRank named ords [] e h = tt
  groups-HasRank named ords ((g, idx) ∷ groups) e h =
      All-append (HasRank named ords) idx (members groups) (entry-HasRank named ords g idx e.0 h.0)
        (groups-HasRank named ords groups e.1 h.1)

  -- The ordinal of each row that waits on the name rule is one more than the rows of its tour, tier,
  -- name and season that were played before it: whatever order the map of groups is visited in, and
  -- provided that no two of the rows have the same id.
  pub ordinals_within_season-earlier :
      (named : List Pending)
      → Pairs (λ a b. a.row.id ≢ b.row.id) named
      → ordinals_within_season visit named ≡ map (λ p. suc (earlier p named)) named
  unfolding ordinals_within_season
  ordinals_within_season-earlier named d =
      let groups = visit (by_group 0 named []) in
      let ords = number_groups groups (zeros named) in
      let whole = Permᴰ.symm (visited-members named) in
      let ranks =
        number_groups-rank groups (zeros named)
          (AreDistinct-perm whole (placed-AreDistinct 0 named d))
          (All_perm (λ x. x.0 < length (zeros named)) whole
            (All-mono (λ x l. omega (arith, l, length-zeros named)) (placed 0 named)
              (placed-below 0 named))) in
      let all =
        All_perm (HasRank named ords) (visited-members named)
          (groups-HasRank named ords groups (visited-placed_in named) ranks) in
      pointwise (λ p. suc (earlier p named)) named ords
        (length-number_groups groups (zeros named) ∙ length-zeros named)
        (λ k p e.
          subst
            (λ i.
              (q : Pending) → get_elem? named i ≡ some q → get_or ords i 0 ≡ suc (earlier q named))
            (omega arith)
            (at_position
              (λ i.
                (q : Pending)
                → get_elem? named i ≡ some q
                → get_or ords i 0 ≡ suc (earlier q named))
              0 named all k p e)
            p e)

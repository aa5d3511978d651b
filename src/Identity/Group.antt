-- ===== src/Identity/Group.antt =====
-- internal/identity/identity.go: `reconcileGroup`, on the rows that share a name key. Go visits a map in
-- any order: `visit_days` is the order that it takes.
use tennis_wiki.Base.{
  ℕ, ◌+◌, Bool, true, false, not, ◌||◌, List, [], ◌∷◌, ◌++◌, Option, none, some, ltb, leb, ◌==◌,
  if◌then◌else◌, is_empty,
}
use tennis_wiki.Identity.{
  Date, Player, Reason, same_source, several_candidates, Match, review_floor, is_stub, same_day,
  score,
}

-- The test given to `sort.Slice`: the longer career first, then the lower id.
abbrev pub longer : Player → Player → Bool
longer a b = if not (a.matches == b.matches) then ltb b.matches a.matches else ltb a.id b.id

-- A row with its position in the list.
abbrev pub Placed : Type 0
Placed = ℕ × Player

unfoldable pub insert : Placed → List Placed → List Placed
insert p [] = p ∷ []
insert p (q ∷ qs) = if longer p.1 q.1 then p ∷ q ∷ qs else q ∷ insert p qs

unfoldable pub sort : List Placed → List Placed
unfolding insert
sort [] = []
sort (p ∷ ps) = insert p (sort ps)

-- `byDay[day] = append(byDay[day], i)`
unfoldable pub add_day : Date → Placed → List (Date × List Placed) → List (Date × List Placed)
unfolding same_day
add_day d p [] = (d, p ∷ []) ∷ []
add_day d p ((e, ps) ∷ days) =
    if same_day e d then (e, ps ++ p ∷ []) ∷ days else (e, ps) ∷ add_day d p days

abbrev pub add_dated : Option Date → Placed → List (Date × List Placed) → List (Date × List Placed)
add_dated none p days = days
add_dated (some d) p days = add_day d p days

-- The loop that fills `byDay`, from position `i` on.
unfoldable pub by_day : ℕ → List Player → List (Date × List Placed) → List (Date × List Placed)
unfolding add_day
by_day i [] days = days
by_day i (p ∷ ps) days = by_day (i + 1) ps (add_dated p.birth_date (i, p) days)

-- The pairs of one day: the kept row with each other one, and the positions dropped.
unfoldable pub fold_onto : Player → List Placed → List Match × List ℕ
unfolding score
fold_onto keep [] = ([], [])
fold_onto keep ((i, p) ∷ ps) =
    let (folded, dropped) = fold_onto keep ps in
    let (confidence, why) = score keep p in
    if ltb confidence review_floor then (folded, dropped) else (
      record { canonical = keep; duplicate = p; confidence = confidence; reason = same_source why }
          ∷ folded,
      i ∷ dropped,
    )

unfoldable pub fold_sorted : List Placed → List Match × List ℕ
unfolding fold_onto
fold_sorted [] = ([], [])
fold_sorted (keep ∷ []) = ([], [])
fold_sorted (keep ∷ p ∷ ps) = fold_onto keep.1 (p ∷ ps)

-- The loop over `byDay`; a day with one row is skipped.
unfoldable pub fold_days : List (Date × List Placed) → List Match × List ℕ
unfolding fold_sorted sort
fold_days [] = ([], [])
fold_days ((d, ps) ∷ days) =
    let (folded, dropped) = fold_days days in
    let (more, gone) = fold_sorted (sort ps) in (more ++ folded, gone ++ dropped)

unfoldable pub contains : ℕ → List ℕ → Bool
contains i [] = false
contains i (j ∷ js) = j == i || contains i js

-- The rows, from position `i` on, that were not dropped.
unfoldable pub keep_rest : List ℕ → ℕ → List Player → List Player
unfolding contains
keep_rest dropped i [] = []
keep_rest dropped i (p ∷ ps) =
    if contains i dropped then keep_rest dropped (i + 1) ps else p ∷ keep_rest dropped (i + 1) ps

-- One round of `bestTwo`; the score -1 is that of no candidate.
abbrev pub above : ℕ → Option (Player × ℕ) → Bool
above s none = true
above s (some (p, t)) = ltb t s

unfoldable pub rank :
    Player × ℕ
    → Option (Player × ℕ) × Option (Player × ℕ)
    → Option (Player × ℕ) × Option (Player × ℕ)
rank (p, s) (best, second) =
    if above s best
    then (some (p, s), best)
    else if above s second
    then (best, some (p, s))
    else (best, second)

-- `bestTwo`, with the scores of the two.
unfoldable pub best_two :
    Player
    → List Player
    → Option (Player × ℕ) × Option (Player × ℕ)
    → Option (Player × ℕ) × Option (Player × ℕ)
unfolding rank score
best_two dup [] found = found
best_two dup (c ∷ cs) found = best_two dup cs (rank (c, (score c dup).0) found)

-- The proposal for a stub whose best candidate reaches the floor: two equally good candidates go to
-- review.
unfoldable pub judge : Player → Option (Player × ℕ) → Player → ℕ × Reason → Match
unfolding score
judge best none dup (confidence, why) = record {
  canonical = best;
  duplicate = dup;
  confidence = confidence;
  reason = why;
}
judge best (some (second, s)) dup (confidence, why) =
    if leb confidence (score second dup).0
    then record {
      canonical = best;
      duplicate = dup;
      confidence = review_floor;
      reason = several_candidates;
    }
    else record { canonical = best; duplicate = dup; confidence = confidence; reason = why }

unfoldable pub propose_from : Player → Option (Player × ℕ) × Option (Player × ℕ) → Option Match
unfolding judge score
propose_from dup (none, second) = none
propose_from dup (some (best, s), second) =
    if ltb (score best dup).0 review_floor
    then none
    else some (judge best second dup (score best dup))

-- The body of the loop over the stubs.
unfoldable pub propose : List Player → Player → Option Match
unfolding propose_from best_two
propose candidates dup = propose_from dup (best_two dup candidates (none, none))

abbrev pub add_match : Option Match → List Match → List Match
add_match none ms = ms
add_match (some m) ms = m ∷ ms

unfoldable pub match_stubs : List Player → List Player → List Match
unfolding propose
match_stubs candidates [] = []
match_stubs candidates (dup ∷ dups) =
    add_match (propose candidates dup) (match_stubs candidates dups)

-- The rows of a group that are stubs, or those that are not.
unfoldable pub select : Bool → List Player → List Player
unfolding is_stub
select stub [] = []
select true (p ∷ ps) = if is_stub p then p ∷ select true ps else select true ps
select false (p ∷ ps) = if is_stub p then select false ps else p ∷ select false ps

module _ (visit_days : List (Date × List Placed) → List (Date × List Placed)) where
  -- `foldSameSource`
  unfoldable pub fold_same_source : List Player → List Match × List Player
  fold_same_source anchored =
      let (folded, dropped) = fold_days (visit_days (by_day 0 anchored [])) in
      (folded, keep_rest dropped 0 anchored)

  -- `reconcileGroup`
  unfoldable pub reconcile_group : List Player → List Match
  reconcile_group group =
      let (folded, candidates) = fold_same_source (select false group) in
      if is_empty candidates then folded else match_stubs candidates (select true group) ++ folded

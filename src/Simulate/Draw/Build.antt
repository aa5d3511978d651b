-- ===== src/Simulate/Draw/Build.antt =====
-- internal/simulate/draw.go: what `BuildBracket` returns when it succeeds.
use tennis_wiki.Base.{
  ℕ, suc, ◌+◌, ◌-◌, ◌/◌, ◌^◌, ◌≤◌, ◌<◌, ◌≡◌, ◌∙◌, refl, ap, inl, inr, Bool, true, false, not, ◌&&◌,
  ◌||◌, List, [], ◌∷◌, ◌++◌, ◌==◌, ltb, length, length-append, arith, Bool-cases,
}
use mathlib.Core.List.{Memᴰ}
use native.Mathlib.Nat.{zero-add}
use tennis_wiki.Base.Text.{Bytes}
use tennis_wiki.Base.Result.{ok, ok_chain}
use tennis_wiki.Simulate.Draw.{
  BracketMatch, Entrant, is_bye, Bracket, size, entered, in_round, first_seen, insert, sort,
  round_order, first_match, check_rounds, walk, conclude, won_at, final_of, build_bracket,
}
use tennis_wiki.Simulate.Draw.Tree.{
  Lines, walk-Lines, Lines-length, Lines-Memᴰ, AllKnown, count_byes, Lines-count_byes,
}

length-insert : (a : ℕ) (xs : List ℕ) → length (insert a xs) ≡ suc (length xs)
unfolding insert
length-insert a [] = refl
length-insert a (x ∷ xs) = ground (arith, length-insert a xs)

length-sort : (xs : List ℕ) → length (sort xs) ≡ length xs
unfolding sort
length-sort [] = refl
length-sort (x ∷ xs) = length-insert x (sort xs) ∙ ap suc (length-sort xs)

first_seen_grows :
    (ms : List BracketMatch) (order : List ℕ) → length order ≤ length (first_seen order ms)
unfolding first_seen
first_seen_grows [] order = omega arith
first_seen_grows (m ∷ ms) order = ground (
  arith,
  first_seen_grows ms order,
  first_seen_grows ms (order ++ m.round_idx ∷ []),
  length-append order (m.round_idx ∷ []),
)

round_order_pos : (m : BracketMatch) (ms : List BracketMatch) → 0 < length (round_order (m ∷ ms))
unfolding round_order
round_order_pos m ms = omega (arith, length-sort (first_seen [] (m ∷ ms)), first_one)
  where
    first_one : 1 ≤ length (first_seen [] (m ∷ ms))
    first_one = first_seen_grows ms (m.round_idx ∷ [])

check_rounds_steps :
    (ms : List BracketMatch) (want : ℕ) (first : Bool) (idx : ℕ) (order : List ℕ)
    {rounds : List Bytes}
    → check_rounds ms want first (idx ∷ order) ≡ ok rounds
    → (more : List Bytes) × (check_rounds ms (want / 2) false order ≡ ok more)
      × (rounds ≡ (first_match (in_round idx ms)).round ∷ more)
unfolding check_rounds
check_rounds_steps ms want first idx order h =
    elim (Bool-cases (
      ltb want (length (in_round idx ms)) || not first && not (length (in_round idx ms) == want))) [
        | inl e ↦ absurd (cc (rw (e, check_rounds) at h))
        | inr e ↦
            let (more, checked, last) =
              ok_chain (check_rounds ms (want / 2) false order) _ (rw (e, check_rounds) at h) in
            (more, checked, cc)
      ]

length-check_rounds :
    (ms : List BracketMatch) (want : ℕ) (first : Bool) (order : List ℕ) {rounds : List Bytes}
    → check_rounds ms want first order ≡ ok rounds
    → length rounds ≡ length order
unfolding check_rounds
length-check_rounds ms want first [] h = ground arith
length-check_rounds ms want first (idx ∷ order) {rounds} h =
    let (more, checked, last) = check_rounds_steps ms want first idx order h in
    ground (arith, length-check_rounds ms (want / 2) false order {rounds = more} checked)

-- A bracket of the matches: a full tree of lines, each pair of them a match that was played, from
-- the final down; with one entrant more than matches.
pub record IsBracket (ms : List BracketMatch) (players : ℕ → Entrant) (b : Bracket) : Type 0 where
  pub lines : Lines players ms (length b.rounds - 1) b.champion b.entrants b.byes
  pub full : size b ≡ 2 ^ length b.rounds
  pub entered_all : size b ≡ b.byes + (length ms + 1)
  pub champion_entered : Memᴰ (players b.champion) b.entrants
  pub champion_won : b.champion ≡ (final_of ms).winner_id

conclude_ok :
    (total : ℕ) (rounds : List Bytes) (champion : ℕ) (es : List Entrant) (byes : ℕ) {b : Bracket}
    → conclude total rounds champion es byes ≡ ok b
    → (b ≡ record { entrants = es; byes = byes; rounds = rounds; champion = champion })
      × (length es - byes ≡ total + 1)
unfolding conclude
conclude_ok total rounds champion es byes h = ground arith

-- The steps of `BuildBracket` that must have succeeded.
module _ (m : BracketMatch) (ms : List BracketMatch) (players : ℕ → Entrant) where
  depth : ℕ
  depth = length (round_order (m ∷ ms)) - 1

  build_steps :
      {b : Bracket}
      → build_bracket (m ∷ ms) players ≡ ok b
      → (length b.rounds ≡ length (round_order (m ∷ ms)))
        × (walk players (won_at (m ∷ ms)) depth (final_of (m ∷ ms)).winner_id [] 0
            ≡ ok (b.entrants, b.byes))
        × (length b.entrants - b.byes ≡ length (m ∷ ms) + 1)
        × (b.champion ≡ (final_of (m ∷ ms)).winner_id)
  unfolding build_bracket depth
  build_steps {b} h =
      let (rounds, checked, later) =
        ok_chain (check_rounds (m ∷ ms) (2 ^ depth) true (round_order (m ∷ ms))) _ h in
      let (r, walked, tested) =
        ok_chain (walk players (won_at (m ∷ ms)) depth (final_of (m ∷ ms)).winner_id [] 0) _
          later in
      let (shape, count) =
        conclude_ok (length (m ∷ ms)) rounds (final_of (m ∷ ms)).winner_id r.0 r.1 {b = b} tested in
      let counted = length-check_rounds (m ∷ ms) (2 ^ depth) true (round_order (m ∷ ms)) checked in
      rw shape (counted, walked, count, refl)

module _ (m : BracketMatch) (ms : List BracketMatch) (players : ℕ → Entrant) where
  bracket_of :
      {b : Bracket} {l : List Entrant} {c : ℕ}
      → length b.rounds ≡ length (round_order (m ∷ ms))
      → length b.entrants - b.byes ≡ length (m ∷ ms) + 1
      → b.champion ≡ (final_of (m ∷ ms)).winner_id
      → b.entrants ≡ l
      → b.byes ≡ 0 + c
      → Lines players (m ∷ ms) (depth m ms players) (final_of (m ∷ ms)).winner_id l c
      → IsBracket (m ∷ ms) players b
  unfolding depth
  bracket_of counted entered champion el ec lines = record {
    lines = rw (counted, champion, el, ec) (rw zero-add lines);
    full =
        rw (counted, el, Lines-length lines)
          (ap (λ k. 2 ^ k) (omega (arith, round_order_pos m ms)));
    champion_entered = rw (champion, el) (Lines-Memᴰ lines);
    entered_all = omega arith;
    champion_won = champion;
  }

-- A bracket that is built has `2 ^ rounds` lines, which are the byes and one more than the matches;
-- the champion won the match of the last round; and from the champion down each pair of halves is the
-- two sides of a match of the list that its winner won in that round, the first round a match or a
-- player above an empty line.
pub build_bracket-IsBracket :
    (ms : List BracketMatch) (players : ℕ → Entrant) {b : Bracket}
    → build_bracket ms players ≡ ok b
    → IsBracket ms players b
build_bracket-IsBracket [] players h = absurd (unfold build_bracket in cc)
build_bracket-IsBracket (m ∷ ms) players {b} h =
    let (counted, walked, entered, champion) = build_steps m ms players h in
    let (l, c, el, ec, lines) =
      walk-Lines players (m ∷ ms) (depth m ms players) (final_of (m ∷ ms)).winner_id [] 0 walked in
    bracket_of m ms players counted entered champion el ec lines

-- If the map knows every player that the matches name, and the champion, then the entrants are
-- one more than the matches, and `Byes` counts the empty lines.
pub entered-build_bracket :
    (ms : List BracketMatch) (players : ℕ → Entrant) {b : Bracket}
    → AllKnown players ms
    → is_bye (players b.champion) ≡ false
    → build_bracket ms players ≡ ok b
    → (entered b ≡ length ms + 1) × (count_byes b.entrants ≡ b.byes)
entered-build_bracket ms players k known h =
    let bracket = build_bracket-IsBracket ms players h in
    (omega (arith, bracket.entered_all), Lines-count_byes k known bracket.lines)

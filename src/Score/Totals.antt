-- ===== src/Score/Totals.antt =====
-- internal/score/score.go: the counts over the sets of a score, each a pair (winner, loser).
-- A loop is a function of its counters. Those that go up by one are left unbounded; the sums of
-- games wrap.
pub mod Counted
use tennis_wiki.Base.{
  ℕ, ◌+◌, Bool, true, false, ◌&&◌, ◌||◌, List, [], ◌∷◌, length, ◌==◌, if◌then◌else◌, not,
}
use tennis_wiki.Base.Int
use tennis_wiki.Score.Model.{Outcome, ScoreSet, Score, is_complete, tiebreak_set}

-- The switch that `SetsWon` and `Tiebreaks` share.
abbrev count_winner : ScoreSet → ℕ → ℕ → ℕ × ℕ
count_winner s w l =
    if Int.lt s.games_loser s.games_winner
    then (w + 1, l)
    else if Int.lt s.games_winner s.games_loser
    then (w, l + 1)
    else (w, l)

sets_won_from : ℕ → ℕ → List ScoreSet → ℕ × ℕ
sets_won_from w l [] = (w, l)
sets_won_from w l (s ∷ ss) = let (w', l') = count_winner s w l in sets_won_from w' l' ss

unfoldable pub sets_won : List ScoreSet → ℕ × ℕ
unfolding sets_won_from
sets_won = sets_won_from 0 0

-- The loop of `SetsDecided`.
add_super_tiebreaks : ℕ → List ScoreSet → ℕ
add_super_tiebreaks w [] = w
add_super_tiebreaks w (s ∷ ss) = add_super_tiebreaks (if s.super_tiebreak then w + 1 else w) ss

unfoldable pub sets_decided : List ScoreSet → ℕ × ℕ
unfolding sets_won add_super_tiebreaks
sets_decided ss = let (w, l) = sets_won ss in (add_super_tiebreaks w ss, l)

games_from : ℕ → ℕ → List ScoreSet → ℕ × ℕ
games_from w l [] = (w, l)
games_from w l (s ∷ ss) =
    games_from (if s.super_tiebreak then w else Int.add w s.games_winner)
      (if s.super_tiebreak then l else Int.add l s.games_loser) ss

unfoldable pub games : List ScoreSet → ℕ × ℕ
unfolding games_from
games = games_from 0 0

tiebreaks_from : ℕ → ℕ → List ScoreSet → ℕ × ℕ
tiebreaks_from w l [] = (w, l)
tiebreaks_from w l (s ∷ ss) =
    let (w', l') = if tiebreak_set s then count_winner s w l else (w, l) in tiebreaks_from w' l' ss

unfoldable pub tiebreaks : List ScoreSet → ℕ × ℕ
unfolding tiebreaks_from
tiebreaks = tiebreaks_from 0 0

unfoldable pub went_to_decider : Score → ℕ → Bool
went_to_decider s best_of =
    if not (is_complete s.outcome) || not (best_of == 3) && not (best_of == 5)
    then false
    else length s.sets == best_of

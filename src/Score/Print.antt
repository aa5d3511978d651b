-- ===== src/Score/Print.antt =====
-- internal/score/score.go: the `String` methods of a set and of a score.
pub mod Words
use tennis_wiki.Base.{ℕ, ◌++◌, List, [], ◌∷◌, map, ◌==◌, if◌then◌else◌, is_empty, not}
use tennis_wiki.Base.Int
use tennis_wiki.Base.Text.{Bytes, codes, join}
use tennis_wiki.Score.Model.{
  Outcome, complete, retired, walkover, defaulted, abandoned, unknown, ScoreSet, Score,
  has_tiebreak, implied_tiebreak_winner,
}

unfoldable pub outcome_suffix : Outcome → Bytes
outcome_suffix retired = codes "RET"
outcome_suffix walkover = codes "W/O"
outcome_suffix defaulted = codes "DEF"
outcome_suffix unknown = codes "UNK"
outcome_suffix complete = []
outcome_suffix abandoned = []

-- The verb `%d-%d`.
abbrev pub pair : ℕ → ℕ → Bytes
pair a b = Int.itoa a ++ (b'-' ∷ Int.itoa b)

-- `Set.String`
unfoldable pub format_set : ScoreSet → Bytes
unfolding has_tiebreak implied_tiebreak_winner
format_set s =
    if s.super_tiebreak
    then b'[' ∷ (pair s.tiebreak_winner s.tiebreak_loser ++ b']' ∷ [])
    else if not (has_tiebreak s)
    then pair s.games_winner s.games_loser
    else if s.tiebreak_winner == implied_tiebreak_winner s.tiebreak_loser
    then pair s.games_winner s.games_loser ++ (b'(' ∷ (Int.itoa s.tiebreak_loser ++ b')' ∷ []))
    else pair s.games_winner s.games_loser
      ++ (b'(' ∷ (pair s.tiebreak_winner s.tiebreak_loser ++ b')' ∷ []))

-- The slice `parts` of `Score.String`.
unfoldable pub parts : Score → List Bytes
unfolding format_set outcome_suffix
parts s =
    map format_set s.sets
    ++ (if is_empty (outcome_suffix s.outcome) then [] else outcome_suffix s.outcome ∷ [])

-- `Score.String`
unfoldable pub format : Score → Bytes
unfolding parts join
format s = join (parts s)

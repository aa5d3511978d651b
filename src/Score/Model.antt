-- ===== src/Score/Model.antt =====
-- internal/score/score.go: outcomes, sets and scores. The numbers are Go's `int`s, as patterns.
use tennis_wiki.Base.{
  ℕ, Bool, true, false, not, ◌&&◌, ◌||◌, List, ◌==◌, ◌≡◌, ◌⊎◌, ◌<◌, if◌then◌else◌,
}
use tennis_wiki.Base.Int
use tennis_wiki.Base.Text.{Bytes, codes}

pub data Outcome : Type 0 where
  complete retired walkover defaulted abandoned unknown : Outcome

pub Outcome-discrete : Discrete Outcome
Outcome-discrete = hlevel

-- `Outcome.String`
unfoldable pub outcome_name : Outcome → Bytes
outcome_name complete = codes "complete"
outcome_name retired = codes "retired"
outcome_name walkover = codes "walkover"
outcome_name defaulted = codes "defaulted"
outcome_name abandoned = codes "abandoned"
outcome_name unknown = codes "unknown"

-- `o == Complete`
abbrev pub is_complete : Outcome → Bool
is_complete complete = true
is_complete _ = false

-- `Set`; the name is the one of the type of sets in mathematics elsewhere, hence the prefix.
pub record ScoreSet : Type 0 where
  pub games_winner : ℕ
  pub games_loser : ℕ
  pub tiebreak_winner : ℕ
  pub tiebreak_loser : ℕ
  pub super_tiebreak : Bool

-- `Score`
pub record Score : Type 0 where
  pub sets : List ScoreSet
  pub outcome : Outcome
  pub raw : Bytes

unfoldable pub has_tiebreak : ScoreSet → Bool
has_tiebreak s = Int.lt 0 s.tiebreak_winner || Int.lt 0 s.tiebreak_loser

-- The last test of `TiebreakSet`, on the games of the side that has more and of the other.
abbrev one_game_margin : ℕ → ℕ → Bool
one_game_margin high low = not (Int.lt high 7) && Int.sub high low == 1

unfoldable pub tiebreak_set : ScoreSet → Bool
unfolding has_tiebreak
tiebreak_set s =
    if s.super_tiebreak
    then false
    else if has_tiebreak s
    then true
    else if Int.lt s.games_winner s.games_loser
    then one_game_margin s.games_loser s.games_winner
    else one_game_margin s.games_winner s.games_loser

unfoldable pub incomplete : Score → Bool
incomplete s = not (is_complete s.outcome)

-- `impliedTiebreakWinner` of parse.go: first to seven, win by two.
unfoldable pub implied_tiebreak_winner : ℕ → ℕ
implied_tiebreak_winner loser = if Int.lt 7 (Int.add loser 2) then Int.add loser 2 else 7

-- The sets that the printer writes in a form that the scanner reads back.
pub record IsReadable (s : ScoreSet) : Type 0 where
  pub winner_bound : s.games_winner < 100
  pub loser_bound : s.games_loser < 100
  pub points_loser_bound : s.tiebreak_loser < 100
  pub points_winner_bound :
      (s.tiebreak_winner < 100) ⊎ (s.tiebreak_winner ≡ implied_tiebreak_winner s.tiebreak_loser)
  pub super_games :
      s.super_tiebreak ≡ true
      → (s.games_winner ≡ 0) × (s.games_loser ≡ 0) × (s.tiebreak_winner < 100)

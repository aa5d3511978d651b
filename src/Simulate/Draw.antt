-- ===== src/Simulate/Draw.antt =====
-- internal/simulate/draw.go: `BuildBracket`. Player ids and round indices are the natural numbers
-- that the database gives out; the number of rounds stays far below 63, so that no shift wraps.
pub mod Tree
pub mod Build
use tennis_wiki.Base.{
  ℕ, zero, suc, ◌+◌, ◌-◌, ◌/◌, ◌^◌, Bool, true, false, not, ◌&&◌, ◌||◌, List, [], ◌∷◌, ◌++◌, Option,
  none, some, ltb, leb, ◌==◌, if◌then◌else◌, length, is_empty,
}
use tennis_wiki.Base.Text.{Bytes}
use tennis_wiki.Base.Result.{Result, ok, err, ◌>>=◌}

pub record BracketMatch : Type 0 where
  pub round : Bytes
  pub round_idx : ℕ
  pub winner_id : ℕ
  pub loser_id : ℕ

pub record Entrant : Type 0 where
  pub player_id : ℕ
  pub slug : Bytes
  pub name : Bytes
  pub seed : Option ℕ

-- `Entrant.Bye`
abbrev pub is_bye : Entrant → Bool
is_bye e = e.player_id == 0

-- `Entrant{}`, the empty line under a seed.
abbrev pub bye_line : Entrant
bye_line = record { player_id = 0; slug = []; name = []; seed = none }

pub record Bracket : Type 0 where
  pub entrants : List Entrant
  pub byes : ℕ
  pub rounds : List Bytes
  pub champion : ℕ

-- `Bracket.Size` and `Bracket.Entered`.
abbrev pub size : Bracket → ℕ
size b = length b.entrants

abbrev pub entered : Bracket → ℕ
entered b = length b.entrants - b.byes

pub data BracketError : Type 0 where
  not_power_of_two broken_tree no_matches : BracketError

-- `byRound[idx]`
unfoldable pub in_round : ℕ → List BracketMatch → List BracketMatch
in_round idx [] = []
in_round idx (m ∷ ms) = if m.round_idx == idx then m ∷ in_round idx ms else in_round idx ms

unfoldable pub contains : ℕ → List ℕ → Bool
contains a [] = false
contains a (x ∷ xs) = x == a || contains a xs

-- The indices in the order they are first seen.
unfoldable pub first_seen : List ℕ → List BracketMatch → List ℕ
unfolding contains
first_seen order [] = order
first_seen order (m ∷ ms) =
    first_seen (if contains m.round_idx order then order else order ++ m.round_idx ∷ []) ms

-- `sort.Ints`
unfoldable pub insert : ℕ → List ℕ → List ℕ
insert a [] = a ∷ []
insert a (x ∷ xs) = if leb a x then a ∷ x ∷ xs else x ∷ insert a xs

unfoldable pub sort : List ℕ → List ℕ
unfolding insert
sort [] = []
sort (x ∷ xs) = insert x (sort xs)

unfoldable pub round_order : List BracketMatch → List ℕ
unfolding sort first_seen
round_order ms = sort (first_seen [] ms)

-- `ms[0]`; no round that is listed is empty.
abbrev pub first_match : List BracketMatch → BracketMatch
first_match [] = record { round = []; round_idx = 0; winner_id = 0; loser_id = 0 }
first_match (m ∷ ms) = m

-- `order[depth]`
abbrev pub round_at : List ℕ → ℕ → ℕ
round_at [] d = 0
round_at (x ∷ xs) zero = x
round_at (x ∷ xs) (suc d) = round_at xs d

-- `order[len(order)-1]`
abbrev pub last_round : List ℕ → ℕ
last_round order = round_at order (length order - 1)

-- The loop over the rounds: each is full but the first, which may be short. It returns the
-- rounds' codes.
unfoldable pub check_rounds :
    List BracketMatch → ℕ → Bool → List ℕ → Result BracketError (List Bytes)
unfolding in_round
check_rounds ms want first [] = ok []
check_rounds ms want first (idx ∷ order) =
    let n = length (in_round idx ms) in
    elim (ltb want n || not first && not (n == want)) [
      | true ↦ err not_power_of_two
      | false ↦ do
        rounds ← check_rounds ms (want / 2) false order
        ok ((first_match (in_round idx ms)).round ∷ rounds)
    ]

-- `wonBy[idx][winner]`: the map is filled in order, so the last match that the player won.
unfoldable pub won_by : ℕ → List BracketMatch → Option BracketMatch
won_by w [] = none
won_by w (m ∷ ms) = elim (won_by w ms) [
  | some later ↦ some later
  | none ↦ if m.winner_id == w then some m else none
]

-- `walk`: the lines under the match that `winner` won, appended to the entrants; the counter is
-- of byes.
module _ (players : ℕ → Entrant) (won : ℕ → ℕ → Option BracketMatch) where
  unfoldable pub walk : ℕ → ℕ → List Entrant → ℕ → Result BracketError (List Entrant × ℕ)
  walk zero winner entrants byes = elim (won zero winner) [
    | none ↦ ok (entrants ++ (players winner ∷ bye_line ∷ []), byes + 1)
    | some m ↦ ok (entrants ++ (players m.winner_id ∷ players m.loser_id ∷ []), byes)
  ]
  walk (suc depth) winner entrants byes = elim (won (suc depth) winner) [
    | none ↦ err broken_tree
    | some m ↦ do
      (entrants', byes') ← walk depth m.winner_id entrants byes
      walk depth m.loser_id entrants' byes'
  ]

-- What `walk` looks up: the match that a player won in the round at a depth.
abbrev pub won_at : List BracketMatch → ℕ → ℕ → Option BracketMatch
won_at ms depth winner = won_by winner (in_round (round_at (round_order ms) depth) ms)

abbrev pub final_of : List BracketMatch → BracketMatch
final_of ms = first_match (in_round (last_round (round_order ms)) ms)

-- The last test of `BuildBracket`, and the bracket.
unfoldable pub conclude : ℕ → List Bytes → ℕ → List Entrant → ℕ → Result BracketError Bracket
conclude total rounds champion entrants byes =
    if length entrants - byes == total + 1
    then ok (record { entrants = entrants; byes = byes; rounds = rounds; champion = champion })
    else err broken_tree

-- `BuildBracket`. `players` answers with the zero entrant for an id that the map lacks.
unfoldable pub build_bracket : List BracketMatch → (ℕ → Entrant) → Result BracketError Bracket
build_bracket [] players = err no_matches
build_bracket (m ∷ rest) players = do
  let order = round_order (m ∷ rest)
  let final = final_of (m ∷ rest)
  rounds ← check_rounds (m ∷ rest) (2 ^ (length order - 1)) true order
  (entrants, byes) ← walk players (won_at (m ∷ rest)) (length order - 1) final.winner_id [] 0
  conclude (length (m ∷ rest)) rounds final.winner_id entrants byes

-- ===== src/Simulate/Tests.antt =====
-- internal/simulate: runs of the draw, the halving and the baselines, and the theorems at concrete
-- inputs.
use mathlib.Core.List.{Memᴰ}
use tennis_wiki.Base.{
  true, if◌then◌else◌, ◌-◌, ℕ, ◌+◌, ◌^◌, ◌≤◌, ◌≡◌, refl, Bool, false, List, [], ◌∷◌, none, length,
  ltb, arith,
}
use tennis_wiki.Base.Text.{codes}
use tennis_wiki.Base.Result.{ok}
use tennis_wiki.Simulate.Draw.{
  BracketMatch, Entrant, is_bye, bye_line, Bracket, entered, in_round, contains, first_seen, insert,
  sort, round_order, check_rounds, won_by, walk, conclude, build_bracket,
}
use tennis_wiki.Simulate.Draw.Tree.{count_byes}
use tennis_wiki.Simulate.Draw.Build.{IsBracket, build_bracket-IsBracket, entered-build_bracket}
use tennis_wiki.Simulate.Play.{range_from, play_once, share}
use tennis_wiki.Simulate.Play.Halving.{play_out, play_once-play_out}
use tennis_wiki.Simulate.Play.Shares.{shares, shares_total}
use tennis_wiki.Base.Float.{whole}
use tennis_wiki.Simulate.Match.{
  sets, solve, tiebreak, fill, fill_row, tiebreak_cell, tiebreak_over, tiebreak_point,
  tiebreak_at_six, server_is_a, two_point_race, play_set, set_cell, set_over, set_game, at_six_all,
  game, play_match,
}
use tennis_wiki.Simulate.Match.Race.{
  race, serves_point, serves_game, first_to_seven, six_clear_or_seven, share_of_squares,
}
use tennis_wiki.Simulate.Match.Tables.{six_games_all, tiebreak-race, play_set-race}
use tennis_wiki.Simulate.Anchor.{Baseline, anchor}
use tennis_wiki.Simulate.Anchor.Widening.{IsAnswer, anchor-IsAnswer}

-- A draw of four lines: player 1 beat player 2, then player 3, who had no first match.
abbrev semi : BracketMatch
semi = record { round = codes "SF"; round_idx = 6; winner_id = 1; loser_id = 2 }

abbrev final : BracketMatch
final = record { round = codes "F"; round_idx = 7; winner_id = 1; loser_id = 3 }

abbrev matches : List BracketMatch
matches = final ∷ semi ∷ []

abbrev player : ℕ → Entrant
player id = record { player_id = id; slug = []; name = []; seed = none }

abbrev four_lines : Bracket
four_lines = record {
  entrants = player 1 ∷ player 2 ∷ player 3 ∷ bye_line ∷ [];
  byes = 1;
  rounds = codes "SF" ∷ codes "F" ∷ [];
  champion = 1;
}

built : build_bracket matches player ≡ ok four_lines
unfolding build_bracket round_order sort insert first_seen contains check_rounds in_round won_by
    walk conclude
built = refl

winners_known : (m : BracketMatch) → Memᴰ m matches → is_bye (player m.winner_id) ≡ false
winners_known m (Memᴰ.head e) = rw e refl
winners_known m (Memᴰ.tail (Memᴰ.head e)) = rw e refl
winners_known m (Memᴰ.tail (Memᴰ.tail h)) = elim h [ ]

losers_known : (m : BracketMatch) → Memᴰ m matches → is_bye (player m.loser_id) ≡ false
losers_known m (Memᴰ.head e) = rw e refl
losers_known m (Memᴰ.tail (Memᴰ.head e)) = rw e refl
losers_known m (Memᴰ.tail (Memᴰ.tail h)) = elim h [ ]

build_bracket-IsBracket_example : IsBracket matches player four_lines
build_bracket-IsBracket_example = build_bracket-IsBracket matches player built

entered-build_bracket_example :
    (entered four_lines ≡ length matches + 1) × (count_byes four_lines.entrants ≡ four_lines.byes)
entered-build_bracket_example =
    entered-build_bracket matches player
      (record { winner_known = winners_known; loser_known = losers_known }) refl built

-- The lower line wins, but for the third number drawn.
abbrev beats : ℕ → ℕ → ℕ → Bool
beats n a c = ltb n 2

play_once-play_out_example :
    (champion : ℕ) × (rest : List ℕ) × (play_out beats 0 (2 ^ 2) 2 (range_from 0 (2 ^ 2))
      ≡ champion ∷ [])
    × ((play_once beats 2 (2 ^ 2) (0 ∷ 0 ∷ 0 ∷ 0 ∷ 0 ∷ 0 ∷ 0 ∷ 0 ∷ []) 0).field ≡ champion ∷ rest)
play_once-play_out_example = play_once-play_out beats 2 (0 ∷ 0 ∷ 0 ∷ 0 ∷ 0 ∷ 0 ∷ 0 ∷ 0 ∷ []) 0

shares_total_example : (shares 10 4 4 ≡ 10) × (share 10 4 0 ≤ share 10 4 3 + 1)
shares_total_example = shares_total 10 4 0 3 (omega arith)

abbrev cells : List Baseline
cells =
    record {
      tier = codes "tour";
      surface = codes "clay";
      decade = 2010;
      serve_points = 400;
      serve_won = 250;
    }
    ∷ record {
      tier = codes "tour";
      surface = codes "clay";
      decade = 2000;
      serve_points = 900;
      serve_won = 540;
    }
    ∷ []

anchor-IsAnswer_example :
    IsAnswer cells
      (codes "tour")
      (codes "clay")
      2010
      (anchor cells (codes "tour") (codes "clay") 2010)
anchor-IsAnswer_example = anchor-IsAnswer cells (codes "tour") (codes "clay") 2010

-- A player who wins every point, against one who wins none.
certain :
    (tiebreak whole 1 0 ≡ 1)
    × (play_set whole 1 0 true ≡ 1)
    × ((solve whole 0 1 (record { best_of = 5; final_set_advantage = true })).match_won ≡ (0, 1))
unfolding solve sets tiebreak fill fill_row tiebreak_cell tiebreak_over tiebreak_point
    tiebreak_at_six server_is_a two_point_race play_set set_cell set_over set_game at_six_all game
    play_match
certain = (refl, refl, refl)

tiebreak-race_example :
    tiebreak whole 1 0
    ≡ race whole first_to_seven
        (λ n. if serves_point n then 1 else 1 - 0)
        (share_of_squares whole 1 0)
        12
        0
        0
tiebreak-race_example = tiebreak-race whole 1 0

play_set-race_example :
    play_set whole 1 0 true
    ≡ race whole six_clear_or_seven
        (λ n. if serves_game n then game whole 1 else 1 - game whole 0)
        (six_games_all whole 1 0 true)
        12
        0
        0
play_set-race_example = play_set-race whole 1 0 true

-- ===== src/Charting/Tests.antt =====
-- internal/charting: runs of the lookup, and the theorems at concrete matches.
use tennis_wiki.Charting.People.{surnames}
use tennis_wiki.Base.Text.{trim}
use tennis_wiki.Charting.Resolve.{Reason}
use tennis_wiki.Base.{true}
use mathlib.Core.List.{Memᴰ}
use tennis_wiki.Base.{inr, ◌≢◌, ℕ, ◌≡◌, refl, List, [], ◌∷◌}
use tennis_wiki.Base.Result.{ok, err}
use tennis_wiki.Base.Text.{codes}
use tennis_wiki.Name.{write_runes, is_space_rune, write_rune, to_lower_rune, is_alphanumeric, fold}
use tennis_wiki.Name.Tests.{latin}
use tennis_wiki.Charting.Resolve.{
  in_window, same_players, Candidate, Chart, Resolution, new_index, resolve,
}
use tennis_wiki.Charting.Complete.Search.{resolve-found}
use tennis_wiki.Charting.Nearest.{IsResolved, resolve-IsResolved}

abbrev row : ℕ → List ℕ → List ℕ → ℕ → Candidate
row id winner loser start = record {
  match_id = id;
  winner_id = 1;
  loser_id = 2;
  winner = winner;
  loser = loser;
  round = codes "R16";
  played_on = start;
}

-- The same two players twice within the window.
abbrev rows : List Candidate
rows =
    row 7 (codes "Jannik Sinner") (codes "Holger Rune") 1000
    ∷ row 8 (codes "Jannik Sinner") (codes "Holger Rune") 1300
    ∷ []

abbrev chart : Chart
chart = record {
  player1 = codes "Holger Rune";
  player2 = codes "Jannik Sinner";
  played_on = 1310;
  round = codes "R16";
}

abbrev answer : Resolution
answer = record { match_id = 8; player1_id = 2; player2_id = 1 }

resolved : resolve latin chart (new_index latin rows) ≡ ok answer
unfolding resolve new_index write_runes is_space_rune write_rune to_lower_rune is_alphanumeric fold
resolved = refl

resolve-IsResolved_example : IsResolved latin chart rows answer
resolve-IsResolved_example = resolve-IsResolved latin chart rows answer resolved

-- Two players with one initial and one surname: the first charted name is taken for the winner's,
-- whoever it is.
abbrev twins : List Candidate
twins = row 9 (codes "Karolina Pliskova") (codes "Kristyna Pliskova") 1000 ∷ []

abbrev kristyna_first : Chart
kristyna_first = record {
  player1 = codes "Kristyna Pliskova";
  player2 = codes "Karolina Pliskova";
  played_on = 1010;
  round = codes "R16";
}

kristyna_as_karolina :
    resolve latin kristyna_first (new_index latin twins)
    ≡ ok (record { match_id = 9; player1_id = 1; player2_id = 2 })
unfolding resolve new_index write_runes is_space_rune write_rune to_lower_rune is_alphanumeric fold
kristyna_as_karolina = refl

-- What `resolve-found` asks of the second row.
surnames_of_row :
    (same_players latin chart (row 8 (codes "Jannik Sinner") (codes "Holger Rune") 1300) ≡ true)
    × (surnames latin (codes "Holger Rune") ≡ codes "rune" ∷ [])
    × (surnames latin (codes "Jannik Sinner") ≡ codes "sinner" ∷ [])
unfolding same_players surnames trim write_runes is_space_rune write_rune to_lower_rune
    is_alphanumeric fold
surnames_of_row = (refl, refl, refl)

rune_is_known : Memᴰ (codes "rune") (surnames latin (codes "Holger Rune"))
rune_is_known = rw surnames_of_row.1 (Memᴰ.head refl)

sinner_is_known : Memᴰ (codes "sinner") (surnames latin (codes "Jannik Sinner"))
sinner_is_known = rw surnames_of_row.2 (Memᴰ.head refl)

timely : in_window 1310 1300 ≡ true
unfolding in_window
timely = refl

resolve-found_example : resolve latin chart (new_index latin rows) ≢ err Reason.no_match
resolve-found_example =
    resolve-found latin chart rows (row 8 (codes "Jannik Sinner") (codes "Holger Rune") 1300)
      (codes "rune") (codes "sinner") (Memᴰ.tail (Memᴰ.head refl)) timely surnames_of_row.0
      rune_is_known sinner_is_known (inr (sinner_is_known, rune_is_known))

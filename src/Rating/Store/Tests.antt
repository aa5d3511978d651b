-- ===== src/Rating/Store/Tests.antt =====
-- internal/rating/store.go: runs over three rows, and the theorems at them.
use mathlib.Core.Option.{some-injective}
use tennis_wiki.Base.{
  ℕ, ◌+◌, ◌≡◌, ◌≢◌, refl, sym, Bool, true, false, List, [], ◌∷◌, Option, none, some, length, All,
}
use tennis_wiki.Base.Text.{Bytes, codes}
use tennis_wiki.Base.Float.{whole}
use tennis_wiki.Score.Parse.{read_tokens}
use tennis_wiki.Score.Normalise.{normalise, looks_like_set}
use tennis_wiki.Score.Scanner.{
  parse_token, scan_sets, scan_from, read_set, read_int, demand, read_tiebreak,
}
use tennis_wiki.Rating.Elo.{default_weights, parse_tier}
use tennis_wiki.Rating.Engine.{MatchResult, EngineError, Snapshot, new_engine, replay}
use tennis_wiki.Rating.Store.{Row, Progress, Writer, matches, run, stored, write_all}
use tennis_wiki.Rating.Store.Replayed.{rated, IsReadable, run-replay, accounted, accounted-matches}
use tennis_wiki.Rating.Store.Batches.{copied-write_all}

abbrev played : ℕ → Bytes → Bool → Row
played day score team = record {
  winner_id = 7;
  loser_id = 3;
  played_on = day;
  surface = some (codes "clay");
  score = some score;
  tier = codes "tour";
  level = codes "M";
  round = codes "F";
  is_qualifying = false;
  is_team_event = team;
}

-- A match, a walkover and a team tie.
abbrev rows : List (Option Row)
rows =
    some (played 9 (codes "6-4 6-4") false)
    ∷ some (played 10 (codes "W/O") false)
    ∷ some (played 11 (codes "6-1 6-1") true)
    ∷ []

tour_is_known : parse_tier (codes "tour") ≢ none
unfolding parse_tier
tour_is_known = λ e. cc

rows-IsReadable : All (IsReadable false) rows
rows-IsReadable = (tour_is_known, (tour_is_known, (tour_is_known, tt)))

abbrev takes : List (Snapshot whole) → Snapshot whole → Bool
takes sent r = false

run-replay_example :
    run whole takes (default_weights whole) false false rows (new_engine whole)
    ≡ stored
        (replay whole takes (default_weights whole) false (rated false rows) (new_engine whole))
run-replay_example =
    run-replay false whole takes (default_weights whole) rows (new_engine whole) rows-IsReadable

-- A function that notes the days.
abbrev note : MatchResult → List ℕ → List ℕ × Option EngineError
note r days = (r.played_on ∷ days, none)

abbrev nothing_read : Progress (List ℕ)
nothing_read = record { n = 0; team_events = 0; walkovers = 0; state = [] }

abbrev all_read : Progress (List ℕ)
all_read = record { n = 1; team_events = 1; walkovers = 1; state = 9 ∷ [] }

counts_of_rows : matches note false false rows nothing_read ≡ (all_read, none)
unfolding matches normalise read_tokens looks_like_set parse_token scan_sets scan_from read_set
    read_int demand read_tiebreak
counts_of_rows = refl

accounted-matches_example : accounted all_read ≡ accounted nothing_read + length rows
accounted-matches_example =
    accounted-matches false note false rows nothing_read all_read counts_of_rows

abbrev copy : List ℕ → List ℕ → Option ℕ
copy done batch = some (length batch)

copies_all : (done batch : List ℕ) (n : ℕ) → copy done batch ≡ some n → n ≡ length batch
copies_all done batch n e = sym (some-injective (length batch) n e)

abbrev written : Writer ℕ
written = record { buf = []; rows = 3; copied = 4 ∷ 5 ∷ 6 ∷ [] }

three_in_twos :
    write_all copy 2 (4 ∷ 5 ∷ 6 ∷ []) (record { buf = []; rows = 0; copied = [] }) ≡ (written, true)
unfolding write_all
three_in_twos = refl

copied-write_all_example : (written.copied ≡ 4 ∷ 5 ∷ 6 ∷ []) × (written.rows ≡ 3)
copied-write_all_example = copied-write_all copy 2 copies_all (4 ∷ 5 ∷ 6 ∷ []) written three_in_twos

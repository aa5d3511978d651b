-- ===== src/Validate/Tests.antt =====
-- internal/validate: runs of the accumulator on whole numbers, and the theorems at concrete predictions.
use tennis_wiki.Base.{ℕ, ◌≡◌, refl, List, [], ◌∷◌, map}
use tennis_wiki.Base.Float.{whole}
use tennis_wiki.Rating.Elo.{Tier, tour, challenger}
use tennis_wiki.Rating.Engine.{Prediction}
use tennis_wiki.Validate.Accumulator.{Config, Accumulator, new_accumulator, observe_all}
use tennis_wiki.Validate.Counts.{sum, IsTallied, observe_all-IsTallied}
use tennis_wiki.Validate.Promotions.{IsTracked, observe_all-IsTracked}
use tennis_wiki.Validate.Report.{accuracy, calibration}
use tennis_wiki.Validate.Report.Totals.{counted, banded, calibration-accuracy, accuracy-observe_all}

abbrev limits : Config whole
limits = record { min_matches = 10; promoted_after = 2; promotion_window = 1; systematic_z = 3 }

abbrev seen : Tier → ℕ → ℕ → ℕ → Prediction whole
seen t winner loser played = record {
  tier = t;
  played_on = 0;
  winner_id = winner;
  loser_id = loser;
  winner_expected = 1;
  winner_played = played;
  loser_played = 30;
}

-- Two challenger matches, the first unscored, and two tour matches between the same players.
abbrev season : List (Prediction whole)
season = seen challenger 1 2 9 ∷ seen challenger 2 1 10 ∷ seen tour 1 2 11 ∷ seen tour 1 3 12 ∷ []

abbrev watched : Accumulator whole
watched = observe_all whole limits season (new_accumulator whole)

-- Three predictions are scored; both players are promoted, and one match of each is measured.
counters :
    (watched.scored ≡ 3)
    × (watched.promoted ≡ 2)
    × (watched.prom_match ≡ 2)
    × (watched.prom_actual ≡ 1)
unfolding observe_all
counters = (refl, refl, refl, refl)

observe_all-IsTallied_example : IsTallied whole watched
observe_all-IsTallied_example = observe_all-IsTallied whole limits season

observe_all-IsTracked_example : IsTracked whole limits watched
observe_all-IsTracked_example = observe_all-IsTracked whole limits season

calibration-accuracy_example :
    map (banded whole) (calibration whole watched) ≡ map (counted whole) (accuracy whole watched)
calibration-accuracy_example = calibration-accuracy whole limits season

accuracy-observe_all_example : sum (map (λ r. r.matches) (accuracy whole watched)) ≡ watched.scored
accuracy-observe_all_example = accuracy-observe_all whole limits season

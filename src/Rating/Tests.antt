-- ===== src/Rating/Tests.antt =====
-- internal/rating: runs of the replay over whole numbers, and the theorems at concrete results.
use tennis_wiki.Base.{
  ℕ, ◌+◌, ◌≤◌, ◌<◌, ◌≡◌, ◌↔◌, refl, Bool, true, false, List, [], ◌∷◌, Option, none, some,
  if◌then◌else◌, map,
}
use tennis_wiki.Base.Text.{text_less, codes}
use tennis_wiki.Base.Float.{whole}
use tennis_wiki.Rating.Elo.{
  tour, masters, MatchContext, Weights, default_weights, parse_tier, weight_for, base_weight,
  level_weight, k_factor, update, expected,
}
use tennis_wiki.Rating.Week.{weekday, week_of, week_of-Monday}
use tennis_wiki.Rating.Keys.{
  Series, overall, hard, clay, Key, same_key, same_series, key_less, series_name, insert, sort,
  parse_surface,
}
use tennis_wiki.Rating.Engine.{
  EngineError, MatchResult, touch, Snapshot, Engine, new_engine, unrated, find, put, state_of,
  rate_pair, rate, predict, emit_keys, flush, apply_result, add, replay,
}
use tennis_wiki.Rating.Engine.Order.{IsOrdered, Chronological, replay-Chronological}
use tennis_wiki.Rating.Engine.Frame.{rated, rate_pair-find}
use tennis_wiki.Rating.Engine.Published.{latest, replay-latest}
use tennis_wiki.Rating.Engine.Success.{InOrder, replay_succeeds_iff}

abbrev tour_match : MatchContext
tour_match = record { tier = tour; level = masters; is_final = false; is_qualifying = false }

abbrev played : ℕ → ℕ → ℕ → Option Series → MatchResult
played w l day s = record {
  winner_id = w;
  loser_id = l;
  played_on = day;
  surface = s;
  context = tour_match;
}

-- Two weeks: a clay match and an indoor one without a surface, then a hard match.
abbrev two_weeks : List MatchResult
two_weeks = played 7 3 9 (some clay) ∷ played 3 5 12 none ∷ played 7 5 16 (some hard) ∷ []

abbrev takes : List (Snapshot whole) → Snapshot whole → Bool
takes sent r = false

abbrev weights : Weights whole
weights = default_weights whole

abbrev ran : Engine whole × Option EngineError
ran = replay whole takes weights true two_weeks (new_engine whole)

tier_of_challenger : parse_tier (codes "tour") ≡ some tour
unfolding parse_tier
tier_of_challenger = refl

surface_of_clay : parse_surface (codes "clay") ≡ some clay
unfolding parse_surface
surface_of_clay = refl

start_IsOrdered : IsOrdered whole (new_engine whole)
start_IsOrdered = record { sent = tt; past = tt; touched = tt }

replay_keys :
    map {B = ℕ × ℕ} (λ r. (r.as_of, r.key.player)) ran.0.sent
    ≡ (7, 3) ∷ (7, 3) ∷ (7, 5) ∷ (7, 7) ∷ (7, 7) ∷ (14, 5) ∷ (14, 5) ∷ (14, 7) ∷ (14, 7) ∷ []
unfolding replay add flush emit_keys week_of apply_result predict rate rate_pair state_of find put
    touch sort insert key_less same_key same_series text_less series_name weight_for base_weight
    level_weight k_factor update expected
replay_keys = refl

week_of-Monday_example :
    (weekday (week_of 9) ≡ 1)
    × (week_of 9 ≤ 9)
    × (9 < week_of 9 + 7)
    × ((week_of 12 ≡ week_of 9) ↔ ((week_of 9 ≤ 12) × (12 < week_of 9 + 7)))
    × (week_of 9 ≤ week_of (9 + 12))
week_of-Monday_example = week_of-Monday 9 12

replay-Chronological_example : Chronological whole ran.0.sent
replay-Chronological_example =
    replay-Chronological whole takes weights true two_weeks (new_engine whole) start_IsOrdered

replay_ends_well : ran.1 ≡ none
unfolding replay add flush emit_keys week_of apply_result predict rate rate_pair state_of find put
    touch sort insert key_less same_key same_series text_less series_name weight_for base_weight
    level_weight k_factor update expected
replay_ends_well = refl

abbrev seven : Key
seven = record { player = 7; series = overall }

abbrev three : Key
three = record { player = 3; series = overall }

replay-latest_example :
    find whole seven ran.0.series ≡ latest whole seven (unrated whole) ran.0.sent
replay-latest_example = replay-latest whole takes weights true two_weeks seven replay_ends_well

replay_succeeds_iff_example : (ran.1 ≡ none) ↔ InOrder 0 two_weeks
replay_succeeds_iff_example =
    replay_succeeds_iff whole takes weights true (λ sent r. refl) two_weeks (new_engine whole)

seven_is_not_three : same_key seven three ≡ false
unfolding same_key same_series series_name
seven_is_not_three = refl

rate_pair-find_example : find whole seven (rate_pair whole seven three 2 []) ≡ (
    if same_key seven seven
    then (rated whole seven three 2 []).0
    else if same_key three seven
    then (rated whole seven three 2 []).1
    else find whole seven [])
rate_pair-find_example = rate_pair-find whole seven three seven 2 [] seven_is_not_three

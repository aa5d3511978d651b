-- ===== src/Validate/Report.antt =====
-- internal/validate/validate.go: `accuracy`, `calibration`, `reversion` and `promotion`, the numbers that
-- the report is made of. `visit` is the order in which Go visits the ratings.
pub mod Totals
use tennis_wiki.Base.{
  ℕ, ◌+◌, Bool, true, false, not, List, [], ◌∷◌, Option, none, some, ltb, ◌==◌, if◌then◌else◌,
}
use tennis_wiki.Base.Float.{Float}
use tennis_wiki.Rating.Elo.{Tier, tour, challenger, futures, itf, base}
use tennis_wiki.Rating.Keys.{Key, overall, same_series}
use tennis_wiki.Rating.Engine.{State}
use tennis_wiki.Validate.Accumulator.{Config, Accumulator, TierStats, same_tier}

abbrev pub tiers : List Tier
tiers = tour ∷ challenger ∷ futures ∷ itf ∷ []

unfoldable pub holds : ℕ → List ℕ → Bool
holds p [] = false
holds p (q ∷ qs) = if q == p then true else holds p qs

module _ (fl : Float) where
  open fl use {F, lit, of_int, add, sub, mul, div, lt, sqrt, abs}

  pub record TierAccuracy : Type 0 where
    pub tier : Tier
    pub matches : ℕ
    pub correct : ℕ
    pub accuracy : F

  pub record Bucket : Type 0 where
    pub from : F
    pub to : F
    pub predicted : F
    pub observed : F
    pub matches : ℕ

  pub record TierCalibration : Type 0 where
    pub tier : Tier
    pub buckets : List Bucket
    pub mean_error : F

  -- The sums of `calibration` over the bands of a tier, and those of `reversion`.
  pub record BandSums : Type 0 where
    pub filled : List Bucket
    pub weighted : F
    pub total : F

  pub record PoolSums : Type 0 where
    pub pool_sum : F
    pub pool_n : ℕ
    pub tour_sum : F
    pub tour_n : ℕ

  pub record MeanReversion : Type 0 where
    pub base_rating : F
    pub pool : F
    pub pool_players : ℕ
    pub tour_mean : F
    pub tour_players : ℕ

  pub record PromotionContinuity : Type 0 where
    pub promotions : ℕ
    pub matches : ℕ
    pub expected : F
    pub actual : ℕ
    pub z : F
    pub systematic : Bool
    pub threshold : F

  -- `stats, ok := a.byTier[tier]`
  unfoldable pub stats_of : Tier → List (Tier × TierStats fl) → Option (TierStats fl)
  stats_of t [] = none
  stats_of t ((u, s) ∷ m) = if same_tier u t then some s else stats_of t m

  -- `100 * float64(part) / float64(of)`
  abbrev pub percent : F → F → F
  percent part of = div (mul (of_int 100) part) of

  -- A tier with no match has no row.
  unfoldable pub accuracy_row : Tier → Option (TierStats fl) → List TierAccuracy → List TierAccuracy
  accuracy_row t none rows = rows
  accuracy_row t (some s) rows =
      if s.matches == 0
      then rows
      else record {
        tier = t;
        matches = s.matches;
        correct = s.correct;
        accuracy = percent (of_int s.correct) (of_int s.matches);
      }
        ∷ rows

  unfoldable pub accuracy_of : List Tier → Accumulator fl → List TierAccuracy
  unfolding accuracy_row stats_of
  accuracy_of [] a = []
  accuracy_of (t ∷ ts) a = accuracy_row t (stats_of t a.by_tier) (accuracy_of ts a)

  -- `accuracy`
  unfoldable pub accuracy : Accumulator fl → List TierAccuracy
  unfolding accuracy_of
  accuracy a = accuracy_of tiers a

  abbrev pub bucket : ℕ → ℕ → F → ℕ → Bucket
  bucket i n p w = record {
    from = add (lit 5 1) (mul (of_int i) (lit 5 2));
    to = add (lit 5 1) (mul (of_int (i + 1)) (lit 5 2));
    predicted = percent p (of_int n);
    observed = percent (of_int w) (of_int n);
    matches = n;
  }

  -- The loop over the bands from band `i` on: the bands filled, and the two sums.
  unfoldable pub bands : ℕ → List ℕ → List F → List ℕ → F → F → BandSums
  bands i (n ∷ ns) (p ∷ ps) (w ∷ ws) weighted total =
      let b = bucket i n p w in
      let skipped = bands (i + 1) ns ps ws weighted total in
      let rest =
        bands (i + 1) ns ps ws (add weighted (mul (of_int n) (abs (sub b.predicted b.observed))))
          (add total (of_int n)) in
      if n == 0 then skipped else record rest { filled = b ∷ rest.filled }
  bands i _ _ _ weighted total = record { filled = []; weighted = weighted; total = total }

  abbrev pub mean_error_of : BandSums → F
  mean_error_of b = if lt (of_int 0) b.total then div b.weighted b.total else of_int 0

  unfoldable pub calibration_row :
      Tier → Option (TierStats fl) → List TierCalibration → List TierCalibration
  unfolding bands
  calibration_row t none rows = rows
  calibration_row t (some s) rows =
      let sums = bands 0 s.bucket_n s.bucket_p s.bucket_w (of_int 0) (of_int 0) in
      if s.matches == 0
      then rows
      else record { tier = t; buckets = sums.filled; mean_error = mean_error_of sums } ∷ rows

  unfoldable pub calibration_of : List Tier → Accumulator fl → List TierCalibration
  unfolding calibration_row stats_of
  calibration_of [] a = []
  calibration_of (t ∷ ts) a = calibration_row t (stats_of t a.by_tier) (calibration_of ts a)

  -- `calibration`
  unfoldable pub calibration : Accumulator fl → List TierCalibration
  unfolding calibration_of
  calibration a = calibration_of tiers a

  -- The function that `reversion` gives to `EachRating`.
  unfoldable pub add_rating : Accumulator fl → Key × State fl → PoolSums → PoolSums
  unfolding holds same_series
  add_rating a (k, st) r =
      let pooled = record r { pool_sum = add r.pool_sum st.elo; pool_n = r.pool_n + 1 } in
      if not (same_series k.series overall)
      then r
      else if holds k.player a.tour_players
      then record pooled { tour_sum = add r.tour_sum st.elo; tour_n = r.tour_n + 1 }
      else pooled

  unfoldable pub add_ratings : Accumulator fl → List (Key × State fl) → PoolSums → PoolSums
  unfolding add_rating
  add_ratings a [] r = r
  add_ratings a (e ∷ es) r = add_ratings a es (add_rating a e r)

  -- `reversion`: the sums, and then the base and the two means.
  abbrev pub mean : F → ℕ → F
  mean sum n = if ltb 0 n then div sum (of_int n) else of_int 0

  unfoldable pub reversion :
      (List (Key × State fl) → List (Key × State fl))
      → Accumulator fl
      → List (Key × State fl)
      → MeanReversion
  unfolding add_ratings
  reversion visit a series =
      let r =
        add_ratings a (visit series)
          (record { pool_sum = of_int 0; pool_n = 0; tour_sum = of_int 0; tour_n = 0 }) in
      record {
        base_rating = base fl;
        pool = mean r.pool_sum r.pool_n;
        pool_players = r.pool_n;
        tour_mean = mean r.tour_sum r.tour_n;
        tour_players = r.tour_n;
      }

  -- `promotion`
  unfoldable pub promotion : Config fl → Accumulator fl → PromotionContinuity
  promotion c a =
      let z =
        if lt (of_int 0) a.prom_var
        then div (sub (of_int a.prom_actual) a.prom_exp) (sqrt a.prom_var)
        else of_int 0 in
      record {
        promotions = a.promoted;
        matches = a.prom_match;
        expected = a.prom_exp;
        actual = a.prom_actual;
        z = z;
        systematic = lt c.systematic_z (abs z);
        threshold = c.systematic_z;
      }

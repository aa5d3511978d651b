-- ===== src/Rating/Elo.antt =====
-- internal/rating/elo.go, kfactor.go, blend.go and tier.go: the formulas, over any floats.
use tennis_wiki.Base.{ℕ, Bool, Option, none, some, if◌then◌else◌, ◌==◌}
use tennis_wiki.Base.Text.{Bytes, codes, equal}
use tennis_wiki.Base.Float.{Float}

pub data Tier : Type 0 where
  tour challenger futures itf : Tier

-- `ParseTier`; `none` is its error.
unfoldable pub parse_tier : Bytes → Option Tier
unfolding equal
parse_tier s =
    if equal s (codes "tour")
    then some tour
    else if equal s (codes "challenger")
    then some challenger
    else if equal s (codes "futures")
    then some futures
    else if equal s (codes "itf")
    then some itf
    else none

-- The codes of the column tourney_level; a code of another kind is `other`.
pub data Level : Type 0 where
  grand_slam masters tour_finals atp davis_cup challenger_level satellite other : Level

-- `Match`
pub record MatchContext : Type 0 where
  pub tier : Tier
  pub level : Level
  pub is_final : Bool
  pub is_qualifying : Bool

module _ (fl : Float) where
  open fl use {F, lit, of_int, add, sub, mul, div, pow, lt}

  -- `Weights`, and `DefaultWeights`.
  pub record Weights : Type 0 where
    pub grand_slam_final : F
    pub grand_slam_weight : F
    pub tour_finals_weight : F
    pub masters_weight : F
    pub tour_weight : F
    pub team_event : F
    pub challenger_weight : F
    pub futures_weight : F
    pub qualifying : F

  abbrev pub default_weights : Weights
  default_weights = record {
    grand_slam_final = lit 120 2;
    grand_slam_weight = lit 110 2;
    tour_finals_weight = lit 110 2;
    masters_weight = lit 105 2;
    tour_weight = lit 100 2;
    team_event = lit 80 2;
    challenger_weight = lit 80 2;
    futures_weight = lit 60 2;
    qualifying = lit 90 2;
  }

  -- The switch of `Weights.base` on the level.
  unfoldable pub level_weight : Weights → Level → Bool → F
  level_weight w grand_slam final = if final then w.grand_slam_final else w.grand_slam_weight
  level_weight w tour_finals final = w.tour_finals_weight
  level_weight w masters final = w.masters_weight
  level_weight w davis_cup final = w.team_event
  level_weight w _ final = w.tour_weight

  -- `Weights.base`: the tier comes first.
  unfoldable pub base_weight : Weights → Tier → Level → Bool → F
  unfolding level_weight
  base_weight w challenger level final = w.challenger_weight
  base_weight w futures level final = w.futures_weight
  base_weight w itf level final = w.futures_weight
  base_weight w tour level final = level_weight w level final

  -- `Weights.For`
  unfoldable pub weight_for : Weights → MatchContext → F
  unfolding base_weight
  weight_for w m =
      let weight = base_weight w m.tier m.level m.is_final in
      if m.is_qualifying then mul weight w.qualifying else weight

  -- `K`; the count of matches is never negative.
  unfoldable pub k_factor : ℕ → F
  k_factor n = div (lit 2500 1) (pow (add (of_int n) (lit 50 1)) (lit 4 1))

  abbrev pub base : F
  base = lit 15000 1

  -- `Expected`
  unfoldable pub expected : F → F → F
  expected a b = div (of_int 1) (add (of_int 1) (pow (of_int 10) (div (sub b a) (of_int 400))))

  -- `Update`
  unfoldable pub update : F → F → F → F → F × F
  unfolding expected
  update winner loser k_winner k_loser =
      let surprise = sub (of_int 1) (expected winner loser) in
      (add winner (mul k_winner surprise), sub loser (mul k_loser surprise))

  -- `BlendWeight`; the count is never negative.
  unfoldable pub blend_weight : ℕ → F
  blend_weight n =
      if n == 0
      then of_int 0
      else let w = div (of_int n) (of_int 40) in if lt (lit 75 2) w then lit 75 2 else w

  -- `Blend`
  unfoldable pub blend : F → ℕ → F → F × F
  unfolding blend_weight
  blend surface_elo n overall_elo =
      let w = blend_weight n in (add (mul w surface_elo) (mul (sub (of_int 1) w) overall_elo), w)

  -- `BlendOptional`
  unfoldable pub blend_optional : Option (F × ℕ) → F → F × F
  unfolding blend
  blend_optional none overall_elo = (overall_elo, of_int 0)
  blend_optional (some (elo, n)) overall_elo = blend elo n overall_elo

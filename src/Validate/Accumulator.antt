-- ===== src/Validate/Accumulator.antt =====
-- internal/validate/validate.go: `accumulator`. A map is an association list, and a pointer that a
-- map holds is changed through the map.
use tennis_wiki.Base.{
  ℕ, zero, suc, ◌+◌, Bool, true, false, not, ◌||◌, List, [], ◌∷◌, Option, none, some, ltb, leb,
  ◌==◌, if◌then◌else◌,
}
use tennis_wiki.Base.Float.{Float}
use tennis_wiki.Rating.Elo.{Tier, tour, challenger, futures, itf}
use tennis_wiki.Rating.Engine.{Prediction, favourite}

abbrev pub same_tier : Tier → Tier → Bool
same_tier tour tour = true
same_tier challenger challenger = true
same_tier futures futures = true
same_tier itf itf = true
same_tier _ _ = false

abbrev pub is_tour : Tier → Bool
is_tour t = same_tier t tour

abbrev pub bucket_count : ℕ
bucket_count = 10

abbrev pub ten {ℓ} : {A : Type ℓ} → A → List A
ten a = a ∷ a ∷ a ∷ a ∷ a ∷ a ∷ a ∷ a ∷ a ∷ a ∷ []

-- `xs[i] = f(xs[i])`; the code has no index out of range.
unfoldable pub change_at {ℓ} : {A : Type ℓ} → (A → A) → ℕ → List A → List A
change_at f i [] = []
change_at f zero (x ∷ xs) = f x ∷ xs
change_at f (suc i) (x ∷ xs) = x ∷ change_at f i xs

abbrev pub increment : ℕ → ℕ
increment n = n + 1

abbrev pub count : Bool → ℕ
count true = 1
count false = 0

-- `m[k] = struct{}{}`
unfoldable pub mark : ℕ → List ℕ → List ℕ
mark p [] = p ∷ []
mark p (q ∷ qs) = if q == p then q ∷ qs else q ∷ mark p qs

-- The thresholds of `Config` that the accumulator reads. They are counts: Go's `int`, not negative.
pub record Config (fl : Float) : Type 0 where
  pub min_matches : ℕ
  pub promoted_after : ℕ
  pub promotion_window : ℕ
  pub systematic_z : Float.F fl

module _ (fl : Float) where
  open fl use {F, lit, of_int, add, sub, mul, div, eq, floor}

  -- `withDefaults`, on these thresholds.
  unfoldable pub with_defaults : Config fl → Config fl
  with_defaults c = record {
    min_matches = if c.min_matches == 0 then 10 else c.min_matches;
    promoted_after = if c.promoted_after == 0 then 20 else c.promoted_after;
    promotion_window = if c.promotion_window == 0 then 20 else c.promotion_window;
    systematic_z = if eq c.systematic_z (of_int 0) then lit 30 1 else c.systematic_z;
  }

  pub record TierStats : Type 0 where
    pub matches : ℕ
    pub correct : ℕ
    pub bucket_n : List ℕ
    pub bucket_p : List F
    pub bucket_w : List ℕ

  abbrev pub no_stats : TierStats
  no_stats = record {
    matches = 0;
    correct = 0;
    bucket_n = ten 0;
    bucket_p = ten (of_int 0);
    bucket_w = ten 0;
  }

  pub record PromotionState : Type 0 where
    pub lower : ℕ
    pub window : ℕ
    pub promoted : Bool

  abbrev pub no_career : PromotionState
  no_career = record { lower = 0; window = 0; promoted = false }

  pub record Accumulator : Type 0 where
    pub scored : ℕ
    pub by_tier : List (Tier × TierStats)
    pub tour_players : List ℕ
    pub promotions : List (ℕ × PromotionState)
    pub promoted : ℕ
    pub prom_match : ℕ
    pub prom_exp : F
    pub prom_var : F
    pub prom_actual : ℕ

  -- `newAccumulator`
  abbrev pub new_accumulator : Accumulator
  new_accumulator = record {
    scored = 0;
    by_tier = [];
    tour_players = [];
    promotions = [];
    promoted = 0;
    prom_match = 0;
    prom_exp = of_int 0;
    prom_var = of_int 0;
    prom_actual = 0;
  }

  -- The clamps on the index of a band.
  abbrev pub in_table : Option ℕ → ℕ
  in_table none = 0
  in_table (some i) = if leb bucket_count i then 9 else i

  unfoldable pub index_of : F → ℕ
  index_of probability =
      in_table (floor (add (div (sub probability (lit 5 1)) (lit 5 2)) (lit 1 9)))

  -- The counters that a scored prediction moves.
  unfoldable pub score_in : F × Bool → TierStats → TierStats
  unfolding index_of change_at
  score_in (probability, won) s =
      let i = index_of probability in
      record {
        matches = s.matches + 1;
        correct = s.correct + count won;
        bucket_n = change_at increment i s.bucket_n;
        bucket_p = change_at (λ x. add x probability) i s.bucket_p;
        bucket_w = if won then change_at increment i s.bucket_w else s.bucket_w;
      }

  -- `stats, ok := a.byTier[p.Tier]`, new if missing, and what is done to it.
  unfoldable pub change_tier :
      (TierStats → TierStats) → Tier → List (Tier × TierStats) → List (Tier × TierStats)
  change_tier f t [] = (t, f no_stats) ∷ []
  change_tier f t ((u, s) ∷ m) = if same_tier u t then (u, f s) ∷ m else (u, s) ∷ change_tier f t m

  unfoldable pub career : ℕ → List (ℕ × PromotionState) → PromotionState
  career p [] = no_career
  career p ((q, s) ∷ m) = if q == p then s else career p m

  unfoldable pub set_career :
      ℕ → PromotionState → List (ℕ × PromotionState) → List (ℕ × PromotionState)
  set_career p s [] = (p, s) ∷ []
  set_career p s ((q, r) ∷ m) = if q == p then (q, s) ∷ m else (q, r) ∷ set_career p s m

  module _ (c : Config fl) where
    -- A match below tour level.
    abbrev pub below : PromotionState → PromotionState
    below st = if st.promoted then st else record st { lower = st.lower + 1 }

    -- A tour-level match of a player who has been promoted, within the window.
    abbrev pub measure : ℕ → F → Bool → PromotionState → Accumulator → Accumulator
    measure id chance won st a = record a {
      promotions = set_career id (record st { window = st.window + 1 }) a.promotions;
      prom_match = a.prom_match + 1;
      prom_exp = add a.prom_exp chance;
      prom_var = add a.prom_var (mul chance (sub (of_int 1) chance));
      prom_actual = a.prom_actual + count won;
    }

    abbrev pub watch : ℕ → F → Bool → PromotionState → Accumulator → Accumulator
    watch id chance won st a =
        if leb c.promotion_window st.window
        then record a { promotions = set_career id st a.promotions }
        else measure id chance won st a

    -- One round of the loop of `trackPromotion`, from the player's state on.
    unfoldable pub track_state : Tier → ℕ → F → Bool → PromotionState → Accumulator → Accumulator
    unfolding set_career
    track_state tier id chance won st a =
        if not (is_tour tier)
        then record a { promotions = set_career id (below st) a.promotions }
        else if st.promoted
        then watch id chance won st a
        else if ltb st.lower c.promoted_after
        then record a { promotions = set_career id st a.promotions }
        else watch id chance won (record st { promoted = true })
            (record a { promoted = a.promoted + 1 })

    unfoldable pub track_side : Tier → ℕ → F → Bool → Accumulator → Accumulator
    unfolding track_state career
    track_side tier id chance won a = track_state tier id chance won (career id a.promotions) a

    -- `trackPromotion`
    unfoldable pub track_promotion : Prediction fl → Accumulator → Accumulator
    unfolding track_side
    track_promotion p a =
        track_side p.tier p.loser_id (sub (of_int 1) p.winner_expected) false
          (track_side p.tier p.winner_id p.winner_expected true a)

    unfoldable pub mark_tour : Prediction fl → Accumulator → Accumulator
    unfolding mark
    mark_tour p a =
        if is_tour p.tier
        then record a { tour_players = mark p.loser_id (mark p.winner_id a.tour_players) }
        else a

    -- `observe` from the test on the two histories on.
    unfoldable pub score_prediction : Prediction fl → Accumulator → Accumulator
    unfolding change_tier score_in favourite
    score_prediction p a =
        if ltb p.winner_played c.min_matches || ltb p.loser_played c.min_matches
        then a
        else record a {
          scored = a.scored + 1;
          by_tier = change_tier (score_in (favourite fl p)) p.tier a.by_tier;
        }

    -- `observe`
    unfoldable pub observe : Prediction fl → Accumulator → Accumulator
    unfolding track_promotion score_prediction mark_tour
    observe p a = score_prediction p (track_promotion p (mark_tour p a))

    -- The predictions of a replay, in their order.
    unfoldable pub observe_all : List (Prediction fl) → Accumulator → Accumulator
    unfolding observe
    observe_all [] a = a
    observe_all (p ∷ ps) a = observe_all ps (observe p a)

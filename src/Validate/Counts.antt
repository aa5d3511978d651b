-- ===== src/Validate/Counts.antt =====
-- internal/validate/validate.go: the counters of the tiers and of their bands.
use tennis_wiki.Base.{
  ℕ, zero, suc, ◌+◌, ◌≤◌, ◌<◌, ◌≡◌, refl, sym, ◌∙◌, ap, Bool, true, false, List, [], ◌∷◌, map,
  Option, none, some, ltb, arith, length, All, Bool-cases, ◌⊎◌, inl, inr, ◌||◌,
}
use mathlib.Core.Path.{subst}
use tennis_wiki.Base.Float.{Float}
use tennis_wiki.Rating.Elo.{Tier}
use tennis_wiki.Rating.Engine.{Prediction, favourite}
use tennis_wiki.Validate.Accumulator.{
  Config, Accumulator, TierStats, PromotionState, no_stats, new_accumulator, change_at, increment,
  in_table, index_of, score_in, change_tier, same_tier, track_state, track_side, track_promotion,
  observe, observe_all, mark_tour, score_prediction, career,
}

abbrev pub sum : List ℕ → ℕ
sum [] = 0
sum (n ∷ ns) = n + sum ns

length-change_at {ℓ} :
    {A : Type ℓ} (f : A → A) (i : ℕ) (xs : List A) → length (change_at f i xs) ≡ length xs
unfolding change_at
length-change_at f i [] = refl
length-change_at f zero (x ∷ xs) = refl
length-change_at f (suc i) (x ∷ xs) = ap suc (length-change_at f i xs)

sum-change_at : (i : ℕ) (xs : List ℕ) → i < length xs → sum (change_at increment i xs) ≡ sum xs + 1
unfolding change_at
sum-change_at i [] h = absurd (omega (arith, h))
sum-change_at zero (x ∷ xs) h = omega arith
sum-change_at (suc i) (x ∷ xs) h = omega (arith, sum-change_at i xs (omega (arith, h)))

-- Band by band, the first list holds no more than the second.
abbrev pub Within : List ℕ → List ℕ → Type 0
Within [] [] = Unit
Within [] (y ∷ ys) = ⊥
Within (x ∷ xs) [] = ⊥
Within (x ∷ xs) (y ∷ ys) = (x ≤ y) × Within xs ys

Within-both :
    (i : ℕ) (xs ys : List ℕ)
    → Within xs ys
    → Within (change_at increment i xs) (change_at increment i ys)
unfolding change_at
Within-both i [] [] h = h
Within-both i [] (y ∷ ys) h = absurd h
Within-both zero (x ∷ xs) [] h = absurd h
Within-both (suc i) (x ∷ xs) [] h = absurd h
Within-both zero (x ∷ xs) (y ∷ ys) h = (omega (arith, h.0), h.1)
Within-both (suc i) (x ∷ xs) (y ∷ ys) h = (h.0, Within-both i xs ys h.1)

Within-more : (i : ℕ) (xs ys : List ℕ) → Within xs ys → Within xs (change_at increment i ys)
unfolding change_at
Within-more i [] [] h = h
Within-more i [] (y ∷ ys) h = absurd h
Within-more zero (x ∷ xs) [] h = absurd h
Within-more (suc i) (x ∷ xs) [] h = absurd h
Within-more zero (x ∷ xs) (y ∷ ys) h = (omega (arith, h.0), h.1)
Within-more (suc i) (x ∷ xs) (y ∷ ys) h = (h.0, Within-more i xs ys h.1)

module _ (fl : Float) where
  open fl use {F}

  -- The counters of one tier: each match in one of the ten bands, each win in the band of its match.
  pub record IsCounted (s : TierStats fl) : Type 0 where
    pub bands : length s.bucket_n ≡ 10
    pub chance_bands : length s.bucket_p ≡ 10
    pub win_bands : length s.bucket_w ≡ 10
    pub matches : s.matches ≡ sum s.bucket_n
    pub wins : s.correct ≡ sum s.bucket_w
    pub wins_within : Within s.bucket_w s.bucket_n

  in_table_less : (o : Option ℕ) → in_table fl o < 10
  in_table_less none = omega arith
  in_table_less (some i) = ground arith

  pub index_of_less : (p : F) → index_of fl p < 10
  unfolding index_of
  index_of_less p =
      in_table_less (fl.floor (fl.add (fl.div (fl.sub p (fl.lit 5 1)) (fl.lit 5 2)) (fl.lit 1 9)))

  no_stats-IsCounted : IsCounted (no_stats fl)
  no_stats-IsCounted = record {
    bands = refl;
    chance_bands = refl;
    win_bands = refl;
    matches = refl;
    wins = refl;
    wins_within = ground arith;
  }

  score_in-IsCounted : (p : F × Bool) (s : TierStats fl) → IsCounted s → IsCounted (score_in fl p s)
  unfolding score_in
  score_in-IsCounted (p, true) s h = record {
    bands = length-change_at increment (index_of fl p) s.bucket_n ∙ h.bands;
    chance_bands = length-change_at (λ x. fl.add x p) (index_of fl p) s.bucket_p ∙ h.chance_bands;
    win_bands = length-change_at increment (index_of fl p) s.bucket_w ∙ h.win_bands;
    matches = omega (
      arith,
      h.matches,
      sum-change_at (index_of fl p) s.bucket_n (omega (arith, h.bands, index_of_less p)),
    );
    wins = omega (
      arith,
      h.wins,
      sum-change_at (index_of fl p) s.bucket_w (omega (arith, h.win_bands, index_of_less p)),
    );
    wins_within = Within-both (index_of fl p) s.bucket_w s.bucket_n h.wins_within;
  }
  score_in-IsCounted (p, false) s h = record {
    bands = length-change_at increment (index_of fl p) s.bucket_n ∙ h.bands;
    chance_bands = length-change_at (λ x. fl.add x p) (index_of fl p) s.bucket_p ∙ h.chance_bands;
    win_bands = h.win_bands;
    matches = omega (
      arith,
      h.matches,
      sum-change_at (index_of fl p) s.bucket_n (omega (arith, h.bands, index_of_less p)),
    );
    wins = omega (arith, h.wins);
    wins_within = Within-more (index_of fl p) s.bucket_w s.bucket_n h.wins_within;
  }

  abbrev pub tier_matches : Tier × TierStats fl → ℕ
  tier_matches (t, s) = s.matches

  -- The counters of the accumulator: those of each tier, and the predictions scored in all.
  pub record IsTallied (a : Accumulator fl) : Type 0 where
    pub tiers : All (λ e. IsCounted e.1) a.by_tier
    pub total : a.scored ≡ sum (map tier_matches a.by_tier)

  change_tier-IsCounted :
      (p : F × Bool) (t : Tier) (m : List (Tier × TierStats fl))
      → All (λ e. IsCounted e.1) m
      → All (λ e. IsCounted e.1) (change_tier fl (score_in fl p) t m)
  unfolding change_tier
  change_tier-IsCounted p t [] h = (score_in-IsCounted p (no_stats fl) no_stats-IsCounted, tt)
  change_tier-IsCounted p t ((u, s) ∷ m) h = elim (Bool-cases (same_tier u t)) [
    | inl e ↦ rw e (score_in-IsCounted p s h.0, h.1)
    | inr e ↦ rw e (h.0, change_tier-IsCounted p t m h.1)
  ]

  sum-change_tier :
      (p : F × Bool) (t : Tier) (m : List (Tier × TierStats fl))
      → sum (map tier_matches (change_tier fl (score_in fl p) t m)) ≡ sum (map tier_matches m) + 1
  unfolding change_tier score_in
  sum-change_tier p t [] = refl
  sum-change_tier p t ((u, s) ∷ m) = elim (Bool-cases (same_tier u t)) [
    | inl e ↦ rw e (omega arith)
    | inr e ↦ rw e (omega (arith, sum-change_tier p t m))
  ]

  module _ (c : Config fl) where
    -- What the promotions leave alone.
    abbrev Same : Accumulator fl → Accumulator fl → Type 0
    Same a b = (b.scored ≡ a.scored) × (b.by_tier ≡ a.by_tier)

    track_state-Same :
        (tier : Tier) (id : ℕ) (chance : F) (won : Bool) (st : PromotionState fl)
        (a : Accumulator fl)
        → Same a (track_state fl c tier id chance won st a)
    unfolding track_state
    track_state-Same tier id chance won st a = ground arith

    track_side-Same :
        (tier : Tier) (id : ℕ) (chance : F) (won : Bool) (a : Accumulator fl)
        → Same a (track_side fl c tier id chance won a)
    unfolding track_side
    track_side-Same tier id chance won a =
        track_state-Same tier id chance won (career fl id a.promotions) a

    mark_tour-Same : (p : Prediction fl) (a : Accumulator fl) → Same a (mark_tour fl c p a)
    unfolding mark_tour
    mark_tour-Same p a = ground arith

    track_promotion-Same :
        (p : Prediction fl) (a : Accumulator fl) → Same a (track_promotion fl c p a)
    unfolding track_promotion
    track_promotion-Same p a =
        let first = track_side-Same p.tier p.winner_id p.winner_expected true a in
        let second =
          track_side-Same p.tier p.loser_id (fl.sub (fl.of_int 1) p.winner_expected) false
            (track_side fl c p.tier p.winner_id p.winner_expected true a) in
        (second.0 ∙ first.0, second.1 ∙ first.1)

    Same-IsTallied : (a b : Accumulator fl) → Same a b → IsTallied a → IsTallied b
    Same-IsTallied a b s h = record {
      tiers = rw s.1 h.tiers;
      total = s.0 ∙ h.total ∙ ap (λ m. sum (map tier_matches m)) (sym s.1);
    }

    score_prediction-IsTallied :
        (p : Prediction fl) (a : Accumulator fl)
        → IsTallied a
        → IsTallied (score_prediction fl c p a)
    unfolding score_prediction
    score_prediction-IsTallied p a h =
        elim (Bool-cases (ltb p.winner_played c.min_matches || ltb p.loser_played c.min_matches)) [
          | inl e ↦ rw e h
          | inr e ↦ rw e (record {
            tiers = change_tier-IsCounted (favourite fl p) p.tier a.by_tier h.tiers;
            total = omega (arith, h.total, sum-change_tier (favourite fl p) p.tier a.by_tier);
          })
        ]

    observe-IsTallied :
        (p : Prediction fl) (a : Accumulator fl) → IsTallied a → IsTallied (observe fl c p a)
    unfolding observe
    observe-IsTallied p a h =
        score_prediction-IsTallied p (track_promotion fl c p (mark_tour fl c p a)) (
          Same-IsTallied (mark_tour fl c p a) (track_promotion fl c p (mark_tour fl c p a))
            (track_promotion-Same p (mark_tour fl c p a))
            (Same-IsTallied a (mark_tour fl c p a) (mark_tour-Same p a) h))

    by_tier-score_prediction :
        (p : Prediction fl) (a : Accumulator fl)
        → ((score_prediction fl c p a).by_tier ≡ a.by_tier)
          ⊎ ((score_prediction fl c p a).by_tier
              ≡ change_tier fl (score_in fl (favourite fl p)) p.tier a.by_tier)
    unfolding score_prediction
    by_tier-score_prediction p a =
        elim (Bool-cases (ltb p.winner_played c.min_matches || ltb p.loser_played c.min_matches)) [
          | inl e ↦ rw e (inl refl)
          | inr e ↦ rw e (inr refl)
        ]

    -- A prediction leaves the counters of the tiers alone, or is scored in its tier.
    pub by_tier-observe :
        (p : Prediction fl) (a : Accumulator fl)
        → ((observe fl c p a).by_tier ≡ a.by_tier)
          ⊎ ((observe fl c p a).by_tier
              ≡ change_tier fl (score_in fl (favourite fl p)) p.tier a.by_tier)
    unfolding observe
    by_tier-observe p a =
        let same = (track_promotion-Same p (mark_tour fl c p a)).1 ∙ (mark_tour-Same p a).1 in
        subst
          (λ m.
            ((observe fl c p a).by_tier ≡ m)
            ⊎ ((observe fl c p a).by_tier ≡ change_tier fl (score_in fl (favourite fl p)) p.tier m))
          same (by_tier-score_prediction p (track_promotion fl c p (mark_tour fl c p a)))

    from-IsTallied :
        (ps : List (Prediction fl)) (a : Accumulator fl)
        → IsTallied a
        → IsTallied (observe_all fl c ps a)
    unfolding observe_all
    from-IsTallied [] a h = h
    from-IsTallied (p ∷ ps) a h = from-IsTallied ps (observe fl c p a) (observe-IsTallied p a h)

    -- However many predictions are watched, the predictions scored are those of all the tiers; in
    -- each tier the matches are the sum of its ten bands, the favourites that won are the sum of
    -- theirs, and in no band do more win than play.
    pub observe_all-IsTallied :
        (ps : List (Prediction fl)) → IsTallied (observe_all fl c ps (new_accumulator fl))
    observe_all-IsTallied ps =
        from-IsTallied ps (new_accumulator fl) (record { tiers = tt; total = refl })

-- ===== src/Validate/Report/Totals.antt =====
-- internal/validate/validate.go: the matches that the tables of the report hold.
use tennis_wiki.Base.{
  ℕ, ◌+◌, ◌≡◌, refl, sym, ◌∙◌, ap, false, List, [], ◌∷◌, map, Option, none, some, ◌==◌, arith,
  length, All, Bool-cases, inl, inr,
}
use mathlib.Core.Path.{subst}
use mathlib.Core.Option.{some-injective}
use tennis_wiki.Base.Float.{Float}
use tennis_wiki.Rating.Elo.{Tier, tour, challenger, futures, itf}
use tennis_wiki.Rating.Engine.{Prediction, favourite}
use tennis_wiki.Validate.Accumulator.{
  Config, Accumulator, TierStats, same_tier, new_accumulator, change_tier, score_in, observe,
  observe_all,
}
use tennis_wiki.Validate.Counts.{
  sum, IsCounted, tier_matches, observe_all-IsTallied, by_tier-observe,
}
use tennis_wiki.Validate.Report.{
  tiers, TierAccuracy, TierCalibration, stats_of, accuracy_row, accuracy_of, accuracy, bands,
  calibration_row, calibration_of, calibration,
}

module _ (fl : Float) where
  open fl use {F}

  sum_bands :
      (i : ℕ) (ns : List ℕ) (ps : List F) (ws : List ℕ) (weighted total : F)
      → length ps ≡ length ns
      → length ws ≡ length ns
      → sum (map (λ b. b.matches) (bands fl i ns ps ws weighted total).filled) ≡ sum ns
  unfolding bands
  sum_bands i [] ps ws weighted total h k = refl
  sum_bands i (n ∷ ns) [] ws weighted total h k = absurd (omega (arith, h))
  sum_bands i (n ∷ ns) (p ∷ ps) [] weighted total h k = absurd (omega (arith, k))
  sum_bands i (n ∷ ns) (p ∷ ps) (w ∷ ws) weighted total h k = elim (Bool-cases (n == 0)) [
    | inl e ↦ rw e (
        ground (
          arith,
          e,
          sum_bands (i + 1) ns ps ws weighted total (omega (arith, h)) (omega (arith, k)),
        ))
    | inr e ↦
        rw e
          (ap (λ m. n + m) (sum_bands (i + 1) ns ps ws _ _ (omega (arith, h)) (omega (arith, k))))
  ]

  -- What the two tables say of a tier's matches.
  abbrev pub counted : TierAccuracy fl → Tier × ℕ
  counted row = (row.tier, row.matches)

  abbrev pub banded : TierCalibration fl → Tier × ℕ
  banded row = (row.tier, sum (map (λ b. b.matches) row.buckets))

  stats_of-IsCounted :
      (t : Tier) (m : List (Tier × TierStats fl)) (s : TierStats fl)
      → All (λ e. IsCounted fl e.1) m
      → stats_of fl t m ≡ some s
      → IsCounted fl s
  unfolding stats_of
  stats_of-IsCounted t [] s h e = cc
  stats_of-IsCounted t ((u, r) ∷ m) s h e = elim (Bool-cases (same_tier u t)) [
    | inl f ↦ subst (IsCounted fl) (some-injective r s (rw f at e)) h.0
    | inr f ↦ stats_of-IsCounted t m s h.1 (rw f at e)
  ]

  rows_agree :
      (t : Tier) (o : Option (TierStats fl)) (rows : List (TierAccuracy fl))
      (tables : List (TierCalibration fl))
      → ((s : TierStats fl) → o ≡ some s → IsCounted fl s)
      → map banded tables ≡ map counted rows
      → map banded (calibration_row fl t o tables) ≡ map counted (accuracy_row fl t o rows)
  unfolding calibration_row accuracy_row
  rows_agree t none rows tables h e = e
  rows_agree t (some s) rows tables h e = elim (Bool-cases (s.matches == 0)) [
    | inl f ↦ rw f e
    | inr f ↦
        let k = h s refl in
        rw (f, e)
          (ap (λ n. (t, n) ∷ map counted rows)
            (sum_bands 0 s.bucket_n s.bucket_p s.bucket_w (fl.of_int 0) (fl.of_int 0)
                (k.chance_bands ∙ sym k.bands) (k.win_bands ∙ sym k.bands)
              ∙ sym k.matches))
  ]

  tables_agree :
      (ts : List Tier) (a : Accumulator fl)
      → All (λ e. IsCounted fl e.1) a.by_tier
      → map banded (calibration_of fl ts a) ≡ map counted (accuracy_of fl ts a)
  unfolding calibration_of accuracy_of
  tables_agree [] a h = refl
  tables_agree (t ∷ ts) a h =
      rows_agree t (stats_of fl t a.by_tier) (accuracy_of fl ts a) (calibration_of fl ts a)
        (λ s. stats_of-IsCounted t a.by_tier s h) (tables_agree ts a h)

  -- Whatever predictions were watched, the calibration has the rows of the accuracy table, tier by
  -- tier, and the bands of a row hold as many matches as the row of the accuracy table.
  pub calibration-accuracy :
      (c : Config fl) (ps : List (Prediction fl))
      → map banded (calibration fl (observe_all fl c ps (new_accumulator fl)))
        ≡ map counted (accuracy fl (observe_all fl c ps (new_accumulator fl)))
  unfolding calibration accuracy
  calibration-accuracy c ps =
      tables_agree tiers (observe_all fl c ps (new_accumulator fl))
        (observe_all-IsTallied fl c ps).tiers

  -- Each tier has its counters once.
  abbrev Distinct : List (Tier × TierStats fl) → Type 0
  Distinct [] = Unit
  Distinct ((u, s) ∷ m) = (stats_of fl u m ≡ none) × Distinct m

  stats_of-change_tier :
      (f : TierStats fl → TierStats fl) (t u : Tier) (m : List (Tier × TierStats fl))
      → same_tier t u ≡ false
      → stats_of fl u m ≡ none
      → stats_of fl u (change_tier fl f t m) ≡ none
  unfolding stats_of change_tier
  stats_of-change_tier f t u [] d h = rw d refl
  stats_of-change_tier f t u ((v, s) ∷ m) d h = elim (Bool-cases (same_tier v u)) [
    | inl g ↦ absurd (cc (rw g at h))
    | inr g ↦ elim (Bool-cases (same_tier v t)) [
      | inl e ↦ rw (e, stats_of, g) (rw g at h)
      | inr e ↦ rw (e, stats_of, g) (stats_of-change_tier f t u m d (rw g at h))
    ]
  ]

  same_tier_comm : (t u : Tier) → same_tier t u ≡ same_tier u t
  same_tier_comm tour tour = refl
  same_tier_comm tour _ = refl
  same_tier_comm challenger challenger = refl
  same_tier_comm challenger _ = refl
  same_tier_comm futures futures = refl
  same_tier_comm futures _ = refl
  same_tier_comm itf itf = refl
  same_tier_comm itf _ = refl

  change_tier-Distinct :
      (f : TierStats fl → TierStats fl) (t : Tier) (m : List (Tier × TierStats fl))
      → Distinct m
      → Distinct (change_tier fl f t m)
  unfolding change_tier stats_of
  change_tier-Distinct f t [] h = (refl, tt)
  change_tier-Distinct f t ((u, s) ∷ m) h = elim (Bool-cases (same_tier u t)) [
    | inl e ↦ rw e h
    | inr e ↦
        rw e (
          stats_of-change_tier f t u m (same_tier_comm t u ∙ e) h.0,
          change_tier-Distinct f t m h.1,
        )
  ]

  -- The matches of a tier, or 0.
  abbrev tally : Option (TierStats fl) → ℕ
  tally none = 0
  tally (some s) = s.matches

  sum_tallies :
      (m : List (Tier × TierStats fl))
      → Distinct m
      → tally (stats_of fl tour m)
          + (tally (stats_of fl challenger m)
              + (tally (stats_of fl futures m) + tally (stats_of fl itf m)))
        ≡ sum (map (tier_matches fl) m)
  unfolding stats_of
  sum_tallies [] h = refl
  sum_tallies ((tour, s) ∷ m) h = omega (arith, sum_tallies m h.1, ap tally h.0)
  sum_tallies ((challenger, s) ∷ m) h = omega (arith, sum_tallies m h.1, ap tally h.0)
  sum_tallies ((futures, s) ∷ m) h = omega (arith, sum_tallies m h.1, ap tally h.0)
  sum_tallies ((itf, s) ∷ m) h = omega (arith, sum_tallies m h.1, ap tally h.0)

  sum-accuracy_row :
      (t : Tier) (o : Option (TierStats fl)) (rows : List (TierAccuracy fl))
      → sum (map (λ r. r.matches) (accuracy_row fl t o rows))
        ≡ tally o + sum (map (λ r. r.matches) rows)
  unfolding accuracy_row
  sum-accuracy_row t none rows = omega arith
  sum-accuracy_row t (some s) rows = elim (Bool-cases (s.matches == 0)) [
    | inl e ↦ rw e (ground (arith, e))
    | inr e ↦ rw e refl
  ]

  module _ (c : Config fl) where
    observe_all-Distinct :
        (ps : List (Prediction fl)) (a : Accumulator fl)
        → Distinct a.by_tier
        → Distinct (observe_all fl c ps a).by_tier
    unfolding observe_all
    observe_all-Distinct [] a h = h
    observe_all-Distinct (p ∷ ps) a h =
        observe_all-Distinct ps (observe fl c p a) (elim (by_tier-observe fl c p a) [
          | inl e ↦ rw e h
          | inr e ↦ rw e (change_tier-Distinct (score_in fl (favourite fl p)) p.tier a.by_tier h)
        ])

    -- Whatever predictions were watched, the matches of the accuracy table are the predictions scored.
    pub accuracy-observe_all :
        (ps : List (Prediction fl))
        → sum (map (λ r. r.matches) (accuracy fl (observe_all fl c ps (new_accumulator fl))))
          ≡ (observe_all fl c ps (new_accumulator fl)).scored
    unfolding accuracy accuracy_of
    accuracy-observe_all ps =
        let a = observe_all fl c ps (new_accumulator fl) in
        let row : (t : Tier) (rows : List (TierAccuracy fl))
            → sum (map (λ r. r.matches) (accuracy_row fl t (stats_of fl t a.by_tier) rows))
              ≡ tally (stats_of fl t a.by_tier) + sum (map (λ r. r.matches) rows) =
          λ t rows. sum-accuracy_row t (stats_of fl t a.by_tier) rows in
        omega (
          arith,
          row tour (accuracy_of fl (challenger ∷ futures ∷ itf ∷ []) a),
          row challenger (accuracy_of fl (futures ∷ itf ∷ []) a),
          row futures (accuracy_of fl (itf ∷ []) a),
          row itf [],
          sum_tallies a.by_tier (observe_all-Distinct ps (new_accumulator fl) tt),
          (observe_all-IsTallied fl c ps).total,
        )

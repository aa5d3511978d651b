-- ===== src/Rating/Store/Replayed.antt =====
-- internal/rating/store.go and run.go: which rows a run replays, and how `Matches` counts them.
use tennis_wiki.Base.{
  ℕ, ◌+◌, ◌≡◌, ◌≢◌, refl, ap, Bool, false, not, ◌&&◌, ◌||◌, List, [], ◌∷◌, Option, none, some,
  arith, length, All, Bool-cases, Option-cases, inl, inr, if◌then◌else◌,
}
use tennis_wiki.Base.Float.{Float}
use tennis_wiki.Rating.Elo.{Tier, Weights, parse_tier}
use tennis_wiki.Rating.Engine.{
  MatchResult, Engine, EngineError, Snapshot, add, replay, unless_stopped,
}
use tennis_wiki.Rating.Store.{
  Row, StoreError, is_walkover, result_of, Progress, counted, rate_row, handle, matches, stored,
  close, run, unless_failed,
}

-- The rows that a progress accounts for.
abbrev pub accounted : {S : Type 0} → Progress S → ℕ
accounted p = p.n + (p.team_events + p.walkovers)

module _ (team_events : Bool) where
  abbrev pub is_skipped : Row → Bool
  is_skipped r = r.is_team_event && not team_events || is_walkover r.score

  abbrev rate_as : Option Tier → Row → List MatchResult → List MatchResult
  rate_as none r rs = rs
  rate_as (some t) r rs = result_of r t ∷ rs

  -- The results of the rows that are neither a team tie that is left out nor a walkover.
  abbrev pub rated : List (Option Row) → List MatchResult
  rated [] = []
  rated (none ∷ rows) = rated rows
  rated (some r ∷ rows) =
      if is_skipped r then rated rows else rate_as (parse_tier r.tier) r (rated rows)

  -- Every row can be scanned and has a tier that is known.
  abbrev pub IsReadable : Option Row → Type 0
  IsReadable none = ⊥
  IsReadable (some r) = parse_tier r.tier ≢ none

  module _ (fl : Float) (refuses : List (Snapshot fl) → Snapshot fl → Bool)
      (weights : Weights fl) where
    abbrev on_row : MatchResult → Engine fl → Engine fl × Option EngineError
    on_row = add fl refuses weights false

    -- One row behind the engine's answer for it.
    answered :
        (rows : List (Option Row)) (p : Progress (Engine fl)) (o : Engine fl × Option EngineError)
        → ((q : Progress (Engine fl))
            → close fl refuses weights team_events false (matches on_row team_events false rows q)
              ≡ stored (replay fl refuses weights false (rated rows) q.state))
        → close fl refuses weights team_events false (
            unless_failed on_row team_events false
              (counted on_row team_events false p o)
              (matches on_row team_events false rows))
          ≡ stored (
              unless_stopped fl refuses weights false o
                (replay fl refuses weights false (rated rows)))
    answered rows p (e, none) ih = ih (record p { n = p.n + 1; state = e })
    answered rows p (e, some why) ih = refl

    from_rows :
        (rows : List (Option Row)) (p : Progress (Engine fl))
        → All IsReadable rows
        → close fl refuses weights team_events false (matches on_row team_events false rows p)
          ≡ stored (replay fl refuses weights false (rated rows) p.state)
    unfolding matches replay
    from_rows [] p h = refl
    from_rows (none ∷ rows) p h = absurd h.0
    from_rows (some r ∷ rows) p h = elim (Bool-cases (r.is_team_event && not team_events)) [
      | inl g ↦ rw (handle, g) (from_rows rows (record p { team_events = p.team_events + 1 }) h.1)
      | inr g ↦ elim (Bool-cases (is_walkover r.score)) [
        | inl k ↦ rw (handle, g, k) (from_rows rows (record p { walkovers = p.walkovers + 1 }) h.1)
        | inr k ↦ elim (Option-cases (parse_tier r.tier)) [
          | inl f ↦ absurd (h.0 f)
          | inr (t, f) ↦
              rw (handle, g, k, f, rate_row)
                (answered rows p (on_row (result_of r t) p.state) (λ q. from_rows rows q h.1))
        ]
      ]
    ]

    -- If every row of the query can be scanned and has a known tier, and the query does not break
    -- off, then a run is the replay of the rows in their order, those of the team ties left out and
    -- of the walkovers dropped, with the errors of the replay.
    pub run-replay :
        (rows : List (Option Row)) (e : Engine fl)
        → All IsReadable rows
        → run fl refuses weights team_events false rows e
          ≡ stored (replay fl refuses weights false (rated rows) e)
    unfolding run
    run-replay rows e h =
        from_rows rows (record { n = 0; team_events = 0; walkovers = 0; state = e }) h

  module _ {S E : Type 0} (fn : MatchResult → S → S × Option E) (failed : Bool) where
    unless_failed_ok :
        (o : Progress S × Option (StoreError E))
        (next : Progress S → Progress S × Option (StoreError E)) (q : Progress S)
        → unless_failed fn team_events failed o next ≡ (q, none)
        → (p : Progress S) × (o ≡ (p, none)) × (next p ≡ (q, none))
    unless_failed_ok (p, none) next q e = (p, refl, e)
    unless_failed_ok (p, some why) next q e = absurd (cc (ap (λ x. x.1) e))

    accounted-counted :
        (p q : Progress S) (o : S × Option E)
        → counted fn team_events failed p o ≡ (q, none)
        → accounted q ≡ accounted p + 1
    accounted-counted p q (s, none) e = omega (arith, ap (λ x. accounted x.0) e)
    accounted-counted p q (s, some why) e = absurd (cc (ap (λ x. x.1) e))

    accounted-rate_row :
        (r : Row) (t : Option Tier) (p q : Progress S)
        → rate_row fn team_events failed r t p ≡ (q, none)
        → accounted q ≡ accounted p + 1
    unfolding rate_row
    accounted-rate_row r none p q e = absurd (cc (ap (λ x. x.1) e))
    accounted-rate_row r (some t) p q e = accounted-counted p q (fn (result_of r t) p.state) e

    accounted-handle :
        (r : Row) (p q : Progress S)
        → handle fn team_events failed r p ≡ (q, none)
        → accounted q ≡ accounted p + 1
    unfolding handle
    accounted-handle r p q e = elim (Bool-cases (r.is_team_event && not team_events)) [
      | inl g ↦ omega (arith, ap (λ x. accounted x.0) (rw g at e))
      | inr g ↦ elim (Bool-cases (is_walkover r.score)) [
        | inl k ↦ omega (arith, ap (λ x. accounted x.0) (rw (g, k) at e))
        | inr k ↦ accounted-rate_row r (parse_tier r.tier) p q (rw (g, k) at e)
      ]
    ]

    -- Without an error, `Matches` counts each row once: as rated, as a team tie left out, or as a
    -- walkover.
    pub accounted-matches :
        (rows : List (Option Row)) (p q : Progress S)
        → matches fn team_events failed rows p ≡ (q, none)
        → accounted q ≡ accounted p + length rows
    unfolding matches
    accounted-matches [] p q e = omega (arith, ap (λ x. accounted x.0) e)
    accounted-matches (none ∷ rows) p q e = absurd (cc (ap (λ x. x.1) e))
    accounted-matches (some r ∷ rows) p q e =
        let (p1, one, rest) =
          unless_failed_ok (handle fn team_events failed r p) (matches fn team_events failed rows) q
            e in
        omega (arith, accounted-handle r p p1 one, accounted-matches rows p1 q rest)

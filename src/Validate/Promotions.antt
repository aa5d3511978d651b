-- ===== src/Validate/Promotions.antt =====
-- internal/validate/validate.go: the counters of `trackPromotion`.
use tennis_wiki.Base.{
  ℕ, ◌+◌, ◌≤◌, ◌≡◌, refl, ◌∙◌, ap, Bool, true, false, List, [], ◌∷◌, map, ltb, leb, ◌==◌, arith,
  All, Bool-cases, inl, inr,
}
use tennis_wiki.Base.Float.{Float}
use tennis_wiki.Rating.Elo.{Tier, tour, challenger, futures, itf}
use tennis_wiki.Rating.Engine.{Prediction}
use tennis_wiki.Validate.Accumulator.{
  Config, Accumulator, PromotionState, no_career, new_accumulator, count, career, set_career, below,
  measure, watch, track_state, track_side, track_promotion, mark_tour, score_prediction, observe,
  observe_all,
}
use tennis_wiki.Validate.Counts.{sum}

module _ (fl : Float) where
  open fl use {F}

  module _ (f : PromotionState fl → ℕ) where
    abbrev pub total : List (ℕ × PromotionState fl) → ℕ
    total m = sum (map (λ e. f e.1) m)

    total-set_career :
        (id : ℕ) (st : PromotionState fl) (m : List (ℕ × PromotionState fl))
        → f (no_career fl) ≡ 0
        → total (set_career fl id st m) + f (career fl id m) ≡ total m + f st
    unfolding set_career career
    total-set_career id st [] z = omega (arith, z)
    total-set_career id st ((q, r) ∷ m) z = elim (Bool-cases (q == id)) [
      | inl e ↦ rw e (omega arith)
      | inr e ↦ rw e (omega (arith, total-set_career id st m z))
    ]

  module _ (c : Config fl) where
    -- One player: the matches measured fit in the window, none is measured before the promotion, and a
    -- promotion comes behind enough matches below tour level.
    pub record IsCareer (st : PromotionState fl) : Type 0 where
      pub in_window : st.window ≤ c.promotion_window
      pub not_before : st.promoted ≡ false → st.window ≡ 0
      pub earned : st.promoted ≡ true → c.promoted_after ≤ st.lower

    -- The sums over the players are the counters.
    pub record IsTracked (a : Accumulator fl) : Type 0 where
      pub careers : All (λ e. IsCareer e.1) a.promotions
      pub windows : a.prom_match ≡ total (λ st. st.window) a.promotions
      pub promotions : a.promoted ≡ total (λ st. count st.promoted) a.promotions
      pub won : a.prom_actual ≤ a.prom_match

    no_career-IsCareer : IsCareer (no_career fl)
    no_career-IsCareer = record {
      in_window = omega arith;
      not_before = λ e. refl;
      earned = λ e. absurd (ground (arith, e));
    }

    career-IsCareer :
        (id : ℕ) (m : List (ℕ × PromotionState fl))
        → All (λ e. IsCareer e.1) m
        → IsCareer (career fl id m)
    unfolding career
    career-IsCareer id [] h = no_career-IsCareer
    career-IsCareer id ((q, r) ∷ m) h = elim (Bool-cases (q == id)) [
      | inl e ↦ rw e h.0
      | inr e ↦ rw e (career-IsCareer id m h.1)
    ]

    set_career-IsCareer :
        (id : ℕ) (st : PromotionState fl) (m : List (ℕ × PromotionState fl))
        → IsCareer st
        → All (λ e. IsCareer e.1) m
        → All (λ e. IsCareer e.1) (set_career fl id st m)
    unfolding set_career
    set_career-IsCareer id st [] s h = (s, tt)
    set_career-IsCareer id st ((q, r) ∷ m) s h = elim (Bool-cases (q == id)) [
      | inl e ↦ rw e (s, h.1)
      | inr e ↦ rw e (h.0, set_career-IsCareer id st m s h.1)
    ]

    -- A player's state is replaced, and the counters move by the difference.
    replaced-IsTracked :
        (a b : Accumulator fl) (id : ℕ) (st : PromotionState fl)
        → IsTracked a
        → IsCareer st
        → b.promotions ≡ set_career fl id st a.promotions
        → b.prom_match + (career fl id a.promotions).window ≡ a.prom_match + st.window
        → b.promoted + count (career fl id a.promotions).promoted ≡ a.promoted + count st.promoted
        → b.prom_actual ≤ b.prom_match
        → IsTracked b
    replaced-IsTracked a b id st h s e m p w = record {
      careers = rw e (set_career-IsCareer id st a.promotions s h.careers);
      windows =
          rw e
            (omega (arith, m, h.windows, total-set_career (λ r. r.window) id st a.promotions refl));
      promotions = rw e (
          omega (
            arith,
            p,
            h.promotions,
            total-set_career (λ r. count r.promoted) id st a.promotions refl,
          ));
      won = w;
    }

    count_le : (b : Bool) → count b ≤ 1
    count_le true = omega arith
    count_le false = omega arith

    module _ (id : ℕ) (chance : F) (won : Bool) (a : Accumulator fl) (h : IsTracked a) where
      -- `b` is the accumulator with this player's promotion counted.
      watch-IsTracked :
          (l w : ℕ) (b : Accumulator fl)
          → b.promotions ≡ a.promotions
          → b.prom_match ≡ a.prom_match
          → b.prom_actual ≡ a.prom_actual
          → (career fl id a.promotions).window ≡ w
          → c.promoted_after ≤ l
          → b.promoted + count (career fl id a.promotions).promoted ≡ a.promoted + 1
          → IsTracked
              (watch fl c id chance won (record { lower = l; window = w; promoted = true }) b)
      watch-IsTracked l w b same match actual was earned counted =
          let size = (career-IsCareer id a.promotions h.careers).in_window in
          elim (Bool-cases (leb c.promotion_window w)) [
            | inl e ↦ rw e (
                replaced-IsTracked a
                  (record b {
                    promotions =
                        set_career fl id (record { lower = l; window = w; promoted = true })
                          b.promotions;
                  })
                  id (record { lower = l; window = w; promoted = true }) h
                  (record {
                    in_window = omega (arith, size, was);
                    not_before = λ x. cc;
                    earned = λ x. earned;
                  })
                  (ap (λ m. set_career fl id (record { lower = l; window = w; promoted = true }) m)
                    same)
                  (omega (arith, match, was)) counted (omega (arith, match, actual, h.won)))
            | inr e ↦ rw e (
                replaced-IsTracked a
                  (measure fl c id chance won (record { lower = l; window = w; promoted = true }) b)
                  id (record { lower = l; window = w + 1; promoted = true }) h
                  (record {
                    in_window = ground (arith, e);
                    not_before = λ x. cc;
                    earned = λ x. earned;
                  })
                  (ap
                    (λ m.
                      set_career fl id (record { lower = l; window = w + 1; promoted = true }) m)
                    same)
                  (omega (arith, match, was)) counted
                  (omega (arith, match, actual, h.won, count_le won)))
          ]

      -- The counters stay, and the player's state may change below the promotion.
      stay-IsTracked :
          (st : PromotionState fl)
          → IsCareer st
          → (career fl id a.promotions).window ≡ st.window
          → (career fl id a.promotions).promoted ≡ st.promoted
          → IsTracked (record a { promotions = set_career fl id st a.promotions })
      stay-IsTracked st s was same =
          replaced-IsTracked a (record a { promotions = set_career fl id st a.promotions }) id st h
            s refl (omega (arith, was)) (ap (λ b. a.promoted + count b) same) h.won

      tour-IsTracked :
          (l w : ℕ) (p : Bool)
          → career fl id a.promotions ≡ record { lower = l; window = w; promoted = p }
          → IsTracked (
              track_state fl c tour id chance won
                (record { lower = l; window = w; promoted = p })
                a)
      unfolding track_state
      tour-IsTracked l w true e =
          watch-IsTracked l w a refl refl refl (ap (λ s. s.window) e)
            ((rw e at (career-IsCareer id a.promotions h.careers)).earned refl)
            (ap (λ s. a.promoted + count s.promoted) e)
      tour-IsTracked l w false e = elim (Bool-cases (ltb l c.promoted_after)) [
        | inl g ↦ rw g (
            stay-IsTracked (record { lower = l; window = w; promoted = false })
              (rw e at (career-IsCareer id a.promotions h.careers)) (ap (λ s. s.window) e)
              (ap (λ s. s.promoted) e))
        | inr g ↦ rw g (
            watch-IsTracked l w (record a { promoted = a.promoted + 1 }) refl refl refl
              (ap (λ s. s.window) e) (ground (arith, g))
              (omega (arith, ap (λ s. count s.promoted) e)))
      ]

      below-IsTracked :
          (l w : ℕ) (p : Bool)
          → career fl id a.promotions ≡ record { lower = l; window = w; promoted = p }
          → IsTracked (record a {
            promotions =
                set_career fl id
                  (below fl c (record { lower = l; window = w; promoted = p }))
                  a.promotions;
          })
      below-IsTracked l w true e =
          stay-IsTracked (record { lower = l; window = w; promoted = true })
            (rw e at (career-IsCareer id a.promotions h.careers)) (ap (λ s. s.window) e)
            (ap (λ s. s.promoted) e)
      below-IsTracked l w false e =
          let now = rw e at (career-IsCareer id a.promotions h.careers) in
          stay-IsTracked (record { lower = l + 1; window = w; promoted = false })
            (record {
              in_window = now.in_window;
              not_before = λ x. now.not_before refl;
              earned = λ x. cc;
            })
            (ap (λ s. s.window) e) (ap (λ s. s.promoted) e)

      track_state-IsTracked :
          (tier : Tier) (st : PromotionState fl)
          → career fl id a.promotions ≡ st
          → IsTracked (track_state fl c tier id chance won st a)
      unfolding track_state
      track_state-IsTracked tour st e = tour-IsTracked st.lower st.window st.promoted e
      track_state-IsTracked challenger st e = below-IsTracked st.lower st.window st.promoted e
      track_state-IsTracked futures st e = below-IsTracked st.lower st.window st.promoted e
      track_state-IsTracked itf st e = below-IsTracked st.lower st.window st.promoted e

      track_side-IsTracked : (tier : Tier) → IsTracked (track_side fl c tier id chance won a)
      unfolding track_side
      track_side-IsTracked tier = track_state-IsTracked tier (career fl id a.promotions) refl

    -- What the marks and the scores leave alone.
    abbrev Same : Accumulator fl → Accumulator fl → Type 0
    Same a b =
        (b.promotions ≡ a.promotions)
        × (b.prom_match ≡ a.prom_match)
        × (b.promoted ≡ a.promoted)
        × (b.prom_actual ≡ a.prom_actual)

    Same-IsTracked : (a b : Accumulator fl) → Same a b → IsTracked a → IsTracked b
    Same-IsTracked a b (p, m, n, w) h = record {
      careers = rw p h.careers;
      windows = rw p (m ∙ h.windows);
      promotions = rw p (n ∙ h.promotions);
      won = omega (arith, m, w, h.won);
    }

    mark_tour-Same : (p : Prediction fl) (a : Accumulator fl) → Same a (mark_tour fl c p a)
    unfolding mark_tour
    mark_tour-Same p a = ground arith

    score_prediction-Same :
        (p : Prediction fl) (a : Accumulator fl) → Same a (score_prediction fl c p a)
    unfolding score_prediction
    score_prediction-Same p a = ground arith

    track_promotion-IsTracked :
        (p : Prediction fl) (a : Accumulator fl)
        → IsTracked a
        → IsTracked (track_promotion fl c p a)
    unfolding track_promotion
    track_promotion-IsTracked p a h =
        track_side-IsTracked p.loser_id (fl.sub (fl.of_int 1) p.winner_expected) false
          (track_side fl c p.tier p.winner_id p.winner_expected true a)
          (track_side-IsTracked p.winner_id p.winner_expected true a h p.tier) p.tier

    observe-IsTracked :
        (p : Prediction fl) (a : Accumulator fl) → IsTracked a → IsTracked (observe fl c p a)
    unfolding observe
    observe-IsTracked p a h =
        let marked = Same-IsTracked a (mark_tour fl c p a) (mark_tour-Same p a) h in
        let tracked = track_promotion-IsTracked p (mark_tour fl c p a) marked in
        let b = track_promotion fl c p (mark_tour fl c p a) in
        Same-IsTracked b (score_prediction fl c p b) (score_prediction-Same p b) tracked

    from-IsTracked :
        (ps : List (Prediction fl)) (a : Accumulator fl)
        → IsTracked a
        → IsTracked (observe_all fl c ps a)
    unfolding observe_all
    from-IsTracked [] a h = h
    from-IsTracked (p ∷ ps) a h = from-IsTracked ps (observe fl c p a) (observe-IsTracked p a h)

    -- However many predictions are watched, the promotions counted are the players who are promoted,
    -- each behind at least the configured matches below tour level; the matches measured are those
    -- of the players' windows, none of them before a promotion and no more for a player than the
    -- configured window; and no more of them are won than measured.
    pub observe_all-IsTracked :
        (ps : List (Prediction fl)) → IsTracked (observe_all fl c ps (new_accumulator fl))
    observe_all-IsTracked ps =
        from-IsTracked ps (new_accumulator fl)
          (record { careers = tt; windows = refl; promotions = refl; won = omega arith })

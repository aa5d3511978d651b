-- ===== src/Rating/Engine/Success.antt =====
-- internal/rating/engine.go: when a replay succeeds, where the sink takes every row.
use tennis_wiki.Base.{
  ℕ, ◌+◌, ◌≤◌, ◌<◌, ◌≡◌, ◌↔◌, refl, Bool, true, false, List, [], ◌∷◌, ◌++◌, Option, none, some, ltb,
  if◌then◌else◌, is_empty, arith, Bool-cases, inl, inr,
}
use mathlib.Core.Path.{subst}
use tennis_wiki.Base.Float.{Float}
use tennis_wiki.Rating.Elo.{Weights, weight_for}
use tennis_wiki.Rating.Week.{week_of}
use tennis_wiki.Rating.Keys.{Series, overall, Key, sort}
use tennis_wiki.Rating.Engine.{
  EngineError, out_of_order, MatchResult, Snapshot, Engine, find, predict, rate, rate_on, emit_keys,
  clear_touched, flush, apply_result, after_flush, add, unless_stopped, replay,
}

-- No result is of an earlier week than the one before it, or than this week.
abbrev pub InOrder : ℕ → List MatchResult → Type 0
InOrder week [] = Unit
InOrder week (r ∷ rs) = (week ≤ week_of r.played_on) × InOrder (week_of r.played_on) rs

module _ (fl : Float) (refuses : List (Snapshot fl) → Snapshot fl → Bool) (weights : Weights fl)
    (predicts : Bool) where
  -- A step that succeeded, in this week.
  abbrev Succeeded : ℕ → Engine fl × Option EngineError → Type 0
  Succeeded week p = (p.1 ≡ none) × (p.0.week ≡ week)

  abbrev TakesAll : Type 0
  TakesAll = (sent : List (Snapshot fl)) (r : Snapshot fl) → refuses sent r ≡ false

  emit_keys-Succeeded :
      TakesAll → (ks : List Key) (e : Engine fl) → Succeeded e.week (emit_keys fl refuses ks e)
  unfolding emit_keys
  emit_keys-Succeeded all [] e = (refl, refl)
  emit_keys-Succeeded all (k ∷ ks) e =
      let snap : Snapshot fl = record { key = k; as_of = e.week; rating = find fl k e.series } in
      rw (all e.sent snap) (
        emit_keys-Succeeded all ks
          (record e { sent = e.sent ++ snap ∷ []; snapshots = e.snapshots + 1 }))

  clear_touched-Succeeded :
      (week : ℕ) (p : Engine fl × Option EngineError)
      → Succeeded week p
      → Succeeded week (clear_touched fl refuses p)
  clear_touched-Succeeded week (e, none) h = h
  clear_touched-Succeeded week (e, some why) h = h

  flush-Succeeded : TakesAll → (e : Engine fl) → Succeeded e.week (flush fl refuses e)
  unfolding flush
  flush-Succeeded all e = elim (Bool-cases (is_empty e.touched)) [
    | inl q ↦ rw q (refl, refl)
    | inr q ↦ rw q (
        clear_touched-Succeeded e.week (emit_keys fl refuses (sort e.touched) e)
          (emit_keys-Succeeded all (sort e.touched) e))
  ]

  rate_on_week :
      (o : Option Series) (w l : ℕ) (x : fl.F) (e : Engine fl)
      → (rate_on fl o w l x e).week ≡ e.week
  unfolding rate
  rate_on_week none w l x e = refl
  rate_on_week (some s) w l x e = refl

  predicted_week :
      (b : Bool) (r : MatchResult) (e : Engine fl) → (if b then predict fl r e else e).week ≡ e.week
  unfolding predict
  predicted_week true r e = refl
  predicted_week false r e = refl

  apply_result_week :
      (r : MatchResult) (e : Engine fl)
      → (apply_result fl refuses weights predicts r e).week ≡ e.week
  unfolding apply_result rate
  apply_result_week r e =
      let x = weight_for fl weights r.context in
      let e1 = if predicts then predict fl r e else e in
      rw
        (rate_on_week r.surface r.winner_id r.loser_id x
          (rate fl r.winner_id r.loser_id overall x e1))
        (predicted_week predicts r e)

  after_flush-Succeeded :
      (old week : ℕ) (r : MatchResult) (p : Engine fl × Option EngineError)
      → Succeeded old p
      → Succeeded week (after_flush fl refuses weights predicts week r p)
  after_flush-Succeeded old week r (e, none) h =
      (refl, apply_result_week r (record e { week = week }))
  after_flush-Succeeded old week r (e, some why) h = grind (arith, h.0)

  add-Succeeded :
      TakesAll
      → (r : MatchResult) (e : Engine fl) → e.week ≤ week_of r.played_on
      → Succeeded (week_of r.played_on) (add fl refuses weights predicts r e)
  unfolding add
  add-Succeeded all r e h =
      let q : ltb (week_of r.played_on) e.week ≡ false = ground arith in
      elim (Bool-cases (ltb e.week (week_of r.played_on))) [
        | inl l ↦
            rw (q, l)
              (after_flush-Succeeded e.week (week_of r.played_on) r (flush fl refuses e)
                (flush-Succeeded all e))
        | inr l ↦
            let same : e.week ≡ week_of r.played_on = ground arith in
            rw (q, l) (refl, rw (apply_result_week r e) same)
      ]

  add_late :
      (r : MatchResult) (e : Engine fl)
      → week_of r.played_on < e.week
      → add fl refuses weights predicts r e ≡ (e, some out_of_order)
  unfolding add
  add_late r e h = let q : ltb (week_of r.played_on) e.week ≡ true = ground arith in rw q refl

  go_on :
      (p : Engine fl × Option EngineError) (next : Engine fl → Engine fl × Option EngineError)
      → p.1 ≡ none
      → unless_stopped fl refuses weights predicts p next ≡ next p.0
  go_on (e, none) next h = refl
  go_on (e, some why) next h = grind (arith, h)

  -- A replay whose sink takes every row succeeds exactly if no result is of an earlier week than the one before it.
  pub replay_succeeds_iff :
      TakesAll
      → (rs : List MatchResult) (e : Engine fl)
      → ((replay fl refuses weights predicts rs e).1 ≡ none) ↔ InOrder e.week rs
  unfolding replay
  replay_succeeds_iff all [] e = ((λ h. tt), λ h. (flush-Succeeded all e).0)
  replay_succeeds_iff all (r ∷ rs) e = elim (Bool-cases (ltb (week_of r.played_on) e.week)) [
    | inl l ↦
        let late : week_of r.played_on < e.week = ground arith in
        rw (add_late r e late) ((λ h. grind (arith, h)), λ h. grind (arith, h.0, late))
    | inr l ↦
        let on_time : e.week ≤ week_of r.played_on = ground arith in
        let p = add fl refuses weights predicts r e in
        let s : Succeeded (week_of r.played_on) p = add-Succeeded all r e on_time in
        let rest =
          subst (λ w. ((replay fl refuses weights predicts rs p.0).1 ≡ none) ↔ InOrder w rs) s.1
            (replay_succeeds_iff all rs p.0) in
        rw (go_on p (replay fl refuses weights predicts rs) s.0)
          ((λ h. (on_time, rest.0 h)), λ h. rest.1 h.1)
  ]

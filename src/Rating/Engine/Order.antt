-- ===== src/Rating/Engine/Order.antt =====
-- internal/rating/engine.go: the order in which a replay sends its snapshots.
use tennis_wiki.Base.{
  ℕ, ◌+◌, ◌≤◌, ◌<◌, ◌≡◌, ◌≢◌, ◌⊎◌, inl, inr, refl, Bool, true, false, List, [], ◌∷◌, ◌++◌, Option,
  none, some, ltb, if◌then◌else◌, is_empty, arith, All, All-append, All-mono, Bool-cases,
}
use tennis_wiki.Base.Float.{Float}
use tennis_wiki.Rating.Elo.{Weights, weight_for}
use tennis_wiki.Rating.Week.{week_of}
use tennis_wiki.Rating.Keys.{Series, overall, Key, same_key, sort}
use tennis_wiki.Rating.Keys.Sorting.{code, same_key-code, AllDistinct, Increasing, sort-Increasing}
use tennis_wiki.Rating.Engine.{
  EngineError, MatchResult, touch, Snapshot, Engine, find, predict, rate, rate_on, emit_keys,
  clear_touched, flush, apply_result, after_flush, add, unless_stopped, replay,
}

All-touch {ℓ} : (P : Key → Type ℓ) (k : Key) (ks : List Key) → P k → All P ks → All P (touch k ks)
unfolding touch
All-touch P k [] p h = (p, tt)
All-touch P k (j ∷ ks) p h = elim (Bool-cases (same_key j k)) [
  | inl e ↦ rw e h
  | inr e ↦ rw e (h.0, All-touch P k ks p h.1)
]

touch-AllDistinct : (k : Key) (ks : List Key) → AllDistinct ks → AllDistinct (touch k ks)
unfolding touch
touch-AllDistinct k [] h = (tt, tt)
touch-AllDistinct k (j ∷ ks) h = elim (Bool-cases (same_key j k)) [
  | inl e ↦ rw e h
  | inr e ↦ rw e (
    All-touch (λ i. code i ≢ code j) k ks (ground (arith, e, same_key-code j k)) h.0,
    touch-AllDistinct k ks h.1,
  )
]

module _ (fl : Float) where
  -- One row is written before another: of an earlier week, or of a lower key of the same week.
  abbrev pub Before : Snapshot fl → Snapshot fl → Type 0
  Before a b = (a.as_of < b.as_of) ⊎ ((a.as_of ≡ b.as_of) × (code a.key < code b.key))

  abbrev pub Chronological : List (Snapshot fl) → Type 0
  Chronological [] = Unit
  Chronological (s ∷ ss) = All (Before s) ss × Chronological ss

  snoc-Chronological :
      (ss : List (Snapshot fl)) (s : Snapshot fl)
      → Chronological ss
      → All (λ r. Before r s) ss
      → Chronological (ss ++ s ∷ [])
  snoc-Chronological [] s h f = (tt, tt)
  snoc-Chronological (r ∷ ss) s h f =
      (All-append (Before r) ss (s ∷ []) h.0 (f.0, tt), snoc-Chronological ss s h.1 f.1)

  -- The row that a flush sends for a key.
  abbrev pub row : Engine fl → Key → Snapshot fl
  row e k = record { key = k; as_of = e.week; rating = find fl k e.series }

  -- What holds between the results: the rows are in order and of earlier weeks, they are counted, and the keys to be
  -- sent differ.
  pub record IsOrdered (e : Engine fl) : Type 0 where
    pub sent : Chronological e.sent
    pub past : All (λ s. s.as_of < e.week) e.sent
    pub touched : AllDistinct e.touched

  extend :
      (e : Engine fl) (k : Key) (ks : List Key)
      → All (λ j. code k < code j) ks
      → All (λ j. All (λ s. Before s (row e j)) e.sent) ks
      → All (λ j. All (λ s. Before s (row e j)) (e.sent ++ row e k ∷ [])) ks
  extend e k [] h f = tt
  extend e k (j ∷ ks) h f = (
    All-append (λ s. Before s (row e j)) e.sent (row e k ∷ []) f.0 (inr (refl, h.0), tt),
    extend e k ks h.1 f.1,
  )

  module _ (refuses : List (Snapshot fl) → Snapshot fl → Bool) where
    -- What was sent is in order, and no row is of a later week.
    abbrev Sent : ℕ → Engine fl × Option EngineError → Type 0
    Sent week (e, stop) = Chronological e.sent × All (λ s. s.as_of ≤ week) e.sent × (e.week ≡ week)

    emit_keys-Sent :
        (ks : List Key) (e : Engine fl)
        → Increasing ks
        → Chronological e.sent
        → All (λ s. s.as_of ≤ e.week) e.sent
        → All (λ k. All (λ s. Before s (row e k)) e.sent) ks
        → Sent e.week (emit_keys fl refuses ks e)
    unfolding emit_keys
    emit_keys-Sent [] e i h l f = (h, l, refl)
    emit_keys-Sent (k ∷ ks) e i h l f = elim (Bool-cases (refuses e.sent (row e k))) [
      | inl q ↦ rw q (h, l, refl)
      | inr q ↦ rw q (
          emit_keys-Sent ks
            (record e { sent = e.sent ++ row e k ∷ []; snapshots = e.snapshots + 1 }) i.1
            (snoc-Chronological e.sent (row e k) h f.0)
            (All-append (λ s. s.as_of ≤ e.week) e.sent (row e k ∷ []) l (omega arith, tt))
            (extend e k ks i.0 f.1))
    ]

    past-Before :
        (e : Engine fl) (ks : List Key)
        → All (λ s. s.as_of < e.week) e.sent
        → All (λ k. All (λ s. Before s (row e k)) e.sent) ks
    past-Before e [] h = tt
    past-Before e (k ∷ ks) h = (All-mono (λ s l. inl l) e.sent h, past-Before e ks h)

    -- A flush that succeeds has nothing left to send.
    abbrev Flushed : ℕ → Engine fl × Option EngineError → Type 0
    Flushed week (e, none) = Sent week (e, none) × (e.touched ≡ [])
    Flushed week (e, some why) = Sent week (e, some why)

    clear_touched-Flushed :
        (week : ℕ) (p : Engine fl × Option EngineError)
        → Sent week p
        → Flushed week (clear_touched fl refuses p)
    clear_touched-Flushed week (e, none) h = (h, refl)
    clear_touched-Flushed week (e, some why) h = h

    empty_is : (ks : List Key) → is_empty ks ≡ true → ks ≡ []
    empty_is [] h = refl
    empty_is (k ∷ ks) h = grind arith

    flush-Flushed : (e : Engine fl) → IsOrdered e → Flushed e.week (flush fl refuses e)
    unfolding flush
    flush-Flushed e h =
        let old = All-mono (λ s l. omega (arith, l)) e.sent h.past in
        elim (Bool-cases (is_empty e.touched)) [
          | inl q ↦ rw q ((h.sent, old, refl), empty_is e.touched q)
          | inr q ↦ rw q (
              clear_touched-Flushed e.week (emit_keys fl refuses (sort e.touched) e) (
                emit_keys-Sent (sort e.touched) e (sort-Increasing e.touched h.touched) h.sent old
                  (past-Before e (sort e.touched) h.past)))
        ]

    module _ (weights : Weights fl) (predicts : Bool) where
      rate-IsOrdered :
          (w l : ℕ) (s : Series) (x : fl.F) (e : Engine fl)
          → IsOrdered e
          → IsOrdered (rate fl w l s x e)
      unfolding rate
      rate-IsOrdered w l s x e h = record {
        sent = h.sent;
        past = h.past;
        touched =
            touch-AllDistinct (record { player = l; series = s })
              (touch (record { player = w; series = s }) e.touched)
              (touch-AllDistinct (record { player = w; series = s }) e.touched h.touched);
      }

      rate_on-IsOrdered :
          (o : Option Series) (w l : ℕ) (x : fl.F) (e : Engine fl)
          → IsOrdered e
          → IsOrdered (rate_on fl o w l x e)
      rate_on-IsOrdered none w l x e h = h
      rate_on-IsOrdered (some s) w l x e h = rate-IsOrdered w l s x e h

      predict-IsOrdered :
          (r : MatchResult) (e : Engine fl) → IsOrdered e → IsOrdered (predict fl r e)
      unfolding predict
      predict-IsOrdered r e h = record { sent = h.sent; past = h.past; touched = h.touched }

      predicted-IsOrdered :
          (b : Bool) (r : MatchResult) (e : Engine fl)
          → IsOrdered e
          → IsOrdered (if b then predict fl r e else e)
      predicted-IsOrdered true r e h = predict-IsOrdered r e h
      predicted-IsOrdered false r e h = h

      apply_result-IsOrdered :
          (r : MatchResult) (e : Engine fl)
          → IsOrdered e
          → IsOrdered (apply_result fl refuses weights predicts r e)
      unfolding apply_result
      apply_result-IsOrdered r e h =
          let x = weight_for fl weights r.context in
          let e1 = if predicts then predict fl r e else e in
          let h1 = predicted-IsOrdered predicts r e h in
          let h2 = rate-IsOrdered r.winner_id r.loser_id overall x e1 h1 in
          rate_on-IsOrdered r.surface r.winner_id r.loser_id x
            (rate fl r.winner_id r.loser_id overall x e1) h2

      -- What holds after a step: the invariant, or, after an error, the order alone.
      abbrev Stepped : Engine fl × Option EngineError → Type 0
      Stepped (e, none) = IsOrdered e
      Stepped (e, some why) = Chronological e.sent

      after_flush-Stepped :
          (old week : ℕ) (r : MatchResult) (p : Engine fl × Option EngineError)
          → old < week
          → Flushed old p
          → Stepped (after_flush fl refuses weights predicts week r p)
      after_flush-Stepped old week r (e, none) l h =
          apply_result-IsOrdered r (record e { week = week })
            (record {
              sent = h.0.0;
              past = All-mono (λ s q. omega (arith, l, q)) e.sent h.0.1;
              touched = rw h.1 tt;
            })
      after_flush-Stepped old week r (e, some why) l h = h.0

      -- From an engine whose rows are in order, of earlier weeks than its own, and whose keys to be
      -- sent differ, a result that `Add` takes leaves such an engine, and one that ends in an error
      -- leaves the rows in order.
      add-Stepped :
          (r : MatchResult) (e : Engine fl)
          → IsOrdered e
          → Stepped (add fl refuses weights predicts r e)
      unfolding add
      add-Stepped r e h = elim (Bool-cases (ltb (week_of r.played_on) e.week)) [
        | inl q ↦ rw q h.sent
        | inr q ↦ elim (Bool-cases (ltb e.week (week_of r.played_on))) [
          | inl l ↦
              rw (q, l)
                (after_flush-Stepped e.week (week_of r.played_on) r (flush fl refuses e)
                  (ground arith) (flush-Flushed e h))
          | inr l ↦ rw (q, l) (apply_result-IsOrdered r e h)
        ]
      ]

      Flushed-Chronological :
          (week : ℕ) (p : Engine fl × Option EngineError) → Flushed week p → Chronological p.0.sent
      Flushed-Chronological week (e, none) h = h.0.0
      Flushed-Chronological week (e, some why) h = h.0

      -- A step, and what goes on from it where it succeeded.
      unless_stopped-Chronological :
          (p : Engine fl × Option EngineError) (next : Engine fl → Engine fl × Option EngineError)
          → Stepped p
          → ((e : Engine fl) → IsOrdered e → Chronological (next e).0.sent)
          → Chronological (unless_stopped fl refuses weights predicts p next).0.sent
      unless_stopped-Chronological (e, none) next h f = f e h
      unless_stopped-Chronological (e, some why) next h f = h

      -- From an engine whose rows are in order, of earlier weeks than its own, and whose keys to be sent
      -- differ, a replay, whether or not it ends with an error, has sent its rows by week, and within a
      -- week by player and then by the name of the series, no two of them with one week and key.
      pub replay-Chronological :
          (rs : List MatchResult) (e : Engine fl)
          → IsOrdered e
          → Chronological (replay fl refuses weights predicts rs e).0.sent
      unfolding replay
      replay-Chronological [] e h =
          Flushed-Chronological e.week (flush fl refuses e) (flush-Flushed e h)
      replay-Chronological (r ∷ rs) e h =
          unless_stopped-Chronological (add fl refuses weights predicts r e)
            (replay fl refuses weights predicts rs) (add-Stepped r e h) (replay-Chronological rs)

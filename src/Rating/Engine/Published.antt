-- ===== src/Rating/Engine/Published.antt =====
-- internal/rating/engine.go: the rows that a replay sent, and the ratings that it ends with.
use tennis_wiki.Base.{
  ℕ, ◌+◌, ◌≡◌, refl, ◌∙◌, sym, Bool, true, false, List, [], ◌∷◌, ◌++◌, Option, none, some, ltb,
  if◌then◌else◌, is_empty, arith, Bool-cases, inl, inr,
}
use tennis_wiki.Base.Float.{Float}
use tennis_wiki.Rating.Elo.{Weights, weight_for}
use tennis_wiki.Rating.Week.{week_of}
use tennis_wiki.Rating.Keys.{Series, overall, Key, key_less, same_key, insert, sort}
use tennis_wiki.Rating.Keys.Sorting.{same_key-code}
use tennis_wiki.Rating.Engine.{
  EngineError, MatchResult, touch, State, Snapshot, Engine, new_engine, unrated, find, state_of,
  predict, rate_pair, rate, rate_on, emit_keys, clear_touched, flush, apply_result, after_flush,
  add, unless_stopped, replay,
}
use tennis_wiki.Rating.Engine.Frame.{find_same, find-put}

-- The list holds the key.
abbrev pub has : Key → List Key → Bool
has k [] = false
has k (j ∷ ks) = if same_key j k then true else has k ks

if_true {ℓ} :
    {A : Type ℓ} (b c : Bool) (x y : A)
    → (if b then x else (if c then x else y)) ≡ (if c then x else (if b then x else y))
if_true true true x y = refl
if_true true false x y = refl
if_true false c x y = refl

if_again : (b c : Bool) → (if b then true else c) ≡ (if b then true else (if b then true else c))
if_again true c = refl
if_again false c = refl

or_false : (b c : Bool) → (if b then true else c) ≡ false → (b ≡ false) × (c ≡ false)
or_false true c h = grind (arith, h)
or_false false c h = (refl, h)

has-touch :
    (k j : Key) (ks : List Key) → has k (touch j ks) ≡ (if same_key j k then true else has k ks)
unfolding touch
has-touch k j [] = refl
has-touch k j (i ∷ ks) = elim (Bool-cases (same_key i j)) [
  | inl e ↦
      let f : same_key i k ≡ same_key j k =
        ground (arith, same_key-code i j, same_key-code i k, same_key-code j k) in
      rw (e, f) (if_again (same_key j k) (has k ks))
  | inr e ↦ rw (e, has-touch k j ks) (if_true (same_key i k) (same_key j k) true (has k ks))
]

has-insert :
    (k j : Key) (ks : List Key) → has k (insert j ks) ≡ (if same_key j k then true else has k ks)
unfolding insert
has-insert k j [] = refl
has-insert k j (i ∷ ks) = elim (Bool-cases (key_less i j)) [
  | inl e ↦ rw (e, has-insert k j ks) (if_true (same_key i k) (same_key j k) true (has k ks))
  | inr e ↦ rw e refl
]

has-sort : (k : Key) (ks : List Key) → has k (sort ks) ≡ has k ks
unfolding sort
has-sort k [] = refl
has-sort k (j ∷ ks) = rw (has-insert k j (sort ks), has-sort k ks) refl

module _ (fl : Float) where
  -- The rating of a key's last row, or this one where the key has no row.
  abbrev pub latest : Key → State fl → List (Snapshot fl) → State fl
  latest k s [] = s
  latest k s (r ∷ rs) = latest k (if same_key r.key k then r.rating else s) rs

  latest_snoc :
      (k : Key) (s : State fl) (rs : List (Snapshot fl)) (r : Snapshot fl)
      → latest k s (rs ++ r ∷ []) ≡ (if same_key r.key k then r.rating else latest k s rs)
  latest_snoc k s [] r = refl
  latest_snoc k s (q ∷ rs) r = latest_snoc k (if same_key q.key k then q.rating else s) rs r

  -- Every key but those of the list has the rating of its last row.
  abbrev pub IsPublishedBut : List Key → Engine fl → Type 0
  IsPublishedBut ks e =
      (k : Key) → has k ks ≡ false → find fl k e.series ≡ latest k (unrated fl) e.sent

  find-state_of :
      (k j : Key) (m : List (Key × State fl)) → find fl k (state_of fl j m).1 ≡ find fl k m
  unfolding state_of
  find-state_of k j m = elim (Bool-cases (same_key j k)) [
    | inl e ↦ rw (find-put fl k j (find fl j m) m, e) (find_same fl j k m e)
    | inr e ↦ rw (find-put fl k j (find fl j m) m, e) refl
  ]

  rate_pair_other :
      (kw kl : Key) (x : fl.F) (m : List (Key × State fl)) (k : Key)
      → same_key kw k ≡ false
      → same_key kl k ≡ false
      → find fl k (rate_pair fl kw kl x m) ≡ find fl k m
  unfolding rate_pair state_of
  rate_pair_other kw kl x m k f g = simp (find-put, f, g)

  pub rate-IsPublished :
      (w l : ℕ) (s : Series) (x : fl.F) (e : Engine fl)
      → IsPublishedBut e.touched e
      → IsPublishedBut (rate fl w l s x e).touched (rate fl w l s x e)
  unfolding rate
  rate-IsPublished w l s x e h k q =
      let kw : Key = record { player = w; series = s } in
      let kl : Key = record { player = l; series = s } in
      let new =
        or_false (same_key kl k) (has k (touch kw e.touched))
          (sym (has-touch k kl (touch kw e.touched)) ∙ q) in
      let old =
        or_false (same_key kw k) (has k e.touched) (sym (has-touch k kw e.touched) ∙ new.1) in
      rate_pair_other kw kl x e.series k old.0 new.0 ∙ h k old.1

  rate_on-IsPublished :
      (o : Option Series) (w l : ℕ) (x : fl.F) (e : Engine fl)
      → IsPublishedBut e.touched e
      → IsPublishedBut (rate_on fl o w l x e).touched (rate_on fl o w l x e)
  rate_on-IsPublished none w l x e h = h
  rate_on-IsPublished (some s) w l x e h = rate-IsPublished w l s x e h

  predict-IsPublished :
      (r : MatchResult) (e : Engine fl)
      → IsPublishedBut e.touched e
      → IsPublishedBut (predict fl r e).touched (predict fl r e)
  unfolding predict
  predict-IsPublished r e h k q = simp (find-state_of, h k q)

  start-IsPublished : IsPublishedBut [] (new_engine fl)
  unfolding find
  start-IsPublished k q = refl

  module _ (refuses : List (Snapshot fl) → Snapshot fl → Bool) where
    -- What holds after a step that succeeded.
    abbrev AllPublished : Engine fl × Option EngineError → Type 0
    AllPublished (e, none) = IsPublishedBut [] e
    AllPublished (e, some why) = Unit

    emit_keys-AllPublished :
        (ks : List Key) (e : Engine fl)
        → IsPublishedBut ks e
        → AllPublished (emit_keys fl refuses ks e)
    unfolding emit_keys
    emit_keys-AllPublished [] e h = h
    emit_keys-AllPublished (j ∷ ks) e h =
        let snap : Snapshot fl = record { key = j; as_of = e.week; rating = find fl j e.series } in
        elim (Bool-cases (refuses e.sent snap)) [
          | inl q ↦ rw q tt
          | inr q ↦ rw q (
              emit_keys-AllPublished ks
                (record e { sent = e.sent ++ snap ∷ []; snapshots = e.snapshots + 1 })
                (λ k f. elim (Bool-cases (same_key j k)) [
                  | inl s ↦
                      rw (latest_snoc k (unrated fl) e.sent snap, s)
                        (sym (find_same fl j k e.series s))
                  | inr s ↦ rw (latest_snoc k (unrated fl) e.sent snap, s) (h k (rw s f))
                ]))
        ]

    clear_touched-AllPublished :
        (p : Engine fl × Option EngineError)
        → AllPublished p
        → AllPublished (clear_touched fl refuses p)
    clear_touched-AllPublished (e, none) h = h
    clear_touched-AllPublished (e, some why) h = h

    empty_has : (k : Key) (ks : List Key) → is_empty ks ≡ true → has k ks ≡ false
    empty_has k [] h = refl
    empty_has k (j ∷ ks) h = grind (arith, h)

    flush-AllPublished :
        (e : Engine fl) → IsPublishedBut e.touched e → AllPublished (flush fl refuses e)
    unfolding flush
    flush-AllPublished e h = elim (Bool-cases (is_empty e.touched)) [
      | inl q ↦ rw q (λ k f. h k (empty_has k e.touched q))
      | inr q ↦ rw q (
          clear_touched-AllPublished (emit_keys fl refuses (sort e.touched) e) (
            emit_keys-AllPublished (sort e.touched) e
              (λ k f. h k (sym (has-sort k e.touched) ∙ f))))
    ]

    module _ (weights : Weights fl) (predicts : Bool) where
      predicted-IsPublished :
          (b : Bool) (r : MatchResult) (e : Engine fl)
          → IsPublishedBut e.touched e
          → IsPublishedBut
              (if b then predict fl r e else e).touched
              (if b then predict fl r e else e)
      predicted-IsPublished true r e h = predict-IsPublished r e h
      predicted-IsPublished false r e h = h

      abbrev result : MatchResult → Engine fl → Engine fl
      result = apply_result fl refuses weights predicts

      apply_result-IsPublished :
          (r : MatchResult) (e : Engine fl)
          → IsPublishedBut e.touched e
          → IsPublishedBut (result r e).touched (result r e)
      unfolding apply_result
      apply_result-IsPublished r e h =
          let x = weight_for fl weights r.context in
          let e1 = if predicts then predict fl r e else e in
          let h2 =
            rate-IsPublished r.winner_id r.loser_id overall x e1
              (predicted-IsPublished predicts r e h) in
          rate_on-IsPublished r.surface r.winner_id r.loser_id x
            (rate fl r.winner_id r.loser_id overall x e1) h2

      -- A step that succeeds leaves at most the touched keys to be sent.
      abbrev pub Stepped : Engine fl × Option EngineError → Type 0
      Stepped (e, none) = IsPublishedBut e.touched e
      Stepped (e, some why) = Unit

      after_flush-Stepped :
          (week : ℕ) (r : MatchResult) (p : Engine fl × Option EngineError)
          → AllPublished p
          → Stepped (after_flush fl refuses weights predicts week r p)
      after_flush-Stepped week r (e, none) h =
          apply_result-IsPublished r (record e { week = week }) (λ k f. h k refl)
      after_flush-Stepped week r (e, some why) h = tt

      add-Stepped :
          (r : MatchResult) (e : Engine fl)
          → IsPublishedBut e.touched e
          → Stepped (add fl refuses weights predicts r e)
      unfolding add
      add-Stepped r e h = elim (Bool-cases (ltb (week_of r.played_on) e.week)) [
        | inl q ↦ rw q tt
        | inr q ↦ elim (Bool-cases (ltb e.week (week_of r.played_on))) [
          | inl l ↦
              rw (q, l)
                (after_flush-Stepped (week_of r.played_on) r (flush fl refuses e)
                  (flush-AllPublished e h))
          | inr l ↦ rw (q, l) (apply_result-IsPublished r e h)
        ]
      ]

      unless_stopped-AllPublished :
          (p : Engine fl × Option EngineError) (next : Engine fl → Engine fl × Option EngineError)
          → Stepped p
          → ((e : Engine fl) → IsPublishedBut e.touched e → AllPublished (next e))
          → AllPublished (unless_stopped fl refuses weights predicts p next)
      unless_stopped-AllPublished (e, none) next h f = f e h
      unless_stopped-AllPublished (e, some why) next h f = tt

      replay-AllPublished :
          (rs : List MatchResult) (e : Engine fl)
          → IsPublishedBut e.touched e
          → AllPublished (replay fl refuses weights predicts rs e)
      unfolding replay
      replay-AllPublished [] e h = flush-AllPublished e h
      replay-AllPublished (r ∷ rs) e h =
          unless_stopped-AllPublished (add fl refuses weights predicts r e)
            (replay fl refuses weights predicts rs) (add-Stepped r e h) (replay-AllPublished rs)

      success :
          (p : Engine fl × Option EngineError) → p.1 ≡ none → AllPublished p → IsPublishedBut [] p.0
      success (e, none) q h = h
      success (e, some why) q h = grind (arith, q)

      -- A replay from the start that ends without an error leaves every key with the rating of the key's last row, or
      -- with the first rating where the key has no row.
      pub replay-latest :
          (rs : List MatchResult) (k : Key)
          → (replay fl refuses weights predicts rs (new_engine fl)).1 ≡ none
          → find fl k (replay fl refuses weights predicts rs (new_engine fl)).0.series
            ≡ latest k (unrated fl) (replay fl refuses weights predicts rs (new_engine fl)).0.sent
      replay-latest rs k q =
          success (replay fl refuses weights predicts rs (new_engine fl)) q
            (replay-AllPublished rs (new_engine fl) start-IsPublished) k refl

-- ===== src/Rating/Engine.antt =====
-- internal/rating/engine.go: the replay. The maps are association lists; a player's state is
-- changed through the map, so that a match of a player against themselves updates one state
-- twice, as through the two equal pointers. Dates are days, ids natural numbers. The sink that
-- `emit` writes to is the list of the snapshots that it took, and a parameter says which snapshot
-- it refuses; `predicts` says whether OnPrediction is set.
pub mod Order
pub mod Frame
pub mod Published
pub mod Success
use tennis_wiki.Base.{
  ℕ, ◌+◌, Bool, true, false, not, ◌&&◌, ◌||◌, List, [], ◌∷◌, ◌++◌, Option, none, some, ltb, ◌==◌,
  if◌then◌else◌, is_empty,
}
use tennis_wiki.Base.Float.{Float}
use tennis_wiki.Rating.Elo.{
  Tier, MatchContext, Weights, weight_for, k_factor, base, expected, update,
}
use tennis_wiki.Rating.Week.{week_of}
use tennis_wiki.Rating.Keys.{Series, overall, Key, same_key, sort}

pub data EngineError : Type 0 where
  out_of_order refused : EngineError

-- `Result`: one decided match.
pub record MatchResult : Type 0 where
  pub winner_id : ℕ
  pub loser_id : ℕ
  pub played_on : ℕ
  pub surface : Option Series
  pub context : MatchContext

-- `e.touched[k] = struct{}{}`
unfoldable pub touch : Key → List Key → List Key
touch k [] = k ∷ []
touch k (j ∷ ks) = if same_key j k then j ∷ ks else j ∷ touch k ks

module _ (fl : Float) where
  open fl use {F, lit, of_int, sub, lt, mul}

  pub record State : Type 0 where
    pub elo : F
    pub matches : ℕ

  pub record Snapshot : Type 0 where
    pub key : Key
    pub as_of : ℕ
    pub rating : State

  pub record Prediction : Type 0 where
    pub tier : Tier
    pub played_on : ℕ
    pub winner_id : ℕ
    pub loser_id : ℕ
    pub winner_expected : F
    pub winner_played : ℕ
    pub loser_played : ℕ

  -- `Favourite`
  unfoldable pub favourite : Prediction → F × Bool
  favourite p =
      if lt (lit 5 1) p.winner_expected
      then (p.winner_expected, true)
      else if lt p.winner_expected (lit 5 1)
      then (sub (of_int 1) p.winner_expected, false)
      else (lit 5 1, ltb p.winner_id p.loser_id)

  -- `&state{elo: Base}`
  abbrev pub unrated : State
  unrated = record { elo = base fl; matches = 0 }

  pub record Engine : Type 0 where
    pub series : List (Key × State)
    pub touched : List Key
    pub week : ℕ
    pub snapshots : ℕ
    pub sent : List Snapshot
    pub predictions : List Prediction

  -- `NewEngine`
  abbrev pub new_engine : Engine
  new_engine = record {
    series = [];
    touched = [];
    week = 0;
    snapshots = 0;
    sent = [];
    predictions = [];
  }

  -- `e.series[k]`, and the fresh state where the map lacks the key.
  unfoldable pub find : Key → List (Key × State) → State
  find k [] = unrated
  find k ((j, s) ∷ m) = if same_key j k then s else find k m

  -- `e.series[k] = s`
  unfoldable pub put : Key → State → List (Key × State) → List (Key × State)
  put k s [] = (k, s) ∷ []
  put k s ((j, t) ∷ m) = if same_key j k then (j, s) ∷ m else (j, t) ∷ put k s m

  -- `stateOf`: the map afterwards holds the key.
  unfoldable pub state_of : Key → List (Key × State) → State × List (Key × State)
  unfolding find put
  state_of k m = (find k m, put k (find k m) m)

  abbrev pub set_elo : Key → F → List (Key × State) → List (Key × State)
  set_elo k x m = put k (record { elo = x; matches = (find k m).matches }) m

  abbrev pub add_match : Key → List (Key × State) → List (Key × State)
  add_match k m = put k (record { elo = (find k m).elo; matches = (find k m).matches + 1 }) m

  -- `rate` on the map of one pair of keys.
  unfoldable pub rate_pair : Key → Key → F → List (Key × State) → List (Key × State)
  rate_pair kw kl weight m =
      let (w, m1) = state_of kw m in
      let (l, m2) = state_of kl m1 in
      let (w_elo, l_elo) =
        update fl w.elo l.elo (mul (k_factor fl w.matches) weight)
          (mul (k_factor fl l.matches) weight) in
      add_match kl (add_match kw (set_elo kl l_elo (set_elo kw w_elo m2)))

  -- `rate`
  unfoldable pub rate : ℕ → ℕ → Series → F → Engine → Engine
  rate winner loser s weight e =
      let kw : Key = record { player = winner; series = s } in
      let kl : Key = record { player = loser; series = s } in
      record e { series = rate_pair kw kl weight e.series; touched = touch kl (touch kw e.touched) }

  -- `if r.Surface != ""`: the rating on a surface.
  abbrev pub rate_on : Option Series → ℕ → ℕ → F → Engine → Engine
  rate_on none winner loser weight e = e
  rate_on (some s) winner loser weight e = rate winner loser s weight e

  -- `predict`, which puts both players into the map.
  unfoldable pub predict : MatchResult → Engine → Engine
  predict r e =
      let (w, m1) = state_of (record { player = r.winner_id; series = overall }) e.series in
      let (l, m2) = state_of (record { player = r.loser_id; series = overall }) m1 in
      record e {
        series = m2;
        predictions =
            e.predictions
            ++ (record {
              tier = r.context.tier;
              played_on = r.played_on;
              winner_id = r.winner_id;
              loser_id = r.loser_id;
              winner_expected = expected fl w.elo l.elo;
              winner_played = w.matches;
              loser_played = l.matches;
            })
              ∷ [];
      }

  -- `Rating`
  unfoldable pub rating_of : Engine → ℕ → Series → F × ℕ
  unfolding find
  rating_of e player s =
      let st = find (record { player = player; series = s }) e.series in (st.elo, st.matches)

  module _ (refuses : List Snapshot → Snapshot → Bool) where
    -- The loop of `flush`. An error leaves what was sent and counted before it.
    unfoldable pub emit_keys : List Key → Engine → Engine × Option EngineError
    emit_keys [] e = (e, none)
    emit_keys (k ∷ ks) e =
        let snap : Snapshot = record { key = k; as_of = e.week; rating = find k e.series } in
        let rest =
          emit_keys ks (record e { sent = e.sent ++ snap ∷ []; snapshots = e.snapshots + 1 }) in
        if refuses e.sent snap then (e, some refused) else rest

    -- `clear(e.touched)`, if the loop did not fail.
    abbrev pub clear_touched : Engine × Option EngineError → Engine × Option EngineError
    clear_touched (e, none) = (record e { touched = [] }, none)
    clear_touched (e, some why) = (e, some why)

    -- `flush`
    unfoldable pub flush : Engine → Engine × Option EngineError
    flush e = if is_empty e.touched then (e, none) else clear_touched (emit_keys (sort e.touched) e)

    module _ (weights : Weights fl) (predicts : Bool) where
      -- `Add` behind its dates: the prediction and the ratings.
      unfoldable pub apply_result : MatchResult → Engine → Engine
      apply_result r e =
          let weight = weight_for fl weights r.context in
          let e1 = if predicts then predict r e else e in
          let e2 = rate r.winner_id r.loser_id overall weight e1 in
          rate_on r.surface r.winner_id r.loser_id weight e2

      -- `if err := e.flush(); err != nil { return err }; e.week = week`, and what follows.
      abbrev pub after_flush :
          ℕ → MatchResult → Engine × Option EngineError → Engine × Option EngineError
      after_flush week r (e, some why) = (e, some why)
      after_flush week r (e, none) = (apply_result r (record e { week = week }), none)

      -- `Add`
      unfoldable pub add : MatchResult → Engine → Engine × Option EngineError
      add r e =
          let week = week_of r.played_on in
          if ltb week e.week
          then (e, some out_of_order)
          else if ltb e.week week
          then after_flush week r (flush e)
          else (apply_result r e, none)

      -- `if err != nil { return err }` after a step.
      abbrev pub unless_stopped :
          Engine × Option EngineError
          → (Engine → Engine × Option EngineError)
          → Engine × Option EngineError
      unless_stopped (e, none) next = next e
      unless_stopped (e, some why) next = (e, some why)

      -- A replay that goes on until an error, and then `Close`.
      unfoldable pub replay : List MatchResult → Engine → Engine × Option EngineError
      replay [] e = flush e
      replay (r ∷ rs) e = unless_stopped (add r e) (replay rs)

-- ===== src/Rating/Store.antt =====
-- internal/rating/store.go: which stored matches are handed to the engine, and the batches that the
-- ratings are written in. The rows of the query are a list, where `none` is a row that Scan fails
-- on; `failed` says whether the query broke off. `copy` is what CopyFrom answers for a batch, behind
-- those copied before: the number of rows, or an error.

pub mod Replayed
pub mod Batches
mod Tests
use tennis_wiki.Base.{
  ℕ, ◌+◌, Bool, true, false, not, ◌&&◌, List, [], ◌∷◌, ◌++◌, Option, none, some, ltb, if◌then◌else◌,
  is_empty, length,
}
use tennis_wiki.Base.Text.{Bytes, codes, equal}
use tennis_wiki.Score.Model.{Outcome, walkover, Score}
use tennis_wiki.Score.Scanner.{Result, ok, err}
use tennis_wiki.Score.Parse.{parse}
use tennis_wiki.Rating.Elo.{
  Tier, Level, grand_slam, masters, tour_finals, atp, davis_cup, challenger_level, satellite, other,
  parse_tier, Weights,
}
use tennis_wiki.Rating.Keys.{parse_surface}
use tennis_wiki.Base.Float.{Float}
use tennis_wiki.Rating.Engine.{MatchResult, Engine, EngineError, Snapshot, add, flush}

-- The columns of `matchQuery`.
pub record Row : Type 0 where
  pub winner_id : ℕ
  pub loser_id : ℕ
  pub played_on : ℕ
  pub surface : Option Bytes
  pub score : Option Bytes
  pub tier : Bytes
  pub level : Bytes
  pub round : Bytes
  pub is_qualifying : Bool
  pub is_team_event : Bool

pub data StoreError (E : Type 0) : Type 0 where
  read_failed unknown_tier : StoreError E
  handler : E → StoreError E

-- `Level(level)`
unfoldable pub level_of : Bytes → Level
unfolding equal
level_of s =
    if equal s (codes "G")
    then grand_slam
    else if equal s (codes "M")
    then masters
    else if equal s (codes "F")
    then tour_finals
    else if equal s (codes "A")
    then atp
    else if equal s (codes "D")
    then davis_cup
    else if equal s (codes "C")
    then challenger_level
    else if equal s (codes "S")
    then satellite
    else other

-- `derefString`
abbrev pub text_or_empty : Option Bytes → Bytes
text_or_empty none = []
text_or_empty (some s) = s

abbrev pub ends_in_walkover : Result Score → Bool
ends_in_walkover (ok s) = elim s.outcome [ walkover ↦ true | _ ↦ false ]
ends_in_walkover (err e) = false

-- The test on the score: one that cannot be read is no walkover.
unfoldable pub is_walkover : Option Bytes → Bool
unfolding parse
is_walkover none = false
is_walkover (some raw) = ends_in_walkover (parse raw)

-- What `fn` is given for a row of this tier.
unfoldable pub result_of : Row → Tier → MatchResult
unfolding parse_surface level_of equal
result_of r t = record {
  winner_id = r.winner_id;
  loser_id = r.loser_id;
  played_on = r.played_on;
  surface = parse_surface (text_or_empty r.surface);
  context = record {
    tier = t;
    level = level_of r.level;
    is_final = equal r.round (codes "F");
    is_qualifying = r.is_qualifying;
  };
}

-- The counts of `Matches`, and the state of whatever `fn` changes.
pub record Progress (S : Type 0) : Type 0 where
  pub n : ℕ
  pub team_events : ℕ
  pub walkovers : ℕ
  pub state : S

module _ {S : Type 0} {E : Type 0} (fn : MatchResult → S → S × Option E) (team_events : Bool)
    (failed : Bool) where
  abbrev counted : Progress S → S × Option E → Progress S × Option (StoreError E)
  counted p (s, none) = (record p { n = p.n + 1; state = s }, none)
  counted p (s, some e) = (record p { state = s }, some (handler e))

  unfoldable pub rate_row : Row → Option Tier → Progress S → Progress S × Option (StoreError E)
  unfolding result_of
  rate_row r none p = (p, some unknown_tier)
  rate_row r (some t) p = counted p (fn (result_of r t) p.state)

  -- The body of the loop of `Matches`.
  unfoldable pub handle : Row → Progress S → Progress S × Option (StoreError E)
  unfolding rate_row is_walkover parse_tier
  handle r p =
      if r.is_team_event && not team_events
      then (record p { team_events = p.team_events + 1 }, none)
      else if is_walkover r.score
      then (record p { walkovers = p.walkovers + 1 }, none)
      else rate_row r (parse_tier r.tier) p

  abbrev pub unless_failed :
      Progress S × Option (StoreError E)
      → (Progress S → Progress S × Option (StoreError E))
      → Progress S × Option (StoreError E)
  unless_failed (p, none) next = next p
  unless_failed (p, some e) next = (p, some e)

  -- `Matches`
  unfoldable pub matches : List (Option Row) → Progress S → Progress S × Option (StoreError E)
  unfolding handle
  matches [] p = (p, if failed then some read_failed else none)
  matches (none ∷ rows) p = (p, some read_failed)
  matches (some r ∷ rows) p = unless_failed (handle r p) (matches rows)

-- An error of the engine as one of `Run`.
abbrev pub stored {ℓ} : {S : Type ℓ} → S × Option EngineError → S × Option (StoreError EngineError)
stored (s, none) = (s, none)
stored (s, some e) = (s, some (handler e))

-- `writer`; the snapshots copied are those that the transaction holds.
pub record Writer (A : Type 0) : Type 0 where
  pub buf : List A
  pub rows : ℕ
  pub copied : List A

module _ {A : Type 0} (copy : List A → List A → Option ℕ) (batch : ℕ) where
  abbrev pub after_copy : Option ℕ → Writer A → Writer A × Bool
  after_copy none w = (w, false)
  after_copy (some n) w = (record { buf = []; rows = w.rows + n; copied = w.copied ++ w.buf }, true)

  -- `writer.flush`; `false` is its error.
  unfoldable pub flush_rows : Writer A → Writer A × Bool
  flush_rows w = if is_empty w.buf then (w, true) else after_copy (copy w.copied w.buf) w

  -- `writer.add`
  unfoldable pub add_row : A → Writer A → Writer A × Bool
  unfolding flush_rows
  add_row s w =
      let v = record w { buf = w.buf ++ s ∷ [] } in
      if ltb (length v.buf) batch then (v, true) else flush_rows v

  abbrev pub if_written : Writer A × Bool → (Writer A → Writer A × Bool) → Writer A × Bool
  if_written (w, true) next = next w
  if_written (w, false) next = (w, false)

  -- The part of `Replace` in the transaction: every snapshot is added, and then the rest flushed.
  unfoldable pub write_all : List A → Writer A → Writer A × Bool
  unfolding add_row flush_rows
  write_all [] w = flush_rows w
  write_all (s ∷ ss) w = if_written (add_row s w) (write_all ss)

module _ (fl : Float) (refuses : List (Snapshot fl) → Snapshot fl → Bool) (weights : Weights fl)
    (team_events failed : Bool) where
  -- `engine.Close` behind `Matches`.
  abbrev pub close :
      Progress (Engine fl) × Option (StoreError EngineError)
      → Engine fl × Option (StoreError EngineError)
  close (p, some e) = (p.state, some e)
  close (p, none) = stored (flush fl refuses p.state)

  -- The function that `Run` gives to `Replace`, from the making of the engine on.
  unfoldable pub run : List (Option Row) → Engine fl → Engine fl × Option (StoreError EngineError)
  unfolding matches add flush
  run rows e = close (
      matches (add fl refuses weights false) team_events failed rows
        (record { n = 0; team_events = 0; walkovers = 0; state = e }))

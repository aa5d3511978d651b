-- ===== src/Score/Parse/Soundness.antt =====
-- internal/score/parse.go: what `Parse` returns, whatever the text says.
use tennis_wiki.Base.{
  ◌<◌, ◌≡◌, ◌≢◌, refl, inl, inr, Bool, true, false, ◌||◌, List, [], ◌∷◌, ◌++◌, is_empty, arith,
  Bool-cases, All, All-append,
}
use tennis_wiki.Base.Text.{Bytes, fields}
use tennis_wiki.Score.Model.{Outcome, complete, ScoreSet, Score}
use tennis_wiki.Score.Scanner.{parse_token}
use tennis_wiki.Score.Scanner.Bounds.{IsPlausible, Sound, Sound-bind, parse_token-Sound}
use tennis_wiki.Score.Scanner.Short.{IsShort}
use tennis_wiki.Score.Normalise.{normalise, looks_like_set}
use tennis_wiki.Score.Parse.{read_tokens, settle, parse}

abbrev TokensRead : List ScoreSet × Bool → Type 0
TokensRead r = All IsPlausible r.0

read_tokens-Sound :
    (ts : List Bytes) (sets : List ScoreSet) (skipped : Bool)
    → All IsShort ts
    → All IsPlausible sets
    → Sound TokensRead (read_tokens ts sets skipped)
unfolding read_tokens
read_tokens-Sound [] sets skipped short p = p
read_tokens-Sound (t ∷ ts) sets skipped short p = elim (Bool-cases (looks_like_set t)) [
  | inr e ↦ rw (e, read_tokens) (read_tokens-Sound ts sets true short.1 p)
  | inl e ↦
      rw (e, read_tokens)
        (Sound-bind (All IsPlausible) TokensRead (parse_token t) _ (parse_token-Sound t short.0)
          λ found q.
            read_tokens-Sound ts (sets ++ found) (skipped || is_empty found) short.1
              (All-append IsPlausible sets found p q))
]

-- What a parsed score promises.
pub record IsParsed (raw : Bytes) (s : Score) : Type 0 where
  pub plausible : All IsPlausible s.sets
  pub keeps_raw : s.raw ≡ raw
  pub complete_has_sets : s.outcome ≡ complete → s.sets ≢ []

parsed :
    (raw : Bytes) (sets : List ScoreSet) (o : Outcome) (skipped : Bool)
    → All IsPlausible sets
    → IsParsed raw
        (record { sets = sets; outcome = settle o (skipped || is_empty sets); raw = raw })
parsed raw sets o skipped p = record {
  plausible = p;
  keeps_raw = refl;
  complete_has_sets = λ c e. ground (arith, c, e);
}

-- For a text of ASCII bytes whose tokens, after normalising, have eighteen bytes at most each, `Parse`
-- ends: it returns sets with no number above 99 (the winner's points of a tiebreak at most 101), the
-- text itself as the raw form, and an outcome that is complete only if there is a set; or one of
-- the program's own errors.
pub parse-Sound :
    (raw : Bytes)
    → All (λ c. c < 128) raw
    → All IsShort (fields (normalise raw).0)
    → Sound (IsParsed raw) (parse raw)
unfolding parse
parse-Sound raw ascii short = elim (Bool-cases (is_empty (normalise raw).0)) [
  | inl e ↦ rw e (parsed raw [] (normalise raw).1 true tt)
  | inr e ↦ rw e (
      Sound-bind TokensRead (IsParsed raw) (read_tokens (fields (normalise raw).0) [] false) _
        (read_tokens-Sound (fields (normalise raw).0) [] false short tt)
        λ r p. parsed raw r.0 (normalise raw).1 r.1 p)
]

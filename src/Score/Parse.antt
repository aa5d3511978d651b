-- ===== src/Score/Parse.antt =====
-- internal/score/parse.go: `Parse`, on ASCII texts. On others the source may slice a text behind its
-- end, since `indexFold` measures the lower-case form.
pub mod RoundTrip
pub mod Soundness
use tennis_wiki.Base.{
  Bool, true, false, ◌&&◌, ◌||◌, List, [], ◌∷◌, ◌++◌, if◌then◌else◌, is_empty, ◌≡◌, refl,
}
use tennis_wiki.Base.Text.{Bytes, fields, codes}
use tennis_wiki.Score.Model.{Outcome, unknown, is_complete, ScoreSet, Score}
use tennis_wiki.Score.Scanner.{Result, ok, err, ◌>>=◌, parse_token}
use tennis_wiki.Score.Normalise.{normalise, looks_like_set}

-- The loop over the tokens: the sets read and the flag `skipped`.
unfoldable pub read_tokens : List Bytes → List ScoreSet → Bool → Result (List ScoreSet × Bool)
read_tokens [] sets skipped = ok (sets, skipped)
read_tokens (t ∷ ts) sets skipped = elim (looks_like_set t) [
  | false ↦ read_tokens ts sets true
  | true ↦ do found ← parse_token t; read_tokens ts (sets ++ found) (skipped || is_empty found)
]

-- A complete score that misses a token, or has no set, is unknown.
abbrev settle : Outcome → Bool → Outcome
settle outcome doubtful = if is_complete outcome && doubtful then unknown else outcome

unfoldable pub parse : Bytes → Result Score
parse raw =
    let (text, outcome) = normalise raw in
    if is_empty text
    then ok (record { sets = []; outcome = settle outcome true; raw = raw })
    else do
      (sets, skipped) ← read_tokens (fields text) [] false
      ok (record { sets = sets; outcome = settle outcome (skipped || is_empty sets); raw = raw })

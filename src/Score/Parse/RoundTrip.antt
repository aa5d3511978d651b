-- ===== src/Score/Parse/RoundTrip.antt =====
-- internal/score: `Parse` on what `Score.String` prints.
use tennis_wiki.Base.{
  ◌≡◌, ◌≢◌, ◌∙◌, refl, true, false, List, [], ◌∷◌, ◌++◌, map, if◌then◌else◌, is_empty, arith, All,
  All-append, All-mono, All-map, append_assoc, append-nil,
}
use tennis_wiki.Base.Text.{Bytes, join, is_space, to_lower_byte}
use tennis_wiki.Base.Text.Words.{IsWord, fields-join, All-join}
use tennis_wiki.Score.Model.{Outcome, complete, abandoned, ScoreSet, Score, IsReadable}
use tennis_wiki.Score.Print.{format_set, outcome_suffix, parts, format}
use tennis_wiki.Score.Print.Words.{is_score_byte, IsScoreByte, IsSetWord, format_set-IsSetWord}
use tennis_wiki.Score.Scanner.{ok}
use tennis_wiki.Score.Scanner.Token.{parse_token-format_set}
use tennis_wiki.Score.Normalise.{keep_fields, heal_spacing, normalise}
use tennis_wiki.Score.Normalise.RoundTrip.{
  IsPlain, normalise_plain, IsSetWord-IsWord, keep_fields-IsSetWord, heal-IsSetWord,
  looks_like_set-IsSetWord,
}
use tennis_wiki.Score.Parse.{read_tokens, settle, parse}

-- The scores that the printer writes with all they hold. An abandoned match is printed with no
-- suffix, and a complete one shows only in its sets.
pub record IsPrintable (s : Score) : Type 0 where
  pub readable : All IsReadable s.sets
  pub has_suffix : s.outcome ≢ abandoned
  pub has_sets : s.outcome ≡ complete → s.sets ≢ []

words : (ss : List ScoreSet) → All IsReadable ss → All IsSetWord (map format_set ss)
words = All-map IsSetWord format_set format_set-IsSetWord

score_byte-IsPlain : (c : _) → IsScoreByte c → IsPlain c
unfolding is_score_byte to_lower_byte
score_byte-IsPlain c h = ground arith

set_word-IsPlain : (t : Bytes) → IsSetWord t → All IsPlain t
set_word-IsPlain t w = All-mono score_byte-IsPlain t w.letters

abbrev suffix_part : Outcome → List Bytes
suffix_part o = if is_empty (outcome_suffix o) then [] else outcome_suffix o ∷ []

suffix_IsWord : (o : Outcome) → All IsWord (suffix_part o)
unfolding outcome_suffix is_space
suffix_IsWord complete = tt
suffix_IsWord _ = ground arith

suffix_IsPlain : (o : Outcome) → All (All IsPlain) (suffix_part o)
unfolding outcome_suffix to_lower_byte
suffix_IsPlain complete = tt
suffix_IsPlain _ = ground arith

keep_fields_sets :
    (ts rest kept : List Bytes) (o : Outcome)
    → All IsSetWord ts
    → keep_fields (ts ++ rest) kept o ≡ keep_fields rest (kept ++ ts) o
keep_fields_sets [] rest kept o h = rw append-nil
keep_fields_sets (t ∷ ts) rest kept o h =
    keep_fields-IsSetWord t (ts ++ rest) kept o h.0
    ∙ keep_fields_sets ts rest (kept ++ t ∷ []) o h.1
    ∙ rw append_assoc

keep_fields_suffix :
    (o : Outcome) (kept : List Bytes)
    → o ≢ abandoned
    → keep_fields (suffix_part o) kept complete ≡ (kept, o)
unfolding outcome_suffix keep_fields
keep_fields_suffix complete kept h = refl
keep_fields_suffix abandoned kept h = absurd (h refl)
keep_fields_suffix _ kept h = refl

heal_spacing_sets : (ts : List Bytes) → All IsSetWord ts → heal_spacing (join ts) ≡ join ts
unfolding heal_spacing
heal_spacing_sets ts h =
    rw (fields-join ts (All-mono IsSetWord-IsWord ts h), heal-IsSetWord ts [] h)

blank_IsPlain : IsPlain 32
unfolding to_lower_byte
blank_IsPlain = omega arith

module _ (s : Score) (h : IsPrintable s) where
  parts-IsWord : All IsWord (parts s)
  unfolding parts
  parts-IsWord =
      All-append IsWord (map format_set s.sets) (suffix_part s.outcome)
        (All-mono IsSetWord-IsWord _ (words s.sets h.readable)) (suffix_IsWord s.outcome)

  parts-IsPlain : All (All IsPlain) (parts s)
  unfolding parts
  parts-IsPlain =
      All-append (All IsPlain) (map format_set s.sets) (suffix_part s.outcome)
        (All-mono set_word-IsPlain _ (words s.sets h.readable)) (suffix_IsPlain s.outcome)

  keep_fields-parts : keep_fields (parts s) [] complete ≡ (map format_set s.sets, s.outcome)
  unfolding parts
  keep_fields-parts =
      keep_fields_sets (map format_set s.sets) (suffix_part s.outcome) [] complete
        (words s.sets h.readable)
      ∙ keep_fields_suffix s.outcome (map format_set s.sets) h.has_suffix

  -- The printed text goes through `normalise` with its words kept and its outcome read.
  normalise-format : normalise (format s) ≡ (join (map format_set s.sets), s.outcome)
  unfolding format
  normalise-format =
      normalise_plain (join (parts s)) (All-join IsPlain (parts s) blank_IsPlain parts-IsPlain)
      ∙ rw (
        fields-join (parts s) parts-IsWord,
        keep_fields-parts,
        heal_spacing_sets (map format_set s.sets) (words s.sets h.readable),
      )

read_tokens_sets :
    (ss acc : List ScoreSet)
    → All IsReadable ss
    → read_tokens (map format_set ss) acc false ≡ ok (acc ++ ss, false)
unfolding read_tokens
read_tokens_sets [] acc h = rw append-nil
read_tokens_sets (s ∷ ss) acc h =
    rw (looks_like_set-IsSetWord _ (format_set-IsSetWord s h.0), read_tokens)
      (rw (parse_token-format_set s h.0)
        (read_tokens_sets ss (acc ++ s ∷ []) h.1 ∙ rw append_assoc))

text_of_sets :
    (ss : List ScoreSet) → All IsReadable ss → is_empty (join (map format_set ss)) ≡ is_empty ss
unfolding join
text_of_sets [] h = refl
text_of_sets (s ∷ []) h = rw (format_set-IsSetWord s h.0).split
text_of_sets (s ∷ r ∷ ss) h = rw (format_set-IsSetWord s h.0).split

settled :
    (s : Score)
    → IsPrintable s
    → (if is_empty s.sets
        then ok (record { sets = []; outcome = settle s.outcome true; raw = format s })
        else ok (record {
          sets = s.sets;
          outcome = settle s.outcome (is_empty s.sets);
          raw = format s;
        }))
      ≡ ok (record s { raw = format s })
settled s h = ground (arith, h.has_sets)

-- Parsing a printed score gives the score back, with the text as its raw form, if every set is
-- readable, the outcome is not abandoned, and a complete score has a set.
pub parse-format : (s : Score) → IsPrintable s → parse (format s) ≡ ok (record s { raw = format s })
unfolding parse
parse-format s h =
    let read =
      fields-join (map format_set s.sets) (All-mono IsSetWord-IsWord _ (words s.sets h.readable)) in
    rw
      (
        normalise-format s h,
        text_of_sets s.sets h.readable,
        read,
        read_tokens_sets s.sets [] h.readable,
      )
      (settled s h)

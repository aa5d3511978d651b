-- ===== src/Score/Tests.antt =====
-- internal/score: runs of the parser and the printer, and the theorems at concrete scores.
use Prim.Native.String.{String}
use tennis_wiki.Base.{ℕ, ◌%◌, ◌≡◌, refl, false, List, [], ◌∷◌, ◌++◌, arith, if◌then◌else◌}
use tennis_wiki.Base.Int
use tennis_wiki.Base.Text.{codes, is_digit, fields, trim, ends_with}
use tennis_wiki.Score.Model.{
  Outcome, complete, retired, unknown, ScoreSet, Score, tiebreak_set, implied_tiebreak_winner,
}
use tennis_wiki.Score.Totals.{sets_won, sets_decided, games, tiebreaks, went_to_decider}
use tennis_wiki.Score.Print.{format}
use tennis_wiki.Score.Scanner.{
  Result, ok, err, implausible_score, max_games, at_digit, read_int, accept, demand, read_points,
  read_tiebreak, read_set, next_set, scan_from, scan_sets, trim_bracket, read_super_tiebreak,
  parse_token, plain_set, super_set,
}
use tennis_wiki.Score.Scanner.Bounds.{Sound}
use tennis_wiki.Score.Scanner.Digits.{exact_value, read_int_wraps}
use tennis_wiki.Score.Scanner.RunTogether.{run_together, parse_token-run_together}
use tennis_wiki.Score.Normalise.{
  index_fold, cut_prose, keep_fields, heal_spacing, normalise, looks_like_set,
}
use tennis_wiki.Score.Parse.{read_tokens, parse}
use tennis_wiki.Score.Parse.RoundTrip.{IsPrintable, parse-format}
use tennis_wiki.Score.Parse.Soundness.{IsParsed, parse-Sound}
use tennis_wiki.Score.Totals.Counted.{IsCounted, tiebreaks-IsCounted}

abbrev score_of : List ScoreSet → Outcome → String → Result Score
score_of sets o raw = ok (record { sets = sets; outcome = o; raw = codes raw })

abbrev tiebreak : ℕ → ℕ → ℕ → ℕ → ScoreSet
tiebreak w l a b = record (plain_set w l) { tiebreak_winner = a; tiebreak_loser = b }

-- The damage that `normalise` repairs: a stray blank, a bracket apart, sets run together.
reads :
    (parse (codes " 6- 4 6-7 (5) [10-7]")
      ≡ score_of
          (plain_set 6 4 ∷ tiebreak 6 7 7 5 ∷ super_set 10 7 ∷ [])
          complete
          " 6- 4 6-7 (5) [10-7]")
    × (parse (codes "6-36-3 Ret.")
        ≡ score_of (plain_set 6 3 ∷ plain_set 6 3 ∷ []) retired "6-36-3 Ret.")
    × (parse (codes "6-1 5-7 May-00")
        ≡ score_of (plain_set 6 1 ∷ plain_set 5 7 ∷ []) unknown "6-1 5-7 May-00")
    × (parse (codes "") ≡ score_of [] unknown "")
    × (parse (codes "6-100") ≡ err implausible_score)
unfolding parse normalise index_fold read_tokens fields looks_like_set parse_token scan_sets
    scan_from read_set read_tiebreak read_points demand accept read_int next_set at_digit
    read_super_tiebreak trim_bracket ends_with implied_tiebreak_winner cut_prose keep_fields
    heal_spacing trim
reads = (refl, refl, refl, refl, refl)

abbrev sample : Score
sample = record {
  sets = plain_set 6 3 ∷ tiebreak 6 7 7 5 ∷ tiebreak 7 6 12 10 ∷ super_set 10 7 ∷ [];
  outcome = retired;
  raw = [];
}

format-sample : format sample ≡ codes "6-3 6-7(5) 7-6(10) [10-7] RET"
unfolding format Int.lt Int.add Int.itoa
format-sample = refl

sample-IsPrintable : IsPrintable sample
unfolding implied_tiebreak_winner Int.lt Int.add
sample-IsPrintable = ground arith

parse-format_example : parse (format sample) ≡ ok (record sample { raw = format sample })
parse-format_example = parse-format sample sample-IsPrintable

mended :
    fields (normalise (codes " 6- 4 6-7 (5) [10-7]")).0
    ≡ codes "6-4" ∷ codes "6-7(5)" ∷ codes "[10-7]" ∷ []
unfolding normalise index_fold fields cut_prose keep_fields heal_spacing trim ends_with
mended = refl

parse-Sound_example :
    Sound (IsParsed (codes " 6- 4 6-7 (5) [10-7]")) (parse (codes " 6- 4 6-7 (5) [10-7]"))
parse-Sound_example =
    parse-Sound (codes " 6- 4 6-7 (5) [10-7]") (omega arith) (rw mended (omega arith))

-- 2 ^ 64 + 6 games are read as six.
read_int_wraps_example : read_int 0 (codes "18446744073709551622" ++ codes "-4") ≡ (
    if Int.lt max_games (exact_value 0 (codes "18446744073709551622") % Int.two_64)
    then err implausible_score
    else ok (exact_value 0 (codes "18446744073709551622") % Int.two_64, codes "-4"))
unfolding is_digit at_digit
read_int_wraps_example =
    read_int_wraps (codes "18446744073709551622") (codes "-4") (λ e. cc) (ground arith) refl

parse_token-run_together_example :
    parse_token (run_together 6 3 6 3) ≡ ok (plain_set 6 3 ∷ plain_set 6 3 ∷ [])
parse_token-run_together_example =
    parse_token-run_together 6 3 6 3 (omega arith) (omega arith) (omega arith) (omega arith)

tiebreaks-IsCounted_example :
    IsCounted sample.sets (tiebreaks sample.sets).0 (tiebreaks sample.sets).1
tiebreaks-IsCounted_example = tiebreaks-IsCounted sample.sets

counts :
    (sets_won sample.sets ≡ (2, 1))
    × (sets_decided sample.sets ≡ (3, 1))
    × (games sample.sets ≡ (19, 16))
    × (tiebreaks sample.sets ≡ (1, 1))
    × (went_to_decider sample 3 ≡ false)
unfolding sets_won sets_decided games tiebreaks went_to_decider tiebreak_set Int.lt Int.add Int.sub
counts = (refl, refl, refl, refl, refl)

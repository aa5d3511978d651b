-- ===== src/Score/Scanner/RunTogether.antt =====
-- internal/score/parse.go: two sets run together, "6-36-3".
use tennis_wiki.Base.{
  ℕ, suc, is_empty, ◌+◌, ◌*◌, ◌<◌, ◌≡◌, ◌∙◌, refl, false, List, [], ◌∷◌, ◌++◌, arith, none, some,
}
use tennis_wiki.Base.Text.{Bytes, ends_with}
use tennis_wiki.Score.Model.{ScoreSet}
use tennis_wiki.Score.Scanner.{
  ok, err, dash_expected, take_digits, at_digit, accept, demand, read_tiebreak, read_set, next_set,
  scan_from, scan_sets, parse_token, plain_set,
}
use tennis_wiki.Score.Scanner.RoundTrip.{read_int_one, read_int_two}

-- At most one digit is taken when the cap is one.
take_digits_capped : (rest : Bytes) → take_digits 1 1 rest ≡ ([], rest)
unfolding take_digits
take_digits_capped [] = refl
take_digits_capped (c ∷ rest) = ground arith

read_set_capped :
    (a b : ℕ) (rest : Bytes)
    → a < 10
    → b < 10
    → accept b'(' rest ≡ none
    → read_set 1 ((b'0' + a) ∷ b'-' ∷ (b'0' + b) ∷ rest) ≡ ok (plain_set a b, rest)
unfolding read_set demand accept
read_set_capped a b rest ha hb e =
    rw (read_int_one 1 a (b'-' ∷ (b'0' + b) ∷ rest) ha (take_digits_capped _)) (
      rw (read_int_one 1 b rest hb (take_digits_capped rest))
        (unfold read_tiebreak in ground (arith, e)))

module _ (fuel m : ℕ) (sets : List ScoreSet) (s : Bytes) {set : ScoreSet} where
  scan_from_step :
      {rest next : Bytes}
      → read_set m s ≡ ok (set, rest)
      → is_empty rest ≡ false
      → next_set rest ≡ some next
      → scan_from (suc fuel) m sets s ≡ scan_from fuel m (sets ++ set ∷ []) next
  unfolding scan_from
  scan_from_step r e n = ground arith

  scan_from_last :
      read_set m s ≡ ok (set, []) → scan_from (suc fuel) m sets s ≡ ok (sets ++ set ∷ [])
  unfolding scan_from
  scan_from_last r = ground arith

-- A digit, a hyphen, two digits that the second number takes, a hyphen and a digit.
abbrev pub run_together : ℕ → ℕ → ℕ → ℕ → Bytes
run_together a b c d = (b'0' + a) ∷ b'-' ∷ (b'0' + b) ∷ (b'0' + c) ∷ b'-' ∷ (b'0' + d) ∷ []

module _ (a b c d : ℕ) (ha : a < 10) (hb : b < 10) (hc : c < 10) (hd : d < 10) where
  greedy_set :
      read_set 0 (run_together a b c d) ≡ ok (plain_set a (10 * b + c), b'-' ∷ (b'0' + d) ∷ [])
  unfolding read_set demand accept at_digit take_digits
  greedy_set =
      rw (read_int_one 0 a _ ha refl)
        (rw (read_int_two b c (b'-' ∷ (b'0' + d) ∷ []) hb hc refl) (unfold read_tiebreak in refl))

  greedy_rest : read_set 0 ((b'0' + d) ∷ []) ≡ err dash_expected
  unfolding read_set demand accept take_digits
  greedy_rest = rw (read_int_one 0 d [] hd refl)

  greedy_fails : scan_sets 0 (run_together a b c d) ≡ err dash_expected
  unfolding scan_sets scan_from next_set accept
  greedy_fails = rw greedy_set (rw greedy_rest)

  second : Bytes
  second = (b'0' + c) ∷ b'-' ∷ (b'0' + d) ∷ []

  second_no_bracket : accept b'(' second ≡ none
  unfolding accept second
  second_no_bracket = ground arith

  second_is_next : next_set second ≡ some second
  unfolding next_set second
  second_is_next = ground arith

  capped_scan : scan_sets 1 (run_together a b c d) ≡ ok (plain_set a b ∷ plain_set c d ∷ [])
  unfolding scan_sets second
  capped_scan =
      scan_from_step 6 1 [] _ (read_set_capped a b second ha hb second_no_bracket) refl
        second_is_next
      ∙ scan_from_last 5 1 (plain_set a b ∷ []) second
          (read_set_capped c d [] hc hd (unfold accept in refl))

  -- Two sets of single digits that are run together are read as two sets.
  pub parse_token-run_together :
      parse_token (run_together a b c d) ≡ ok (plain_set a b ∷ plain_set c d ∷ [])
  unfolding parse_token ends_with
  parse_token-run_together = ground (arith, greedy_fails, capped_scan)

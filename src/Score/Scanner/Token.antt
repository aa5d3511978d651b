-- ===== src/Score/Scanner/Token.antt =====
-- internal/score/parse.go: `parseToken` on the word of a set.
use tennis_wiki.Base.{
  ℕ, ◌<◌, ◌≡◌, refl, ap, ◌≢◌, append-nil, true, false, [], ◌∷◌, ◌++◌, arith, Bool-cases, inl, inr,
}
use native.Mathlib.Numerals.{add-one}
use tennis_wiki.Base.Int
use tennis_wiki.Base.Text.{Bytes, ends_with}
use tennis_wiki.Score.Model.{ScoreSet, IsReadable}
use tennis_wiki.Score.Print.{pair, format_set}
use tennis_wiki.Score.Print.Words.{format_set-IsSetWord}
use tennis_wiki.Score.Scanner.{
  ok, read_int, accept, demand, read_set, scan_from, scan_sets, trim_bracket, read_super_tiebreak,
  parse_token, super_set, at_digit,
}
use tennis_wiki.Score.Scanner.RoundTrip.{read_int-itoa, read_set-format_set}

trim_bracket_lem : (s : Bytes) → trim_bracket (s ++ b']' ∷ []) ≡ s
unfolding trim_bracket
trim_bracket_lem [] = refl
trim_bracket_lem (c ∷ []) = refl
trim_bracket_lem (c ∷ d ∷ s) = ap (◌∷◌ c) (trim_bracket_lem (d ∷ s))

read_super_tiebreak-pair :
    (w l : ℕ) → w < 100 → l < 100 → read_super_tiebreak (pair w l ++ b']' ∷ []) ≡ ok (super_set w l)
unfolding read_super_tiebreak at_digit accept demand
read_super_tiebreak-pair w l hw hl =
    rw (trim_bracket_lem, read_int-itoa w (b'-' ∷ Int.itoa l) hw refl)
      (rw (← append-nil (Int.itoa l), read_int-itoa l [] hl refl))

scan_sets_one :
    (m : ℕ) (t : Bytes) {s : ScoreSet} → read_set m t ≡ ok (s, []) → scan_sets m t ≡ ok (s ∷ [])
unfolding scan_sets
scan_sets_one m t e = rw add-one (unfold scan_from in rw e)

read_set-bracket :
    (m : ℕ) (s : Bytes) {a : ScoreSet} {rest : Bytes} → read_set m (b'[' ∷ s) ≢ ok (a, rest)
unfolding read_set read_int
read_set-bracket m s h = ground arith

module _ (s : ScoreSet) (h : IsReadable s) where
  plain_token : s.super_tiebreak ≡ false → parse_token (format_set s) ≡ ok (s ∷ [])
  unfolding parse_token ends_with
  plain_token e =
      let word = format_set-IsSetWord s h in
      let read = read_set-format_set s h e in
      ground (
        arith,
        word.split,
        word.ends,
        scan_sets_one 0 (format_set s) read,
        read_set-bracket 0 word.others {a = s} {rest = []},
      )

  super_token : s.super_tiebreak ≡ true → parse_token (format_set s) ≡ ok (s ∷ [])
  unfolding parse_token format_set
  super_token e =
      let read =
        read_super_tiebreak-pair s.tiebreak_winner s.tiebreak_loser (h.super_games e).2
          h.points_loser_bound in
      rw e (rw read (ground (arith, h.super_games e)))

  -- One word, one set: the token parser undoes the printer.
  pub parse_token-format_set : parse_token (format_set s) ≡ ok (s ∷ [])
  parse_token-format_set = elim (Bool-cases s.super_tiebreak) [
    | inl e ↦ super_token e
    | inr e ↦ plain_token e
  ]

-- ===== src/Score/Scanner/RoundTrip.antt =====
-- internal/score/parse.go: the scanner on what the printer of score.go writes.
use tennis_wiki.Base.{
  ℕ, ◌+◌, ◌*◌, ◌/◌, ◌%◌, ◌<◌, false, [], ◌∷◌, ◌++◌, ltb, ◌≡◌, ◌∙◌, refl, ap, arith, Bool-cases, inl,
  inr, append_assoc, append-nil,
}
use tennis_wiki.Base.Int
use tennis_wiki.Base.Text.{Bytes}
use tennis_wiki.Score.Model.{IsReadable, ScoreSet, implied_tiebreak_winner, has_tiebreak}
use tennis_wiki.Score.Scanner.{
  ok, take_digits, digits_value, read_int, at_digit, accept, demand, read_points, read_tiebreak,
  read_set, plain_set,
}
use tennis_wiki.Score.Print.{pair, format_set}

take_digits_stop :
    (m n : ℕ) (rest : Bytes) → at_digit rest ≡ false → take_digits m n rest ≡ ([], rest)
unfolding take_digits at_digit
take_digits_stop m n [] h = refl
take_digits_stop m n (c ∷ s) h = ground arith

-- One digit, where the scanner stops behind it: at its cap, or at a byte that is no digit.
pub read_int_one :
    (m d : ℕ) (rest : Bytes)
    → d < 10
    → take_digits m 1 rest ≡ ([], rest)
    → read_int m ((b'0' + d) ∷ rest) ≡ ok (d, rest)
unfolding read_int
read_int_one m d rest h stop = ground (arith, stop)

digits_two :
    (a b : ℕ) → a < 10 → b < 10 → digits_value 0 ((b'0' + a) ∷ (b'0' + b) ∷ []) ≡ 10 * a + b
unfolding digits_value
digits_two a b ha hb = omega arith

pub read_int_two :
    (a b : ℕ) (rest : Bytes)
    → a < 10
    → b < 10
    → at_digit rest ≡ false
    → read_int 0 ((b'0' + a) ∷ (b'0' + b) ∷ rest) ≡ ok (10 * a + b, rest)
unfolding read_int
read_int_two a b rest ha hb h = ground (arith, take_digits_stop 0 2 rest h, digits_two a b ha hb)

pub read_int-itoa :
    (n : ℕ) (rest : Bytes)
    → n < 100
    → at_digit rest ≡ false
    → read_int 0 (Int.itoa n ++ rest) ≡ ok (n, rest)
read_int-itoa n rest h stop = elim (Bool-cases (ltb n 10)) [
  | inl small ↦
      rw (Int.itoa_digit n (ground arith))
        (read_int_one 0 n rest (ground arith) (take_digits_stop 0 1 rest stop))
  | inr big ↦ rw (Int.itoa_two_digits n (ground arith) h) (
      read_int_two (n / 10) (n % 10) rest (omega arith) (omega arith) stop
      ∙ ap (λ k. ok (k, rest)) (omega arith))
]

-- The games of a set, with whatever stands behind them.
read_set-pair :
    (w l : ℕ) (rest : Bytes)
    → w < 100
    → l < 100
    → at_digit rest ≡ false
    → read_set 0 (pair w l ++ rest) ≡ read_tiebreak 0 (plain_set w l) rest
unfolding read_set at_digit accept demand
read_set-pair w l rest hw hl stop =
    rw (append_assoc, read_int-itoa w _ hw refl)
      (unfold demand accept in rw (read_int-itoa l rest hl stop))

read_points-short :
    (n : ℕ) (rest : Bytes)
    → n < 100
    → read_points 0 (Int.itoa n ++ (b')' ∷ rest)) ≡ ok (implied_tiebreak_winner n, n, b')' ∷ rest)
unfolding read_points at_digit accept
read_points-short n rest h = rw (read_int-itoa n _ h refl) refl

read_points-pair :
    (w l : ℕ) (rest : Bytes)
    → w < 100
    → l < 100
    → read_points 0 (pair w l ++ (b')' ∷ rest)) ≡ ok (w, l, b')' ∷ rest)
unfolding read_points at_digit accept
read_points-pair w l rest hw hl =
    rw (append_assoc, read_int-itoa w _ hw refl)
      (unfold accept in rw (read_int-itoa l (b')' ∷ rest) hl refl))

no_points :
    (s : ScoreSet)
    → IsReadable s
    → has_tiebreak s ≡ false
    → (s.tiebreak_winner ≡ 0) × (s.tiebreak_loser ≡ 0)
unfolding has_tiebreak implied_tiebreak_winner Int.lt Int.add
no_points s h e = ground arith

module _ (s : ScoreSet) (h : IsReadable s) (e : s.super_tiebreak ≡ false) where
  read_set-plain :
      has_tiebreak s ≡ false → read_set 0 (pair s.games_winner s.games_loser) ≡ ok (s, [])
  unfolding read_tiebreak at_digit accept demand
  read_set-plain none_written =
      rw (← append-nil (pair s.games_winner s.games_loser)) (
        rw (read_set-pair _ _ [] h.winner_bound h.loser_bound refl) (ground (arith, no_points s h)))

  read_set-short :
      s.tiebreak_winner ≡ implied_tiebreak_winner s.tiebreak_loser
      → read_set 0
          (pair s.games_winner s.games_loser ++ (b'(' ∷ (Int.itoa s.tiebreak_loser ++ b')' ∷ [])))
        ≡ ok (s, [])
  unfolding read_tiebreak at_digit accept demand
  read_set-short implied =
      rw
        (read_set-pair _ _ (b'(' ∷ (Int.itoa s.tiebreak_loser ++ b')' ∷ [])) h.winner_bound
          h.loser_bound refl)
        (rw (read_points-short s.tiebreak_loser [] h.points_loser_bound) (ground arith))

  read_set-long :
      s.tiebreak_winner < 100
      → read_set 0 (
          pair s.games_winner s.games_loser
          ++ (b'(' ∷ (pair s.tiebreak_winner s.tiebreak_loser ++ b')' ∷ [])))
        ≡ ok (s, [])
  unfolding read_tiebreak at_digit accept demand
  read_set-long small =
      rw
        (read_set-pair _ _ (b'(' ∷ (pair s.tiebreak_winner s.tiebreak_loser ++ b')' ∷ []))
          h.winner_bound h.loser_bound refl)
        (rw (read_points-pair s.tiebreak_winner s.tiebreak_loser [] small h.points_loser_bound)
          (ground arith))

  pub read_set-format_set : read_set 0 (format_set s) ≡ ok (s, [])
  unfolding format_set
  read_set-format_set = ground (arith, read_set-plain, read_set-short, read_set-long)

-- ===== src/Score/Print/Words.antt =====
-- internal/score/score.go: the bytes of the words that `Set.String` writes.
use tennis_wiki.Base.{
  ℕ, ◌+◌, ◌<◌, ◌/◌, ◌%◌, ◌≡◌, ◌≢◌, ◌⊎◌, inl, inr, refl, ◌∙◌, Bool, true, false, ◌||◌, [], ◌∷◌, ◌++◌,
  ltb, ◌==◌, if◌then◌else◌, arith, Bool-cases, All, All-append, append_assoc,
}
use tennis_wiki.Base.Int
use tennis_wiki.Base.Text.{Bytes, is_digit, ends_with, contains}
use tennis_wiki.Base.Text.Words.{ends_with-append}
use tennis_wiki.Score.Model.{IsReadable, has_tiebreak, ScoreSet, implied_tiebreak_winner}
use tennis_wiki.Score.Print.{pair, format_set}

unfoldable pub is_score_byte : ℕ → Bool
unfolding is_digit
is_score_byte c = is_digit c || c == b'-' || c == b'(' || c == b')' || c == b'[' || c == b']'

abbrev pub IsScoreByte : ℕ → Type 0
IsScoreByte c = is_score_byte c ≡ true

-- What the tokeniser needs to know of a word that is a set.
pub record IsSetWord (t : Bytes) : Type 0 where
  pub first : ℕ
  pub others : Bytes
  pub split : t ≡ first ∷ others
  pub starts : (is_digit first ≡ true) ⊎ (first ≡ b'[')
  pub letters : All IsScoreByte t
  pub ends : ends_with b'-' t ≡ false
  pub dash : contains b'-' t ≡ true

-- One or two digits.
pub data Number : Bytes → Type 0 where
  one : (a : ℕ) → a < 10 → Number ((b'0' + a) ∷ [])
  two : (a b : ℕ) → a < 10 → b < 10 → Number ((b'0' + a) ∷ (b'0' + b) ∷ [])

pub itoa-Number : (n : ℕ) → n < 100 → Number (Int.itoa n)
itoa-Number n h = elim (Bool-cases (ltb n 10)) [
  | inl small ↦ rw (Int.itoa_digit n (ground arith)) (one n (ground arith))
  | inr big ↦
      rw (Int.itoa_two_digits n (ground arith) h)
        (two (n / 10) (n % 10) (omega arith) (omega arith))
]

Number-IsScoreByte : {w : Bytes} → Number w → All IsScoreByte w
unfolding is_score_byte
Number-IsScoreByte (one a h) = ground arith
Number-IsScoreByte (two a b h k) = ground arith

contains_dash : (s t : Bytes) → contains b'-' (s ++ (b'-' ∷ t)) ≡ true
unfolding contains
contains_dash [] t = refl
contains_dash (c ∷ s) t = ground (arith, contains_dash s t)

ends_with-Number : {w : Bytes} → Number w → ends_with b'-' (b'-' ∷ w) ≡ false
unfolding ends_with
ends_with-Number (one a h) = ground arith
ends_with-Number (two a b h k) = ground arith

-- A number, a hyphen and a rest make a set's word.
numbers-IsSetWord :
    {w : Bytes} (rest : Bytes)
    → Number w
    → All IsScoreByte rest
    → ends_with b'-' (b'-' ∷ rest) ≡ false
    → IsSetWord (w ++ (b'-' ∷ rest))
unfolding is_digit
numbers-IsSetWord rest (one a h) ls e = record {
  first = b'0' + a;
  others = b'-' ∷ rest;
  split = refl;
  starts = inl (ground arith);
  letters =
      All-append IsScoreByte ((b'0' + a) ∷ []) (b'-' ∷ rest) (Number-IsScoreByte (one a h))
        (unfold is_score_byte in refl, ls);
  ends = ends_with-append b'-' b'-' ((b'0' + a) ∷ []) rest ∙ e;
  dash = contains_dash ((b'0' + a) ∷ []) rest;
}
numbers-IsSetWord rest (two a b h k) ls e = record {
  first = b'0' + a;
  others = (b'0' + b) ∷ b'-' ∷ rest;
  split = refl;
  starts = inl (ground arith);
  letters =
      All-append IsScoreByte ((b'0' + a) ∷ (b'0' + b) ∷ []) (b'-' ∷ rest)
        (Number-IsScoreByte (two a b h k)) (unfold is_score_byte in refl, ls);
  ends = ends_with-append b'-' b'-' ((b'0' + a) ∷ (b'0' + b) ∷ []) rest ∙ e;
  dash = contains_dash ((b'0' + a) ∷ (b'0' + b) ∷ []) rest;
}

-- The games alone, and the games with a bracket behind them.
games-IsSetWord : (w l : ℕ) → w < 100 → l < 100 → IsSetWord (pair w l)
games-IsSetWord w l hw hl =
    numbers-IsSetWord (Int.itoa l) (itoa-Number w hw) (Number-IsScoreByte (itoa-Number l hl))
      (ends_with-Number (itoa-Number l hl))

ends_with_closed : (s : Bytes) (d : ℕ) → d ≢ b'-' → ends_with b'-' (s ++ d ∷ []) ≡ false
unfolding ends_with
ends_with_closed s d h = ends_with-append b'-' d s [] ∙ ground arith

closed_IsSetWord :
    (w l : ℕ) (inside : Bytes)
    → w < 100
    → l < 100
    → All IsScoreByte inside
    → IsSetWord (pair w l ++ (b'(' ∷ (inside ++ b')' ∷ [])))
unfolding is_score_byte
closed_IsSetWord w l inside hw hl ls = rw append_assoc (
    numbers-IsSetWord _ (itoa-Number w hw)
      (All-append IsScoreByte (Int.itoa l) _ (Number-IsScoreByte (itoa-Number l hl))
        (refl, All-append IsScoreByte inside _ ls (refl, tt)))
      (rw (← append_assoc (Int.itoa l) (b'(' ∷ inside) (b')' ∷ []))
        (ends_with_closed (b'-' ∷ (Int.itoa l ++ (b'(' ∷ inside))) b')' (ground arith))))

super_IsSetWord : (w l : ℕ) → w < 100 → l < 100 → IsSetWord (b'[' ∷ (pair w l ++ b']' ∷ []))
unfolding is_score_byte
super_IsSetWord w l hw hl = record {
  first = b'[';
  others = pair w l ++ b']' ∷ [];
  split = refl;
  starts = inr refl;
  letters =
      (refl, All-append IsScoreByte (pair w l) _ (games-IsSetWord w l hw hl).letters (refl, tt));
  ends = ends_with_closed (b'[' ∷ pair w l) b']' (ground arith);
  dash = rw append_assoc (contains_dash (b'[' ∷ Int.itoa w) (Int.itoa l ++ b']' ∷ []));
}

module _ (s : ScoreSet) (h : IsReadable s) where
  short_IsSetWord :
      IsSetWord
        (pair s.games_winner s.games_loser ++ (b'(' ∷ (Int.itoa s.tiebreak_loser ++ b')' ∷ [])))
  short_IsSetWord =
      closed_IsSetWord _ _ _ h.winner_bound h.loser_bound
        (Number-IsScoreByte (itoa-Number _ h.points_loser_bound))

  long_IsSetWord :
      s.tiebreak_winner < 100
      → IsSetWord (
          pair s.games_winner s.games_loser
          ++ (b'(' ∷ (pair s.tiebreak_winner s.tiebreak_loser ++ b')' ∷ [])))
  long_IsSetWord small =
      closed_IsSetWord _ _ _ h.winner_bound h.loser_bound
        (games-IsSetWord _ _ small h.points_loser_bound).letters

  points_IsSetWord : IsSetWord (
      if s.tiebreak_winner == implied_tiebreak_winner s.tiebreak_loser
      then pair s.games_winner s.games_loser ++ (b'(' ∷ (Int.itoa s.tiebreak_loser ++ b')' ∷ []))
      else pair s.games_winner s.games_loser
        ++ (b'(' ∷ (pair s.tiebreak_winner s.tiebreak_loser ++ b')' ∷ [])))
  points_IsSetWord =
      elim (Bool-cases (s.tiebreak_winner == implied_tiebreak_winner s.tiebreak_loser)) [
        | inl e ↦ rw e short_IsSetWord
        | inr e ↦ rw e (long_IsSetWord (ground arith))
      ]

  -- Every set that the printer writes readably is one word of the alphabet of scores.
  pub format_set-IsSetWord : IsSetWord (format_set s)
  unfolding format_set
  format_set-IsSetWord = elim (Bool-cases s.super_tiebreak) [
    | inl e ↦ rw e (super_IsSetWord _ _ (h.super_games e).2 h.points_loser_bound)
    | inr e ↦ rw e (elim (Bool-cases (has_tiebreak s)) [
      | inr n ↦ rw n (games-IsSetWord _ _ h.winner_bound h.loser_bound)
      | inl p ↦ rw p points_IsSetWord
    ])
  ]

-- ===== src/Score/Scanner/Digits.antt =====
-- internal/score/parse.go: the value of a run of digits, in a Go `int`.
use tennis_wiki.Base.{
  ℕ, ◌+◌, ◌*◌, ◌-◌, ◌%◌, ◌≡◌, ◌≢◌, ◌∙◌, ap, refl, true, false, [], ◌∷◌, ◌++◌, if◌then◌else◌, arith,
  All,
}
use tennis_wiki.Base.Int
use tennis_wiki.Base.Text.{Bytes, is_digit}
use tennis_wiki.Score.Scanner.{
  ok, err, implausible_score, max_games, take_digits, digits_value, read_int, at_digit,
}

abbrev pub IsDigit : ℕ → Type 0
IsDigit c = is_digit c ≡ true

-- The number that a run of digits writes, with no bound.
unfoldable pub exact_value : ℕ → Bytes → ℕ
exact_value n [] = n
exact_value n (c ∷ ds) = exact_value (n * 10 + (c - b'0')) ds

pub digits_value-exact_value :
    (ds : Bytes) (n : ℕ)
    → All IsDigit ds
    → digits_value (n % Int.two_64) ds ≡ exact_value n ds % Int.two_64
unfolding digits_value exact_value is_digit
digits_value-exact_value [] n h = refl
digits_value-exact_value (c ∷ ds) n h =
    ap (λ k. digits_value k ds) (step c n h.0)
    ∙ digits_value-exact_value ds (n * 10 + (c - b'0')) h.1
  where
    step :
        (c n : ℕ)
        → IsDigit c
        → Int.add (Int.mul (n % Int.two_64) 10) (Int.sub c b'0')
          ≡ (n * 10 + (c - b'0')) % Int.two_64
    step c n h = ground arith

take_digits-All :
    (ds rest : Bytes) (n : ℕ)
    → All IsDigit ds
    → at_digit rest ≡ false
    → take_digits 0 n (ds ++ rest) ≡ (ds, rest)
unfolding take_digits at_digit
take_digits-All [] [] n h e = refl
take_digits-All [] (c ∷ rest) n h e = ground arith
take_digits-All (c ∷ ds) rest n h e = ground (arith, take_digits-All ds rest (n + 1) h.1 e)

-- Reading a whole run of digits: the number is taken modulo 2 ^ 64, and is accepted unless that
-- remainder, as a signed number, is above 99. A long run can so pass for a small number.
pub read_int_wraps :
    (ds rest : Bytes)
    → ds ≢ []
    → All IsDigit ds
    → at_digit rest ≡ false
    → read_int 0 (ds ++ rest) ≡ (
        if Int.lt max_games (exact_value 0 ds % Int.two_64)
        then err implausible_score
        else ok (exact_value 0 ds % Int.two_64, rest))
unfolding read_int
read_int_wraps [] rest ne h e = absurd (ne refl)
read_int_wraps (c ∷ ds) rest ne h e =
    rw (take_digits-All (c ∷ ds) rest 0 h e, digits_value-exact_value (c ∷ ds) 0 h)

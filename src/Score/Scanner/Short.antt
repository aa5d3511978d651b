-- ===== src/Score/Scanner/Short.antt =====
-- internal/score/parse.go: the numbers of a text that is too short for a number to wrap.
use tennis_wiki.Base.{
  ℕ, zero, suc, ◌+◌, ◌*◌, ◌-◌, ◌<◌, ◌≤◌, ◌∷◌, [], arith, length, All, Bool-cases, inl, inr, not,
  ◌&&◌, ltb, leb,
}
use tennis_wiki.Base.Int
use tennis_wiki.Base.Text.{Bytes, is_digit}
use tennis_wiki.Score.Scanner.{take_digits, digits_value}
use tennis_wiki.Score.Scanner.Digits.{IsDigit, exact_value, digits_value-exact_value}

-- A text of eighteen bytes at most.
abbrev pub IsShort : Bytes → Type 0
IsShort s = length s < 19

-- `b` times ten, so often.
grow : ℕ → ℕ → ℕ
grow b zero = b
grow b (suc k) = grow (10 * b) k

grow_le : (b k : ℕ) → b ≤ grow b k
unfolding grow
grow_le b zero = omega arith
grow_le b (suc k) = omega (arith, grow_le (10 * b) k)

grow_mono : (b k m : ℕ) → k ≤ m → grow b k ≤ grow b m
unfolding grow
grow_mono b zero m h = grow_le b m
grow_mono b (suc k) zero h = absurd (omega arith)
grow_mono b (suc k) (suc m) h = grow_mono (10 * b) k m (omega arith)

exact_value-grow :
    (ds : Bytes) (n b : ℕ) → All IsDigit ds → n < b → exact_value n ds < grow b (length ds)
unfolding exact_value grow
exact_value-grow [] n b h l = l
exact_value-grow (c ∷ ds) n b h l =
    exact_value-grow ds (n * 10 + (c - b'0')) (10 * b) h.1 (digit_step c n b h.0 l)
  where
    digit_step : (c n b : ℕ) → IsDigit c → n < b → n * 10 + (c - b'0') < 10 * b
    digit_step c n b h l = unfold is_digit in ground (arith, h, l)

take_digits-IsDigit : (m n : ℕ) (s : Bytes) → All IsDigit (take_digits m n s).0
unfolding take_digits
take_digits-IsDigit m n [] = tt
take_digits-IsDigit m n (c ∷ s) = elim (Bool-cases (is_digit c && not (ltb 0 m && leb m n))) [
  | inl e ↦ rw e (ground (arith, e), take_digits-IsDigit m (n + 1) s)
  | inr e ↦ rw e tt
]

length-take_digits_le : (m n : ℕ) (s : Bytes) → length (take_digits m n s).0 ≤ length s
unfolding take_digits
length-take_digits_le m n [] = omega arith
length-take_digits_le m n (c ∷ s) = ground (arith, length-take_digits_le m (n + 1) s)

grown : grow 1 18 < Int.two_63
unfolding grow
grown = omega arith

-- The number that is read from a short text is below `2 ^ 63`.
pub digits_value_small :
    (m : ℕ) (s : Bytes) → IsShort s → digits_value 0 (take_digits m 0 s).0 < Int.two_63
digits_value_small m s h =
    let ds = (take_digits m 0 s).0 in
    let digits = take_digits-IsDigit m 0 s in
    omega (
      arith,
      digits_value-exact_value ds 0 digits,
      exact_value-grow ds 0 1 digits (omega arith),
      grow_mono 1 (length ds) 18 (omega (arith, h, length-take_digits_le m 0 s)),
      grown,
    )

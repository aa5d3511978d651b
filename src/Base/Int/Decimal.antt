-- ===== src/Base/Int/Decimal.antt =====
-- `strconv.Itoa` and `strconv.Atoi`, one after the other.
use Prim.Native.Nat.{ℕ, zero, suc, ◌+◌, ◌-◌, ◌*◌, ◌/◌, ◌%◌, ◌<◌, ◌≤◌}
use mathlib.Core.Path.{◌≡◌, ap, ◌∙◌}
use mathlib.Core.Logic.{inl, inr}
use mathlib.Core.Bool.{true}
use mathlib.Core.List.{List, [], ◌∷◌, ◌++◌}
use mathlib.Core.Option.{some}
use native.Mathlib.Omega.{arith}
use tennis_wiki.Base.Tests.{ltb, Bool-cases}
use tennis_wiki.Base.Lists.{All}
use tennis_wiki.Base.Int.{two_63, decimal, itoa, atoi, digits_value}

-- The numbers that so many digits write.
abbrev below : ℕ → ℕ
below zero = 1
below (suc f) = 10 * below f

digits_value_last :
    (a d : ℕ) (s : List ℕ) (v : ℕ)
    → d < 10
    → digits_value a s ≡ some v
    → digits_value a (s ++ (b'0' + d) ∷ []) ≡ some (v * 10 + d)
unfolding digits_value
digits_value_last a d [] v h e = ground (arith, h, e)
digits_value_last a d (c ∷ s) v h e =
    ground (arith, h, e, digits_value_last (a * 10 + (c - 48)) d s v h)

decimal-value : (f n : ℕ) → n < below (suc f) → digits_value 0 (decimal (suc f) n) ≡ some n
unfolding decimal digits_value
decimal-value zero n h = ground (arith, h)
decimal-value (suc f) n h = elim (Bool-cases (ltb n 10)) [
  | inl e ↦ rw e (ground (arith, e))
  | inr e ↦ rw e (
      digits_value_last 0 (n % 10) (decimal (suc f) (n / 10)) (n / 10) (omega arith)
        (decimal-value f (n / 10) (omega (arith, h)))
      ∙ ap some (omega arith))
]

atoi-digits :
    (s : List ℕ) (n : ℕ) → 0 < n → n < two_63 → digits_value 0 s ≡ some n → atoi s ≡ some n
unfolding atoi digits_value
atoi-digits [] n p h e = absurd (ground (arith, p, e))
atoi-digits (c ∷ s) n p h e = ground (arith, p, h, e)

is_small : (n : ℕ) → n < two_63 → ltb n two_63 ≡ true
is_small n h = ground (arith, h)

-- A positive number that is written is read again.
pub atoi-itoa : (n : ℕ) → 0 < n → n < two_63 → atoi (itoa n) ≡ some n
unfolding itoa
atoi-itoa n p h =
    rw (is_small n h) (atoi-digits (decimal 20 n) n p h (decimal-value 19 n (omega (arith, h))))

-- The bytes of a positive number are digits.
digits_value-All :
    (a v : ℕ) (s : List ℕ) → digits_value a s ≡ some v → All (λ c. (b'0' ≤ c) × (c ≤ b'9')) s
unfolding digits_value
digits_value-All a v [] e = tt
digits_value-All a v (c ∷ s) e = (
  (ground (arith, e), ground (arith, e)),
  digits_value-All (a * 10 + (c - 48)) v s (ground (arith, e)),
)

pub itoa-digits : (n : ℕ) → n < two_63 → All (λ c. (b'0' ≤ c) × (c ≤ b'9')) (itoa n)
unfolding itoa
itoa-digits n h =
    rw (is_small n h) (digits_value-All 0 n (decimal 20 n) (decimal-value 19 n (omega (arith, h))))

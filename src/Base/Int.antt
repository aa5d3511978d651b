-- ===== src/Base/Int.antt =====
-- Go's `int`, 64 bits wide. A value is the bit pattern, a number below 2 ^ 64; patterns from
-- 2 ^ 63 on stand for the negative numbers.
pub mod Decimal
use Prim.Native.Nat.{ℕ, zero, suc, ◌+◌, ◌-◌, ◌*◌, ◌/◌, ◌%◌, ◌<◌, ◌≤◌}
use mathlib.Core.Path.{◌≡◌}
use mathlib.Core.Bool.{Bool}
use mathlib.Core.List.{List, [], ◌∷◌, ◌++◌}
use mathlib.Core.Option.{Option, none, some}
use native.Mathlib.Omega.{arith}
use tennis_wiki.Base.Tests.{ltb, ◌==◌, if◌then◌else◌}

abbrev pub two_63 : ℕ
two_63 = 9_223_372_036_854_775_808

abbrev pub two_64 : ℕ
two_64 = 18_446_744_073_709_551_616

-- The sum, the product and the comparison of two patterns.
unfoldable pub add : ℕ → ℕ → ℕ
add a b = (a + b) % two_64

unfoldable pub sub : ℕ → ℕ → ℕ
sub a b = (a + two_64 - b) % two_64

unfoldable pub mul : ℕ → ℕ → ℕ
mul a b = (a * b) % two_64

-- `a < b` on signed values: flipping the top bit makes it the order of the patterns.
unfoldable pub lt : ℕ → ℕ → Bool
lt a b = ltb ((a + two_63) % two_64) ((b + two_63) % two_64)

pub lt_of_small : (a b : ℕ) → a < two_63 → b < two_63 → lt a b ≡ ltb a b
unfolding lt
lt_of_small a b ha hb = ground arith

pub add_of_small : (a b : ℕ) → a + b < two_63 → add a b ≡ a + b
unfolding add
add_of_small a b h = omega arith

pub sub_of_small : (a b : ℕ) → a < two_63 → b ≤ a → sub a b ≡ a - b
unfolding sub
sub_of_small a b ha hb = omega arith

-- The decimal digits of a natural number, on fuel: 20 digits are enough for 64 bits.
pub decimal : ℕ → ℕ → List ℕ
decimal zero n = []
decimal (suc f) n =
    let more = decimal f (n / 10) ++ (b'0' + n % 10) ∷ [] in
    if ltb n 10 then (b'0' + n) ∷ [] else more

-- `strconv.Itoa`, and the verb `%d`.
unfoldable pub itoa : ℕ → List ℕ
unfolding decimal
itoa n = if ltb n two_63 then decimal 20 n else b'-' ∷ decimal 20 (two_64 - n)

pub itoa_digit : (n : ℕ) → n < 10 → itoa n ≡ (b'0' + n) ∷ []
unfolding itoa
itoa_digit n h = ground arith

pub itoa_two_digits : (n : ℕ) → 9 < n → n < 100 → itoa n ≡ (b'0' + n / 10) ∷ (b'0' + n % 10) ∷ []
unfolding itoa
itoa_two_digits n lo hi = ground arith

-- The number that digits stand for, read on from `n`; `none` at any other byte.
unfoldable pub digits_value : ℕ → List ℕ → Option ℕ
digits_value n [] = some n
digits_value n (c ∷ s) =
    let more = digits_value (n * 10 + (c - 48)) s in
    if ltb c b'0' then none else if ltb b'9' c then none else more

abbrev digits : List ℕ → Option ℕ
digits [] = none
digits (c ∷ s) = digits_value 0 (c ∷ s)

abbrev positive : Option ℕ → Option ℕ
positive none = none
positive (some n) = if ltb n two_63 then some n else none

abbrev negative : Option ℕ → Option ℕ
negative none = none
negative (some n) = if ltb two_63 n then none else some ((two_64 - n) % two_64)

-- `strconv.Atoi`; an error is `none`.
unfoldable pub atoi : List ℕ → Option ℕ
unfolding digits_value
atoi [] = none
atoi (c ∷ s) =
    if c == b'-'
    then negative (digits s)
    else if c == b'+'
    then positive (digits s)
    else positive (digits_value 0 (c ∷ s))

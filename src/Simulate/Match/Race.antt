-- ===== src/Simulate/Match/Race.antt =====
-- internal/simulate/match.go: what a race to six or seven is worth, by recursion on what is left of
-- it, with no table.
use tennis_wiki.Base.{
  ℕ, zero, suc, ◌+◌, Bool, true, false, not, ◌&&◌, ◌||◌, Option, none, some, if◌then◌else◌, leb,
}
use tennis_wiki.Base.Float.{Float}

module _ (fl : Float) (over : ℕ → ℕ → Option Bool) (win : Bool → fl.F)
    (mix : fl.F → fl.F → fl.F → fl.F) (point : ℕ → fl.F) (six_all : fl.F) where
  -- The chance of A from the score `a` to `b`, with `k` points left until six all.
  unfoldable pub chance : ℕ → ℕ → ℕ → fl.F
  chance zero a b = elim (over a b) [ some who ↦ win who | none ↦ six_all ]
  chance (suc k) a b = elim (over a b) [
    | some who ↦ win who
    | none ↦ mix (point (a + b)) (chance k (a + 1) b) (chance k a (b + 1))
  ]

-- Whether the first player serves: point `n` of a tiebreak, in which the serve changes after the first
-- point and then after every two, and game `n` of a set, in which it changes after each.
unfoldable pub serves_point : ℕ → Bool
serves_point zero = true
serves_point (suc zero) = false
serves_point (suc (suc n)) = not (serves_point n)

unfoldable pub serves_game : ℕ → Bool
serves_game zero = true
serves_game (suc n) = not (serves_game n)

-- The winner of a race to seven points, and of a race to six games with two clear, or to seven.
unfoldable pub first_to_seven : ℕ → ℕ → Option Bool
first_to_seven a b = if leb 7 a then some true else if leb 7 b then some false else none

unfoldable pub six_clear_or_seven : ℕ → ℕ → Option Bool
six_clear_or_seven a b =
    if leb 6 a && leb (b + 2) a || leb 7 a
    then some true
    else if leb 6 b && leb (a + 2) b || leb 7 b
    then some false
    else none

module _ (fl : Float) where
  open fl use {F, lit, of_int, add, sub, mul, div, eq}

  -- A share of squares: `x²` of `x² + y²`, and one half where this sum is zero.
  unfoldable pub share_of_squares : F → F → F
  share_of_squares x y =
      if eq (add (mul x x) (mul y y)) (of_int 0)
      then lit 5 1
      else div (mul x x) (add (mul x x) (mul y y))

  -- The chance of A from the score `a` to `b`, by recursion on the points that are left until six
  -- all: A wins the next one with the chance `point`, and is then ahead by one more.
  unfoldable pub race : (ℕ → ℕ → Option Bool) → (ℕ → F) → F → ℕ → ℕ → ℕ → F
  race over point six_all zero a b = elim (over a b) [
    | some who ↦ if who then of_int 1 else of_int 0
    | none ↦ six_all
  ]
  race over point six_all (suc k) a b = elim (over a b) [
    | some who ↦ if who then of_int 1 else of_int 0
    | none ↦
        add (mul (point (a + b)) (race over point six_all k (a + 1) b))
          (mul (sub (of_int 1) (point (a + b))) (race over point six_all k a (b + 1)))
  ]

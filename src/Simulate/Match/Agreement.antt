-- ===== src/Simulate/Match/Agreement.antt =====
-- internal/simulate/match.go: the serve, the ends of a race and its value at six all, as the tables
-- compute them and as the race has them.
use tennis_wiki.Base.{
  ℕ, zero, suc, ◌+◌, ◌%◌, ◌≤◌, ◌<◌, ◌≡◌, inl, inr, refl, ap, ◌∙◌, Bool, true, false, not, ◌||◌,
  ◌==◌, if◌then◌else◌, Option, none, arith, Option-cases,
}
use tennis_wiki.Base.Float.{Float}
use tennis_wiki.Simulate.Match.{
  server_is_a, set_over, won, mix, tiebreak_point, two_point_race, set_game,
}
use tennis_wiki.Simulate.Match.Race.{
  chance, race, serves_point, serves_game, six_clear_or_seven, share_of_squares,
}

won-if : (fl : Float) (who : Bool) → won fl who ≡ (if who then fl.of_int 1 else fl.of_int 0)
won-if fl true = refl
won-if fl false = refl

-- Two descriptions of a race agree: the chance in the terms of the table, and as `race` has it.
module _ (fl : Float) (over over' : ℕ → ℕ → Option Bool) (point point' : ℕ → fl.F)
    (six_all six_all' : fl.F) where
  pub chance-race :
      ((a b : ℕ) → a ≤ 7 → b ≤ 7 → over a b ≡ over' a b)
      → ((a b : ℕ) → over a b ≡ none → a ≤ 7 → b ≤ 7 → (a ≤ 6) × (b ≤ 6))
      → ((n : ℕ) → point n ≡ point' n)
      → six_all ≡ six_all'
      → (k a b : ℕ) → a ≤ 7
      → b ≤ 7
      → chance fl over (won fl) (mix fl) point six_all k a b ≡ race fl over' point' six_all' k a b
  unfolding chance race
  chance-race same free points sixes zero a b ha hb = elim (Option-cases (over a b)) [
    | inl e ↦ rw (← same a b ha hb, e, chance, race) sixes
    | inr (who, e) ↦ rw (← same a b ha hb, e, chance, race) (won-if fl who)
  ]
  chance-race same free points sixes (suc k) a b ha hb = elim (Option-cases (over a b)) [
    | inl e ↦
        let (la, lb) = free a b e ha hb in
        rw (← same a b ha hb, e, chance, race)
          (λ i.
            mix fl (points (a + b) i)
              (chance-race same free points sixes k (a + 1) b (omega arith) (omega arith) i)
              (chance-race same free points sixes k a (b + 1) (omega arith) (omega arith) i))
    | inr (who, e) ↦ rw (← same a b ha hb, e, chance, race) (won-if fl who)
  ]

-- The two halves of a round of four points.
half_turn : (r : ℕ) → r < 4 → ((r + 2) % 4 == 0 || (r + 2) % 4 == 3) ≡ not (r == 0 || r == 3)
half_turn zero h = refl
half_turn (suc zero) h = refl
half_turn (suc (suc zero)) h = refl
half_turn (suc (suc (suc zero))) h = refl
half_turn (suc (suc (suc (suc r)))) h = absurd (omega arith)

server_is_a-serves_point : (n : ℕ) → server_is_a n ≡ serves_point n
unfolding server_is_a serves_point
server_is_a-serves_point zero = refl
server_is_a-serves_point (suc zero) = refl
server_is_a-serves_point (suc (suc n)) =
    let later : suc (suc n) % 4 ≡ (n % 4 + 2) % 4 = omega arith in
    ap (λ r. r == 0 || r == 3) later
    ∙ half_turn (n % 4) (omega arith)
    ∙ ap not (server_is_a-serves_point n)

pub tiebreak_point-serves_point :
    (fl : Float) (pa pb : fl.F) (n : ℕ)
    → tiebreak_point fl pa pb n ≡ (if serves_point n then pa else fl.sub (fl.of_int 1) pb)
unfolding tiebreak_point
tiebreak_point-serves_point fl pa pb n =
    ap (λ who. if who then pa else fl.sub (fl.of_int 1) pb) (server_is_a-serves_point n)

pub two_point_race-share_of_squares :
    (fl : Float) (x y : fl.F) → two_point_race fl x y ≡ share_of_squares fl x y
unfolding two_point_race share_of_squares
two_point_race-share_of_squares fl x y = refl

odd-serves_game : (n : ℕ) → n % 2 ≡ (if serves_game n then 0 else 1)
unfolding serves_game
odd-serves_game zero = refl
odd-serves_game (suc n) = ground (arith, odd-serves_game n)

pub set_game-serves_game :
    (fl : Float) (hold_a hold_b : fl.F) (n : ℕ)
    → set_game fl hold_a hold_b n ≡ (if serves_game n then hold_a else fl.sub (fl.of_int 1) hold_b)
unfolding set_game
set_game-serves_game fl hold_a hold_b n = ground (arith, odd-serves_game n)

pub set_over-six_clear_or_seven : (a b : ℕ) → a ≤ 7 → b ≤ 7 → set_over a b ≡ six_clear_or_seven a b
unfolding set_over six_clear_or_seven
set_over-six_clear_or_seven a b ha hb = ground arith

-- ===== src/Simulate/Match.antt =====
-- internal/simulate/match.go: the chain from a point on serve to a match, over any floats. A table
-- `[7][7]float64` is a function of its two indices, zero everywhere at first. The counts of the
-- loops stay below 13, so no subtraction of the source is negative where its result is used.
pub mod Agreement
pub mod Race
pub mod Tables
use tennis_wiki.Base.{
  ℕ, zero, suc, ◌+◌, ◌-◌, ◌%◌, Bool, true, false, ◌&&◌, ◌||◌, Option, none, some, ltb, leb, ◌==◌,
  if◌then◌else◌,
}
use tennis_wiki.Base.Float.{Float}

pub record Format : Type 0 where
  pub best_of : ℕ
  pub final_set_advantage : Bool

-- `Format.sets`
unfoldable pub sets : Format → ℕ
sets f = if f.best_of == 5 then 5 else 3

-- `serverIsA`
unfoldable pub server_is_a : ℕ → Bool
server_is_a n = n % 4 == 0 || n % 4 == 3

-- The scores at which `value` of `Tiebreak` answers by itself, and the winner.
unfoldable pub tiebreak_over : ℕ → ℕ → Option Bool
tiebreak_over a b = if a == 7 then some true else if b == 7 then some false else none

-- The scores at which `value` of `Set` answers by itself: six games with two clear, or seven.
unfoldable pub set_over : ℕ → ℕ → Option Bool
set_over a b =
    if a == 6 && leb b 4
    then some true
    else if b == 6 && leb a 4
    then some false
    else if a == 7
    then some true
    else if b == 7
    then some false
    else none

module _ (fl : Float) where
  open fl use {F, lit, of_int, add, sub, mul, div, lt, eq, min, max}

  abbrev pub Table : Type 0
  Table = ℕ → ℕ → F

  -- `win[a][b] = v`
  abbrev pub write : ℕ → ℕ → F → Table → Table
  write a b v win i j = if i == a && j == b then v else win i j

  abbrev pub won : Bool → F
  won true = of_int 1
  won false = of_int 0

  -- `value`: 1 or 0 where the race is over, and the table elsewhere.
  abbrev pub value : (ℕ → ℕ → Option Bool) → Table → ℕ → ℕ → F
  value over win a b = elim (over a b) [ some who ↦ won who | none ↦ win a b ]

  -- `twoPointRace`
  unfoldable pub two_point_race : F → F → F
  two_point_race x y =
      let total = add (mul x x) (mul y y) in
      if eq total (of_int 0) then lit 5 1 else div (mul x x) total

  -- `Game`
  unfoldable pub game : F → F
  game p =
      let q = sub (of_int 1) p in
      let straight =
        mul (mul (mul (mul p p) p) p)
          (add (add (of_int 1) (mul (of_int 4) q)) (mul (mul (of_int 10) q) q)) in
      let to_deuce = mul (mul (mul (mul (mul (mul (of_int 20) p) p) p) q) q) q in
      add straight (mul to_deuce (two_point_race p q))

  -- `p*value(a+1, b) + (1-p)*value(a, b+1)`
  abbrev pub mix : F → F → F → F
  mix p up down = add (mul p up) (mul (sub (of_int 1) p) down)

  -- The inner loop, `k` of its rounds left from `a` on, and the outer loop, which counts `n` down
  -- to 0, over the body of a loop.
  unfoldable pub fill_row : (ℕ → ℕ → Table → Table) → ℕ → ℕ → ℕ → Table → Table
  fill_row cell n a zero win = win
  fill_row cell n a (suc k) win = fill_row cell n (a + 1) k (cell n a win)

  unfoldable pub fill : (ℕ → ℕ → Table → Table) → ℕ → Table → Table
  unfolding fill_row
  fill cell zero win = win
  fill cell (suc n) win = fill cell n (fill_row cell n 0 7 win)

  abbrev pub empty_table : Table
  empty_table a b = of_int 0

  -- The chance that A wins point `n` of a tiebreak.
  unfoldable pub tiebreak_point : F → F → ℕ → F
  tiebreak_point pa pb n = if server_is_a n then pa else sub (of_int 1) pb

  -- The value that `Tiebreak` writes at six all: the chances of winning both points of a pair, which
  -- `twoPointRace` squares.
  unfoldable pub tiebreak_at_six : F → F → F
  tiebreak_at_six pa pb = two_point_race (mul pa (sub (of_int 1) pb)) (mul (sub (of_int 1) pa) pb)

  -- The body of the loops of `Tiebreak`: `b` is `n - a`.
  unfoldable pub tiebreak_cell : F → F → ℕ → ℕ → Table → Table
  unfolding tiebreak_over tiebreak_point tiebreak_at_six
  tiebreak_cell pa pb n a win =
      let b = n - a in
      if ltb n a || ltb 6 b
      then win
      else if a == 6 && b == 6
      then write a b (tiebreak_at_six pa pb) win
      else write a b
          (mix (tiebreak_point pa pb (a + b)) (value tiebreak_over win (a + 1) b)
            (value tiebreak_over win a (b + 1)))
          win

  -- `Tiebreak`
  unfoldable pub tiebreak : F → F → F
  tiebreak pa pb = fill (tiebreak_cell pa pb) 13 empty_table 0 0

  -- The chance that A wins game `n` of a set: A serves the even games.
  unfoldable pub set_game : F → F → ℕ → F
  set_game hold_a hold_b n = if n % 2 == 1 then sub (of_int 1) hold_b else hold_a

  unfoldable pub at_six_all : F → F → Bool → F
  at_six_all pa pb advantage =
      if advantage
      then two_point_race (mul (game pa) (sub (of_int 1) (game pb)))
          (mul (sub (of_int 1) (game pa)) (game pb))
      else tiebreak pa pb

  -- The body of the loops of `Set`.
  unfoldable pub set_cell : F → F → F → ℕ → ℕ → Table → Table
  set_cell hold_a hold_b six_all n a win =
      let b = n - a in
      if ltb n a || ltb 6 b
      then win
      else if a == 6 && leb b 4 || b == 6 && leb a 4
      then win
      else if a == 6 && b == 6
      then write a b six_all win
      else write a b
          (mix (set_game hold_a hold_b (a + b)) (value set_over win (a + 1) b)
            (value set_over win a (b + 1)))
          win

  -- `Set`
  unfoldable pub play_set : F → F → Bool → F
  play_set pa pb advantage =
      value set_over
        (fill (set_cell (game pa) (game pb) (at_six_all pa pb advantage)) 13 empty_table) 0 0

  -- `match`
  unfoldable pub play_match : F → F → ℕ → F
  play_match set decider best_of =
      let lose = sub (of_int 1) set in
      if best_of == 5
      then add (add (mul (mul set set) set) (mul (mul (mul (mul (of_int 3) set) set) set) lose))
          (mul (mul (mul (mul (mul (of_int 6) set) set) lose) lose) decider)
      else add (mul set set) (mul (mul (mul (of_int 2) set) lose) decider)

  pub record Chain : Type 0 where
    pub point : F × F
    pub hold : F × F
    pub set : F × F
    pub match_won : F × F

  -- `Solve`
  unfoldable pub solve : F → F → Format → Chain
  solve pa pb f =
      let set_a = play_set pa pb false in
      let decider = if f.final_set_advantage then play_set pa pb true else set_a in
      let match_a = play_match set_a decider (sets f) in
      record {
        point = (pa, pb);
        hold = (game pa, game pb);
        set = (set_a, sub (of_int 1) set_a);
        match_won = (match_a, sub (of_int 1) match_a);
      }

  abbrev pub min_serve : F
  min_serve = lit 1 2

  abbrev pub max_serve : F
  max_serve = lit 99 2

  -- `clamp`
  unfoldable pub clamp : F → F → F → F
  clamp v lo hi = max lo (min hi v)

  -- The loop of `Invert`, with the rounds left.
  unfoldable pub bisect : (F → F) → F → ℕ → F → F → F × F
  bisect chance target zero lo hi = (lo, hi)
  bisect chance target (suc n) lo hi =
      let mid = div (add lo hi) (of_int 2) in
      let below = lt (chance mid) target in
      bisect chance target n (if below then mid else lo) (if below then hi else mid)

  -- `-spread`
  abbrev negate : F → F
  negate x = sub (of_int 0) x

  -- `Invert`: the two serve probabilities, and the match probability that they give.
  unfoldable pub invert : F → F → Format → F × F × F
  invert target anchor f =
      let mean = clamp anchor min_serve max_serve in
      let spread = min (sub mean min_serve) (sub max_serve mean) in
      let chance = λ (mid : F). (solve (add mean mid) (sub mean mid) f).match_won.0 in
      let (lo, hi) = bisect chance target 60 (negate spread) spread in
      let d = div (add lo hi) (of_int 2) in
      (add mean d, sub mean d, (solve (add mean d) (sub mean d) f).match_won.0)

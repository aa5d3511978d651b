-- ===== src/Simulate/Match/Tables.antt =====
-- internal/simulate/match.go: the tables of `Tiebreak` and `Set`, filled from the end backwards.
use tennis_wiki.Base.{
  ℕ, zero, suc, ◌+◌, ◌-◌, ◌≤◌, ◌<◌, ◌≡◌, ◌≢◌, ◌⊎◌, inl, inr, refl, ◌∙◌, sym, Bool, true, false,
  if◌then◌else◌, Option, none, some, arith, Option-cases,
}
use mathlib.Core.Path.{ap₂, subst}
use native.Mathlib.Decide.{ℕ_discrete}
use tennis_wiki.Base.Float.{Float}
use tennis_wiki.Simulate.Match.{
  tiebreak_over, set_over, Table, won, value, mix, fill_row, fill, empty_table, tiebreak_point,
  tiebreak_at_six, tiebreak_cell, tiebreak, set_game, at_six_all, set_cell, game, play_set,
}
use tennis_wiki.Simulate.Match.Agreement.{
  chance-race, tiebreak_point-serves_point, two_point_race-share_of_squares, set_game-serves_game,
  set_over-six_clear_or_seven,
}
use tennis_wiki.Simulate.Match.Race.{
  chance, race, serves_point, serves_game, first_to_seven, six_clear_or_seven, share_of_squares,
}

module _ (fl : Float) (over : ℕ → ℕ → Option Bool) (point : ℕ → fl.F) (six_all : fl.F) where
  -- What the race is worth from this score, with the points that are left until six all.
  abbrev worth : ℕ → ℕ → fl.F
  worth a b = chance fl over (won fl) (mix fl) point six_all (12 - (a + b)) a b

  chance_over :
      (k a b : ℕ) {who : Bool}
      → over a b ≡ some who
      → chance fl over (won fl) (mix fl) point six_all k a b ≡ won fl who
  unfolding chance
  chance_over zero a b h = rw (h, chance) refl
  chance_over (suc k) a b h = rw (h, chance) refl

  worth_step :
      (a b : ℕ)
      → over a b ≡ none
      → a + b < 12
      → worth a b ≡ mix fl (point (a + b)) (worth (a + 1) b) (worth a (b + 1))
  unfolding chance
  worth_step a b h l =
      let up : 12 - (a + b) ≡ suc (12 - (a + 1 + b)) = omega arith in
      let down : 12 - (a + (b + 1)) ≡ 12 - (a + 1 + b) = omega arith in
      rw (up, down, chance, h) refl

  worth_last : (a b : ℕ) → over a b ≡ none → a + b ≡ 12 → worth a b ≡ six_all
  unfolding chance
  worth_last a b h e = rw (e, chance, h) refl

  -- The body of the loops writes one cell, from the two that follow it.
  record IsCell (cell : ℕ → ℕ → Table fl → Table fl) : Type 0 where
    untouched : (n a i j : ℕ) (w : Table fl) → (i ≢ a) ⊎ (i + j ≢ n) → cell n a w i j ≡ w i j
    last :
        (a b : ℕ) (w : Table fl)
        → over a b ≡ none
        → a + b ≡ 12
        → a ≤ 6
        → b ≤ 6
        → cell 12 a w a b ≡ six_all
    step :
        (a b : ℕ) (w : Table fl)
        → over a b ≡ none
        → a + b < 12
        → a ≤ 6
        → b ≤ 6
        → cell (a + b) a w a b
          ≡ mix fl (point (a + b)) (value fl over w (a + 1) b) (value fl over w a (b + 1))
    ends : (a b : ℕ) → over a b ≡ none → a ≤ 7 → b ≤ 7 → a + b ≤ 12 → (a ≤ 6) × (b ≤ 6)

  -- The cells of the diagonals above `n` are right, and those of diagonal `n` below row `a`.
  abbrev Known : ℕ → ℕ → Table fl → Type 0
  Known n a w =
      (i j : ℕ)
      → (n < i + j) ⊎ ((i + j ≡ n) × (i < a))
      → i ≤ 6
      → j ≤ 6
      → over i j ≡ none
      → w i j ≡ worth i j

  module _ (cell : ℕ → ℕ → Table fl → Table fl) (is : IsCell cell) where
    value-worth :
        (n a : ℕ) (w : Table fl)
        → Known n a w
        → (i j : ℕ) → n < i + j
        → i ≤ 7
        → j ≤ 7
        → i + j ≤ 12
        → value fl over w i j ≡ worth i j
    value-worth n a w h i j l hi hj top = elim (Option-cases (over i j)) [
      | inl e ↦ let (bi, bj) = is.ends i j e hi hj top in rw (e, value) (h i j (inl l) bi bj e)
      | inr (who, e) ↦ rw (e, value) (sym (chance_over (12 - (i + j)) i j e))
    ]

    written :
        (n a b : ℕ) (w : Table fl)
        → Known n a w
        → a + b ≡ n
        → n ≤ 12
        → a ≤ 6
        → b ≤ 6
        → over a b ≡ none
        → cell n a w a b ≡ worth a b
    written n a b w h e top ha hb free = elim (ℕ_discrete n 12) [
      | yes t ↦ rw t (is.last a b w free (e ∙ t) ha hb ∙ sym (worth_last a b free (e ∙ t)))
      | no t ↦
          let l : a + b < 12 = omega arith in
          rw (← e) (
            is.step a b w free l ha hb
            ∙ ap₂ (mix fl (point (a + b)))
                (value-worth n a w h (a + 1) b (omega arith) (omega arith) (omega arith)
                  (omega arith))
                (value-worth n a w h a (b + 1) (omega arith) (omega arith) (omega arith)
                  (omega arith))
            ∙ sym (worth_step a b free l))
    ]

    cell-Known :
        (n a : ℕ) (w : Table fl) → n ≤ 12 → a ≤ 6 → Known n a w → Known n (a + 1) (cell n a w)
    cell-Known n a w top ha h i j c hi hj free = elim (ℕ_discrete i a) [
      | no d ↦ is.untouched n a i j w (inl d) ∙ h i j (omega arith) hi hj free
      | yes d ↦ elim (ℕ_discrete (i + j) n) [
        | no f ↦ is.untouched n a i j w (inr f) ∙ h i j (inl (omega arith)) hi hj free
        | yes f ↦
            rw d (written n a j w h (omega arith) top ha hj (subst (λ x. over x j ≡ none) d free))
      ]
    ]

    fill_row-Known :
        (n a k : ℕ) (w : Table fl)
        → n ≤ 12
        → a + k ≡ 7
        → Known n a w
        → Known n 7 (fill_row fl cell n a k w)
    unfolding fill_row
    fill_row-Known n a zero w top e h = λ i j c. h i j (omega arith)
    fill_row-Known n a (suc k) w top e h =
        fill_row-Known n (a + 1) k (cell n a w) top (omega arith)
          (cell-Known n a w top (omega arith) h)

    -- The cells of diagonal `n` and above are right.
    abbrev AllFrom : ℕ → Table fl → Type 0
    AllFrom n w = (i j : ℕ) → n ≤ i + j → i ≤ 6 → j ≤ 6 → over i j ≡ none → w i j ≡ worth i j

    fill_row-AllFrom :
        (n : ℕ) (w : Table fl) → n ≤ 12 → AllFrom (suc n) w → AllFrom n (fill_row fl cell n 0 7 w)
    fill_row-AllFrom n w top h i j l hi hj free =
        fill_row-Known n 0 7 w top (omega arith) (λ a b c. h a b (omega arith)) i j (omega arith) hi
          hj free

    fill-AllFrom : (n : ℕ) (w : Table fl) → n ≤ 13 → AllFrom n w → AllFrom 0 (fill fl cell n w)
    unfolding fill
    fill-AllFrom zero w top h = h
    fill-AllFrom (suc n) w top h =
        fill-AllFrom n (fill_row fl cell n 0 7 w) (omega arith)
          (fill_row-AllFrom n w (omega arith) h)

    -- The filled table holds at every score what the race is worth there.
    fill-worth : (w : Table fl) → AllFrom 0 (fill fl cell 13 w)
    fill-worth w = fill-AllFrom 13 w (omega arith) (λ i j l hi hj free. absurd (omega arith))

module _ (fl : Float) (pa pb : fl.F) where
  open fl use {of_int, sub, mul}

  tiebreak_cell-IsCell :
      IsCell fl tiebreak_over
        (tiebreak_point fl pa pb)
        (tiebreak_at_six fl pa pb)
        (tiebreak_cell fl pa pb)
  unfolding tiebreak_cell
  tiebreak_cell-IsCell = record {
    untouched = λ n a i j w d. ground arith;
    last = λ a b w free e ha hb. ground arith;
    step = λ a b w free l ha hb. ground arith;
    ends = λ a b free ha hb top. unfold tiebreak_over in ground arith;
  }

  tiebreak_at_six-share_of_squares :
      tiebreak_at_six fl pa pb
      ≡ share_of_squares fl (mul pa (sub (of_int 1) pb)) (mul (sub (of_int 1) pa) pb)
  unfolding tiebreak_at_six
  tiebreak_at_six-share_of_squares = two_point_race-share_of_squares fl _ _

  -- The table of `Tiebreak` gives the chance of winning a race to seven points, by recursion on the
  -- points: A serves the first, and then the serve changes after every two; the server wins a point
  -- with the chance `pa` or `pb`. The value at six all is `x²` of `x² + y²`, where `x` is the chance
  -- that A wins both of two points, one on each serve, and `y` that B does, or one half where this sum
  -- is zero.
  pub tiebreak-race :
      tiebreak fl pa pb
      ≡ race fl first_to_seven
          (λ n. if serves_point n then pa else sub (of_int 1) pb)
          (share_of_squares fl (mul pa (sub (of_int 1) pb)) (mul (sub (of_int 1) pa) pb))
          12
          0
          0
  unfolding tiebreak
  tiebreak-race =
      fill-worth fl tiebreak_over _ _ (tiebreak_cell fl pa pb) tiebreak_cell-IsCell (empty_table fl)
        0 0 (omega arith) (omega arith) (omega arith) (unfold tiebreak_over in refl)
      ∙ chance-race fl tiebreak_over first_to_seven (tiebreak_point fl pa pb) _
          (tiebreak_at_six fl pa pb) _
          (λ a b ha hb. unfold tiebreak_over first_to_seven in ground arith)
          (λ a b e ha hb. unfold tiebreak_over in ground arith)
          (tiebreak_point-serves_point fl pa pb) tiebreak_at_six-share_of_squares 12 0 0
          (omega arith) (omega arith)

module _ (fl : Float) (hold_a hold_b six_all : fl.F) where
  set_cell-IsCell :
      IsCell fl set_over (set_game fl hold_a hold_b) six_all (set_cell fl hold_a hold_b six_all)
  unfolding set_cell set_over
  set_cell-IsCell = record {
    untouched = λ n a i j w d. ground arith;
    last = λ a b w free e ha hb. ground arith;
    step = λ a b w free l ha hb. ground arith;
    ends = λ a b free ha hb top. ground arith;
  }

module _ (fl : Float) (pa pb : fl.F) where
  open fl use {of_int, sub, mul}

  -- What a set is worth at six all.
  abbrev pub six_games_all : Bool → fl.F
  six_games_all advantage =
      if advantage
      then share_of_squares fl (mul (game fl pa) (sub (of_int 1) (game fl pb)))
          (mul (sub (of_int 1) (game fl pa)) (game fl pb))
      else tiebreak fl pa pb

  at_six_all-six_games_all :
      (advantage : Bool) → at_six_all fl pa pb advantage ≡ six_games_all advantage
  unfolding at_six_all
  at_six_all-six_games_all true = two_point_race-share_of_squares fl _ _
  at_six_all-six_games_all false = refl

  -- The table of `Set` gives the chance of winning a race to six games with two clear, or to seven,
  -- by recursion on the games: A serves the first, and the serve changes after each; the server wins
  -- a game with the chance that `Game` gives. The value at six all is that of `Tiebreak`, or, with the
  -- advantage, `x²` of `x² + y²`, where `x` is the chance that A wins both of two games, one on each
  -- serve, and `y` that B does, or one half where this sum is zero.
  pub play_set-race :
      (advantage : Bool)
      → play_set fl pa pb advantage
        ≡ race fl six_clear_or_seven
            (λ n. if serves_game n then game fl pa else sub (of_int 1) (game fl pb))
            (six_games_all advantage)
            12
            0
            0
  unfolding play_set set_over
  play_set-race advantage =
      fill-worth fl set_over _ _ _
        (set_cell-IsCell fl (game fl pa) (game fl pb) (at_six_all fl pa pb advantage))
        (empty_table fl) 0 0 (omega arith) (omega arith) (omega arith) (unfold set_over in refl)
      ∙ chance-race fl set_over six_clear_or_seven (set_game fl (game fl pa) (game fl pb)) _
          (at_six_all fl pa pb advantage) _ set_over-six_clear_or_seven
          (λ a b e ha hb. unfold set_over in ground arith)
          (set_game-serves_game fl (game fl pa) (game fl pb)) (at_six_all-six_games_all advantage)
          12 0 0 (omega arith) (omega arith)

-- ===== src/Score/Totals/Counted.antt =====
-- internal/score/score.go: which sets `Tiebreaks` counts, and for whom.
use mathlib.Core.Path.{ap₂}
use tennis_wiki.Base.{
  ℕ, suc, ◌+◌, ◌≡◌, refl, ◌∙◌, ◌⊎◌, inl, inr, true, false, List, [], ◌∷◌, arith, Bool-cases,
}
use tennis_wiki.Base.Int
use tennis_wiki.Score.Model.{ScoreSet, has_tiebreak, tiebreak_set}
use tennis_wiki.Score.Totals.{tiebreaks_from, tiebreaks}

-- A set with seven games at least for one side, `a`, and one fewer for the other.
abbrev IsByOne : ℕ → ℕ → Type 0
IsByOne a b = (Int.lt a 7 ≡ false) × (Int.sub a b ≡ 1)

-- A set that a tiebreak decided: no match tiebreak, and either the points are written down, or the
-- side that has more games has seven at least and one more than the other.
pub record IsTiebreakSet (s : ScoreSet) : Type 0 where
  pub no_super : s.super_tiebreak ≡ false
  pub points_or_margin :
      ((Int.lt 0 s.tiebreak_winner ≡ true) ⊎ (Int.lt 0 s.tiebreak_loser ≡ true))
      ⊎ ((Int.lt s.games_winner s.games_loser ≡ false) × IsByOne s.games_winner s.games_loser)
      ⊎ ((Int.lt s.games_winner s.games_loser ≡ true) × IsByOne s.games_loser s.games_winner)

tiebreak_set-true : (s : ScoreSet) → tiebreak_set s ≡ true → IsTiebreakSet s
unfolding tiebreak_set has_tiebreak
tiebreak_set-true s h = elim (Bool-cases s.super_tiebreak) [
  | inl e ↦ absurd (ground (arith, e, h))
  | inr e ↦ record {
    no_super = e;
    points_or_margin = elim (Bool-cases (Int.lt 0 s.tiebreak_winner)) [
      | inl a ↦ inl (inl a)
      | inr a ↦ elim (Bool-cases (Int.lt 0 s.tiebreak_loser)) [
        | inl b ↦ inl (inr b)
        | inr b ↦ elim (Bool-cases (Int.lt s.games_winner s.games_loser)) [
          | inl c ↦ inr (inr (c, (ground (arith, a, b, c, e, h), ground (arith, a, b, c, e, h))))
          | inr c ↦ inr (inl (c, (ground (arith, a, b, c, e, h), ground (arith, a, b, c, e, h))))
        ]
      ]
    ];
  }
]

tiebreak_set-IsTiebreakSet : (s : ScoreSet) → IsTiebreakSet s → tiebreak_set s ≡ true
unfolding tiebreak_set has_tiebreak
tiebreak_set-IsTiebreakSet s h = ground (arith, h.no_super, h.points_or_margin)

-- The tiebreaks that each side won: those of the sets that it won by more games.
pub data IsCounted : List ScoreSet → ℕ → ℕ → Type 0 where
  none_left : IsCounted [] 0 0
  for_winner :
      {s : ScoreSet} {ss : List ScoreSet} {w l : ℕ}
      → IsTiebreakSet s
      → Int.lt s.games_loser s.games_winner ≡ true
      → IsCounted ss w l
      → IsCounted (s ∷ ss) (suc w) l
  for_loser :
      {s : ScoreSet} {ss : List ScoreSet} {w l : ℕ}
      → IsTiebreakSet s
      → Int.lt s.games_winner s.games_loser ≡ true
      → IsCounted ss w l
      → IsCounted (s ∷ ss) w (suc l)
  no_tiebreak :
      {s : ScoreSet} {ss : List ScoreSet} {w l : ℕ}
      → ¬ IsTiebreakSet s
      → IsCounted ss w l
      → IsCounted (s ∷ ss) w l
  level_games :
      {s : ScoreSet} {ss : List ScoreSet} {w l : ℕ}
      → Int.lt s.games_loser s.games_winner ≡ false
      → Int.lt s.games_winner s.games_loser ≡ false
      → IsCounted ss w l
      → IsCounted (s ∷ ss) w l

-- The loop adds the tiebreaks of the sets that are left to its counters.
tiebreaks_from-IsCounted :
    (ss : List ScoreSet) (w l : ℕ)
    → (a : ℕ) × (b : ℕ) × IsCounted ss a b × (tiebreaks_from w l ss ≡ (w + a, l + b))
unfolding tiebreaks_from
tiebreaks_from-IsCounted [] w l = (0, 0, none_left, ap₂ (λ x y. (x, y)) (omega arith) (omega arith))
tiebreaks_from-IsCounted (s ∷ ss) w l = elim (Bool-cases (tiebreak_set s)) [
  | inr e ↦
      let (a, b, c, r) = tiebreaks_from-IsCounted ss w l in
      rw e (a, b, no_tiebreak (λ k. cc (e, tiebreak_set-IsTiebreakSet s k)) c, r)
  | inl e ↦ elim (Bool-cases (Int.lt s.games_loser s.games_winner)) [
    | inl f ↦
        let (a, b, c, r) = tiebreaks_from-IsCounted ss (w + 1) l in
        rw (e, f)
          (
            suc a,
            b,
            for_winner (tiebreak_set-true s e) f c,
            r ∙ ap₂ (λ x y. (x, y)) (omega arith) refl,
          )
    | inr f ↦ elim (Bool-cases (Int.lt s.games_winner s.games_loser)) [
      | inl g ↦
          let (a, b, c, r) = tiebreaks_from-IsCounted ss w (l + 1) in
          rw (e, f, g)
            (
              a,
              suc b,
              for_loser (tiebreak_set-true s e) g c,
              r ∙ ap₂ (λ x y. (x, y)) refl (omega arith),
            )
      | inr g ↦
          let (a, b, c, r) = tiebreaks_from-IsCounted ss w l in
          rw (e, f, g) (a, b, level_games f g c, r)
    ]
  ]
]

-- `Tiebreaks` counts a set for the side that won more games of it, if a tiebreak decided the set: it
-- is no match tiebreak, and its tiebreak points are written down or it was won by one game with seven
-- at least. It counts no other set.
pub tiebreaks-IsCounted : (ss : List ScoreSet) → IsCounted ss (tiebreaks ss).0 (tiebreaks ss).1
unfolding tiebreaks
tiebreaks-IsCounted ss =
    let (a, b, c, r) = tiebreaks_from-IsCounted ss 0 0 in
    let added : tiebreaks_from 0 0 ss ≡ (a, b) =
      r ∙ ap₂ (λ x y. (x, y)) (omega arith) (omega arith) in
    rw added c

-- ===== src/Simulate/Play.antt =====
-- internal/simulate/montecarlo.go: one run of a draw, and how the runs are shared out. The field
-- is the array that the program halves in place. A win is the comparison of the next number drawn
-- with the odds of a pair: `beats n a c` says whether draw number `n` is below the odds of `a`
-- over `c`.
pub mod Halving
pub mod Shares
use tennis_wiki.Base.{
  ℕ, zero, suc, ◌+◌, ◌-◌, ◌*◌, ◌/◌, ◌%◌, Bool, true, false, List, [], ◌∷◌, ◌++◌, ltb, if◌then◌else◌,
  length, get_or, set,
}

-- `for i := range field { field[i] = i }`
unfoldable pub range_from : ℕ → ℕ → List ℕ
range_from i zero = []
range_from i (suc n) = i ∷ range_from (i + 1) n

-- What the loops change: the field, the tally and how many numbers were drawn.
pub record Run : Type 0 where
  pub field : List ℕ
  pub tally : List ℕ
  pub drawn : ℕ

-- `tally[i]++`
abbrev pub bump : List ℕ → ℕ → List ℕ
bump tally i = set tally i (get_or tally i 0 + 1)

module _ (beats : ℕ → ℕ → ℕ → Bool) (rounds : ℕ) where
  -- One pairing, at positions `2 * p` and `2 * p + 1`: the winner goes to position `p`.
  unfoldable pub play_pair : ℕ → ℕ → Run → Run
  play_pair r p s =
      let a = get_or s.field (2 * p) 0 in
      let c = get_or s.field (2 * p + 1) 0 in
      let winner = if beats s.drawn a c then a else c in
      record {
        field = set s.field p winner;
        tally = bump s.tally (winner * rounds + r);
        drawn = s.drawn + 1;
      }

  -- The loop over the pairings of round `r`, `n` of them left from pairing `p` on.
  unfoldable pub play_pairs : ℕ → ℕ → ℕ → Run → Run
  play_pairs r p zero s = s
  play_pairs r p (suc n) s = play_pairs r (p + 1) n (play_pair r p s)

  -- The loop over the rounds, `n` of them left: with `alive` players, `alive / 2` pairings.
  unfoldable pub play_rounds : ℕ → ℕ → ℕ → Run → Run
  play_rounds r alive zero s = s
  play_rounds r alive (suc n) s =
      play_rounds (r + 1) (alive / 2) n (play_pairs r 0 ((alive + 1) / 2) s)

  -- `playOnce`
  unfoldable pub play_once : ℕ → List ℕ → ℕ → Run
  play_once size tally drawn =
      play_rounds 0 size rounds (record { field = range_from 0 size; tally = tally; drawn = drawn })

-- How many of `runs` runs worker `w` of `workers` makes.
unfoldable pub share : ℕ → ℕ → ℕ → ℕ
share runs workers w = if ltb w (runs % workers) then runs / workers + 1 else runs / workers

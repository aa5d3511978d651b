-- ===== src/Simulate/Draw/Tree.antt =====
-- internal/simulate/draw.go: the tree of matches that `walk` follows.
use tennis_wiki.Base.{
  ℕ, zero, suc, ◌+◌, ◌^◌, ◌≡◌, ◌∙◌, refl, ap, ◌⊎◌, ==_iff, inl, inr, Bool, true, false, List, [],
  ◌∷◌, ◌++◌, some, ◌==◌, if◌then◌else◌, length, length-append, arith, Option-cases, append_assoc,
}
use mathlib.Core.List.{Memᴰ}
use mathlib.Core.Path.{subst}
use mathlib.Core.List.Memᴰ
use native.Mathlib.Nat.{pow-suc}
use tennis_wiki.Base.Result.{ok, ok_chain}
use tennis_wiki.Simulate.Draw.{
  BracketMatch, Entrant, is_bye, bye_line, in_round, round_order, round_at, won_by, walk, won_at,
}

-- A match of the list, played in the round at this depth and won by this player.
pub record Played (ms : List BracketMatch) (depth winner : ℕ) (m : BracketMatch) : Type 0 where
  pub listed : Memᴰ m ms
  pub at_depth : m.round_idx ≡ round_at (round_order ms) depth
  pub won : m.winner_id ≡ winner

-- The lines of a draw under a player at a depth, with its byes: a player above an empty line, the
-- two lines of a first-round match that the player won, or the draws of the two sides of a match
-- that the player won above.
pub data Lines (players : ℕ → Entrant) (ms : List BracketMatch)
    : ℕ → ℕ → List Entrant → ℕ → Type 0 where
  bye :
      {w b : ℕ} {l : List Entrant}
      → l ≡ players w ∷ bye_line ∷ []
      → b ≡ 1
      → Lines players ms zero w l b
  opening :
      {w b : ℕ} {l : List Entrant} {m : BracketMatch}
      → Played ms zero w m
      → l ≡ players w ∷ players m.loser_id ∷ []
      → b ≡ 0
      → Lines players ms zero w l b
  meeting :
      {d w b c e : ℕ} {l r t : List Entrant} {m : BracketMatch}
      → Played ms (suc d) w m
      → Lines players ms d w l b
      → Lines players ms d m.loser_id r c
      → t ≡ l ++ r
      → e ≡ b + c
      → Lines players ms (suc d) w t e

won_by-cons :
    (w : ℕ) (x : BracketMatch) (ms : List BracketMatch) {m : BracketMatch}
    → won_by w (x ∷ ms) ≡ some m
    → (won_by w ms ≡ some m) ⊎ ((m ≡ x) × (x.winner_id ≡ w))
unfolding won_by
won_by-cons w x ms h = ground arith

won_by-Memᴰ :
    (w : ℕ) (ms : List BracketMatch) {m : BracketMatch}
    → won_by w ms ≡ some m
    → Memᴰ m ms × (m.winner_id ≡ w)
won_by-Memᴰ w [] h = unfold won_by in cc
won_by-Memᴰ w (x ∷ ms) h = elim (won_by-cons w x ms h) [
  | inl later ↦ let (mem, wins) = won_by-Memᴰ w ms later in (Memᴰ.tail mem, wins)
  | inr (e, wins) ↦ (Memᴰ.head e, ap (λ k. k.winner_id) e ∙ wins)
]

Memᴰ-if :
    (b : Bool) {m x : BracketMatch} (xs : List BracketMatch)
    → Memᴰ m (if b then x ∷ xs else xs)
    → ((m ≡ x) × (b ≡ true)) ⊎ Memᴰ m xs
Memᴰ-if false xs h = inr h
Memᴰ-if true xs (Memᴰ.head e) = inl (e, refl)
Memᴰ-if true xs (Memᴰ.tail h) = inr h

in_round-Memᴰ :
    (idx : ℕ) (ms : List BracketMatch) {m : BracketMatch}
    → Memᴰ m (in_round idx ms)
    → Memᴰ m ms × (m.round_idx ≡ idx)
unfolding in_round
in_round-Memᴰ idx [] h = elim h [ ]
in_round-Memᴰ idx (x ∷ ms) h = elim (Memᴰ-if (x.round_idx == idx) (in_round idx ms) h) [
  | inl (e, same) ↦ (Memᴰ.head e, ap (λ k. k.round_idx) e ∙ (==_iff x.round_idx idx).0 same)
  | inr inside ↦ let (mem, at) = in_round-Memᴰ idx ms inside in (Memᴰ.tail mem, at)
]

won_at-Played :
    (ms : List BracketMatch) (d w : ℕ) {m : BracketMatch} → won_at ms d w ≡ some m → Played ms d w m
won_at-Played ms d w h =
    let (inside, wins) = won_by-Memᴰ w (in_round (round_at (round_order ms) d) ms) h in
    let (mem, at) = in_round-Memᴰ (round_at (round_order ms) d) ms inside in
    record { listed = mem; at_depth = at; won = wins }

module _ (players : ℕ → Entrant) (ms : List BracketMatch) where
  -- What `walk` adds to the entrants and to the byes.
  abbrev pub Walked : ℕ → ℕ → List Entrant → ℕ → List Entrant × ℕ → Type 0
  Walked d w es b r =
      (l : List Entrant) × (c : ℕ) × (r.0 ≡ es ++ l) × (r.1 ≡ b + c) × Lines players ms d w l c

  -- Above the first round the walk goes down both sides of the match.
  walk_sides :
      (d w : ℕ) (es : List Entrant) (b : ℕ) {m : BracketMatch} {r : List Entrant × ℕ}
      → won_at ms (suc d) w ≡ some m
      → walk players (won_at ms) (suc d) w es b ≡ ok r
      → (left : List Entrant × ℕ) × (walk players (won_at ms) d m.winner_id es b ≡ ok left)
        × (walk players (won_at ms) d m.loser_id left.0 left.1 ≡ ok r)
  unfolding walk
  walk_sides d w es b {m} e h =
      ok_chain (walk players (won_at ms) d m.winner_id es b) _ (rw (e, walk) at h)

  pub walk-Lines :
      (d w : ℕ) (es : List Entrant) (b : ℕ) {r : List Entrant × ℕ}
      → walk players (won_at ms) d w es b ≡ ok r
      → Walked d w es b r
  unfolding walk
  walk-Lines zero w es b h = elim (Option-cases (won_at ms zero w)) [
    | inl e ↦ (players w ∷ bye_line ∷ [], 1, ground arith, ground arith, bye refl refl)
    | inr (m, e) ↦
        let p = won_at-Played ms zero w e in
        (
          players w ∷ players m.loser_id ∷ [],
          0,
          ground (arith, p.won),
          ground arith,
          opening p refl refl,
        )
  ]
  walk-Lines (suc d) w es b h = elim (Option-cases (won_at ms (suc d) w)) [
    | inl e ↦ absurd (ground (arith, e, h))
    | inr (m, e) ↦
        let p = won_at-Played ms (suc d) w e in
        let (left, first, second) = walk_sides d w es b e h in
        let (l, bl, el, nl, dl) = walk-Lines d m.winner_id es b first in
        let (r, br, er, nr, dr) = walk-Lines d m.loser_id left.0 left.1 second in
        (
          l ++ r,
          bl + br,
          ground (arith, append_assoc es l r),
          ground arith,
          meeting p (subst (λ v. Lines players ms d v l bl) p.won dl) dr refl refl,
        )
  ]

-- Twice as many lines at each depth.
pub Lines-length :
    {players : ℕ → Entrant} {ms : List BracketMatch} {d w b : ℕ} {l : List Entrant}
    → Lines players ms d w l b
    → length l ≡ 2 ^ suc d
Lines-length (bye e _) = rw e
Lines-length (opening p e _) = rw e
Lines-length (meeting {d = d} {l = l} {r = r} p left right e _) =
    rw (e, length-append l r, Lines-length left, Lines-length right)
      (omega (arith, pow-suc 2 (suc d)))

-- The player above is in the draw.
pub Lines-Memᴰ :
    {players : ℕ → Entrant} {ms : List BracketMatch} {d w b : ℕ} {l : List Entrant}
    → Lines players ms d w l b
    → Memᴰ (players w) l
Lines-Memᴰ (bye e _) = rw e (Memᴰ.head refl)
Lines-Memᴰ (opening p e _) = rw e (Memᴰ.head refl)
Lines-Memᴰ (meeting {l = l} {r = r} p left right e _) = rw e (Memᴰ.append_left r (Lines-Memᴰ left))

abbrev pub count_byes : List Entrant → ℕ
count_byes [] = 0
count_byes (e ∷ es) = (if is_bye e then 1 else 0) + count_byes es

-- Every player that the matches name is in the map, with an id that is not zero.
pub record AllKnown (players : ℕ → Entrant) (ms : List BracketMatch) : Type 0 where
  pub winner_known : (m : BracketMatch) → Memᴰ m ms → is_bye (players m.winner_id) ≡ false
  pub loser_known : (m : BracketMatch) → Memᴰ m ms → is_bye (players m.loser_id) ≡ false

count_byes-append : (l r : List Entrant) → count_byes (l ++ r) ≡ count_byes l + count_byes r
count_byes-append [] r = omega arith
count_byes-append (e ∷ l) r = omega (arith, count_byes-append l r)

-- The empty lines are as many as the counter says.
pub Lines-count_byes :
    {players : ℕ → Entrant} {ms : List BracketMatch} {d w b : ℕ} {l : List Entrant}
    → AllKnown players ms
    → is_bye (players w) ≡ false
    → Lines players ms d w l b
    → count_byes l ≡ b
Lines-count_byes k known (bye e n) = rw (e, n) (ground arith)
Lines-count_byes k known (opening {m = m} p e n) =
    rw (e, n) (ground (arith, k.loser_known m p.listed))
Lines-count_byes k known (meeting {l = l} {r = r} {m = m} p left right e n) =
    rw (e, n)
      (omega (
        arith,
        count_byes-append l r,
        Lines-count_byes k known left,
        Lines-count_byes k (k.loser_known m p.listed) right,
      ))

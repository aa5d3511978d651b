-- ===== src/Simulate/Anchor.antt =====
-- internal/simulate/anchor.go: how far the lookup of a serve baseline widens. The counts are the
-- database's, far below 2 ^ 63, so their sums do not wrap; the rate is the pair that is divided.
use tennis_wiki.Base.{
  ℕ, ◌+◌, ◌≤◌, ◌<◌, ◌≡◌, Bool, true, false, ◌&&◌, ◌||◌, List, [], ◌∷◌, ltb, leb, ◌==◌,
  if◌then◌else◌, refl, arith,
}
use tennis_wiki.Base.Text.{Bytes, equal}
pub mod Pools
pub mod Widening

pub record Baseline : Type 0 where
  pub tier : Bytes
  pub surface : Bytes
  pub decade : ℕ
  pub serve_points : ℕ
  pub serve_won : ℕ

pub data Scope : Type 0 where
  exact_scope surface_scope tier_scope tour_scope no_scope : Scope

abbrev pub min_anchor_points : ℕ
min_anchor_points = 1000

-- Points won and points played.
pub record Pool : Type 0 where
  pub won : ℕ
  pub total : ℕ

-- The result of `Anchor`: its rate is `rate.won / rate.total`, and 0 where there is no scope.
pub record Anchored : Type 0 where
  pub rate : Pool
  pub scope : Scope
  pub points : ℕ

-- Whether a cell belongs to a candidate.
unfoldable pub in_scope : Bytes → Bytes → ℕ → Scope → Baseline → Bool
unfolding equal
in_scope tier surface decade exact_scope b =
    equal b.tier tier && equal b.surface surface && b.decade == decade
in_scope tier surface decade surface_scope b = equal b.tier tier && equal b.surface surface
in_scope tier surface decade tier_scope b = equal b.tier tier
in_scope tier surface decade tour_scope b = true
in_scope tier surface decade no_scope b = false

-- The loop over the cells.
unfoldable pub pool : (Baseline → Bool) → List Baseline → Pool → Pool
pool test [] p = p
pool test (b ∷ cells) p =
    pool test cells
      (if test b then record { won = p.won + b.serve_won; total = p.total + b.serve_points } else p)

abbrev is_tour : Scope → Bool
is_tour tour_scope = true
is_tour _ = false

-- The test that a candidate passes.
abbrev pub enough : (Scope → Pool) → Scope → Bool
enough pooled c = leb min_anchor_points (pooled c).total || is_tour c && ltb 0 (pooled c).total

abbrev pub answer : (Scope → Pool) → Scope → Anchored
answer pooled c = record { rate = pooled c; scope = c; points = (pooled c).total }

-- The loop over the candidates.
unfoldable pub widen : (Scope → Pool) → List Scope → Anchored
widen pooled [] = record { rate = record { won = 0; total = 0 }; scope = no_scope; points = 0 }
widen pooled (c ∷ cs) = elim (enough pooled c) [ true ↦ answer pooled c | false ↦ widen pooled cs ]

abbrev pub candidates : List Scope
candidates = exact_scope ∷ surface_scope ∷ tier_scope ∷ tour_scope ∷ []

-- The pool of a candidate.
abbrev pub pool_of : List Baseline → Bytes → Bytes → ℕ → Scope → Pool
pool_of cells tier surface decade c =
    pool (in_scope tier surface decade c) cells (record { won = 0; total = 0 })

-- `Anchor`
unfoldable pub anchor : List Baseline → Bytes → Bytes → ℕ → Anchored
anchor cells tier surface decade = widen (pool_of cells tier surface decade) candidates

-- ===== src/Simulate/Anchor/Pools.antt =====
-- internal/simulate/anchor.go: what the pool of a scope sums up.
use tennis_wiki.Base.{ℕ, ◌+◌, ◌≡◌, Bool, true, false, List, [], ◌∷◌, arith, Bool-cases, inl, inr}
use tennis_wiki.Base.Text.{Bytes, equal}
use tennis_wiki.Base.Text.Words.{equal-true, equal_refl}
use tennis_wiki.Simulate.Anchor.{
  Baseline, Scope, exact_scope, surface_scope, tier_scope, tour_scope, no_scope, Pool, in_scope,
  pool,
}

-- The cells that belong to a scope.
abbrev pub InScope : Bytes → Bytes → ℕ → Scope → Baseline → Type 0
InScope tier surface decade exact_scope b =
    (b.tier ≡ tier) × (b.surface ≡ surface) × (b.decade ≡ decade)
InScope tier surface decade surface_scope b = (b.tier ≡ tier) × (b.surface ≡ surface)
InScope tier surface decade tier_scope b = b.tier ≡ tier
InScope tier surface decade tour_scope b = Unit
InScope tier surface decade no_scope b = ⊥

-- The points of service won, `w`, and played, `n`, that the cells of a scope sum up to.
pub data IsPooled (In : Baseline → Type 0) : List Baseline → ℕ → ℕ → Type 0 where
  empty : IsPooled In [] 0 0
  counted :
      {b : Baseline} {cells : List Baseline} {w n w' n' : ℕ}
      → In b
      → IsPooled In cells w n
      → w' ≡ b.serve_won + w
      → n' ≡ b.serve_points + n
      → IsPooled In (b ∷ cells) w' n'
  passed :
      {b : Baseline} {cells : List Baseline} {w n : ℕ}
      → ¬ In b
      → IsPooled In cells w n
      → IsPooled In (b ∷ cells) w n

pool_adds :
    (test : Baseline → Bool) (cells : List Baseline) (p : Pool)
    → ((pool test cells p).won ≡ p.won + (pool test cells (record { won = 0; total = 0 })).won)
      × ((pool test cells p).total
          ≡ p.total + (pool test cells (record { won = 0; total = 0 })).total)
unfolding pool
pool_adds test [] p = (omega arith, omega arith)
pool_adds test (b ∷ cells) p = elim (Bool-cases (test b)) [
  | inr e ↦ rw (e, pool) (pool_adds test cells p)
  | inl e ↦
      let more : Pool = record { won = p.won + b.serve_won; total = p.total + b.serve_points } in
      let one : Pool = record { won = 0 + b.serve_won; total = 0 + b.serve_points } in
      let here = pool_adds test cells more in
      let there = pool_adds test cells one in
      rw (e, pool) (omega (arith, here.0, there.0), omega (arith, here.1, there.1))
]

pub pool-IsPooled :
    (test : Baseline → Bool) (In : Baseline → Type 0)
    → ((b : Baseline) → test b ≡ true → In b)
    → ((b : Baseline) → test b ≡ false → ¬ In b)
    → (cells : List Baseline)
    → IsPooled In cells
        (pool test cells (record { won = 0; total = 0 })).won
        (pool test cells (record { won = 0; total = 0 })).total
unfolding pool
pool-IsPooled test In yeses noes [] = empty
pool-IsPooled test In yeses noes (b ∷ cells) = elim (Bool-cases (test b)) [
  | inl e ↦
      let one : Pool = record { won = 0 + b.serve_won; total = 0 + b.serve_points } in
      let sums = pool_adds test cells one in
      rw (e, pool)
        (counted (yeses b e) (pool-IsPooled test In yeses noes cells) (omega (arith, sums.0))
          (omega (arith, sums.1)))
  | inr e ↦ rw (e, pool) (passed (noes b e) (pool-IsPooled test In yeses noes cells))
]

pub in_scope-true :
    (tier surface : Bytes) (decade : ℕ) (c : Scope) (b : Baseline)
    → in_scope tier surface decade c b ≡ true
    → InScope tier surface decade c b
unfolding in_scope
in_scope-true tier surface decade exact_scope b h = (
  equal-true b.tier tier (ground (arith, h)),
  equal-true b.surface surface (ground (arith, h)),
  ground (arith, h),
)
in_scope-true tier surface decade surface_scope b h =
    (equal-true b.tier tier (ground (arith, h)), equal-true b.surface surface (ground (arith, h)))
in_scope-true tier surface decade tier_scope b h = equal-true b.tier tier h
in_scope-true tier surface decade tour_scope b h = tt
in_scope-true tier surface decade no_scope b h = cc

equal_of_eq : (s t : Bytes) → s ≡ t → equal s t ≡ true
equal_of_eq s t e = rw e (equal_refl t)

pub in_scope-false :
    (tier surface : Bytes) (decade : ℕ) (c : Scope) (b : Baseline)
    → in_scope tier surface decade c b ≡ false
    → ¬ InScope tier surface decade c b
unfolding in_scope
in_scope-false tier surface decade exact_scope b h =
    λ k. ground (arith, h, equal_of_eq b.tier tier k.0, equal_of_eq b.surface surface k.1, k.2)
in_scope-false tier surface decade surface_scope b h =
    λ k. ground (arith, h, equal_of_eq b.tier tier k.0, equal_of_eq b.surface surface k.1)
in_scope-false tier surface decade tier_scope b h =
    λ k. ground (arith, h, equal_of_eq b.tier tier k)
in_scope-false tier surface decade tour_scope b h = λ k. cc
in_scope-false tier surface decade no_scope b h = λ k. k

pub none-IsPooled : (cells : List Baseline) → IsPooled (λ b. ⊥) cells 0 0
none-IsPooled [] = empty
none-IsPooled (b ∷ cells) = passed (λ k. k) (none-IsPooled cells)

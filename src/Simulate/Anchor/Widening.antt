-- ===== src/Simulate/Anchor/Widening.antt =====
-- internal/simulate/anchor.go: which scope the lookup stops at.
use tennis_wiki.Base.{
  ℕ, ◌≤◌, ◌<◌, ◌≡◌, Bool, true, false, List, [], ◌∷◌, refl, arith, Bool-cases, inl, inr,
}
use tennis_wiki.Base.Text.{Bytes}
use tennis_wiki.Simulate.Anchor.Pools.{
  InScope, IsPooled, none-IsPooled, pool-IsPooled, in_scope-true, in_scope-false,
}
use tennis_wiki.Simulate.Anchor.{
  Baseline, Scope, exact_scope, surface_scope, tier_scope, tour_scope, no_scope, min_anchor_points,
  Pool, Anchored, in_scope, pool, enough, answer, widen, pool_of, anchor, enough, answer,
}

-- A narrower test pools at most what a wider one does.
pool_mono :
    (narrow wide : Baseline → Bool) (cells : List Baseline) (p q : Pool)
    → ((b : Baseline) → narrow b ≡ true → wide b ≡ true)
    → p.total ≤ q.total
    → (pool narrow cells p).total ≤ (pool wide cells q).total
unfolding pool
pool_mono narrow wide [] p q sub h = h
pool_mono narrow wide (b ∷ cells) p q sub h =
    pool_mono narrow wide cells _ _ sub (ground (arith, sub b))

widen_take :
    (pooled : Scope → Pool) (c : Scope) (cs : List Scope)
    → enough pooled c ≡ true
    → widen pooled (c ∷ cs) ≡ answer pooled c
unfolding widen
widen_take pooled c cs e = rw (e, widen)

widen_skip :
    (pooled : Scope → Pool) (c : Scope) (cs : List Scope)
    → enough pooled c ≡ false
    → widen pooled (c ∷ cs) ≡ widen pooled cs
unfolding widen
widen_skip pooled c cs e = rw (e, widen)

module _ (cells : List Baseline) (tier surface : Bytes) (decade : ℕ) where
  abbrev pub points_at : Scope → ℕ
  points_at c = (pool_of cells tier surface decade c).total

  exact_le_surface : points_at exact_scope ≤ points_at surface_scope
  exact_le_surface =
      pool_mono _ _ cells _ _ (λ b h. unfold in_scope in ground (arith, h)) (omega arith)

  surface_le_tier : points_at surface_scope ≤ points_at tier_scope
  surface_le_tier =
      pool_mono _ _ cells _ _ (λ b h. unfold in_scope in ground (arith, h)) (omega arith)

  tier_le_tour : points_at tier_scope ≤ points_at tour_scope
  tier_le_tour = pool_mono _ _ cells _ _ (λ b h. unfold in_scope in refl) (omega arith)

  none_le_tour : points_at no_scope ≤ points_at tour_scope
  none_le_tour = pool_mono _ _ cells _ _ (λ b h. unfold in_scope in refl) (omega arith)

  no_points : points_at tour_scope ≡ 0 → (c : Scope) → points_at c ≡ 0
  no_points h exact_scope = omega (arith, exact_le_surface, surface_le_tier, tier_le_tour)
  no_points h surface_scope = omega (arith, surface_le_tier, tier_le_tour)
  no_points h tier_scope = omega (arith, tier_le_tour)
  no_points h tour_scope = h
  no_points h no_scope = omega (arith, none_le_tour)

  -- What each answer says of the pools.
  abbrev pub Explains : Scope → Type 0
  Explains exact_scope = min_anchor_points ≤ points_at exact_scope
  Explains surface_scope =
      (points_at exact_scope < min_anchor_points) × (min_anchor_points ≤ points_at surface_scope)
  Explains tier_scope =
      (points_at surface_scope < min_anchor_points) × (min_anchor_points ≤ points_at tier_scope)
  Explains tour_scope = (points_at tier_scope < min_anchor_points) × (0 < points_at tour_scope)
  Explains no_scope = (c : Scope) → points_at c ≡ 0

  abbrev at : Scope → Pool
  at = pool_of cells tier surface decade

  -- What the lookup promises of its answer: the scope has enough points and no narrower one has,
  -- the rate and the points are those of the scope, and the pools are sums over the cells.
  pub record IsAnswer (r : Anchored) : Type 0 where
    pub explained : Explains r.scope
    pub rate_of_scope : IsPooled (InScope tier surface decade r.scope) cells r.rate.won r.rate.total
    pub points_of_scope : r.points ≡ r.rate.total
    pub pools :
        (c : Scope) → IsPooled (InScope tier surface decade c) cells (at c).won (points_at c)

  at-IsPooled :
      (c : Scope) → IsPooled (InScope tier surface decade c) cells (at c).won (points_at c)
  at-IsPooled c =
      pool-IsPooled (in_scope tier surface decade c) (InScope tier surface decade c)
        (in_scope-true tier surface decade c) (in_scope-false tier surface decade c) cells

  answer-IsAnswer : (c : Scope) → Explains c → IsAnswer (answer at c)
  answer-IsAnswer c h = record {
    explained = h;
    rate_of_scope = at-IsPooled c;
    points_of_scope = refl;
    pools = at-IsPooled;
  }

  from_tour : points_at tier_scope < min_anchor_points → IsAnswer (widen at (tour_scope ∷ []))
  from_tour h = elim (Bool-cases (enough at tour_scope)) [
    | inl e ↦ rw (widen_take at tour_scope [] e) (answer-IsAnswer tour_scope (h, ground (arith, e)))
    | inr e ↦
        let empty : points_at tour_scope ≡ 0 = ground (arith, e) in
        rw (widen_skip at tour_scope [] e) (
          unfold widen in
          record {
            explained = no_points empty;
            rate_of_scope = none-IsPooled cells;
            points_of_scope = refl;
            pools = at-IsPooled;
          })
  ]

  from_tier :
      points_at surface_scope < min_anchor_points
      → IsAnswer (widen at (tier_scope ∷ tour_scope ∷ []))
  from_tier h = elim (Bool-cases (enough at tier_scope)) [
    | inl e ↦
        rw (widen_take at tier_scope (tour_scope ∷ []) e)
          (answer-IsAnswer tier_scope (h, ground (arith, e)))
    | inr e ↦ rw (widen_skip at tier_scope (tour_scope ∷ []) e) (from_tour (ground (arith, e)))
  ]

  from_surface :
      points_at exact_scope < min_anchor_points
      → IsAnswer (widen at (surface_scope ∷ tier_scope ∷ tour_scope ∷ []))
  from_surface h = elim (Bool-cases (enough at surface_scope)) [
    | inl e ↦
        rw (widen_take at surface_scope (tier_scope ∷ tour_scope ∷ []) e)
          (answer-IsAnswer surface_scope (h, ground (arith, e)))
    | inr e ↦
        rw (widen_skip at surface_scope (tier_scope ∷ tour_scope ∷ []) e)
          (from_tier (ground (arith, e)))
  ]

  -- The lookup answers with the narrowest scope that has a thousand points, the whole tour if it has
  -- any, and nothing only if no scope has a point. The rate that it reports is the points won and
  -- played on serve, summed over the cells of the tier, surface and decade that the scope asks for.
  pub anchor-IsAnswer : IsAnswer (anchor cells tier surface decade)
  unfolding anchor
  anchor-IsAnswer = elim (Bool-cases (enough at exact_scope)) [
    | inl e ↦
        rw (widen_take at exact_scope (surface_scope ∷ tier_scope ∷ tour_scope ∷ []) e)
          (answer-IsAnswer exact_scope (ground (arith, e)))
    | inr e ↦
        rw (widen_skip at exact_scope (surface_scope ∷ tier_scope ∷ tour_scope ∷ []) e)
          (from_surface (ground (arith, e)))
  ]

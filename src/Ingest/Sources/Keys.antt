-- ===== src/Ingest/Sources/Keys.antt =====
-- internal/ingest/pipeline.go: the keys of the planned files.
use mathlib.Core.Path.{subst}
use mathlib.Core.List.Permᴰ
use tennis_wiki.Base.{
  ℕ, ◌<◌, ◌≡◌, ◌≢◌, refl, sym, ap, ◌∙◌, Bool, true, ◌&&◌, List, [], ◌∷◌, ◌++◌, inl, inr, Bool-cases,
  arith, some_injective, All, All-append, All-map, All-mono, All_both, All_perm,
}
use tennis_wiki.Base.Count.{keep}
use tennis_wiki.Base.Gather.{gather}
use tennis_wiki.Base.Int
use tennis_wiki.Base.Int.Decimal.{atoi-itoa}
use tennis_wiki.Base.Pairs.{Pairs, Pairs-perm, Pairs-map}
use tennis_wiki.Base.Sort.{sort, sort-perm}
use tennis_wiki.Base.Text.{Bytes, equal}
use tennis_wiki.Base.Text.Words.{equal-true}
use tennis_wiki.Ingest.{season_key}
use tennis_wiki.Ingest.Sources.{Source, covers, preferred, sources_for, Job, job_key, jobs_of, plan}

-- A season that a key can be read back from.
abbrev pub IsSeason : ℕ → Type 0
IsSeason y = (0 < y) × (y < Int.two_63)

season_key-injective :
    (m n : Bytes) (y z : ℕ)
    → IsSeason y
    → IsSeason z
    → season_key m y ≡ season_key n z
    → (m ≡ n) × (y ≡ z)
unfolding season_key
season_key-injective m n y z hy hz e = (
  ap (λ k. k.0) e,
  some_injective y z
      (sym (atoi-itoa y hy.0 hy.1) ∙ ap (λ k. Int.atoi k.1) e ∙ atoi-itoa z hz.0 hz.1),
)

module _ {ℓ κ} {B : Type ℓ} (R : B → B → Type κ) where
  Pairs-append :
      (xs ys : List B) → Pairs R xs → Pairs R ys → All (λ x. All (R x) ys) xs → Pairs R (xs ++ ys)
  Pairs-append [] ys h k c = k
  Pairs-append (x ∷ xs) ys h k c = (All-append (R x) xs ys h.0 c.0, Pairs-append xs ys h.1 k c.1)

  All-unit : (ys : List B) → All (λ y. All (R y) []) ys
  All-unit [] = tt
  All-unit (y ∷ ys) = (tt, All-unit ys)

module _ {ℓ κ μ} {A : Type ℓ} {B : Type κ} (R : B → B → Type μ) (f : A → List B) where
  across-gather :
      (ys : List B) (xs : List A)
      → All (λ a. All (λ y. All (R y) (f a)) ys) xs
      → All (λ y. All (R y) (gather f xs)) ys
  across-gather ys [] h = All-unit R ys
  across-gather ys (x ∷ xs) h =
      All-mono {P = λ y. All (R y) (f x) × All (R y) (gather f xs)}
        {Q = λ y. All (R y) (f x ++ gather f xs)}
        (λ y q. All-append (R y) (f x) (gather f xs) q.0 q.1) ys
        (All_both _ _ ys h.0 (across-gather ys xs h.1))

  Pairs-gather :
      (xs : List A)
      → All (λ a. Pairs R (f a)) xs
      → Pairs (λ a b. All (λ x. All (R x) (f b)) (f a)) xs
      → Pairs R (gather f xs)
  Pairs-gather [] h c = tt
  Pairs-gather (x ∷ xs) h c =
      Pairs-append R (f x) (gather f xs) h.0 (Pairs-gather xs h.1 c.1) (across-gather (f x) xs c.0)

module _ {ℓ κ} {A : Type ℓ} (test : A → Bool) where
  keep-All :
      (P : A → Type κ) (xs : List A) → All P xs → All (λ x. P x × (test x ≡ true)) (keep test xs)
  unfolding keep
  keep-All P [] h = tt
  keep-All P (x ∷ xs) h = elim (Bool-cases (test x)) [
    | inl e ↦ rw e ((h.0, e), keep-All P xs h.1)
    | inr e ↦ rw e (keep-All P xs h.1)
  ]

  keep-Pairs : (R : A → A → Type κ) (xs : List A) → Pairs R xs → Pairs R (keep test xs)
  unfolding keep
  keep-Pairs R [] h = tt
  keep-Pairs R (x ∷ xs) h = elim (Bool-cases (test x)) [
    | inl e ↦
        rw e (All-mono (λ y q. q.0) (keep test xs) (keep-All (R x) xs h.0), keep-Pairs R xs h.1)
    | inr e ↦ rw e (keep-Pairs R xs h.1)
  ]

abbrev pub HaveDistinctNames : List Source → Type 0
HaveDistinctNames = Pairs (λ a b. a.name ≢ b.name)

abbrev IsAny : Source → Type 0
IsAny s = Unit

IsAny-source : (xs : List Source) → All IsAny xs
IsAny-source [] = tt
IsAny-source (x ∷ xs) = (tt, IsAny-source xs)

abbrev AreApart : Job → Job → Type 0
AreApart j k = job_key j ≢ job_key k

-- A source's name tells its tour.
tour_of_name :
    (sources : List Source)
    → HaveDistinctNames sources
    → All (λ a. All (λ b. a.name ≡ b.name → a.tour ≡ b.tour) sources) sources
tour_of_name [] d = tt
tour_of_name (s ∷ sources) d = (
  ((λ e. refl), All-mono (λ b n e. absurd (n e)) sources d.0),
  All-mono {P = λ a. (s.name ≢ a.name) × All (λ b. a.name ≡ b.name → a.tour ≡ b.tour) sources}
      (λ a q. ((λ e. absurd (q.0 (sym e))), q.1)) sources
      (All_both _ _ sources d.0 (tour_of_name sources d.1)),
)

module _ (sources : List Source) where
  jobs_of-All :
      (P : Source → Type 0) (t : Bytes) (y : ℕ)
      → All P sources
      → All (λ j. P j.source × ((j.source.tour ≡ t) × (j.season ≡ y))) (jobs_of sources t y)
  unfolding sources_for
  jobs_of-All P t y h =
      All-map {P = λ s. P s × (s.tour ≡ t)} _ (λ s. record { source = s; season = y })
        (λ s q. (q.0, (q.1, refl))) (sources_for sources t y)
        (All_perm (λ s. P s × (s.tour ≡ t)) (Permᴰ.symm (sort-perm preferred _))
          (All-mono (λ s q. (q.0, equal-true s.tour t (ground (arith, q.1)))) _
            (keep-All (λ s. equal s.tour t && covers s y) P sources h)))

  jobs_of-Pairs :
      (t : Bytes) (y : ℕ)
      → IsSeason y
      → HaveDistinctNames sources
      → Pairs AreApart (jobs_of sources t y)
  unfolding sources_for job_key
  jobs_of-Pairs t y hy d =
      let chosen = keep (λ s. equal s.tour t && covers s y) sources in
      let apart : HaveDistinctNames (sort preferred chosen) =
        Pairs-perm (λ a b. a.name ≢ b.name) (λ a b n e. n (sym e))
          (Permᴰ.symm (sort-perm preferred chosen))
          (keep-Pairs (λ s. equal s.tour t && covers s y) (λ a b. a.name ≢ b.name) sources d) in
      Pairs-map {P = IsAny} {R = λ a b. a.name ≢ b.name} AreApart
        (λ s. record { source = s; season = y })
        (λ a b p q n e. n (season_key-injective a.name b.name y y hy hy e).0)
        (sort preferred chosen) (IsAny-source (sort preferred chosen)) apart

  -- Jobs of two seasons, and of two tours.
  seasons-AreApart :
      (t : Bytes) (y z : ℕ)
      → IsSeason y
      → IsSeason z
      → y ≢ z
      → All (λ j. All (AreApart j) (jobs_of sources t z)) (jobs_of sources t y)
  unfolding job_key
  seasons-AreApart t y z hy hz n =
      All-mono
        (λ j q.
          All-mono
            (λ k r e.
              let same =
                season_key-injective j.source.name k.source.name j.season k.season
                  (subst IsSeason (sym q.1.1) hy) (subst IsSeason (sym r.1.1) hz) e in
              n (sym q.1.1 ∙ same.1 ∙ r.1.1))
            (jobs_of sources t z) (jobs_of-All IsAny t z (IsAny-source sources)))
        (jobs_of sources t y) (jobs_of-All IsAny t y (IsAny-source sources))

  abbrev jobs_of_tour : List ℕ → Bytes → List Job
  jobs_of_tour seasons t = gather (λ y. jobs_of sources t y) seasons

  jobs_of_tour-All :
      (P : Source → Type 0) (t : Bytes) (seasons : List ℕ)
      → All P sources
      → All IsSeason seasons
      → All (λ j. P j.source × ((j.source.tour ≡ t) × IsSeason j.season)) (jobs_of_tour seasons t)
  jobs_of_tour-All P t [] h hs = tt
  jobs_of_tour-All P t (y ∷ seasons) h hs =
      All-append _ (jobs_of sources t y) (jobs_of_tour seasons t)
        (All-mono (λ j q. (q.0, (q.1.0, subst IsSeason (sym q.1.1) hs.0))) (jobs_of sources t y)
          (jobs_of-All P t y h))
        (jobs_of_tour-All P t seasons h hs.1)

  jobs_of_tour-Pairs :
      (t : Bytes) (seasons : List ℕ)
      → HaveDistinctNames sources
      → All IsSeason seasons
      → Pairs (λ y z. y ≢ z) seasons
      → Pairs AreApart (jobs_of_tour seasons t)
  jobs_of_tour-Pairs t seasons d hs n =
      Pairs-gather AreApart (λ y. jobs_of sources t y) seasons
        (All-mono (λ y hy. jobs_of-Pairs t y hy d) seasons hs) (crossed seasons hs n)
    where
      crossed :
          (ys : List ℕ)
          → All IsSeason ys
          → Pairs (λ y z. y ≢ z) ys
          → Pairs
              (λ y z. All (λ j. All (AreApart j) (jobs_of sources t z)) (jobs_of sources t y))
              ys
      crossed [] h m = tt
      crossed (y ∷ ys) h m = (
        All-mono (λ z q. seasons-AreApart t y z h.0 q.0 q.1) ys
            (All_both IsSeason (λ z. y ≢ z) ys h.1 m.0),
        crossed ys h.1 m.1,
      )

  tours-AreApart :
      (seasons : List ℕ) (t v : Bytes)
      → HaveDistinctNames sources
      → All IsSeason seasons
      → t ≢ v
      → All (λ j. All (AreApart j) (jobs_of_tour seasons v)) (jobs_of_tour seasons t)
  unfolding job_key
  tours-AreApart seasons t v d hs n =
      All-mono
        (λ j q.
          All-mono
            (λ k r e.
              let same =
                season_key-injective j.source.name k.source.name j.season k.season q.1.1 r.1.1 e in
              n (sym q.1.0 ∙ r.0 same.0 ∙ r.1.0))
            (jobs_of_tour seasons v)
            (jobs_of_tour-All (λ b. j.source.name ≡ b.name → j.source.tour ≡ b.tour) v seasons q.0
              hs))
        (jobs_of_tour seasons t)
        (jobs_of_tour-All (λ a. All (λ b. a.name ≡ b.name → a.tour ≡ b.tour) sources) t seasons
          (tour_of_name sources d) hs)

  -- The files that a run plans to read have different keys, if no two sources of the registry have
  -- the same name, no tour and no season is asked for twice, and every season is a positive number
  -- below `2 ^ 63`.
  pub plan-AreApart :
      (tours : List Bytes) (seasons : List ℕ)
      → HaveDistinctNames sources
      → Pairs (λ t v. t ≢ v) tours
      → All IsSeason seasons
      → Pairs (λ y z. y ≢ z) seasons
      → Pairs (λ j k. job_key j ≢ job_key k) (plan sources tours seasons)
  unfolding plan
  plan-AreApart tours seasons d n hs m =
      Pairs-gather AreApart (jobs_of_tour seasons) tours (each tours) (crossed tours n)
    where
      each : (ts : List Bytes) → All (λ t. Pairs AreApart (jobs_of_tour seasons t)) ts
      each [] = tt
      each (t ∷ ts) = (jobs_of_tour-Pairs t seasons d hs m, each ts)

      crossed :
          (ts : List Bytes)
          → Pairs (λ t v. t ≢ v) ts
          → Pairs
              (λ t v. All (λ j. All (AreApart j) (jobs_of_tour seasons v)) (jobs_of_tour seasons t))
              ts
      crossed [] q = tt
      crossed (t ∷ ts) q =
          (All-mono (λ v r. tours-AreApart seasons t v d hs r) ts q.0, crossed ts q.1)

-- ===== src/Rating/Keys/Sorting.antt =====
-- internal/rating/engine.go: the sorting of the keys of a flush.
use tennis_wiki.Base.{
  ℕ, ◌+◌, ◌*◌, ◌≤◌, ◌<◌, ◌≡◌, ◌≢◌, refl, List, [], ◌∷◌, ltb, ◌==◌, arith, All, All-mono, Bool-cases,
  inl, inr,
}
use tennis_wiki.Base.Text.{text_less}
use tennis_wiki.Rating.Keys.{
  Series, overall, hard, clay, grass, carpet, Key, series_name, same_series, same_key, key_less,
  insert, sort,
}

-- The place of a series in the order of the names.
abbrev pub rank : Series → ℕ
rank carpet = 0
rank clay = 1
rank grass = 2
rank hard = 3
rank overall = 4

-- A number for each key, in the order of the keys.
abbrev pub code : Key → ℕ
code k = k.player * 5 + rank k.series

rank_le : (s : Series) → rank s ≤ 4
rank_le overall = omega arith
rank_le _ = omega arith

less_rank : (s t : Series) → text_less (series_name s) (series_name t) ≡ ltb (rank s) (rank t)
unfolding text_less series_name
less_rank overall overall = refl
less_rank overall _ = refl
less_rank hard overall = refl
less_rank hard _ = refl
less_rank clay overall = refl
less_rank clay _ = refl
less_rank grass overall = refl
less_rank grass _ = refl
less_rank carpet overall = refl
less_rank carpet _ = refl

same_rank : (s t : Series) → same_series s t ≡ (rank s == rank t)
unfolding same_series series_name
same_rank overall overall = refl
same_rank overall _ = refl
same_rank hard overall = refl
same_rank hard _ = refl
same_rank clay overall = refl
same_rank clay _ = refl
same_rank grass overall = refl
same_rank grass _ = refl
same_rank carpet overall = refl
same_rank carpet _ = refl

pub key_less-code : (a b : Key) → key_less a b ≡ ltb (code a) (code b)
unfolding key_less
key_less-code a b = ground (arith, less_rank a.series b.series, rank_le a.series, rank_le b.series)

pub same_key-code : (a b : Key) → same_key a b ≡ (code a == code b)
unfolding same_key
same_key-code a b = ground (arith, same_rank a.series b.series, rank_le a.series, rank_le b.series)

-- No key of the list is this one; no two keys of the list are the same.
abbrev pub Fresh : Key → List Key → Type 0
Fresh k ks = All (λ j. code j ≢ code k) ks

abbrev pub AllDistinct : List Key → Type 0
AllDistinct [] = Unit
AllDistinct (k ∷ ks) = Fresh k ks × AllDistinct ks

-- Each key comes before all that follow it.
abbrev pub Increasing : List Key → Type 0
Increasing [] = Unit
Increasing (k ∷ ks) = All (λ j. code k < code j) ks × Increasing ks

All-insert {ℓ} : (P : Key → Type ℓ) (k : Key) (ks : List Key) → P k → All P ks → All P (insert k ks)
unfolding insert
All-insert P k [] p h = (p, tt)
All-insert P k (j ∷ ks) p h = elim (Bool-cases (key_less j k)) [
  | inl e ↦ rw e (h.0, All-insert P k ks p h.1)
  | inr e ↦ rw e (p, h)
]

pub All-sort {ℓ} : (P : Key → Type ℓ) (ks : List Key) → All P ks → All P (sort ks)
unfolding sort
All-sort P [] h = tt
All-sort P (k ∷ ks) h = All-insert P k (sort ks) h.0 (All-sort P ks h.1)

insert-Increasing :
    (k : Key) (ks : List Key) → Fresh k ks → Increasing ks → Increasing (insert k ks)
unfolding insert
insert-Increasing k [] f h = (tt, tt)
insert-Increasing k (j ∷ ks) f h = elim (Bool-cases (key_less j k)) [
  | inl e ↦ rw e (
    All-insert (λ i. code j < code i) k ks (ground (arith, e, key_less-code j k)) h.0,
    insert-Increasing k ks f.1 h.1,
  )
  | inr e ↦
      let first : code k < code j = ground (arith, e, key_less-code j k, f.0) in
      rw e ((first, All-mono (λ i l. omega (arith, first, l)) ks h.0), h)
]

-- Sorting distinct keys puts them in a strict order.
pub sort-Increasing : (ks : List Key) → AllDistinct ks → Increasing (sort ks)
unfolding sort
sort-Increasing [] h = tt
sort-Increasing (k ∷ ks) h =
    insert-Increasing k (sort ks) (All-sort (λ j. code j ≢ code k) ks h.0) (sort-Increasing ks h.1)

-- ===== src/Charting/Complete.antt =====
-- internal/charting/resolve.go: the keys that `NewIndex` files a row under.
pub mod Search
use mathlib.Core.List.{Memᴰ}
use mathlib.Core.List.Memᴰ
use tennis_wiki.Base.{
  ℕ, ◌≡◌, ◌≢◌, refl, sym, ◌∙◌, ap, Bool, true, false, not, ◌&&◌, ◌||◌, List, [], ◌∷◌, ◌++◌, leb,
  ◌==◌, arith, Bool-cases, ◌⊎◌, inl, inr, is_empty, if◌then◌else◌,
}
use mathlib.Core.Path.{subst}
use tennis_wiki.Base.Result.{Result, ok, err}
use tennis_wiki.Base.Text.{Bytes, equal, text_less}
use tennis_wiki.Base.Text.Words.{equal_refl, equal-true}
use tennis_wiki.Base.Text.Ordering.{text_less_asym, text_less_total}
use tennis_wiki.Name.{Unicode}
use tennis_wiki.Charting.People.{key, surnames, same_person}
use tennis_wiki.Charting.Resolve.{
  Candidate, Chart, Reason, no_match, more_than_one, Index, Hits, add_under, under, add_losers,
  add_winners, add_pair, in_window, was_seen, add_all, new_index, same_players, consider,
  consider_all, search_second, search_first, candidates, far, insert, sort, found_in, name_players,
  settle, resolve,
}

-- The order of the two surnames does not matter.
pub key_comm : (round a b : Bytes) → key round a b ≡ key round b a
unfolding key
key_comm round a b = elim (Bool-cases (text_less b a)) [
  | inl e ↦ rw (e, text_less_asym b a e) refl
  | inr e ↦ elim (Bool-cases (text_less a b)) [
    | inl f ↦ rw (e, f) refl
    | inr f ↦ rw (text_less_total a b f e) refl
  ]
]

Memᴰ-last : (c : Candidate) (cs : List Candidate) → Memᴰ c (cs ++ c ∷ [])
Memᴰ-last c [] = Memᴰ.head refl
Memᴰ-last c (d ∷ cs) = Memᴰ.tail (Memᴰ-last c cs)

Memᴰ-longer :
    {c : Candidate} {cs : List Candidate} (ds : List Candidate) → Memᴰ c cs → Memᴰ c (cs ++ ds)
Memᴰ-longer ds (Memᴰ.head e) = Memᴰ.head e
Memᴰ-longer ds (Memᴰ.tail h) = Memᴰ.tail (Memᴰ-longer ds h)

add_under-under : (k : Bytes) (c : Candidate) (ix : Index) → Memᴰ c (under k (add_under k c ix))
unfolding add_under under
add_under-under k c [] = rw (equal_refl k) (Memᴰ.head refl)
add_under-under k c ((j, cs) ∷ ix) = elim (Bool-cases (equal j k)) [
  | inl e ↦ rw (e, under, e) (Memᴰ-last c cs)
  | inr e ↦ rw (e, under, e) (add_under-under k c ix)
]

module _ (k : Bytes) (c : Candidate) where
  abbrev pub Listed : Index → Type 0
  Listed ix = Memᴰ c (under k ix)

  add_under-Listed :
      (j : Bytes) (d : Candidate) (ix : Index) → Listed ix → Listed (add_under j d ix)
  unfolding add_under under
  add_under-Listed j d [] h = absurd (Memᴰ.not-nil h)
  add_under-Listed j d ((i, cs) ∷ ix) h = elim (Bool-cases (equal i k)) [
    | inl e ↦ elim (Bool-cases (equal i j)) [
      | inl f ↦ rw (f, under, e) (Memᴰ-longer (d ∷ []) (rw e at h))
      | inr f ↦ rw (f, under, e) (rw e at h)
    ]
    | inr e ↦ elim (Bool-cases (equal i j)) [
      | inl f ↦ rw (f, under, e) (rw e at h)
      | inr f ↦ rw (f, under, e) (add_under-Listed j d ix (rw e at h))
    ]
  ]

  add_pair-Listed :
      (d : Candidate) (a b : Bytes) (ix : Index) → Listed ix → Listed (add_pair d a b ix)
  add_pair-Listed d a b ix h =
      add_under-Listed (key [] a b) d (add_under (key d.round a b) d ix)
        (add_under-Listed (key d.round a b) d ix h)

  add_losers-Listed :
      (d : Candidate) (a : Bytes) (bs : List Bytes) (ix : Index)
      → Listed ix
      → Listed (add_losers d a bs ix)
  unfolding add_losers
  add_losers-Listed d a [] ix h = h
  add_losers-Listed d a (b ∷ bs) ix h =
      add_losers-Listed d a bs (add_pair d a b ix) (add_pair-Listed d a b ix h)

  add_winners-Listed :
      (d : Candidate) (xs bs : List Bytes) (ix : Index)
      → Listed ix
      → Listed (add_winners d xs bs ix)
  unfolding add_winners
  add_winners-Listed d [] bs ix h = h
  add_winners-Listed d (a ∷ xs) bs ix h =
      add_winners-Listed d xs bs (add_losers d a bs ix) (add_losers-Listed d a bs ix h)

  add_all-Listed :
      (u : Unicode) (ds : List Candidate) (ix : Index) → Listed ix → Listed (add_all u ds ix)
  unfolding add_all
  add_all-Listed u [] ix h = h
  add_all-Listed u (d ∷ ds) ix h =
      add_all-Listed u ds (add_winners d (surnames u d.winner) (surnames u d.loser) ix)
        (add_winners-Listed d (surnames u d.winner) (surnames u d.loser) ix h)

module _ (c : Candidate) (a b : Bytes) where
  losers-Listed :
      (bs : List Bytes) (ix : Index) → Memᴰ b bs → Listed (key [] a b) c (add_losers c a bs ix)
  unfolding add_losers
  losers-Listed [] ix h = absurd (Memᴰ.not-nil h)
  losers-Listed (b' ∷ bs) ix (Memᴰ.head e) = rw e (
      add_losers-Listed (key [] a b') c c a bs (add_pair c a b' ix)
        (add_under-under (key [] a b') c (add_under (key c.round a b') c ix)))
  losers-Listed (b' ∷ bs) ix (Memᴰ.tail h) = losers-Listed bs (add_pair c a b' ix) h

  winners-Listed :
      (xs bs : List Bytes) (ix : Index)
      → Memᴰ a xs
      → Memᴰ b bs
      → Listed (key [] a b) c (add_winners c xs bs ix)
  unfolding add_winners
  winners-Listed [] bs ix h k = absurd (Memᴰ.not-nil h)
  winners-Listed (a' ∷ xs) bs ix (Memᴰ.head e) k =
      add_winners-Listed (key [] a b) c c xs bs (add_losers c a' bs ix)
        (subst (λ x. Listed (key [] a b) c (add_losers c x bs ix)) e (losers-Listed bs ix k))
  winners-Listed (a' ∷ xs) bs ix (Memᴰ.tail h) k = winners-Listed xs bs (add_losers c a' bs ix) h k

  -- A row stands in the index under each pair of its surnames.
  pub add_all-Listed_pair :
      (u : Unicode) (cs : List Candidate) (ix : Index)
      → Memᴰ c cs
      → Memᴰ a (surnames u c.winner)
      → Memᴰ b (surnames u c.loser)
      → Listed (key [] a b) c (add_all u cs ix)
  unfolding add_all
  add_all-Listed_pair u [] ix e h k = absurd (Memᴰ.not-nil e)
  add_all-Listed_pair u (d ∷ cs) ix (Memᴰ.head e) h k =
      subst
        (λ x.
          Listed (key [] a b) c
            (add_all u cs (add_winners x (surnames u x.winner) (surnames u x.loser) ix)))
        e
        (add_all-Listed (key [] a b) c u cs
          (add_winners c (surnames u c.winner) (surnames u c.loser) ix)
          (winners-Listed (surnames u c.winner) (surnames u c.loser) ix h k))
  add_all-Listed_pair u (d ∷ cs) ix (Memᴰ.tail e) h k =
      add_all-Listed_pair u cs (add_winners d (surnames u d.winner) (surnames u d.loser) ix) e h k

-- ===== src/Charting/Found.antt =====
-- internal/charting/resolve.go: the rows that the index and `candidates` can yield.
use mathlib.Core.List.{Memᴰ}
use tennis_wiki.Base.{
  ◌≡◌, refl, true, not, ◌&&◌, ◌||◌, List, [], ◌∷◌, arith, All, All-append, All-mono, Bool-cases,
  inl, inr, is_empty,
}
use tennis_wiki.Base.Text.{Bytes, equal}
use tennis_wiki.Name.{Unicode}
use tennis_wiki.Charting.People.{key, surnames}
use tennis_wiki.Charting.Resolve.{
  Candidate, Chart, Index, Hits, add_under, under, add_losers, add_winners, add_pair, in_window,
  was_seen, add_all, same_players, consider, consider_all, search_second, search_first, candidates,
  found_in,
}

module _ (P : Candidate → Type 0) where
  -- Every row of the index has the property.
  abbrev pub Indexed : Index → Type 0
  Indexed = All (λ e. All P e.1)

  add_under-Indexed :
      (k : Bytes) (c : Candidate) (ix : Index) → P c → Indexed ix → Indexed (add_under k c ix)
  unfolding add_under
  add_under-Indexed k c [] p h = ((p, tt), tt)
  add_under-Indexed k c ((j, cs) ∷ ix) p h = elim (Bool-cases (equal j k)) [
    | inl e ↦ rw e (All-append P cs (c ∷ []) h.0 (p, tt), h.1)
    | inr e ↦ rw e (h.0, add_under-Indexed k c ix p h.1)
  ]

  add_losers-Indexed :
      (c : Candidate) (a : Bytes) (bs : List Bytes) (ix : Index)
      → P c
      → Indexed ix
      → Indexed (add_losers c a bs ix)
  unfolding add_losers
  add_losers-Indexed c a [] ix p h = h
  add_losers-Indexed c a (b ∷ bs) ix p h = add_losers-Indexed c a bs (add_pair c a b ix) p (
      add_under-Indexed (key [] a b) c (add_under (key c.round a b) c ix) p
        (add_under-Indexed (key c.round a b) c ix p h))

  add_winners-Indexed :
      (c : Candidate) (xs bs : List Bytes) (ix : Index)
      → P c
      → Indexed ix
      → Indexed (add_winners c xs bs ix)
  unfolding add_winners
  add_winners-Indexed c [] bs ix p h = h
  add_winners-Indexed c (a ∷ xs) bs ix p h =
      add_winners-Indexed c xs bs (add_losers c a bs ix) p (add_losers-Indexed c a bs ix p h)

  under-Indexed : (k : Bytes) (ix : Index) → Indexed ix → All P (under k ix)
  unfolding under
  under-Indexed k [] h = tt
  under-Indexed k ((j, cs) ∷ ix) h = elim (Bool-cases (equal j k)) [
    | inl e ↦ rw e h.0
    | inr e ↦ rw e (under-Indexed k ix h.1)
  ]

  pub add_all-Indexed :
      (u : Unicode) (cs : List Candidate) (ix : Index)
      → All P cs
      → Indexed ix
      → Indexed (add_all u cs ix)
  unfolding add_all
  add_all-Indexed u [] ix p h = h
  add_all-Indexed u (c ∷ cs) ix p h =
      add_all-Indexed u cs (add_winners c (surnames u c.winner) (surnames u c.loser) ix) p.1
        (add_winners-Indexed c (surnames u c.winner) (surnames u c.loser) ix p.0 h)

module _ (u : Unicode) (m : Chart) (P : Candidate → Type 0) where
  -- What is found: a row of the index, in the window, of the two players.
  abbrev pub Hit : Candidate → Type 0
  Hit c = P c × (in_window m.played_on c.played_on ≡ true) × (same_players u m c ≡ true)

  consider-Hit :
      (c : Candidate) (h : Hits) → P c → All Hit h.found → All Hit (consider u m c h).found
  unfolding consider
  consider-Hit c h p a =
      elim (Bool-cases (was_seen c.match_id h.seen || not (in_window m.played_on c.played_on))) [
        | inl e ↦ rw e a
        | inr e ↦ elim (Bool-cases (same_players u m c)) [
          | inl f ↦ rw (e, f) (All-append Hit h.found (c ∷ []) a ((p, ground (arith, e), f), tt))
          | inr f ↦ rw (e, f) a
        ]
      ]

  consider_all-Hit :
      (cs : List Candidate) (h : Hits)
      → All P cs
      → All Hit h.found
      → All Hit (consider_all u m cs h).found
  unfolding consider_all
  consider_all-Hit [] h p a = a
  consider_all-Hit (c ∷ cs) h p a =
      consider_all-Hit cs (consider u m c h) p.1 (consider-Hit c h p.0 a)

  module _ (ix : Index) (inside : Indexed P ix) (round : Bytes) where
    search_second-Hit :
        (s1 : Bytes) (ss : List Bytes) (h : Hits)
        → All Hit h.found
        → All Hit (search_second u m ix round s1 ss h).found
    unfolding search_second
    search_second-Hit s1 [] h a = a
    search_second-Hit s1 (s2 ∷ ss) h a =
        search_second-Hit s1 ss (consider_all u m (under (key round s1 s2) ix) h) (
          consider_all-Hit (under (key round s1 s2) ix) h
            (under-Indexed P (key round s1 s2) ix inside) a)

    search_first-Hit :
        (ss bs : List Bytes) (h : Hits)
        → All Hit h.found
        → All Hit (search_first u m ix round ss bs h).found
    unfolding search_first
    search_first-Hit [] bs h a = a
    search_first-Hit (s1 ∷ ss) bs h a =
        search_first-Hit ss bs (search_second u m ix round s1 bs h) (search_second-Hit s1 bs h a)

    candidates-Hit : All Hit (candidates u m ix round)
    unfolding candidates
    candidates-Hit =
        search_first-Hit (surnames u m.player1) (surnames u m.player2)
          (record { found = []; seen = [] }) tt

  pub found_in-Hit : (ix : Index) → Indexed P ix → All Hit (found_in u m ix)
  unfolding found_in
  found_in-Hit ix h =
      elim (Bool-cases (is_empty (candidates u m ix m.round) && not (is_empty m.round))) [
        | inl e ↦ rw e (candidates-Hit ix h [])
        | inr e ↦ rw e (candidates-Hit ix h m.round)
      ]

pub All-Mem : (cs : List Candidate) → All (λ c. Memᴰ c cs) cs
All-Mem [] = tt
All-Mem (c ∷ cs) = (Memᴰ.head refl, All-mono (λ d k. Memᴰ.tail k) cs (All-Mem cs))

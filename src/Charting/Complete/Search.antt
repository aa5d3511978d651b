-- ===== src/Charting/Complete/Search.antt =====
-- internal/charting/resolve.go: which rows the search of `candidates` reaches.
use mathlib.Core.List.{Memᴰ}
use mathlib.Core.List.Memᴰ
use mathlib.Core.Path.{subst}
use tennis_wiki.Base.{
  ℕ, ◌≡◌, ◌≢◌, refl, ◌∙◌, Bool, true, false, not, ◌&&◌, ◌||◌, List, [], ◌∷◌, ◌++◌, leb, arith,
  Bool-cases, ◌⊎◌, inl, inr, is_empty, if◌then◌else◌,
}
use tennis_wiki.Base.Result.{err}
use tennis_wiki.Base.Text.{Bytes}
use tennis_wiki.Name.{Unicode}
use tennis_wiki.Charting.People.{key, surnames}
use tennis_wiki.Charting.Resolve.{
  Candidate, Chart, no_match, Index, Hits, under, in_window, was_seen, add_all, new_index,
  same_players, consider, consider_all, search_second, search_first, candidates, far, insert, sort,
  found_in, settle, resolve,
}
use tennis_wiki.Charting.Complete.{key_comm, Listed, add_all-Listed_pair}

module _ (u : Unicode) (m : Chart) where
  -- An id is seen only with a row found.
  abbrev Paired : Hits → Type 0
  Paired h = is_empty h.found ≡ is_empty h.seen

  abbrev Some : Hits → Type 0
  Some h = is_empty h.found ≡ false

  is_empty-last : (cs : List Candidate) (c : Candidate) → is_empty (cs ++ c ∷ []) ≡ false
  is_empty-last [] c = refl
  is_empty-last (d ∷ cs) c = refl

  was_seen-is_empty : (i : ℕ) (js : List ℕ) → was_seen i js ≡ true → is_empty js ≡ false
  unfolding was_seen
  was_seen-is_empty i [] h = cc
  was_seen-is_empty i (j ∷ js) h = refl

  abbrev skips : Candidate → Hits → Bool
  skips c h = was_seen c.match_id h.seen || not (in_window m.played_on c.played_on)

  consider-Paired : (c : Candidate) (h : Hits) → Paired h → Paired (consider u m c h)
  unfolding consider
  consider-Paired c h p = elim (Bool-cases (skips c h)) [
    | inl e ↦ rw e p
    | inr e ↦ elim (Bool-cases (same_players u m c)) [
      | inl f ↦ rw (e, f) (is_empty-last h.found c)
      | inr f ↦ rw (e, f) p
    ]
  ]

  consider-Some : (c : Candidate) (h : Hits) → Some h → Some (consider u m c h)
  unfolding consider
  consider-Some c h p = elim (Bool-cases (skips c h)) [
    | inl e ↦ rw e p
    | inr e ↦ elim (Bool-cases (same_players u m c)) [
      | inl f ↦ rw (e, f) (is_empty-last h.found c)
      | inr f ↦ rw (e, f) p
    ]
  ]

  module _ (c : Candidate) (timely : in_window m.played_on c.played_on ≡ true)
      (same : same_players u m c ≡ true) where
    consider_finds : (h : Hits) → Paired h → Some (consider u m c h)
    unfolding consider
    consider_finds h p = elim (Bool-cases (was_seen c.match_id h.seen)) [
      | inl e ↦ rw e (p ∙ was_seen-is_empty c.match_id h.seen e)
      | inr e ↦ rw (e, timely, same) (is_empty-last h.found c)
    ]

  consider_all-Some : (cs : List Candidate) (h : Hits) → Some h → Some (consider_all u m cs h)
  unfolding consider_all
  consider_all-Some [] h p = p
  consider_all-Some (c ∷ cs) h p = consider_all-Some cs (consider u m c h) (consider-Some c h p)

  consider_all-Paired : (cs : List Candidate) (h : Hits) → Paired h → Paired (consider_all u m cs h)
  unfolding consider_all
  consider_all-Paired [] h p = p
  consider_all-Paired (c ∷ cs) h p =
      consider_all-Paired cs (consider u m c h) (consider-Paired c h p)

  module _ (ix : Index) (round : Bytes) where
    search_second-Some :
        (s1 : Bytes) (ss : List Bytes) (h : Hits)
        → Some h
        → Some (search_second u m ix round s1 ss h)
    unfolding search_second
    search_second-Some s1 [] h p = p
    search_second-Some s1 (s2 ∷ ss) h p =
        search_second-Some s1 ss (consider_all u m (under (key round s1 s2) ix) h)
          (consider_all-Some (under (key round s1 s2) ix) h p)

    search_second-Paired :
        (s1 : Bytes) (ss : List Bytes) (h : Hits)
        → Paired h
        → Paired (search_second u m ix round s1 ss h)
    unfolding search_second
    search_second-Paired s1 [] h p = p
    search_second-Paired s1 (s2 ∷ ss) h p =
        search_second-Paired s1 ss (consider_all u m (under (key round s1 s2) ix) h)
          (consider_all-Paired (under (key round s1 s2) ix) h p)

    search_first-Some :
        (ss bs : List Bytes) (h : Hits) → Some h → Some (search_first u m ix round ss bs h)
    unfolding search_first
    search_first-Some [] bs h p = p
    search_first-Some (s1 ∷ ss) bs h p =
        search_first-Some ss bs (search_second u m ix round s1 bs h) (search_second-Some s1 bs h p)

  module _ (c : Candidate) (timely : in_window m.played_on c.played_on ≡ true)
      (same : same_players u m c ≡ true) where
    consider_all_finds :
        (cs : List Candidate) (h : Hits) → Memᴰ c cs → Paired h → Some (consider_all u m cs h)
    unfolding consider_all
    consider_all_finds [] h k p = absurd (Memᴰ.not-nil k)
    consider_all_finds (d ∷ cs) h (Memᴰ.head e) p =
        subst (λ x. Some (consider_all u m cs (consider u m x h))) e
          (consider_all-Some cs (consider u m c h) (consider_finds c timely same h p))
    consider_all_finds (d ∷ cs) h (Memᴰ.tail k) p =
        consider_all_finds cs (consider u m d h) k (consider-Paired d h p)

    module _ (ix : Index) (round s1 s2 : Bytes) (listed : Listed (key round s1 s2) c ix) where
      search_second_finds :
          (ss : List Bytes) (h : Hits)
          → Memᴰ s2 ss
          → Paired h
          → Some (search_second u m ix round s1 ss h)
      unfolding search_second
      search_second_finds [] h k p = absurd (Memᴰ.not-nil k)
      search_second_finds (t ∷ ss) h (Memᴰ.head e) p =
          subst
            (λ x.
              Some
                (search_second u m ix round s1 ss (consider_all u m (under (key round s1 x) ix) h)))
            e
            (search_second-Some ix round s1 ss (consider_all u m (under (key round s1 s2) ix) h)
              (consider_all_finds (under (key round s1 s2) ix) h listed p))
      search_second_finds (t ∷ ss) h (Memᴰ.tail k) p =
          search_second_finds ss (consider_all u m (under (key round s1 t) ix) h) k
            (consider_all-Paired (under (key round s1 t) ix) h p)

      search_first_finds :
          (ss bs : List Bytes) (h : Hits)
          → Memᴰ s1 ss
          → Memᴰ s2 bs
          → Paired h
          → Some (search_first u m ix round ss bs h)
      unfolding search_first
      search_first_finds [] bs h k l p = absurd (Memᴰ.not-nil k)
      search_first_finds (t ∷ ss) bs h (Memᴰ.head e) l p =
          subst (λ x. Some (search_first u m ix round ss bs (search_second u m ix round x bs h))) e
            (search_first-Some ix round ss bs (search_second u m ix round s1 bs h)
              (search_second_finds bs h l p))
      search_first_finds (t ∷ ss) bs h (Memᴰ.tail k) l p =
          search_first_finds ss bs (search_second u m ix round t bs h) k l
            (search_second-Paired ix round t bs h p)

  insert_more : (c : Candidate) (cs : List Candidate) → is_empty (insert u m c cs) ≡ false
  unfolding insert
  insert_more c [] = refl
  insert_more c (d ∷ ds) = elim (Bool-cases (leb (far u m c) (far u m d))) [
    | inl e ↦ rw e refl
    | inr e ↦ rw e refl
  ]

  is_empty-sort : (cs : List Candidate) → is_empty (sort u m cs) ≡ is_empty cs
  unfolding sort
  is_empty-sort [] = refl
  is_empty-sort (c ∷ cs) = insert_more c (sort u m cs)

  settle_more : (cs : List Candidate) → is_empty cs ≡ false → settle u m cs ≢ err no_match
  unfolding settle
  settle_more [] h = λ e. cc
  settle_more (c ∷ []) h = λ e. cc
  settle_more (c ∷ d ∷ ds) h = λ e. ground (arith, e)

  any_round :
      (ix : Index) (round : Bytes)
      → is_empty (candidates u m ix []) ≡ false
      → is_empty (
          if is_empty (candidates u m ix round) && not (is_empty round)
          then candidates u m ix []
          else candidates u m ix round)
        ≡ false
  any_round ix [] h = rw h h
  any_round ix (x ∷ round) h = elim (Bool-cases (is_empty (candidates u m ix (x ∷ round)))) [
    | inl e ↦ rw e h
    | inr e ↦ rw e e
  ]

  found_in_more :
      (ix : Index) → is_empty (candidates u m ix []) ≡ false → is_empty (found_in u m ix) ≡ false
  unfolding found_in
  found_in_more ix h = any_round ix m.round h

  -- The surnames of the charted names that a row is looked up by, in one order or the other.
  abbrev pub Linked : Candidate → Bytes → Bytes → Type 0
  Linked c s1 s2 =
      (Memᴰ s1 (surnames u c.winner) × Memᴰ s2 (surnames u c.loser))
      ⊎ (Memᴰ s2 (surnames u c.winner) × Memᴰ s1 (surnames u c.loser))

  Linked-Listed :
      (cs : List Candidate) (c : Candidate) (s1 s2 : Bytes)
      → Memᴰ c cs
      → Linked c s1 s2
      → Listed (key [] s1 s2) c (new_index u cs)
  unfolding new_index
  Linked-Listed cs c s1 s2 k (inl (a, b)) = add_all-Listed_pair c s1 s2 u cs [] k a b
  Linked-Listed cs c s1 s2 k (inr (a, b)) =
      subst (λ x. Listed x c (add_all u cs [])) (key_comm [] s2 s1)
        (add_all-Listed_pair c s2 s1 u cs [] k a b)

  -- If a row in the window has the two charted players, and each of the two charted names has a
  -- surname of one of them, one each, then `Resolve` does not answer that there is no match.
  pub resolve-found :
      (cs : List Candidate) (c : Candidate) (s1 s2 : Bytes)
      → Memᴰ c cs
      → in_window m.played_on c.played_on ≡ true
      → same_players u m c ≡ true
      → Memᴰ s1 (surnames u m.player1)
      → Memᴰ s2 (surnames u m.player2)
      → Linked c s1 s2
      → resolve u m (new_index u cs) ≢ err no_match
  unfolding resolve candidates
  resolve-found cs c s1 s2 k timely same a b l =
      let ix = new_index u cs in
      settle_more (sort u m (found_in u m ix)) (
        is_empty-sort (found_in u m ix)
        ∙ found_in_more ix (
            search_first_finds c timely same ix [] s1 s2 (Linked-Listed cs c s1 s2 k l)
              (surnames u m.player1) (surnames u m.player2) (record { found = []; seen = [] }) a b
              refl))

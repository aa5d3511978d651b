-- ===== src/Charting/Nearest.antt =====
-- internal/charting/resolve.go: the row that `Resolve` answers with.
use mathlib.Core.List.{Permᴰ, Memᴰ}
use mathlib.Core.List.Permᴰ
use mathlib.Core.Path.{subst}
use tennis_wiki.Base.{
  ℕ, ◌+◌, ◌*◌, Bool, false, ◌⊎◌, ltb, All_both, ◌≤◌, ◌<◌, ◌≡◌, refl, true, ◌&&◌, ◌||◌, List, [],
  ◌∷◌, leb, ◌==◌, arith, All, All-mono, All_perm, Bool-cases, inl, inr,
}
use tennis_wiki.Base.Result.{ok}
use tennis_wiki.Name.{Unicode}
use tennis_wiki.Charting.People.{same_person}
use tennis_wiki.Charting.Resolve.{
  Candidate, Resolution, Chart, in_window, distance, new_index, same_players, far, insert, sort,
  found_in, name_players, settle, resolve,
}
use tennis_wiki.Charting.Found.{Hit, add_all-Indexed, found_in-Hit, All-Mem}

-- An event that starts on the charted date or before it is nearer than one that starts after it;
-- of two on one side of it, the one that starts closer to it is nearer.
abbrev pub IsNearer : ℕ → Candidate → Candidate → Type 0
IsNearer date c d =
    ((c.played_on ≤ date) × ((date < d.played_on) ⊎ (d.played_on < c.played_on)))
    ⊎ ((date < c.played_on) × (c.played_on < d.played_on))

distance-IsNearer :
    (date : ℕ) (c d : Candidate)
    → in_window date c.played_on ≡ true
    → in_window date d.played_on ≡ true
    → distance date c.played_on < distance date d.played_on
    → IsNearer date c d
unfolding in_window distance
distance-IsNearer date c d hc hd l = elim (Bool-cases (ltb date c.played_on)) [
  | inl e ↦ inr (ground (arith, e), ground (arith, e, hc, hd, l))
  | inr e ↦ inl (
    ground (arith, e),
    elim (Bool-cases (ltb date d.played_on)) [
      | inl f ↦ inl (ground (arith, f))
      | inr f ↦ inr (ground (arith, e, f, l))
    ],
  )
]

other_order :
    (a b c d : Bool)
    → (a && b || c && d) ≡ true
    → (a ≡ false) ⊎ (b ≡ false)
    → (c ≡ true) × (d ≡ true)
other_order a b c d h k = ground (arith, h, k)

module _ (u : Unicode) (m : Chart) where
  insert-perm : (c : Candidate) (cs : List Candidate) → Permᴰ (c ∷ cs) (insert u m c cs)
  unfolding insert
  insert-perm c [] = Permᴰ.refl (c ∷ [])
  insert-perm c (d ∷ ds) = elim (Bool-cases (leb (far u m c) (far u m d))) [
    | inl e ↦ rw e (Permᴰ.refl (c ∷ d ∷ ds))
    | inr e ↦ rw e (Permᴰ.trans (Permᴰ.swap refl refl) (Permᴰ.cons refl (insert-perm c ds)))
  ]

  sort-perm : (cs : List Candidate) → Permᴰ cs (sort u m cs)
  unfolding sort
  sort-perm [] = Permᴰ.nil
  sort-perm (c ∷ cs) = Permᴰ.trans (Permᴰ.cons refl (sort-perm cs)) (insert-perm c (sort u m cs))

  -- Nearest first.
  abbrev Ascending : List Candidate → Type 0
  Ascending [] = Unit
  Ascending (c ∷ cs) = All (λ d. far u m c ≤ far u m d) cs × Ascending cs

  insert-Ascending :
      (c : Candidate) (cs : List Candidate) → Ascending cs → Ascending (insert u m c cs)
  unfolding insert
  insert-Ascending c [] h = (tt, tt)
  insert-Ascending c (d ∷ ds) h = elim (Bool-cases (leb (far u m c) (far u m d))) [
    | inl e ↦ rw e ((ground (arith, e), All-mono (λ x k. ground (arith, e, k)) ds h.0), h)
    | inr e ↦ rw e (
      All_perm (λ x. far u m d ≤ far u m x) (insert-perm c ds) (ground (arith, e), h.0),
      insert-Ascending c ds h.1,
    )
  ]

  sort-Ascending : (cs : List Candidate) → Ascending (sort u m cs)
  unfolding sort
  sort-Ascending [] = tt
  sort-Ascending (c ∷ cs) = insert-Ascending c (sort u m cs) (sort-Ascending cs)

  -- How the ids of a resolution follow from the names: where the first charted name cannot be the
  -- winner's it is the loser's, and where it can be it is.
  pub data IsNamed (c : Candidate) (r : Resolution) : Type 0 where
    winner_first :
        r.match_id ≡ c.match_id
        → same_person u m.player1 c.winner ≡ true
        → same_person u m.player2 c.loser ≡ true
        → r.player1_id ≡ c.winner_id
        → r.player2_id ≡ c.loser_id
        → IsNamed c r
    loser_first :
        r.match_id ≡ c.match_id
        → same_person u m.player1 c.winner ≡ false
        → same_person u m.player1 c.loser ≡ true
        → same_person u m.player2 c.winner ≡ true
        → r.player1_id ≡ c.loser_id
        → r.player2_id ≡ c.winner_id
        → IsNamed c r
    first_is_either :
        r.match_id ≡ c.match_id
        → same_person u m.player1 c.winner ≡ true
        → same_person u m.player1 c.loser ≡ true
        → same_person u m.player2 c.winner ≡ true
        → r.player1_id ≡ c.winner_id
        → r.player2_id ≡ c.loser_id
        → IsNamed c r

  name_players-IsNamed :
      (c : Candidate) → same_players u m c ≡ true → IsNamed c (name_players u m c)
  unfolding name_players same_players
  name_players-IsNamed c h = elim (Bool-cases (same_person u m.player1 c.winner)) [
    | inr e ↦
        let second = other_order _ _ _ _ h (inl e) in
        rw e (loser_first refl e second.0 second.1 refl refl)
    | inl e ↦ elim (Bool-cases (same_person u m.player2 c.loser)) [
      | inl f ↦ rw e (winner_first refl e f refl refl)
      | inr f ↦
          let second = other_order _ _ _ _ h (inr f) in
          rw e (first_is_either refl e second.0 second.1 refl refl)
    ]
  ]

  module _ (cs : List Candidate) (r : Resolution) where
    -- What a resolution promises of the row that it names: the row is one of those indexed, its
    -- event starts a week after the charted date at the latest and three weeks before it at the
    -- earliest, and every other row found is further.
    pub record IsResolved : Type 0 where
      pub row : Candidate
      pub indexed : Memᴰ row cs
      pub late_bound : row.played_on ≤ m.played_on + 7 * 24
      pub early_bound : m.played_on ≤ row.played_on + 21 * 24
      pub named : IsNamed row r
      pub others : List Candidate
      pub found : Permᴰ (found_in u m (new_index u cs)) (row ∷ others)
      pub nearest : All (IsNearer m.played_on row) others

  in_window-late :
      (c : Candidate)
      → in_window m.played_on c.played_on ≡ true
      → c.played_on ≤ m.played_on + 7 * 24
  unfolding in_window
  in_window-late c h = ground (arith, h)

  in_window-early :
      (c : Candidate)
      → in_window m.played_on c.played_on ≡ true
      → m.played_on ≤ c.played_on + 21 * 24
  unfolding in_window
  in_window-early c h = ground (arith, h)

  settle-IsResolved :
      (cs found sorted : List Candidate) (r : Resolution)
      → found_in u m (new_index u cs) ≡ found
      → Permᴰ found sorted
      → Ascending sorted
      → All (Hit u m (λ c. Memᴰ c cs)) sorted
      → settle u m sorted ≡ ok r
      → IsResolved cs r
  unfolding settle
  settle-IsResolved cs found [] r f p a h e = cc
  settle-IsResolved cs found (c ∷ []) r f p a h e = record {
    row = c;
    indexed = h.0.0;
    late_bound = in_window-late c h.0.1;
    early_bound = in_window-early c h.0.1;
    named = subst (IsNamed c) (cc e) (name_players-IsNamed c h.0.2);
    others = [];
    found = rw f p;
    nearest = tt;
  }
  settle-IsResolved cs found (c ∷ d ∷ ds) r f p a h e = elim (Bool-cases (far u m c == far u m d)) [
    | inl g ↦ absurd (cc (rw g at e))
    | inr g ↦ record {
      row = c;
      indexed = h.0.0;
      late_bound = in_window-late c h.0.1;
      early_bound = in_window-early c h.0.1;
      named = subst (IsNamed c) (cc (rw g at e)) (name_players-IsNamed c h.0.2);
      others = d ∷ ds;
      found = rw f p;
      nearest =
          let less : far u m c < far u m d = ground (arith, g, a.0.0) in
          (
            distance-IsNearer m.played_on c d h.0.1 h.1.0.1 less,
            All-mono
                (λ x k. distance-IsNearer m.played_on c x h.0.1 k.1.1 (omega (arith, less, k.0))) ds
                (All_both _ _ ds a.1.0 h.1.1),
          );
    }
  ]

  -- A row that a charted match is resolved to is one of those indexed, its event starts at most a
  -- week after the charted date and at most three weeks before it, and it is nearer than every other
  -- row found, where a start that is not after the charted date is nearer than one that is. The two
  -- ids are those of the row: the winner's first if the first name may be the winner's and the second
  -- the loser's; the loser's first if the first name cannot be the winner's, and then the names fit in
  -- that order; and the winner's first also where the names fit with the loser's first alone but the
  -- first name may be the winner's too.
  pub resolve-IsResolved :
      (cs : List Candidate) (r : Resolution) → resolve u m (new_index u cs) ≡ ok r → IsResolved cs r
  unfolding resolve new_index
  resolve-IsResolved cs r e =
      let rows = found_in u m (new_index u cs) in
      settle-IsResolved cs rows (sort u m rows) r refl (sort-perm rows) (sort-Ascending rows)
        (All_perm (Hit u m (λ c. Memᴰ c cs)) (sort-perm rows) (
          found_in-Hit u m (λ c. Memᴰ c cs) (new_index u cs)
            (add_all-Indexed (λ c. Memᴰ c cs) u cs [] (All-Mem cs) tt)))
        e

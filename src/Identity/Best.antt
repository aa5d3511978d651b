-- ===== src/Identity/Best.antt =====
-- internal/identity/identity.go: `bestTwo`, and the proposal made of the two candidates.
use tennis_wiki.Base.{
  ℕ, ◌≤◌, ◌<◌, ◌≡◌, refl, inl, inr, true, false, List, [], ◌∷◌, ◌++◌, append_assoc, append-nil,
  Option, none, some, ltb, leb, arith, All, All-append, All_middle, All-mono, Bool-cases,
}
use tennis_wiki.Identity.{Player, Match, auto_link, review_floor, score}
use tennis_wiki.Identity.Group.{above, rank, best_two, judge, propose_from, propose}

module _ (dup : Player) where
  abbrev pub score_of : Player → ℕ
  score_of c = (score c dup).0

  -- The candidates seen so far, but for the best, score at most the second score, and that at most
  -- the best; with no second, there are no others.
  abbrev Others : Option (Player × ℕ) → ℕ → List Player → Type 0
  Others none top cs = cs ≡ []
  Others (some (p, t)) top cs = (t ≡ score_of p) × (t ≤ top) × All (λ c. score_of c ≤ t) cs

  abbrev Found : List Player → Option (Player × ℕ) × Option (Player × ℕ) → Type 0
  Found cs (none, second) = (cs ≡ []) × (second ≡ none)
  Found cs (some (best, s), second) =
      (s ≡ score_of best)
      × (l : List Player) × (r : List Player) × (cs ≡ l ++ (best ∷ r))
      × Others second s (l ++ r)

  Others-all :
      (second : Option (Player × ℕ)) (top : ℕ) (cs : List Player)
      → Others second top cs
      → All (λ c. score_of c ≤ top) cs
  Others-all none top cs h = rw h tt
  Others-all (some (p, t)) top cs h = All-mono (λ c k. omega (arith, k, h.1)) cs h.2

  -- A new best candidate: the old one is the second.
  new_best :
      (c best : Player) (s : ℕ) (second : Option (Player × ℕ)) (cs : List Player)
      → s < score_of c
      → Found cs (some (best, s), second)
      → Found (cs ++ c ∷ []) (some (c, score_of c), some (best, s))
  new_best c best s second cs above (e, l, r, split, rest) = (
    refl,
    cs,
    [],
    refl,
    rw (append-nil, split)
        (
          e,
          omega arith,
          All_middle (λ x. score_of x ≤ s) l best r (Others-all second s (l ++ r) rest)
              (omega (arith, e)),
        ),
  )

  -- A candidate that is not the best goes to the others.
  not_best :
      (c best : Player) (s : ℕ) (second new : Option (Player × ℕ)) (cs : List Player)
      → Found cs (some (best, s), second)
      → ((xs : List Player) → Others second s xs → Others new s (xs ++ c ∷ []))
      → Found (cs ++ c ∷ []) (some (best, s), new)
  not_best c best s second new cs (e, l, r, split, rest) grow = (
    e,
    l,
    r ++ c ∷ [],
    rw split (append_assoc l (best ∷ r) (c ∷ [])),
    rw (← append_assoc l r (c ∷ [])) (grow (l ++ r) rest),
  )

  second_grows :
      (c : Player) (s : ℕ) (second : Option (Player × ℕ)) (xs : List Player)
      → score_of c ≤ s
      → above (score_of c) second ≡ true
      → Others second s xs
      → Others (some (c, score_of c)) s (xs ++ c ∷ [])
  second_grows c s none xs low a h = rw h (refl, low, (omega arith, tt))
  second_grows c s (some (p, t)) xs low a h = (
    refl,
    low,
    All-append (λ x. score_of x ≤ score_of c) xs (c ∷ [])
        (All-mono (λ x k. ground (arith, k, a)) xs h.2) (omega arith, tt),
  )

  second_stays :
      (c : Player) (s : ℕ) (second : Option (Player × ℕ)) (xs : List Player)
      → above (score_of c) second ≡ false
      → Others second s xs
      → Others second s (xs ++ c ∷ [])
  second_stays c s none xs a h = cc
  second_stays c s (some (p, t)) xs a h =
      (h.0, h.1, All-append (λ x. score_of x ≤ t) xs (c ∷ []) h.2 (ground (arith, a), tt))

  rank-Found :
      (c : Player) (cs : List Player) (best second : Option (Player × ℕ))
      → Found cs (best, second)
      → Found (cs ++ c ∷ []) (rank (c, score_of c) (best, second))
  unfolding rank
  rank-Found c cs none second h = rw h.0 (refl, [], [], refl, refl)
  rank-Found c cs (some (b, s)) second h = elim (Bool-cases (ltb s (score_of c))) [
    | inl e ↦ rw e (new_best c b s second cs (ground (arith, e)) h)
    | inr e ↦ elim (Bool-cases (above (score_of c) second)) [
      | inl f ↦
          rw (e, f)
            (not_best c b s second (some (c, score_of c)) cs h
              (λ xs. second_grows c s second xs (ground (arith, e)) f))
      | inr f ↦ rw (e, f) (not_best c b s second second cs h (λ xs. second_stays c s second xs f))
    ]
  ]

  best_two-Found :
      (cs seen : List Player) (found : Option (Player × ℕ) × Option (Player × ℕ))
      → Found seen found
      → Found (seen ++ cs) (best_two dup cs found)
  unfolding best_two
  best_two-Found [] seen found h = rw append-nil h
  best_two-Found (c ∷ cs) seen (best, second) h = rw (← append_assoc seen (c ∷ []) cs) (
      best_two-Found cs (seen ++ c ∷ []) (rank (c, score_of c) (best, second))
        (rank-Found c seen best second h))

  -- What a proposal for this stub says.
  pub record IsProposal (cs : List Player) (m : Match) : Type 0 where
    pub of_stub : m.duplicate ≡ dup
    pub before : List Player
    pub behind : List Player
    pub candidate : cs ≡ before ++ (m.canonical ∷ behind)
    pub over_floor : review_floor ≤ score_of m.canonical
    pub at_most : m.confidence ≤ score_of m.canonical
    pub best : auto_link ≤ m.confidence → All (λ c. score_of c < m.confidence) (before ++ behind)

  judge-IsProposal :
      (best : Player) (second : Option (Player × ℕ)) (l r cs : List Player) (m : Match)
      → cs ≡ l ++ (best ∷ r)
      → Others second (score_of best) (l ++ r)
      → review_floor ≤ score_of best
      → judge best second dup (score best dup) ≡ m
      → IsProposal cs m
  unfolding judge
  judge-IsProposal best none l r cs m split rest over e = rw (← e) (record {
    of_stub = refl;
    before = l;
    behind = r;
    candidate = split;
    over_floor = over;
    at_most = omega arith;
    best = λ h. rw rest tt;
  })
  judge-IsProposal best (some (p, t)) l r cs m split rest over e =
      elim (Bool-cases (leb (score_of best) (score_of p))) [
        | inl f ↦
            rw (← e, judge, f)
              (record {
                of_stub = refl;
                before = l;
                behind = r;
                candidate = split;
                over_floor = over;
                at_most = over;
                best = λ h. absurd (omega arith);
              })
        | inr f ↦
            rw (← e, judge, f)
              (record {
                of_stub = refl;
                before = l;
                behind = r;
                candidate = split;
                over_floor = over;
                at_most = omega arith;
                best = λ h. All-mono (λ c k. ground (arith, k, f, rest.0)) (l ++ r) rest.2;
              })
      ]

  propose_from-IsProposal :
      (cs : List Player) (found : Option (Player × ℕ) × Option (Player × ℕ)) (m : Match)
      → Found cs found
      → propose_from dup found ≡ some m
      → IsProposal cs m
  unfolding propose_from
  propose_from-IsProposal cs (none, second) m h e = cc
  propose_from-IsProposal cs (some (b, s), second) m (same, l, r, split, rest) e =
      elim (Bool-cases (ltb (score_of b) review_floor)) [
        | inl f ↦ absurd (cc (rw (f, propose_from) at e))
        | inr f ↦
            judge-IsProposal b second l r cs m split (rw same at rest) (ground (arith, f))
              (ground (arith, f, e))
      ]

  -- A proposal for a stub names one of the candidates, which scores at the floor at least and not
  -- below the confidence; and where the confidence links without review, every other candidate
  -- scores less than it.
  pub propose-IsProposal :
      (cs : List Player) (m : Match) → propose cs dup ≡ some m → IsProposal cs m
  unfolding propose
  propose-IsProposal cs m e =
      propose_from-IsProposal cs (best_two dup cs (none, none)) m
        (best_two-Found cs [] (none, none) (refl, refl)) e

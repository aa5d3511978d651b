-- ===== src/Rating/Engine/Frame.antt =====
-- internal/rating/engine.go: what one result changes in the map of the ratings.
use tennis_wiki.Base.{
  ◌+◌, ◌≡◌, refl, Bool, true, false, List, [], ◌∷◌, if◌then◌else◌, arith, Bool-cases, inl, inr, ◌∙◌,
  ap,
}
use tennis_wiki.Base.Float.{Float}
use tennis_wiki.Rating.Elo.{k_factor, update}
use tennis_wiki.Rating.Keys.{Key, same_key}
use tennis_wiki.Rating.Keys.Sorting.{same_key-code}
use tennis_wiki.Rating.Engine.{State, find, put, rate_pair, state_of}

pub same_key_refl : (k : Key) → same_key k k ≡ true
same_key_refl k = ground (arith, same_key-code k k)

pub same_key_sym : (j k : Key) → same_key j k ≡ same_key k j
same_key_sym j k = ground (arith, same_key-code j k, same_key-code k j)

if_again {ℓ} :
    {A : Type ℓ} (b : Bool) (x y z : A)
    → (if b then x else z) ≡ (if b then x else (if b then y else z))
if_again true x y z = refl
if_again false x y z = refl

module _ (fl : Float) where
  pub find_same :
      (j k : Key) (m : List (Key × State fl)) → same_key j k ≡ true → find fl j m ≡ find fl k m
  unfolding find
  find_same j k [] h = refl
  find_same j k ((i, t) ∷ m) h =
      let e : same_key i j ≡ same_key i k =
        ground (arith, same_key-code j k, same_key-code i k, same_key-code i j) in
      rw e (ap (λ s. if same_key i k then t else s) (find_same j k m h))

  pub find-put :
      (k j : Key) (s : State fl) (m : List (Key × State fl))
      → find fl k (put fl j s m) ≡ (if same_key j k then s else find fl k m)
  unfolding find put
  find-put k j s [] = refl
  find-put k j s ((i, t) ∷ m) = elim (Bool-cases (same_key i j)) [
    | inl e ↦
        let f : same_key i k ≡ same_key j k =
          ground (arith, same_key-code i j, same_key-code i k, same_key-code j k) in
        rw (e, f) (if_again (same_key j k) s t (find fl k m))
    | inr e ↦ elim (Bool-cases (same_key i k)) [
      | inl f ↦
          let g : same_key j k ≡ false =
            ground (arith, e, f, same_key-code i j, same_key-code i k, same_key-code j k) in
          rw (e, f, g) refl
      | inr f ↦ rw (e, f, find-put k j s m) refl
    ]
  ]

  -- The two new ratings, and the states that hold them.
  abbrev pub rated : Key → Key → fl.F → List (Key × State fl) → State fl × State fl
  rated kw kl weight m =
      let w = find fl kw m in
      let l = find fl kl m in
      let (w_elo, l_elo) =
        update fl w.elo l.elo (fl.mul (k_factor fl w.matches) weight)
          (fl.mul (k_factor fl l.matches) weight) in
      (
        record { elo = w_elo; matches = w.matches + 1 },
        record { elo = l_elo; matches = l.matches + 1 },
      )

  -- For two different keys, one result gives the winner and the loser the two new ratings of the
  -- formula, both made from the ratings before the result, and one more match each; every other
  -- key keeps its state.
  pub rate_pair-find :
      (kw kl k : Key) (weight : fl.F) (m : List (Key × State fl))
      → same_key kw kl ≡ false
      → find fl k (rate_pair fl kw kl weight m) ≡ (
          if same_key kw k
          then (rated kw kl weight m).0
          else (if same_key kl k then (rated kw kl weight m).1 else find fl k m))
  unfolding rate_pair state_of
  rate_pair-find kw kl k weight m h =
      let h' : same_key kl kw ≡ false = same_key_sym kl kw ∙ h in
      elim (Bool-cases (same_key kw k)) [
        | inl f ↦
            let g : same_key kl k ≡ false =
              ground (arith, f, h, same_key-code kw k, same_key-code kl k, same_key-code kw kl) in
            simp (find-put, h, h', f, g, same_key_refl kw, same_key_refl kl)
        | inr f ↦ elim (Bool-cases (same_key kl k)) [
          | inl g ↦ simp (find-put, h, h', f, g, same_key_refl kw, same_key_refl kl)
          | inr g ↦ simp (find-put, h, h', f, g, same_key_refl kw, same_key_refl kl)
        ]
      ]

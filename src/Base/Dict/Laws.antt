-- ===== src/Base/Dict/Laws.antt =====
-- Go's maps: what a write leaves in the list of entries.
use mathlib.Core.Path.{◌≡◌, refl, sym, ap, subst}
use mathlib.Core.Logic.{◌≢◌, inl, inr}
use mathlib.Core.Bool.{true, false}
use mathlib.Core.List.{List, [], ◌∷◌, ◌++◌}
use native.Mathlib.Omega.{arith}
use tennis_wiki.Base.Tests.{Bool-cases}
use tennis_wiki.Base.Lists.{All}
use tennis_wiki.Base.Pairs.{Pairs}
use tennis_wiki.Base.Dict.{Eq, find_or, modify, put, remove}

module _ {ℓ κ} {K : Type ℓ} {V : Type κ} where
  -- No entry has the key; no two entries have the same key.
  abbrev pub IsFresh : K → List (K × V) → Type ℓ
  IsFresh k m = All (λ e. e.0 ≢ k) m

  abbrev pub HasDistinctKeys : List (K × V) → Type ℓ
  HasDistinctKeys = Pairs (λ e f. e.0 ≢ f.0)

module _ {ℓ κ} {K : Type ℓ} {V : Type κ} ⦃eq : Eq K⦄ where
  pub modify-fresh :
      (k : K) (d : V) (f : V → V) (m : List (K × V))
      → IsFresh k m
      → modify k d f m ≡ m ++ (k, f d) ∷ []
  unfolding modify
  modify-fresh k d f [] h = refl
  modify-fresh k d f ((j, v) ∷ m) h = elim (Bool-cases (eq.same j k)) [
    | inl e ↦ absurd (h.0 (eq.same-true j k e))
    | inr e ↦ rw e (ap (λ t. (j, v) ∷ t) (modify-fresh k d f m h.1))
  ]

  pub put-fresh : (k : K) (v : V) (m : List (K × V)) → IsFresh k m → put k v m ≡ m ++ (k, v) ∷ []
  unfolding put
  put-fresh k v m h = modify-fresh k v (λ w. v) m h

  -- A predicate of entries that the write makes true of the one it changes.
  pub All-modify {μ} :
      (P : K × V → Type μ) (k : K) (d : V) (f : V → V) (m : List (K × V))
      → P (k, f d)
      → ((v : V) → P (k, v) → P (k, f v))
      → All P m
      → All P (modify k d f m)
  unfolding modify
  All-modify P k d f [] n c h = (n, tt)
  All-modify P k d f ((j, v) ∷ m) n c h = elim (Bool-cases (eq.same j k)) [
    | inl e ↦
        let same : j ≡ k = eq.same-true j k e in
        rw e (subst (λ i. P (i, f v)) (sym same) (c v (subst (λ i. P (i, v)) same h.0)), h.1)
    | inr e ↦ rw e (h.0, All-modify P k d f m n c h.1)
  ]

  pub modify-HasDistinctKeys :
      (k : K) (d : V) (f : V → V) (m : List (K × V))
      → HasDistinctKeys m
      → HasDistinctKeys (modify k d f m)
  unfolding modify
  modify-HasDistinctKeys k d f [] h = (tt, tt)
  modify-HasDistinctKeys k d f ((j, v) ∷ m) h = elim (Bool-cases (eq.same j k)) [
    | inl e ↦ rw e h
    | inr e ↦
        let other : j ≢ k = λ q. absurd (ground (arith, e, q, eq.same_refl k)) in
        rw e (
          All-modify (λ i. j ≢ i.0) k d f m other (λ v p. p) h.0,
          modify-HasDistinctKeys k d f m h.1,
        )
  ]

  -- Reading what was written, and what was not.
  pub find_or-modify :
      (k h : K) (d : V) (f : V → V) (m : List (K × V))
      → eq.same k h ≡ true
      → find_or h d (modify k d f m) ≡ f (find_or h d m)
  unfolding find_or modify
  find_or-modify k h d f [] e = rw e refl
  find_or-modify k h d f ((j, v) ∷ m) e =
      let same : k ≡ h = eq.same-true k h e in
      elim (Bool-cases (eq.same j k)) [
        | inl q ↦ rw (q, subst (λ i. eq.same j i ≡ true) same q) refl
        | inr q ↦ rw (q, subst (λ i. eq.same j i ≡ false) same q, find_or-modify k h d f m e) refl
      ]

  pub find_or-modify_other :
      (k h : K) (d c : V) (f : V → V) (m : List (K × V))
      → eq.same k h ≡ false
      → find_or h d (modify k c f m) ≡ find_or h d m
  unfolding find_or modify
  find_or-modify_other k h d c f [] e = rw e refl
  find_or-modify_other k h d c f ((j, v) ∷ m) e = elim (Bool-cases (eq.same j k)) [
    | inl q ↦ let same : j ≡ k = eq.same-true j k q in rw (q, same, e) refl
    | inr q ↦ rw (q, find_or-modify_other k h d c f m e) refl
  ]

  pub find_or-remove_other :
      (k h : K) (d : V) (m : List (K × V))
      → eq.same k h ≡ false
      → find_or h d (remove k m) ≡ find_or h d m
  unfolding find_or remove
  find_or-remove_other k h d [] e = refl
  find_or-remove_other k h d ((j, v) ∷ m) e = elim (Bool-cases (eq.same j k)) [
    | inl q ↦
        let same : j ≡ k = eq.same-true j k q in
        rw (q, same, e, find_or-remove_other k h d m e) refl
    | inr q ↦ rw (q, find_or-remove_other k h d m e) refl
  ]

  -- The entries are what the map reads as.
  pub find_or-entries :
      (d : V) (m : List (K × V)) → HasDistinctKeys m → All (λ e. find_or e.0 d m ≡ e.1) m
  unfolding find_or
  find_or-entries d [] h = tt
  find_or-entries d ((j, v) ∷ m) h =
      (rw (eq.same_refl j) refl, later m h.0 (find_or-entries d m h.1))
    where
      later :
          (n : List (K × V))
          → All (λ f. j ≢ f.0) n
          → All (λ e. find_or e.0 d m ≡ e.1) n
          → All (λ e. find_or e.0 d ((j, v) ∷ m) ≡ e.1) n
      later [] a b = tt
      later ((i, w) ∷ n) a b = elim (Bool-cases (eq.same j i)) [
        | inl q ↦ absurd (a.0 (eq.same-true j i q))
        | inr q ↦ (rw q b.0, later n a.1 b.1)
      ]

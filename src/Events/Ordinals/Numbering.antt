-- ===== src/Events/Ordinals/Numbering.antt =====
-- internal/events/events.go: what the loops of `ordinalsWithinSeason` write at each position.
use tennis_wiki.Base.{
  ℕ, suc, zero, ◌+◌, ◌<◌, ◌≡◌, ◌≢◌, refl, sym, ap, ◌∙◌, true, List, [], ◌∷◌, arith, All, All-mono,
  All_both, All_perm, All_left, All_right, get_or, set, length,
}
use mathlib.Core.List.{Permᴰ}
use mathlib.Core.List.Permᴰ
use tennis_wiki.Base.Count.{count, count_perm, count-none}
use tennis_wiki.Base.Gather.{gather}
use tennis_wiki.Base.Pairs.{Pairs, Pairs-left, Pairs-right, Pairs_across, Pairs-perm, Pairs-mono}
use tennis_wiki.Base.Sort.{sort, sort-perm, sort-Increasing, Increasing}
use tennis_wiki.Events.Ordinals.{Placed, Group, played_before, number_rows, number_groups}
use tennis_wiki.Events.Ordinals.Order.{
  played_before_irrefl, played_before_asym, played_before_trans, played_before-Untied,
}

get_or_set : (xs : List ℕ) (i v d : ℕ) → i < length xs → get_or (set xs i v) i d ≡ v
get_or_set [] i v d h = absurd (omega (arith, h))
get_or_set (x ∷ xs) zero v d h = refl
get_or_set (x ∷ xs) (suc i) v d h = get_or_set xs i v d (omega (arith, h))

get_or_set_other : (xs : List ℕ) (i j v d : ℕ) → i ≢ j → get_or (set xs i v) j d ≡ get_or xs j d
get_or_set_other [] i j v d h = refl
get_or_set_other (x ∷ xs) zero zero v d h = absurd (h refl)
get_or_set_other (x ∷ xs) zero (suc j) v d h = refl
get_or_set_other (x ∷ xs) (suc i) zero v d h = refl
get_or_set_other (x ∷ xs) (suc i) (suc j) v d h = get_or_set_other xs i j v d λ e. h (ap suc e)

length-set : (xs : List ℕ) (i v : ℕ) → length (set xs i v) ≡ length xs
length-set [] i v = refl
length-set (x ∷ xs) zero v = refl
length-set (x ∷ xs) (suc i) v = ap suc (length-set xs i v)

-- The position is none of these.
abbrev pub IsOutside : ℕ → List Placed → Type 0
IsOutside j = All (λ x. x.0 ≢ j)

number_rows-outside :
    (k : ℕ) (idx : List Placed) (ords : List ℕ) (j : ℕ)
    → IsOutside j idx
    → get_or (number_rows k idx ords) j 0 ≡ get_or ords j 0
unfolding number_rows
number_rows-outside k [] ords j h = refl
number_rows-outside k ((i, r) ∷ idx) ords j h =
    number_rows-outside (k + 1) idx (set ords i (k + 1)) j h.1
    ∙ get_or_set_other ords i j (k + 1) 0 h.0

pub length-number_rows :
    (k : ℕ) (idx : List Placed) (ords : List ℕ) → length (number_rows k idx ords) ≡ length ords
unfolding number_rows
length-number_rows k [] ords = refl
length-number_rows k ((i, r) ∷ idx) ords =
    length-number_rows (k + 1) idx (set ords i (k + 1)) ∙ length-set ords i (k + 1)

abbrev HasDistinctPositions : List Placed → Type 0
HasDistinctPositions = Pairs (λ x y. x.0 ≢ y.0)

-- The number written at each position of a sorted group: one more than the rows before it.
number_rows-rank :
    (k : ℕ) (idx : List Placed) (ords : List ℕ)
    → Increasing played_before idx
    → HasDistinctPositions idx
    → All (λ x. x.0 < length ords) idx
    → All
        (λ x. get_or (number_rows k idx ords) x.0 0 ≡ suc (k + count (λ q. played_before q x) idx))
        idx
unfolding number_rows count
number_rows-rank k [] ords s d b = tt
number_rows-rank k ((i, r) ∷ idx) ords s d b = (
  rw
      (number_rows-outside (k + 1) idx (set ords i (k + 1)) i
        (All-mono (λ x n e. n (sym e)) idx d.0))
      (get_or_set ords i (k + 1) 0 b.0
        ∙ sym (rw (played_before_irrefl (i, r), none_before) (omega arith))),
  later idx (
      All_both _
        (λ x.
          get_or (number_rows (k + 1) idx (set ords i (k + 1))) x.0 0
          ≡ suc ((k + 1) + count (λ q. played_before q x) idx))
        idx s.0
        (number_rows-rank (k + 1) idx (set ords i (k + 1)) s.1 d.1
          (All-mono (λ x l. rw (length-set ords i (k + 1)) l) idx b.1))),
)
  where
    none_before : count (λ q. played_before q (i, r)) idx ≡ 0
    none_before =
        count-none (λ q. played_before q (i, r)) idx
          (All-mono (λ x l. played_before_asym (i, r) x l) idx s.0)

    later :
        (xs : List Placed)
        → All
            (λ x.
              (played_before (i, r) x ≡ true)
              × (get_or (number_rows (k + 1) idx (set ords i (k + 1))) x.0 0
                  ≡ suc ((k + 1) + count (λ q. played_before q x) idx)))
            xs
        → All
            (λ x.
              get_or (number_rows k ((i, r) ∷ idx) ords) x.0 0
              ≡ suc (k + count (λ q. played_before q x) ((i, r) ∷ idx)))
            xs
    later [] h = tt
    later (x ∷ xs) h = (rw (h.0.0) (h.0.1 ∙ omega arith), later xs h.1)

-- The rows of the groups, with their positions.
abbrev pub members : List (Group × List Placed) → List Placed
members = gather (λ g. g.1)

number_groups-outside :
    (groups : List (Group × List Placed)) (ords : List ℕ) (j : ℕ)
    → IsOutside j (members groups)
    → get_or (number_groups groups ords) j 0 ≡ get_or ords j 0
unfolding number_groups
number_groups-outside [] ords j h = refl
number_groups-outside ((g, idx) ∷ groups) ords j h =
    number_groups-outside groups _ j (All_right (λ x. x.0 ≢ j) idx (members groups) h)
    ∙ number_rows-outside 0 (sort played_before idx) ords j (
        All_perm (λ x. x.0 ≢ j) (Permᴰ.symm (sort-perm played_before idx))
          (All_left (λ x. x.0 ≢ j) idx (members groups) h))

pub length-number_groups :
    (groups : List (Group × List Placed)) (ords : List ℕ)
    → length (number_groups groups ords) ≡ length ords
unfolding number_groups
length-number_groups [] ords = refl
length-number_groups ((g, idx) ∷ groups) ords =
    length-number_groups groups _ ∙ length-number_rows 0 (sort played_before idx) ords

-- No two of the rows have one position or one id.
abbrev pub AreDistinct : List Placed → Type 0
AreDistinct = Pairs (λ x y. (x.0 ≢ y.0) × (x.1.id ≢ y.1.id))

pub AreDistinct-perm : {xs ys : List Placed} → Permᴰ xs ys → AreDistinct xs → AreDistinct ys
AreDistinct-perm =
    Pairs-perm (λ x y. (x.0 ≢ y.0) × (x.1.id ≢ y.1.id))
      λ x y h. ((λ e. h.0 (sym e)), (λ e. h.1 (sym e)))

group-rank :
    (idx : List Placed) (ords : List ℕ)
    → AreDistinct idx
    → All (λ x. x.0 < length ords) idx
    → All
        (λ x.
          get_or (number_rows 0 (sort played_before idx) ords) x.0 0
          ≡ suc (count (λ q. played_before q x) idx))
        idx
group-rank idx ords d b =
    let p = sort-perm played_before idx in
    let sorted =
      sort-Increasing played_before played_before_trans idx
        (Pairs-mono (λ x y n. played_before-Untied x y n.1) idx d) in
    All_perm _ p (
      All-mono (λ x e. e ∙ omega (arith, count_perm (λ q. played_before q x) p))
        (sort played_before idx)
        (number_rows-rank 0 (sort played_before idx) ords sorted
          (Pairs-mono (λ x y n. n.0) (sort played_before idx) (AreDistinct-perm (Permᴰ.symm p) d))
          (All_perm (λ x. x.0 < length ords) (Permᴰ.symm p) b)))

-- The number at each position of a group is one more than the rows of the group before it.
pub number_groups-rank :
    (groups : List (Group × List Placed)) (ords : List ℕ)
    → AreDistinct (members groups)
    → All (λ x. x.0 < length ords) (members groups)
    → All
        (λ g.
          All
            (λ x.
              get_or (number_groups groups ords) x.0 0 ≡ suc (count (λ q. played_before q x) g.1))
            g.1)
        groups
unfolding number_groups
number_groups-rank [] ords d b = tt
number_groups-rank ((g, idx) ∷ groups) ords d b = (
  All-mono
      (λ x h.
        number_groups-outside groups (number_rows 0 (sort played_before idx) ords) x.0 h.0 ∙ h.1)
      idx
      (All_both _ _ idx
        (All-mono (λ x h. All-mono (λ y n e. n.0 (sym e)) (members groups) h) idx
          (Pairs_across _ idx (members groups) d))
        (group-rank idx ords (Pairs-left _ idx (members groups) d)
          (All_left _ idx (members groups) b))),
  number_groups-rank groups (number_rows 0 (sort played_before idx) ords)
      (Pairs-right _ idx (members groups) d)
      (All-mono (λ x l. rw (length-number_rows 0 (sort played_before idx) ords) l) (members groups)
        (All_right _ idx (members groups) b)),
)

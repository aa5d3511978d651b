-- ===== src/Events/Ordinals.antt =====
-- internal/events/events.go: `ordinalsWithinSeason`. Go visits `byGroup` in any order: `visit` is the
-- order that it takes.
pub mod Order
pub mod Numbering
pub mod Grouping
pub mod Positions
pub mod Ranks
use tennis_wiki.Base.{ℕ, ◌+◌, Bool, not, List, [], ◌∷◌, ◌++◌, map, ltb, ◌==◌, if◌then◌else◌, set}
use tennis_wiki.Base.Dict.{modify, Eq, pair_eq, text_eq, number_eq}
use tennis_wiki.Base.Sort.{sort}
use tennis_wiki.Base.Text.{Bytes, equal, text_less}
use tennis_wiki.Events.{Row}

-- `pending`
pub record Pending : Type 0 where
  pub row : Row
  pub norm : Bytes

-- `group`: tour, tier, name and season.
abbrev pub Group : Type 0
Group = Bytes × (Bytes × (Bytes × ℕ))

instance abbrev pub group_eq : Eq Group
group_eq = pair_eq text_eq (pair_eq text_eq (pair_eq text_eq number_eq))

abbrev pub group_of : Pending → Group
group_of p = (p.row.tour, (p.row.tier, (p.norm, p.row.season)))

-- A row with its position in the list.
abbrev pub Placed : Type 0
Placed = ℕ × Row

-- The test given to `sort.Slice`.
unfoldable pub played_before : Placed → Placed → Bool
unfolding equal text_less
played_before (i, x) (j, y) =
    if not (x.start_date == y.start_date)
    then ltb x.start_date y.start_date
    else if not (equal x.source_id y.source_id)
    then text_less x.source_id y.source_id
    else ltb x.id y.id

-- The loop that fills `byGroup`, from position `i` on.
unfoldable pub by_group : ℕ → List Pending → List (Group × List Placed) → List (Group × List Placed)
unfolding modify
by_group i [] groups = groups
by_group i (p ∷ ps) groups =
    by_group (i + 1) ps (modify (group_of p) [] (λ idx. idx ++ (i, p.row) ∷ []) groups)

-- The loop over the sorted positions of a group, `k` of them done.
unfoldable pub number_rows : ℕ → List Placed → List ℕ → List ℕ
number_rows k [] ordinals = ordinals
number_rows k ((i, r) ∷ idx) ordinals = number_rows (k + 1) idx (set ordinals i (k + 1))

unfoldable pub number_groups : List (Group × List Placed) → List ℕ → List ℕ
unfolding number_rows sort played_before
number_groups [] ordinals = ordinals
number_groups ((g, idx) ∷ groups) ordinals =
    number_groups groups (number_rows 0 (sort played_before idx) ordinals)

module _ (visit : List (Group × List Placed) → List (Group × List Placed)) where
  -- `ordinalsWithinSeason`
  unfoldable pub ordinals_within_season : List Pending → List ℕ
  unfolding by_group number_groups
  ordinals_within_season named = number_groups (visit (by_group 0 named [])) (map (λ p. 0) named)

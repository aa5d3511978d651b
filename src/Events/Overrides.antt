-- ===== src/Events/Overrides.antt =====
-- internal/events/overrides.go: the decisions on numbers, what is refused of them, and their index.
-- The value after a method is its receiver afterwards.
use tennis_wiki.Base.{
  ℕ, ◌+◌, not, ◌&&◌, List, [], ◌∷◌, ◌++◌, Option, none, some, if◌then◌else◌, is_empty, map, get_or,
  get_elem?, set, ◌==◌,
}
use tennis_wiki.Base.Dict.{find?, put, text_eq}
use tennis_wiki.Base.Text.{Bytes, codes, equal}
use tennis_wiki.Events.{Row}
use tennis_wiki.Events.Names.{
  RawKey, raw_number, raw_code, raw_none, trim_zeros, number_key, is_number, is_m_code,
}

-- `Override`, without the note. An absent field is empty.
pub record Override : Type 0 where
  pub tour : Bytes
  pub number : Bytes
  pub code : Bytes
  pub source_id : Bytes
  pub source_ids : List Bytes
  pub to : Bytes
  pub name : Bytes

-- The errors of `validate`, in the order of its tests.
pub data Invalid : Type 0 where
  bad_tour bad_selectors source_ids_without_to bad_number bad_code no_decision bad_to : Invalid
  name_without_number : Invalid

abbrev count_text : Bytes → ℕ
count_text s = if is_empty s then 0 else 1

abbrev pub selectors : Override → ℕ
selectors o =
    count_text o.number
    + count_text o.code
    + count_text o.source_id
    + (if is_empty o.source_ids then 0 else 1)

-- `validate`; `none` is nil.
unfoldable pub validate : Override → Option Invalid
unfolding equal is_m_code
validate o =
    if not (equal o.tour (codes "atp")) && not (equal o.tour (codes "wta"))
    then some bad_tour
    else if not (selectors o == 1)
    then some bad_selectors
    else if not (is_empty o.source_ids) && is_empty o.to
    then some source_ids_without_to
    else if not (is_empty o.number) && not (is_number o.number)
    then some bad_number
    else if not (is_empty o.code) && not (is_m_code o.code)
    then some bad_code
    else if is_empty o.to && is_empty o.name
    then some no_decision
    else if not (is_empty o.to) && not (is_number o.to)
    then some bad_to
    else if not (is_empty o.name) && is_empty o.number
    then some name_without_number
    else none

-- The loop of `LoadOverrides`: the first override that is refused, with its position.
unfoldable pub validate_all : ℕ → List Override → Option (ℕ × Invalid)
unfolding validate
validate_all i [] = none
validate_all i (o ∷ os) =
    let rest = validate_all (i + 1) os in elim (validate o) [ some e ↦ some (i, e) | none ↦ rest ]

-- `index`
pub record Index : Type 0 where
  pub by_source_id : List (Bytes × ℕ)
  pub by_number : List (Bytes × ℕ)
  pub by_code : List (Bytes × ℕ)
  pub names : List (Bytes × Bytes)
  pub hits : List ℕ
  pub overrides : List Override

-- `tour + "\x00" + k`
abbrev pub scoped : Bytes → Bytes → Bytes
scoped tour k = tour ++ 0 ∷ k

-- The loop over `SourceIDs`.
unfoldable pub put_ids : Bytes → ℕ → List Bytes → List (Bytes × ℕ) → List (Bytes × ℕ)
unfolding put
put_ids tour i [] m = m
put_ids tour i (id ∷ ids) m = put_ids tour i ids (put (scoped tour id) i m)

-- The body of the loop of `index`, for the override at position `i`.
unfoldable pub enter : ℕ → Override → Index → Index
unfolding put_ids put number_key trim_zeros
enter i o ix =
    if not (is_empty o.source_ids)
    then record ix { by_source_id = put_ids o.tour i o.source_ids ix.by_source_id }
    else if not (is_empty o.source_id)
    then record ix { by_source_id = put (scoped o.tour o.source_id) i ix.by_source_id }
    else if not (is_empty o.code)
    then record ix { by_code = put (scoped o.tour o.code) i ix.by_code }
    else if not (is_empty o.number)
    then record ix {
      by_number =
          if not (is_empty o.to)
          then put (scoped o.tour (trim_zeros o.number)) i ix.by_number
          else ix.by_number;
      names =
          if not (is_empty o.name)
          then put (scoped o.tour (number_key (trim_zeros o.number))) o.name ix.names
          else ix.names;
    }
    else ix

unfoldable pub enter_all : ℕ → List Override → Index → Index
unfolding enter
enter_all i [] ix = ix
enter_all i (o ∷ os) ix = enter_all (i + 1) os (enter i o ix)

abbrev pub no_hits : List Override → List ℕ
no_hits = map (λ o. 0)

-- `(*Overrides).index`
unfoldable pub index_of : List Override → Index
unfolding enter_all
index_of os = enter_all 0 os record {
  by_source_id = [];
  by_number = [];
  by_code = [];
  names = [];
  hits = no_hits os;
  overrides = os;
}

-- `ix.overrides[i].To`; a position past the end, which is a panic in Go, gives no number.
abbrev pub to_of : List Override → ℕ → Bytes
to_of os i = elim (get_elem? os i) [ none ↦ [] | some o ↦ o.to ]

-- `hit`
unfoldable pub hit : Index → ℕ → Option Bytes × Index
unfolding trim_zeros
hit ix i = (
  if is_empty (to_of ix.overrides i) then none else some (trim_zeros (to_of ix.overrides i)),
  record ix { hits = set ix.hits i (get_or ix.hits i 0 + 1) },
)

-- The second half of the lookups of `target`, by the kind of the key.
abbrev pub by_raw : Index → Row → RawKey → Option ℕ
by_raw ix r (raw_number n) = find? (scoped r.tour n) ix.by_number
by_raw ix r (raw_code c) = find? (scoped r.tour c) ix.by_code
by_raw ix r raw_none = none

-- The position that `target` finds.
unfoldable pub applying : Index → Row → RawKey → Option ℕ
unfolding find?
applying ix r raw = elim (find? (scoped r.tour r.source_id) ix.by_source_id) [
  | some i ↦ some i
  | none ↦ by_raw ix r raw
]

unfoldable pub hit_found : Index → Option ℕ → Option Bytes × Index
unfolding hit
hit_found ix none = (none, ix)
hit_found ix (some i) = hit ix i

-- `target`
unfoldable pub target : Index → Row → RawKey → Option Bytes × Index
unfolding applying
target ix r raw = hit_found ix (applying ix r raw)

-- `pinnedName`
unfoldable pub pinned_name : Index → Bytes → Bytes → Bytes
unfolding find?
pinned_name ix tour key = elim (find? (scoped tour key) ix.names) [ none ↦ [] | some n ↦ n ]

-- The loop of `unmatched`, from position `i` on.
unfoldable pub unmatched_from : List ℕ → ℕ → List Override → List Override
unmatched_from hits i [] = []
unmatched_from hits i (o ∷ os) =
    let rest = unmatched_from hits (i + 1) os in
    if not (is_empty o.to) && get_or hits i 0 == 0 then o ∷ rest else rest

-- `unmatched`
unfoldable pub unmatched : Index → List Override
unfolding unmatched_from
unmatched ix = unmatched_from ix.hits 0 ix.overrides

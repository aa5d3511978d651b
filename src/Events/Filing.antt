-- ===== src/Events/Filing.antt =====
-- internal/events/events.go: the two loops of `Resolve` over the rows.
pub mod Rows
pub mod Accounted
use tennis_wiki.Base.{ℕ, ◌+◌, List, [], ◌∷◌, ◌++◌, Option, none, some, ltb, if◌then◌else◌, get_or}
use tennis_wiki.Base.Dict.{Eq, find?, put, modify, text_eq, number_eq, pair_eq}
use tennis_wiki.Base.Text.{Bytes, codes, equal}
use tennis_wiki.Name.{Unicode}
use tennis_wiki.Events.{
  Row, Link, link_override, link_number, link_bridged, link_name, link_team, Edition,
}
use tennis_wiki.Events.Names.{
  RawKey, raw_number, raw_code, raw_none, normalise, competition, raw_key_of, number_key, name_key,
  team_key,
}
use tennis_wiki.Events.Ordinals.{Pending}
use tennis_wiki.Events.Overrides.{Override, Index, index_of, target}

-- The levels of `namesUnder`: tour, tier and name.
abbrev pub Name : Type 0
Name = Bytes × (Bytes × Bytes)

instance abbrev pub name_eq : Eq Name
name_eq = pair_eq text_eq (pair_eq text_eq text_eq)

-- What the two loops over the rows write.
pub record Filing : Type 0 where
  pub index : Index
  pub assigned : List (ℕ × Edition)
  pub key_of : List (ℕ × Bytes)
  pub names_under : List (Name × List Bytes)
  pub named : List Pending
  pub ambiguous : List Bytes
  pub numbered : ℕ

unfoldable pub new_filing : List Override → Filing
unfolding index_of
new_filing os = record {
  index = index_of os;
  assigned = [];
  key_of = [];
  names_under = [];
  named = [];
  ambiguous = [];
  numbered = 0;
}

-- `set[k] = struct{}{}`
unfoldable pub add_text : Bytes → List Bytes → List Bytes
unfolding equal
add_text k [] = k ∷ []
add_text k (j ∷ js) = if equal j k then j ∷ js else j ∷ add_text k js

-- `noteName`
unfoldable pub note_name : Name → Bytes → List (Name × List Bytes) → List (Name × List Bytes)
unfolding modify add_text
note_name n key names = modify n [] (add_text key) names

-- `keyOf[r.ID] = key; assigned[r.ID] = Edition{r, link}`
unfoldable pub assign : Row → Bytes → Link → Filing → Filing
unfolding put
assign r key link st = record st {
  key_of = put r.id key st.key_of;
  assigned = put r.id (record { row = r; link = link }) st.assigned;
}

-- A row under a number, with its name noted.
unfoldable pub assign_number : Name → Row → Bytes → Link → Filing → Filing
unfolding assign note_name
assign_number n r key link st = record (assign r key link st) {
  names_under = note_name n key st.names_under;
}

-- The rows that no override files: those with a number, and those left to the name rule.
unfoldable pub file_raw : Bytes → Row → RawKey → Filing → Filing
unfolding number_key
file_raw norm r (raw_number n) st =
    assign_number (r.tour, (r.tier, norm)) r (number_key n) link_number st
file_raw norm r (raw_code c) st = record st {
  named = st.named ++ record { row = r; norm = norm } ∷ [];
}
file_raw norm r raw_none st = record st { named = st.named ++ record { row = r; norm = norm } ∷ [] }

unfoldable pub file_target : Bytes → Row → RawKey → Option Bytes × Index → Filing → Filing
unfolding number_key
file_target norm r raw (some to, ix) st =
    assign_number (r.tour, (r.tier, norm)) r (number_key to) link_override
      (record st { index = ix })
file_target norm r raw (none, ix) st = file_raw norm r raw (record st { index = ix })

-- The first loop, over the rows.
module _ (u : Unicode) where
  unfoldable pub file_row : Row → Filing → Filing
  unfolding team_key competition equal raw_key_of target normalise assign
  file_row r st =
      if equal r.level (codes "D")
      then assign r (team_key (competition u r.name)) link_team st
      else file_target (normalise u r.name) r (raw_key_of r) (target st.index r (raw_key_of r)) st

  unfoldable pub file_rows : List Row → Filing → Filing
  unfolding file_row
  file_rows [] st = st
  file_rows (r ∷ rs) st = file_rows rs (file_row r st)

-- `namesUnder[tour][tier][norm]`
unfoldable pub candidates : Name → List (Name × List Bytes) → List Bytes
unfolding find?
candidates n names = elim (find? n names) [ none ↦ [] | some ks ↦ ks ]

-- A row that is the first of its name in its season.
unfoldable pub place_first : Pending → List Bytes → Filing → Filing
unfolding assign name_key add_text
place_first p (k ∷ []) st = assign p.row k link_bridged st
place_first p [] st = assign p.row (name_key p.row.tier p.norm 1) link_name st
place_first p (k ∷ l ∷ ks) st = assign p.row (name_key p.row.tier p.norm 1) link_name (record st {
  ambiguous = add_text (p.row.tour ++ 32 ∷ (p.row.tier ++ 32 ∷ p.norm)) st.ambiguous;
})

-- The body of the second loop, for a row of this ordinal.
unfoldable pub place : Pending → ℕ → Filing → Filing
unfolding assign name_key add_text candidates
place p ordinal st =
    if ltb 1 ordinal
    then assign p.row (name_key p.row.tier p.norm ordinal) link_name
        (record st { numbered = st.numbered + 1 })
    else place_first p (candidates (p.row.tour, (p.row.tier, p.norm)) st.names_under) st

-- The second loop, from position `i` on.
unfoldable pub place_all : List ℕ → ℕ → List Pending → Filing → Filing
unfolding place
place_all ordinals i [] st = st
place_all ordinals i (p ∷ ps) st = place_all ordinals (i + 1) ps (place p (get_or ordinals i 0) st)

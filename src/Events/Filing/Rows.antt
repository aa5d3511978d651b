-- ===== src/Events/Filing/Rows.antt =====
-- internal/events/events.go: what the two loops over the rows make of each row.
use tennis_wiki.Base.{
  ℕ, ◌≡◌, refl, List, [], ◌∷◌, ◌++◌, Option, none, some, ◌⊎◌, inl, inr, Bool-cases, ltb,
}
use tennis_wiki.Base.Dict.{number_eq}
use tennis_wiki.Base.Dict.Laws.{IsFresh, put-fresh}
use tennis_wiki.Base.Text.{Bytes, codes, equal}
use tennis_wiki.Name.{Unicode}
use tennis_wiki.Events.{Row, Link, link_override, link_number, link_bridged, link_name, link_team}
use tennis_wiki.Events.Names.{RawKey, raw_number, raw_code, raw_none, raw_key_of, normalise}
use tennis_wiki.Events.Ordinals.{Pending}
use tennis_wiki.Events.Overrides.{Index, target}
use tennis_wiki.Events.Filing.{
  Filing, assign, assign_number, file_raw, file_target, file_row, place_first, place, candidates,
}

-- The row has an edition behind the others, and nothing else waits; or it waits behind the others.
abbrev pub IsAssigned : Row → Filing → Filing → Type 0
IsAssigned r before after =
    (link : Link) × ((after.assigned
        ≡ before.assigned ++ (r.id, record { row = r; link = link }) ∷ [])
      × (after.named ≡ before.named))

abbrev pub IsDeferred : Row → Filing → Filing → Type 0
IsDeferred r before after =
    (norm : Bytes) × ((after.assigned ≡ before.assigned)
      × (after.named ≡ before.named ++ record { row = r; norm = norm } ∷ []))

file_raw-cases :
    (norm : Bytes) (r : Row) (raw : RawKey) (st : Filing)
    → IsFresh r.id st.assigned
    → IsAssigned r st (file_raw norm r raw st) ⊎ IsDeferred r st (file_raw norm r raw st)
unfolding file_raw assign_number assign
file_raw-cases norm r (raw_number n) st h =
    inl (link_number, (put-fresh r.id _ st.assigned h, refl))
file_raw-cases norm r (raw_code c) st h = inr (norm, (refl, refl))
file_raw-cases norm r raw_none st h = inr (norm, (refl, refl))

file_target-cases :
    (norm : Bytes) (r : Row) (raw : RawKey) (found : Option Bytes × Index) (st : Filing)
    → IsFresh r.id st.assigned
    → IsAssigned r st (file_target norm r raw found st)
      ⊎ IsDeferred r st (file_target norm r raw found st)
unfolding file_target assign_number assign
file_target-cases norm r raw (some to, ix) st h =
    inl (link_override, (put-fresh r.id _ st.assigned h, refl))
file_target-cases norm r raw (none, ix) st h =
    file_raw-cases norm r raw (record st { index = ix }) h

pub file_row-cases :
    (u : Unicode) (r : Row) (st : Filing)
    → IsFresh r.id st.assigned
    → IsAssigned r st (file_row u r st) ⊎ IsDeferred r st (file_row u r st)
unfolding file_row assign
file_row-cases u r st h = elim (Bool-cases (equal r.level (codes "D"))) [
  | inl e ↦ rw e (inl (link_team, (put-fresh r.id _ st.assigned h, refl)))
  | inr e ↦ rw e (
      file_target-cases (normalise u r.name) r (raw_key_of r) (target st.index r (raw_key_of r)) st
        h)
]

place_first-IsAssigned :
    (p : Pending) (keys : List Bytes) (st : Filing)
    → IsFresh p.row.id st.assigned
    → IsAssigned p.row st (place_first p keys st)
unfolding place_first assign
place_first-IsAssigned p [] st h = (link_name, (put-fresh p.row.id _ st.assigned h, refl))
place_first-IsAssigned p (k ∷ []) st h = (link_bridged, (put-fresh p.row.id _ st.assigned h, refl))
place_first-IsAssigned p (k ∷ l ∷ ks) st h = (link_name, (put-fresh p.row.id _ st.assigned h, refl))

pub place-IsAssigned :
    (p : Pending) (ordinal : ℕ) (st : Filing)
    → IsFresh p.row.id st.assigned
    → IsAssigned p.row st (place p ordinal st)
unfolding place assign
place-IsAssigned p ordinal st h = elim (Bool-cases (ltb 1 ordinal)) [
  | inl e ↦ rw e (link_name, (put-fresh p.row.id _ st.assigned h, refl))
  | inr e ↦ rw e (place_first-IsAssigned p (candidates _ st.names_under) st h)
]

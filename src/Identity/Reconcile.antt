-- ===== src/Identity/Reconcile.antt =====
-- internal/identity/identity.go: `Reconcile`, over the groups of rows that share a name key.
use tennis_wiki.Base.{List, [], ◌∷◌, ◌++◌, ltb, if◌then◌else◌, is_empty, length}
use tennis_wiki.Base.Text.{Bytes, equal}
use tennis_wiki.Name.{Unicode}
use tennis_wiki.Identity.{Date, Player, Match}
use tennis_wiki.Identity.Group.{Placed, reconcile_group}
use tennis_wiki.Identity.Key.{key}

abbrev pub Group : Type 0
Group = Bytes × List Player

-- `groups[k] = append(groups[k], p)`
unfoldable pub add_to_group : Bytes → Player → List Group → List Group
unfolding equal
add_to_group k p [] = (k, p ∷ []) ∷ []
add_to_group k p ((j, ps) ∷ groups) =
    if equal j k then (j, ps ++ p ∷ []) ∷ groups else (j, ps) ∷ add_to_group k p groups

module _ (u : Unicode) where
  -- The loop that fills `groups`; a row with no key is left out.
  unfoldable pub group_by_key : List Player → List Group → List Group
  unfolding key add_to_group
  group_by_key [] groups = groups
  group_by_key (p ∷ ps) groups =
      group_by_key ps
        (if is_empty (key u p.full_name) then groups else add_to_group (key u p.full_name) p groups)

  module _ (visit : List Group → List Group)
      (visit_days : List (Date × List Placed) → List (Date × List Placed)) where
    -- The loop over the groups; a group of one row is skipped.
    unfoldable pub reconcile_groups : List Group → List Match
    unfolding reconcile_group
    reconcile_groups [] = []
    reconcile_groups ((k, ps) ∷ groups) =
        let rest = reconcile_groups groups in
        if ltb (length ps) 2 then rest else reconcile_group visit_days ps ++ rest

    -- `Reconcile`
    unfoldable pub reconcile : List Player → List Match
    unfolding group_by_key reconcile_groups
    reconcile players = reconcile_groups (visit (group_by_key players []))

-- ===== src/Events/Ordinals/Grouping.antt =====
-- internal/events/events.go: the groups that `ordinalsWithinSeason` makes.
use mathlib.Core.List.{Permᴰ}
use mathlib.Core.List.Permᴰ
use tennis_wiki.Base.{
  ℕ, ◌+◌, ◌≡◌, sym, ap, ◌∙◌, List, [], ◌∷◌, ◌++◌, inl, inr, Bool-cases, append_assoc, append-nil,
  if◌then◌else◌,
}
use tennis_wiki.Base.Dict.{find_or, modify}
use tennis_wiki.Base.Dict.Laws.{
  find_or-modify, find_or-modify_other, HasDistinctKeys, modify-HasDistinctKeys,
}
use tennis_wiki.Events.Ordinals.{Pending, Placed, Group, group_eq, group_of, by_group}
use tennis_wiki.Events.Ordinals.Numbering.{members}

-- The rows from position `i` on.
abbrev pub placed : ℕ → List Pending → List Placed
placed i [] = []
placed i (p ∷ ps) = (i, p.row) ∷ placed (i + 1) ps

-- Those of one group.
abbrev pub placed_in : Group → ℕ → List Pending → List Placed
placed_in g i [] = []
placed_in g i (p ∷ ps) =
    let rest = placed_in g (i + 1) ps in
    if group_eq.same (group_of p) g then (i, p.row) ∷ rest else rest

modify-members :
    (g : Group) (x : Placed) (m : List (Group × List Placed))
    → Permᴰ (members (modify g [] (λ idx. idx ++ x ∷ []) m)) (members m ++ x ∷ [])
unfolding modify
modify-members g x [] = Permᴰ.refl _
modify-members g x ((h, idx) ∷ m) = elim (Bool-cases (group_eq.same h g)) [
  | inl e ↦
      rw (e, append_assoc, append_assoc)
        (Permᴰ.append_left idx (Permᴰ.append_comm (x ∷ []) (members m)))
  | inr e ↦ rw (e, append_assoc) (Permᴰ.append_left idx (modify-members g x m))
]

pub by_group-members :
    (i : ℕ) (ps : List Pending) (groups : List (Group × List Placed))
    → Permᴰ (members (by_group i ps groups)) (members groups ++ placed i ps)
unfolding by_group
by_group-members i [] groups = rw append-nil (Permᴰ.refl _)
by_group-members i (p ∷ ps) groups = Permᴰ.trans (by_group-members (i + 1) ps _) (
    rw (← append_assoc (members groups) ((i, p.row) ∷ []) (placed (i + 1) ps))
      (Permᴰ.append_right _ (modify-members (group_of p) (i, p.row) groups)))

-- What the map holds under a group.
pub by_group-placed_in :
    (g : Group) (i : ℕ) (ps : List Pending) (groups : List (Group × List Placed))
    → find_or g [] (by_group i ps groups) ≡ find_or g [] groups ++ placed_in g i ps
unfolding by_group
by_group-placed_in g i [] groups = sym (append-nil _)
by_group-placed_in g i (p ∷ ps) groups =
    let add : List Placed → List Placed = λ idx. idx ++ (i, p.row) ∷ [] in
    elim (Bool-cases (group_eq.same (group_of p) g)) [
      | inl e ↦ rw e (
          by_group-placed_in g (i + 1) ps (modify (group_of p) [] add groups)
          ∙ ap (λ l. l ++ placed_in g (i + 1) ps) (find_or-modify (group_of p) g [] add groups e)
          ∙ append_assoc (find_or g [] groups) ((i, p.row) ∷ []) (placed_in g (i + 1) ps))
      | inr e ↦ rw e (
          by_group-placed_in g (i + 1) ps (modify (group_of p) [] add groups)
          ∙ ap (λ l. l ++ placed_in g (i + 1) ps)
              (find_or-modify_other (group_of p) g [] [] add groups e))
    ]

pub by_group-HasDistinctKeys :
    (i : ℕ) (ps : List Pending) (groups : List (Group × List Placed))
    → HasDistinctKeys groups
    → HasDistinctKeys (by_group i ps groups)
unfolding by_group
by_group-HasDistinctKeys i [] groups h = h
by_group-HasDistinctKeys i (p ∷ ps) groups h =
    by_group-HasDistinctKeys (i + 1) ps _
      (modify-HasDistinctKeys (group_of p) [] (λ idx. idx ++ (i, p.row) ∷ []) groups h)

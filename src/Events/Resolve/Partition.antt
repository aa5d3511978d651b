-- ===== src/Events/Resolve/Partition.antt =====
-- internal/events/events.go: the rows that the events of `Resolve` hold.
use mathlib.Core.List.{Permᴰ}
use mathlib.Core.List.Permᴰ
use tennis_wiki.Base.{
  ℕ, ◌≡◌, refl, ap, List, [], ◌∷◌, ◌++◌, map, inl, inr, Bool-cases, append_assoc, append-nil,
}
use tennis_wiki.Base.Dict.{text_eq, modify}
use tennis_wiki.Base.Gather.{gather, gather_perm, gather_map_perm}
use tennis_wiki.Base.Sort.{sort-perm}
use tennis_wiki.Base.Text.{Bytes, equal}
use tennis_wiki.Name.{Unicode}
use tennis_wiki.Events.{Row, Edition, Event}
use tennis_wiki.Events.Ordinals.{Group, Placed, ordinals_within_season}
use tennis_wiki.Events.Overrides.{Override, Index, scoped}
use tennis_wiki.Events.Filing.{Filing, new_filing, file_rows}
use tennis_wiki.Events.Filing.Accounted.{
  IsKeyed, HasDistinctIds, rows_of, HasDistinctIds-perm, file_rows-perm, place_all-perm,
}
use tennis_wiki.Events.Resolve.{
  new_event, add_edition, by_event, key_at, describe, finish, edition_before, event_before, file,
  collect, resolve,
}

abbrev pub held : List (Bytes × Event) → List Edition
held = gather (λ e. e.1.editions)

modify-held :
    (k : Bytes) (tour key : Bytes) (ed : Edition) (m : List (Bytes × Event))
    → Permᴰ (held (modify k (new_event tour key) (add_edition ed) m)) (held m ++ ed ∷ [])
unfolding modify
modify-held k tour key ed [] = Permᴰ.refl _
modify-held k tour key ed ((j, v) ∷ m) = elim (Bool-cases (equal j k)) [
  | inl e ↦
      rw (e, append_assoc, append_assoc)
        (Permᴰ.append_left v.editions (Permᴰ.append_comm (ed ∷ []) (held m)))
  | inr e ↦ rw (e, append_assoc) (Permᴰ.append_left v.editions (modify-held k tour key ed m))
]

pub by_event-held :
    (keys : List (ℕ × Bytes)) (m : List (ℕ × Edition)) (events : List (Bytes × Event))
    → Permᴰ (held (by_event keys m events)) (held events ++ map (λ e. e.1) m)
unfolding by_event
by_event-held keys [] events = rw append-nil (Permᴰ.refl _)
by_event-held keys ((id, ed) ∷ m) events =
    let k = key_at id keys in
    let next = modify (scoped ed.row.tour k) (new_event ed.row.tour k) (add_edition ed) events in
    Permᴰ.trans (by_event-held keys m next) (
      rw (← append_assoc (held events) (ed ∷ []) (map (λ (e : ℕ × Edition). e.1) m))
        (Permᴰ.append_right _ (modify-held (scoped ed.row.tour k) ed.row.tour k ed events)))

describe-perm :
    (u : Unicode) (ix : Index) (ev : Event) (es : List Edition)
    → Permᴰ es ev.editions
    → Permᴰ (describe u ix ev es).editions ev.editions
unfolding describe
describe-perm u ix ev [] p = Permᴰ.refl _
describe-perm u ix ev (e ∷ es) p = p

pub finish-perm :
    (u : Unicode) (ix : Index) (ev : Event) → Permᴰ (finish u ix ev).editions ev.editions
unfolding finish
finish-perm u ix ev = describe-perm u ix ev _ (sort-perm edition_before ev.editions)

module _ (u : Unicode) (visit_groups : List (Group × List Placed) → List (Group × List Placed))
    (visit_assigned : List (ℕ × Edition) → List (ℕ × Edition))
    (visit_events : List (Bytes × Event) → List (Bytes × Event))
    (assigned-perm : (m : List (ℕ × Edition)) → Permᴰ (visit_assigned m) m)
    (events-perm : (m : List (Bytes × Event)) → Permᴰ (visit_events m) m) where
  collect-perm :
      (st : Filing)
      → Permᴰ
          (gather (λ ev. ev.editions) (collect u visit_groups visit_assigned visit_events st))
          (map (λ e. e.1) st.assigned)
  unfolding collect
  collect-perm st =
      let groups = by_event st.key_of (visit_assigned st.assigned) [] in
      let finished = map (λ e. finish u st.index e.1) (visit_events groups) in
      Permᴰ.trans (gather_perm (λ ev. ev.editions) (sort-perm event_before finished)) (
        Permᴰ.trans
          (gather_map_perm (λ e. e.1.editions) (λ ev. ev.editions) (λ e. finish u st.index e.1)
            (λ e. finish-perm u st.index e.1) (visit_events groups))
          (Permᴰ.trans (gather_perm (λ e. e.1.editions) (events-perm groups)) (
            Permᴰ.trans (by_event-held st.key_of (visit_assigned st.assigned) [])
              (Permᴰ.map (λ e. e.1) (assigned-perm st.assigned)))))

  pub file-perm :
      (rows : List Row) (overrides : List Override)
      → HasDistinctIds rows
      → IsKeyed (file u visit_groups visit_assigned visit_events rows overrides).assigned
        × Permᴰ
            (rows_of (file u visit_groups visit_assigned visit_events rows overrides).assigned)
            rows
  unfolding file new_filing
  file-perm rows overrides d =
      let st = file_rows u rows (new_filing overrides) in
      let (keyed, seen) = file_rows-perm u rows (new_filing overrides) tt d in
      let (keyed', placed) =
        place_all-perm (ordinals_within_season visit_groups st.named) 0 st.named st keyed
          (HasDistinctIds-perm (Permᴰ.symm seen) d) in
      (keyed', rw placed seen)

  -- The editions of the events that Resolve derives are the rows it is given, each of them once:
  -- whatever order the maps are visited in, and provided that no two rows have the same id.
  pub resolve-partition :
      (rows : List Row) (overrides : List Override)
      → HasDistinctIds rows
      → Permᴰ
          (map
            (λ ed. ed.row)
            (gather
              (λ ev. ev.editions)
              (resolve u visit_groups visit_assigned visit_events rows overrides).events))
          rows
  unfolding resolve
  resolve-partition rows overrides d =
      let st = file u visit_groups visit_assigned visit_events rows overrides in
      Permᴰ.trans (Permᴰ.map (λ (ed : Edition). ed.row) (collect-perm st))
        (rw (map_map st.assigned) ((file-perm rows overrides d).1))
    where
      map_map : (m : List (ℕ × Edition)) → map (λ ed. ed.row) (map (λ e. e.1) m) ≡ rows_of m
      map_map [] = refl
      map_map (e ∷ m) = ap (λ l. e.1.row ∷ l) (map_map m)

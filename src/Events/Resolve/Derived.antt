-- ===== src/Events/Resolve/Derived.antt =====
-- internal/events/events.go: the events that `Resolve` returns.
use mathlib.Core.List.{Permᴰ}
use mathlib.Core.List.Permᴰ
use tennis_wiki.Base.{ℕ, ◌≡◌, ◌≢◌, sym, List, [], ◌∷◌, map, All, All_perm}
use tennis_wiki.Base.Gather.{gather-Pairs, gather_perm}
use tennis_wiki.Base.Dict.Laws.{HasDistinctKeys}
use tennis_wiki.Base.Pairs.{Pairs, Pairs-perm}
use tennis_wiki.Base.Sort.{sort-perm, sort-Increasing, Increasing}
use tennis_wiki.Base.Text.{Bytes}
use tennis_wiki.Name.{Unicode}
use tennis_wiki.Events.{Row, Edition, Event}
use tennis_wiki.Events.Ordinals.{Group, Placed}
use tennis_wiki.Events.Overrides.{Override}
use tennis_wiki.Events.Filing.{Filing}
use tennis_wiki.Events.Filing.Accounted.{IsKeyed, HasDistinctIds, HasDistinctIds-perm, rows_of}
use tennis_wiki.Events.Resolve.{by_event, finish, event_before, file, collect, resolve}
use tennis_wiki.Events.Resolve.Order.{event_before_trans}
use tennis_wiki.Events.Resolve.Partition.{by_event-held, file-perm}
use tennis_wiki.Events.Resolve.Runs.{
  IsGroup, IsDescribed, by_event-IsGroup, by_event-HasDistinctKeys, groups-Untied,
  finish-IsDescribed,
}

module _ (u : Unicode) (visit_groups : List (Group × List Placed) → List (Group × List Placed))
    (visit_assigned : List (ℕ × Edition) → List (ℕ × Edition))
    (visit_events : List (Bytes × Event) → List (Bytes × Event))
    (assigned-perm : (m : List (ℕ × Edition)) → Permᴰ (visit_assigned m) m)
    (events-perm : (m : List (Bytes × Event)) → Permᴰ (visit_events m) m) where
  abbrev groups : Filing → List (Bytes × Event)
  groups st = by_event st.key_of (visit_assigned st.assigned) []

  visited-IsGroup :
      (st : Filing) → IsKeyed st.assigned → All (IsGroup st.key_of) (visit_events (groups st))
  visited-IsGroup st k = All_perm (IsGroup st.key_of) (Permᴰ.symm (events-perm (groups st))) (
      by_event-IsGroup st.key_of (visit_assigned st.assigned) []
        (All_perm (λ e. e.0 ≡ e.1.row.id) (Permᴰ.symm (assigned-perm st.assigned)) k) tt)

  visited-HasDistinctKeys : (st : Filing) → HasDistinctKeys (visit_events (groups st))
  visited-HasDistinctKeys st =
      Pairs-perm (λ e f. e.0 ≢ f.0) (λ a b n e. n (sym e)) (Permᴰ.symm (events-perm (groups st)))
        (by_event-HasDistinctKeys st.key_of (visit_assigned st.assigned) [] tt)

  collect-Increasing :
      (st : Filing)
      → IsKeyed st.assigned
      → Increasing event_before (collect u visit_groups visit_assigned visit_events st)
  unfolding collect
  collect-Increasing st k =
      sort-Increasing event_before event_before_trans
        (map (λ e. finish u st.index e.1) (visit_events (groups st)))
        (groups-Untied u st.index st.key_of (visit_events (groups st)) (visited-IsGroup st k)
          (visited-HasDistinctKeys st))

  abbrev HasDistinctEditions : List Edition → Type 0
  HasDistinctEditions = Pairs (λ a b. a.row.id ≢ b.row.id)

  editions_of_rows :
      (m : List (ℕ × Edition)) → HasDistinctIds (rows_of m) → HasDistinctEditions (map (λ e. e.1) m)
  editions_of_rows [] h = tt
  editions_of_rows (e ∷ m) h = (go m h.0, editions_of_rows m h.1)
    where
      go :
          (n : List (ℕ × Edition))
          → All (λ r. e.1.row.id ≢ r.id) (rows_of n)
          → All (λ (d : Edition). e.1.row.id ≢ d.row.id) (map (λ f. f.1) n)
      go [] q = tt
      go (f ∷ n) q = (q.0, go n q.1)

  visited-HasDistinctEditions :
      (st : Filing)
      → HasDistinctIds (rows_of st.assigned)
      → All (λ e. HasDistinctEditions e.1.editions) (visit_events (groups st))
  visited-HasDistinctEditions st d =
      gather-Pairs (λ a b. a.row.id ≢ b.row.id) (λ e. e.1.editions) (visit_events (groups st))
        (Pairs-perm (λ a b. a.row.id ≢ b.row.id) (λ a b n e. n (sym e))
          (Permᴰ.symm (
            Permᴰ.trans (gather_perm (λ e. e.1.editions) (events-perm (groups st))) (
              Permᴰ.trans (by_event-held st.key_of (visit_assigned st.assigned) [])
                (Permᴰ.map (λ e. e.1) (assigned-perm st.assigned)))))
          (editions_of_rows st.assigned d))

  collect-IsDescribed :
      (st : Filing)
      → IsKeyed st.assigned
      → HasDistinctIds (rows_of st.assigned)
      → All IsDescribed (collect u visit_groups visit_assigned visit_events st)
  unfolding collect
  collect-IsDescribed st k d =
      All_perm IsDescribed
        (Permᴰ.symm
          (sort-perm event_before (map (λ e. finish u st.index e.1) (visit_events (groups st)))))
        (go (visit_events (groups st)) (visited-IsGroup st k) (visited-HasDistinctEditions st d))
    where
      go :
          (es : List (Bytes × Event))
          → All (IsGroup st.key_of) es
          → All (λ e. HasDistinctEditions e.1.editions) es
          → All IsDescribed (map (λ e. finish u st.index e.1) es)
      go [] g h = tt
      go (e ∷ es) g h = (finish-IsDescribed u st.index e.1 h.0 g.0.1.1, go es g.1 h.1)

  -- The events that Resolve derives stand in strict order of tour and then key, so that no two have
  -- the same tour and key: whatever order the maps are visited in, and provided that no two rows
  -- have the same id.
  pub resolve-Increasing :
      (rows : List Row) (overrides : List Override)
      → HasDistinctIds rows
      → Increasing event_before
          (resolve u visit_groups visit_assigned visit_events rows overrides).events
  unfolding resolve
  resolve-Increasing rows overrides d =
      let filed =
        file-perm u visit_groups visit_assigned visit_events assigned-perm events-perm rows
          overrides d in
      collect-Increasing (file u visit_groups visit_assigned visit_events rows overrides) filed.0

  -- Each event that Resolve derives has an edition, its editions stand in strict order of season,
  -- date and id, and the seasons of all of them lie between its first and its last season: whatever
  -- order the maps are visited in, and provided that no two rows have the same id.
  pub resolve-IsDescribed :
      (rows : List Row) (overrides : List Override)
      → HasDistinctIds rows
      → All IsDescribed (resolve u visit_groups visit_assigned visit_events rows overrides).events
  unfolding resolve
  resolve-IsDescribed rows overrides d =
      let filed =
        file-perm u visit_groups visit_assigned visit_events assigned-perm events-perm rows
          overrides d in
      collect-IsDescribed (file u visit_groups visit_assigned visit_events rows overrides) filed.0
        (HasDistinctIds-perm (Permᴰ.symm filed.1) d)

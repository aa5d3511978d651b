-- ===== src/Events/Resolve.antt =====
-- internal/events/events.go: `Resolve`. Go visits a map in any order: `visit_groups`,
-- `visit_assigned` and `visit_events` are the orders that it takes.
pub mod Partition
pub mod Order
pub mod Runs
pub mod Derived
use tennis_wiki.Base.{
  ℕ, ◌+◌, Bool, not, List, [], ◌∷◌, ◌++◌, none, some, map, ltb, ◌==◌, if◌then◌else◌, is_empty,
}
use tennis_wiki.Base.Dict.{find?, modify, text_eq, number_eq}
use tennis_wiki.Base.Int
use tennis_wiki.Base.Sort.{sort}
use tennis_wiki.Base.Text.{Bytes, equal, text_less, trim}
use tennis_wiki.Name.{Unicode, is_space_rune}
use tennis_wiki.Events.{
  Row, Link, link_override, link_number, link_bridged, link_name, link_team, Edition, Event,
}
use tennis_wiki.Events.Names.{title_competition, ordinal_of, drop_suffix, is_ch, is_number}
use tennis_wiki.Events.Ordinals.{Group, Placed, ordinals_within_season}
use tennis_wiki.Events.Overrides.{Override, Index, pinned_name, unmatched, scoped}
use tennis_wiki.Events.Filing.{Filing, new_filing, file_rows, place_all}

abbrev link_rank : Link → ℕ
link_rank link_override = 0
link_rank link_number = 1
link_rank link_bridged = 2
link_rank link_name = 3
link_rank link_team = 4

-- `==` on links.
unfoldable pub same_link : Link → Link → Bool
same_link a b = link_rank a == link_rank b

-- `displayName`, for the last edition.
module _ (u : Unicode) where
  unfoldable pub display_name : Edition → ℕ → Bytes
  unfolding same_link title_competition trim drop_suffix Int.itoa
  display_name last ordinal =
      let n = trim is_space_rune (drop_suffix is_ch (trim is_space_rune last.row.name)) in
      let bare = trim is_space_rune (drop_suffix is_number n) in
      if same_link last.link link_team
      then title_competition u last.row.name
      else if not (same_link last.link link_name)
      then n
      else if ltb 1 ordinal
      then bare ++ 32 ∷ Int.itoa ordinal
      else bare

-- The test given to `sort.Slice` on the editions of an event.
unfoldable pub edition_before : Edition → Edition → Bool
edition_before x y =
    let a = x.row in
    let b = y.row in
    if not (a.season == b.season)
    then ltb a.season b.season
    else if not (a.start_date == b.start_date)
    then ltb a.start_date b.start_date
    else ltb a.id b.id

-- The test given to `sort.Slice` on the events.
unfoldable pub event_before : Event → Event → Bool
unfolding equal text_less
event_before a b =
    if not (equal a.tour b.tour) then text_less a.tour b.tour else text_less a.key b.key

-- `keyOf[id]`
unfoldable pub key_at : ℕ → List (ℕ × Bytes) → Bytes
unfolding find?
key_at id keys = elim (find? id keys) [ none ↦ [] | some k ↦ k ]

-- `res.ByLink[link]++`
unfoldable pub count_link : Link → List (Link × ℕ) → List (Link × ℕ)
unfolding same_link
count_link l [] = (l, 1) ∷ []
count_link l ((k, n) ∷ counts) =
    if same_link k l then (k, n + 1) ∷ counts else (k, n) ∷ count_link l counts

-- `&Event{Tour: tour, Key: key}`
abbrev pub new_event : Bytes → Bytes → Event
new_event tour key = record {
  tour = tour;
  key = key;
  name = [];
  ordinal = 0;
  first_season = 0;
  last_season = 0;
  editions = [];
}

abbrev pub add_edition : Edition → Event → Event
add_edition ed ev = record ev { editions = ev.editions ++ ed ∷ [] }

-- The loop over `assigned` that fills `byEvent`.
unfoldable pub by_event :
    List (ℕ × Bytes) → List (ℕ × Edition) → List (Bytes × Event) → List (Bytes × Event)
unfolding modify key_at
by_event keys [] events = events
by_event keys ((id, ed) ∷ rest) events = by_event keys rest (
    modify (scoped ed.row.tour (key_at id keys)) (new_event ed.row.tour (key_at id keys))
      (add_edition ed) events)

-- The counts that the same loop keeps.
unfoldable pub by_link : List (ℕ × Edition) → List (Link × ℕ) → List (Link × ℕ)
unfolding count_link
by_link [] counts = counts
by_link ((id, ed) ∷ rest) counts = by_link rest (count_link ed.link counts)

abbrev pub last_of : Edition → List Edition → Edition
last_of e [] = e
last_of e (f ∷ es) = last_of f es

-- The fields of an event from its sorted editions, of which there is one at least.
module _ (u : Unicode) where
  unfoldable pub describe : Index → Event → List Edition → Event
  unfolding ordinal_of pinned_name display_name
  describe ix ev [] = ev
  describe ix ev (e ∷ es) = record ev {
    editions = e ∷ es;
    first_season = e.row.season;
    last_season = (last_of e es).row.season;
    ordinal = ordinal_of ev.key;
    name =
        if is_empty (pinned_name ix ev.tour ev.key)
        then display_name u (last_of e es) (ordinal_of ev.key)
        else pinned_name ix ev.tour ev.key;
  }

  -- The body of the loop over `byEvent`.
  unfoldable pub finish : Index → Event → Event
  unfolding sort edition_before
  finish ix ev = describe ix ev (sort edition_before ev.editions)

-- `Result`
pub record Result : Type 0 where
  pub events : List Event
  pub counts : List (Link × ℕ)
  pub ambiguous : List Bytes
  pub numbered : ℕ
  pub unmatched : List Override

module _ (u : Unicode) (visit_groups : List (Group × List Placed) → List (Group × List Placed))
    (visit_assigned : List (ℕ × Edition) → List (ℕ × Edition))
    (visit_events : List (Bytes × Event) → List (Bytes × Event)) where
  -- The two loops over the rows.
  unfoldable pub file : List Row → List Override → Filing
  unfolding file_rows place_all ordinals_within_season
  file rows overrides =
      let st = file_rows u rows (new_filing overrides) in
      place_all (ordinals_within_season visit_groups st.named) 0 st.named st

  -- The events of a filing, in their order.
  unfoldable pub collect : Filing → List Event
  unfolding by_event finish sort event_before
  collect st = sort event_before (
      map (λ e. finish u st.index e.1)
        (visit_events (by_event st.key_of (visit_assigned st.assigned) [])))

  -- `Resolve`; nil overrides are the empty list.
  unfoldable pub resolve : List Row → List Override → Result
  unfolding file collect by_link sort text_less unmatched
  resolve rows overrides =
      let st = file rows overrides in
      record {
        events = collect st;
        counts = by_link (visit_assigned st.assigned) [];
        ambiguous = sort text_less st.ambiguous;
        numbered = st.numbered;
        unmatched = unmatched st.index;
      }

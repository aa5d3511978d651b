-- ===== src/Events/Resolve/Runs.antt =====
-- internal/events/events.go: what each event of `Resolve` is keyed on, its order and its seasons.
use mathlib.Core.Path.{ap₂}
use mathlib.Core.List.{Permᴰ}
use tennis_wiki.Base.{
  ℕ, ◌≤◌, ◌≡◌, ◌≢◌, refl, sym, ap, ◌∙◌, false, List, [], ◌∷◌, ◌++◌, map, arith, All, All-append,
  All_both, All-mono, is_empty,
}
use tennis_wiki.Base.Dict.{text_eq}
use tennis_wiki.Base.Dict.Laws.{HasDistinctKeys, All-modify, modify-HasDistinctKeys}
use tennis_wiki.Base.Pairs.{Pairs, Pairs-map, Pairs-mono}
use tennis_wiki.Base.Sort.{sort, sort-perm, sort-Increasing, Increasing, Untied}
use tennis_wiki.Base.Text.{Bytes}
use tennis_wiki.Name.{Unicode}
use tennis_wiki.Events.{Edition, Event}
use tennis_wiki.Events.Overrides.{Index, scoped}
use tennis_wiki.Events.Filing.Accounted.{IsKeyed}
use tennis_wiki.Events.Resolve.{
  new_event, add_edition, by_event, key_at, describe, finish, edition_before, event_before, last_of,
}
use tennis_wiki.Events.Resolve.Order.{
  event_before-Untied, edition_before_trans, edition_before-Untied, edition_before-season,
}

-- The key of the group is that of its event and of each of its editions, and it has one at least.
abbrev pub IsGroup : List (ℕ × Bytes) → Bytes × Event → Type 0
IsGroup keys (k, ev) =
    (k ≡ scoped ev.tour ev.key)
    × (All (λ ed. scoped ed.row.tour (key_at ed.row.id keys) ≡ k) ev.editions
        × (is_empty ev.editions ≡ false))

append-nonempty {ℓ} : {A : Type ℓ} (xs : List A) (x : A) → is_empty (xs ++ x ∷ []) ≡ false
append-nonempty [] x = refl
append-nonempty (y ∷ ys) x = refl

pub by_event-IsGroup :
    (keys : List (ℕ × Bytes)) (m : List (ℕ × Edition)) (events : List (Bytes × Event))
    → IsKeyed m
    → All (IsGroup keys) events
    → All (IsGroup keys) (by_event keys m events)
unfolding by_event
by_event-IsGroup keys [] events k h = h
by_event-IsGroup keys ((id, ed) ∷ m) events k h =
    let here : scoped ed.row.tour (key_at ed.row.id keys) ≡ scoped ed.row.tour (key_at id keys) =
      ap (λ i. scoped ed.row.tour (key_at i keys)) (sym k.0) in
    by_event-IsGroup keys m _ k.1 (
      All-modify (IsGroup keys) (scoped ed.row.tour (key_at id keys))
        (new_event ed.row.tour (key_at id keys)) (add_edition ed) events (refl, ((here, tt), refl))
        (λ ev g. (
          g.0,
          (
            All-append (λ (d : Edition). scoped d.row.tour (key_at d.row.id keys) ≡ _) ev.editions
                (ed ∷ []) g.1.0 (here, tt),
            append-nonempty ev.editions ed,
          ),
        ))
        h)

pub by_event-HasDistinctKeys :
    (keys : List (ℕ × Bytes)) (m : List (ℕ × Edition)) (events : List (Bytes × Event))
    → HasDistinctKeys events
    → HasDistinctKeys (by_event keys m events)
unfolding by_event
by_event-HasDistinctKeys keys [] events h = h
by_event-HasDistinctKeys keys ((id, ed) ∷ m) events h = by_event-HasDistinctKeys keys m _ (
    modify-HasDistinctKeys (scoped ed.row.tour (key_at id keys))
      (new_event ed.row.tour (key_at id keys)) (add_edition ed) events h)

-- The fields that describe an event say what its editions are.
abbrev pub IsDescribed : Event → Type 0
IsDescribed ev =
    Increasing edition_before ev.editions
    × (All (λ ed. (ev.first_season ≤ ed.row.season) × (ed.row.season ≤ ev.last_season)) ev.editions
        × (is_empty ev.editions ≡ false))

last-bounds :
    (e : Edition) (es : List Edition)
    → Increasing edition_before (e ∷ es)
    → All (λ ed. ed.row.season ≤ (last_of e es).row.season) (e ∷ es)
last-bounds e [] h = (omega arith, tt)
last-bounds e (f ∷ es) h =
    let rest = last-bounds f es h.1 in
    let step = edition_before-season e f h.0.0 in (omega (arith, rest.0, step), rest)

describe-IsDescribed :
    (u : Unicode) (ix : Index) (ev : Event) (es : List Edition)
    → Increasing edition_before es
    → is_empty es ≡ false
    → IsDescribed (describe u ix ev es)
unfolding describe
describe-IsDescribed u ix ev [] h n = absurd (ground (arith, n))
describe-IsDescribed u ix ev (e ∷ es) h n = (
  h,
  (
    All_both (λ (d : Edition). e.row.season ≤ d.row.season)
        (λ d. d.row.season ≤ (last_of e es).row.season) (e ∷ es)
        (omega arith, All-mono (edition_before-season e) es h.0) (last-bounds e es h),
    refl,
  ),
)

nonempty_perm {ℓ} : {A : Type ℓ} {xs ys : List A} → Permᴰ xs ys → is_empty xs ≡ is_empty ys
nonempty_perm Permᴰ.nil = refl
nonempty_perm (Permᴰ.cons e p) = refl
nonempty_perm (Permᴰ.swap e f) = refl
nonempty_perm (Permᴰ.trans p q) = nonempty_perm p ∙ nonempty_perm q

pub finish-IsDescribed :
    (u : Unicode) (ix : Index) (ev : Event)
    → Pairs (λ (a b : Edition). a.row.id ≢ b.row.id) ev.editions
    → is_empty ev.editions ≡ false
    → IsDescribed (finish u ix ev)
unfolding finish
finish-IsDescribed u ix ev d n =
    describe-IsDescribed u ix ev (sort edition_before ev.editions)
      (sort-Increasing edition_before edition_before_trans ev.editions
        (Pairs-mono edition_before-Untied ev.editions d))
      (nonempty_perm (sort-perm edition_before ev.editions) ∙ n)

describe-run :
    (u : Unicode) (ix : Index) (ev : Event) (es : List Edition)
    → ((describe u ix ev es).tour ≡ ev.tour) × ((describe u ix ev es).key ≡ ev.key)
unfolding describe
describe-run u ix ev [] = (refl, refl)
describe-run u ix ev (e ∷ es) = (refl, refl)

pub finish-run :
    (u : Unicode) (ix : Index) (ev : Event)
    → ((finish u ix ev).tour ≡ ev.tour) × ((finish u ix ev).key ≡ ev.key)
unfolding finish
finish-run u ix ev = describe-run u ix ev (sort edition_before ev.editions)

-- Groups under different keys are events that do not tie.
pub groups-Untied :
    (u : Unicode) (ix : Index) (keys : List (ℕ × Bytes)) (groups : List (Bytes × Event))
    → All (IsGroup keys) groups
    → HasDistinctKeys groups
    → Pairs (Untied event_before) (map (λ e. finish u ix e.1) groups)
groups-Untied u ix keys groups g d =
    Pairs-map {P = IsGroup keys} {R = λ e f. e.0 ≢ f.0} (Untied event_before) (λ e. finish u ix e.1)
      (λ a b p q n. event_before-Untied _ _ λ t k. n (
        p.0
        ∙ ap₂ scoped (sym ((finish-run u ix a.1).0) ∙ t ∙ (finish-run u ix b.1).0)
            (sym ((finish-run u ix a.1).1) ∙ k ∙ (finish-run u ix b.1).1)
        ∙ sym q.0))
      groups g d

-- ===== src/Events/Filing/Accounted.antt =====
-- internal/events/events.go: the rows that have an edition and those that wait, through the two loops.
use mathlib.Core.List.{Permᴰ}
use mathlib.Core.List.Permᴰ
use tennis_wiki.Base.{
  ℕ, ◌+◌, ◌≡◌, ◌≢◌, refl, sym, ap, ◌∙◌, List, [], ◌∷◌, ◌++◌, map, inl, inr, get_or, All, All-append,
  All_right, append_assoc, append-nil,
}
use tennis_wiki.Base.Dict.Laws.{IsFresh}
use tennis_wiki.Base.Pairs.{Pairs, Pairs-perm, Pairs_across}
use tennis_wiki.Name.{Unicode}
use tennis_wiki.Events.{Row, Link, Edition}
use tennis_wiki.Events.Ordinals.{Pending}
use tennis_wiki.Events.Filing.{Filing, file_row, file_rows, place, place_all}
use tennis_wiki.Events.Filing.Rows.{file_row-cases, place-IsAssigned}

-- The entries are under the ids of their rows.
abbrev pub IsKeyed : List (ℕ × Edition) → Type 0
IsKeyed = All (λ e. e.0 ≡ e.1.row.id)

abbrev pub HasDistinctIds : List Row → Type 0
HasDistinctIds = Pairs (λ a b. a.id ≢ b.id)

abbrev pub rows_of : List (ℕ × Edition) → List Row
rows_of = map (λ e. e.1.row)

abbrev pub waiting : List Pending → List Row
waiting = map (λ p. p.row)

pub map-append {ℓ κ} :
    {A : Type ℓ} {B : Type κ} (f : A → B) (xs ys : List A) → map f (xs ++ ys) ≡ map f xs ++ map f ys
map-append f [] ys = refl
map-append f (x ∷ xs) ys = ap (λ l. f x ∷ l) (map-append f xs ys)

pub HasDistinctIds-perm : {xs ys : List Row} → Permᴰ xs ys → HasDistinctIds xs → HasDistinctIds ys
HasDistinctIds-perm = Pairs-perm (λ a b. a.id ≢ b.id) (λ a b h e. h (sym e))

-- A row that is not among those filed has a new id.
row-IsFresh :
    (r : Row) (m : List (ℕ × Edition)) (before after : List Row)
    → IsKeyed m
    → HasDistinctIds (rows_of m ++ (before ++ r ∷ after))
    → IsFresh r.id m
row-IsFresh r m before after k d = go m k (Pairs_across _ (rows_of m) (before ++ r ∷ after) d)
  where
    go :
        (es : List (ℕ × Edition))
        → IsKeyed es
        → All (λ a. All (λ b. a.id ≢ b.id) (before ++ r ∷ after)) (rows_of es)
        → IsFresh r.id es
    go [] k h = tt
    go (e ∷ es) k h = ((λ q. (All_right _ before (r ∷ after) h.0).0 (sym k.0 ∙ q)), go es k.1 h.1)

-- One more edition: the entries are still keyed, and the row is among the filed ones.
added-Known :
    (m : List (ℕ × Edition)) (rest : List Row) (r : Row) (link : Link) (n : List (ℕ × Edition))
    → IsKeyed m
    → n ≡ m ++ (r.id, record { row = r; link = link }) ∷ []
    → IsKeyed n × (rows_of n ++ rest ≡ rows_of m ++ r ∷ rest)
added-Known m rest r link n k e =
    (rw e (All-append _ m _ k (refl, tt)), rw (e, map-append, append_assoc) refl)

pub file_rows-perm :
    (u : Unicode) (rs : List Row) (st : Filing)
    → IsKeyed st.assigned
    → HasDistinctIds (rows_of st.assigned ++ (waiting st.named ++ rs))
    → IsKeyed (file_rows u rs st).assigned
      × Permᴰ
          (rows_of (file_rows u rs st).assigned ++ waiting (file_rows u rs st).named)
          (rows_of st.assigned ++ (waiting st.named ++ rs))
unfolding file_rows
file_rows-perm u [] st k d = (k, rw append-nil (Permᴰ.refl _))
file_rows-perm u (r ∷ rs) st k d =
    let fresh : IsFresh r.id st.assigned = row-IsFresh r st.assigned (waiting st.named) rs k d in
    elim (file_row-cases u r st fresh) [
      | inl (link, (e, f)) ↦
          let (keyed, same) =
            added-Known st.assigned (waiting st.named ++ rs) r link (file_row u r st).assigned k
              e in
          let moved : Permᴰ
              (rows_of (file_row u r st).assigned ++ (waiting (file_row u r st).named ++ rs))
              (rows_of st.assigned ++ (waiting st.named ++ r ∷ rs)) =
            rw (f, same)
              (Permᴰ.append_left (rows_of st.assigned)
                (Permᴰ.symm (Permᴰ.middle r (waiting st.named) rs))) in
          let (keyed', rest) =
            file_rows-perm u rs (file_row u r st) keyed
              (HasDistinctIds-perm (Permᴰ.symm moved) d) in
          (keyed', Permᴰ.trans rest moved)
      | inr (norm, (e, f)) ↦
          let same : rows_of (file_row u r st).assigned ++ (waiting (file_row u r st).named ++ rs)
              ≡ rows_of st.assigned ++ (waiting st.named ++ r ∷ rs) =
            rw (e, f, map-append, append_assoc) refl in
          let (keyed', rest) = file_rows-perm u rs (file_row u r st) (rw e k) (rw same d) in
          (keyed', rw (← same) rest)
    ]

pub place_all-perm :
    (ordinals : List ℕ) (i : ℕ) (ps : List Pending) (st : Filing)
    → IsKeyed st.assigned
    → HasDistinctIds (rows_of st.assigned ++ waiting ps)
    → IsKeyed (place_all ordinals i ps st).assigned
      × (rows_of (place_all ordinals i ps st).assigned ≡ rows_of st.assigned ++ waiting ps)
unfolding place_all
place_all-perm ordinals i [] st k d = (k, sym (append-nil _))
place_all-perm ordinals i (p ∷ ps) st k d =
    let fresh : IsFresh p.row.id st.assigned = row-IsFresh p.row st.assigned [] (waiting ps) k d in
    let next = place p (get_or ordinals i 0) st in
    let (link, (e, f)) = place-IsAssigned p (get_or ordinals i 0) st fresh in
    let (keyed, same) = added-Known st.assigned (waiting ps) p.row link next.assigned k e in
    let (keyed', rest) = place_all-perm ordinals (i + 1) ps next keyed (rw same d) in
    (keyed', rest ∙ same)

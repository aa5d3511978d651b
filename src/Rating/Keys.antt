-- ===== src/Rating/Keys.antt =====
-- internal/rating/engine.go: the series, the keys of the ratings, and the order that a flush
-- sorts them by.
use tennis_wiki.Base.{
  ℕ, ◌+◌, ◌*◌, ◌≤◌, ◌<◌, ◌≡◌, ◌≢◌, ◌↔◌, refl, Bool, true, false, not, ◌&&◌, ◌||◌, List, [], ◌∷◌,
  ltb, ◌==◌, if◌then◌else◌, arith, All, Option, none, some,
}
use tennis_wiki.Base.Text.{Bytes, codes, equal, text_less}
pub mod Sorting

pub data Series : Type 0 where
  overall hard clay grass carpet : Series

unfoldable pub series_name : Series → Bytes
series_name overall = codes "overall"
series_name hard = codes "hard"
series_name clay = codes "clay"
series_name grass = codes "grass"
series_name carpet = codes "carpet"

-- `ParseSurface`; `none` is its `false`.
unfoldable pub parse_surface : Bytes → Option Series
unfolding equal
parse_surface s =
    if equal s (codes "hard")
    then some hard
    else if equal s (codes "clay")
    then some clay
    else if equal s (codes "grass")
    then some grass
    else if equal s (codes "carpet")
    then some carpet
    else none

pub record Key : Type 0 where
  pub player : ℕ
  pub series : Series

unfoldable pub same_series : Series → Series → Bool
unfolding equal
same_series a b = equal (series_name a) (series_name b)

-- `==` on keys.
unfoldable pub same_key : Key → Key → Bool
same_key a b = a.player == b.player && same_series a.series b.series

-- The function given to `sort.Slice`.
unfoldable pub key_less : Key → Key → Bool
key_less a b =
    if not (a.player == b.player)
    then ltb a.player b.player
    else text_less (series_name a.series) (series_name b.series)

-- `sort.Slice(keys, key_less)`
unfoldable pub insert : Key → List Key → List Key
insert k [] = k ∷ []
insert k (j ∷ js) = if key_less j k then j ∷ insert k js else k ∷ j ∷ js

unfoldable pub sort : List Key → List Key
unfolding insert
sort [] = []
sort (k ∷ ks) = insert k (sort ks)

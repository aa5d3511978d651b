-- ===== src/Identity.antt =====
-- internal/identity/identity.go: which rows of players are proposed as one person. A confidence is in
-- hundredths; the program only compares it. A name is the list of its runes.
pub mod Group
pub mod Key
pub mod Reconcile
pub mod Evidence
pub mod Best
pub mod Safety
pub mod Tests
use tennis_wiki.Base.{
  ℕ, zero, suc, ◌+◌, ◌-◌, Bool, true, false, not, ◌&&◌, ◌||◌, List, [], ◌∷◌, ◌++◌, Option, none,
  some, ltb, leb, ◌==◌, if◌then◌else◌, is_empty,
}
use tennis_wiki.Base.Text.{Bytes, is_digit, equal}

pub record Date : Type 0 where
  pub year : ℕ
  pub month : ℕ
  pub day : ℕ

pub record Player : Type 0 where
  pub id : ℕ
  pub source_id : Bytes
  pub slug : Bytes
  pub full_name : List ℕ
  pub country : Bytes
  pub birth_date : Option Date
  pub birth_year : Option ℕ
  pub matches : ℕ
  pub match_only : Bool

abbrev pub auto_link : ℕ
auto_link = 90

abbrev pub review_floor : ℕ
review_floor = 50

unfoldable pub all_digits : Bytes → Bool
unfolding is_digit
all_digits [] = true
all_digits (c ∷ s) = is_digit c && all_digits s

-- `Player.Numeric`
unfoldable pub is_numeric : Player → Bool
unfolding all_digits
is_numeric p = not (is_empty p.source_id) && all_digits p.source_id

-- `Player.Stub`
unfoldable pub is_stub : Player → Bool
is_stub p = not (is_numeric p) || p.match_only

-- The reasons that the program writes; the last is the other with ", under two ids of one source".
pub data Reason : Type 0 where
  birth_differs country_differs birth_matches country_only name_only : Reason
  year_matches year_differs year_off_by_one several_candidates : Reason
  same_source : Reason → Reason

pub record Match : Type 0 where
  pub canonical : Player
  pub duplicate : Player
  pub confidence : ℕ
  pub reason : Reason

-- `Match.Auto`
abbrev pub is_auto : Match → Bool
is_auto m = leb auto_link m.confidence

unfoldable pub same_country : Player → Player → Bool
unfolding equal
same_country a b =
    not (is_empty a.country) && (not (is_empty b.country) && equal a.country b.country)

-- `birthYear`: the year of an exact date, or the derived year, or 0.
abbrev year_or_zero : Option Date → Option ℕ → ℕ
year_or_zero (some d) y = d.year
year_or_zero none (some y) = y
year_or_zero none none = 0

unfoldable pub birth_year_of : Player → ℕ
birth_year_of p = year_or_zero p.birth_date p.birth_year

unfoldable pub both_years_known : Player → Player → Bool
unfolding birth_year_of
both_years_known a b = not (birth_year_of a == 0) && not (birth_year_of b == 0)

unfoldable pub same_day : Date → Date → Bool
same_day a b = a.year == b.year && (a.month == b.month && a.day == b.day)

abbrev pub same_year : Option ℕ → Option ℕ → Bool
same_year (some y) (some z) = y == z
same_year _ _ = false

abbrev is_absent {ℓ} : {A : Type ℓ} → Option A → Bool
is_absent none = true
is_absent (some a) = false

-- `|a - b|`
abbrev distance : ℕ → ℕ → ℕ
distance a b = (a - b) + (b - a)

-- `scoreByYear`
unfoldable pub score_by_year : Player → Player → ℕ × Reason
unfolding birth_year_of
score_by_year a b =
    let gap = distance (birth_year_of a) (birth_year_of b) in
    if same_year a.birth_year b.birth_year
    then (90, year_matches)
    else if is_absent a.birth_date && is_absent b.birth_date
    then (0, year_differs)
    else if gap == 0
    then (90, year_matches)
    else if gap == 1
    then (70, year_off_by_one)
    else (0, year_differs)

-- The cases of `score` below the first.
unfoldable pub score_without_dates : Player → Player → ℕ × Reason
unfolding same_country both_years_known
score_without_dates a b =
    if same_country a b && both_years_known a b
    then score_by_year a b
    else if same_country a b
    then (60, country_only)
    else (40, name_only)

-- The first case of `score`, on the two dates of birth.
unfoldable pub score_dates : Option Date → Option Date → Player → Player → ℕ × Reason
unfolding same_day equal score_without_dates
score_dates (some d) (some e) a b =
    if not (same_day d e)
    then (0, birth_differs)
    else if not (is_empty a.country)
        && (not (is_empty b.country) && not (equal a.country b.country))
    then (70, country_differs)
    else (100, birth_matches)
score_dates (some d) none a b = score_without_dates a b
score_dates none e a b = score_without_dates a b

-- `score`
unfoldable pub score : Player → Player → ℕ × Reason
unfolding score_dates
score a b = score_dates a.birth_date b.birth_date a b

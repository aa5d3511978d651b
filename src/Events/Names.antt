-- ===== src/Events/Names.antt =====
-- internal/events/events.go: what the names and the ids of rows are compared on, and the keys of
-- events. A text is the list of its runes; the regular expressions are written out as matchers.
pub mod Keys
use tennis_wiki.Base.{
  ℕ, Bool, true, false, not, ◌&&◌, ◌||◌, List, [], ◌∷◌, ◌++◌, Option, none, some, ltb, leb, ◌==◌,
  if◌then◌else◌, is_empty,
}
use tennis_wiki.Base.Int
use tennis_wiki.Base.Text.{Bytes, codes, equal, is_digit, to_lower, to_lower_byte, trim, trim_left}
use tennis_wiki.Name.{Unicode, is_space_rune, slug, is_upper, is_lower}
use tennis_wiki.Events.{Row}

-- `\s` of a regular expression: \t \n \f \r and the blank.
abbrev pub is_blank : ℕ → Bool
is_blank c = c == 32 || c == 9 || c == 10 || c == 12 || c == 13

-- `\w`
abbrev pub is_word_rune : ℕ → Bool
is_word_rune c = is_upper c || is_lower c || is_digit c || c == b'_'

unfoldable pub all_digits : Bytes → Bool
unfolding is_digit
all_digits [] = true
all_digits (c ∷ s) = is_digit c && all_digits s

-- `^\d+$`
abbrev pub is_number : Bytes → Bool
is_number s = not (is_empty s) && all_digits s

-- Without the end of the text that matches `\s+` and then a last word of this kind.
unfoldable pub drop_suffix : (Bytes → Bool) → Bytes → Bytes
unfolding trim_left
drop_suffix is_suffix [] = []
drop_suffix is_suffix (c ∷ s) =
    let rest = drop_suffix is_suffix s in
    if is_blank c && is_suffix (trim_left is_blank s) then [] else c ∷ rest

-- `(?i)CH`
abbrev pub is_ch : Bytes → Bool
is_ch s = equal (to_lower s) (codes "ch")

-- `(?i)(CH|Challenger|\d+)`
abbrev pub is_name_suffix : Bytes → Bool
is_name_suffix s = is_ch s || equal (to_lower s) (codes "challenger") || is_number s

-- `s[:i]` at the first colon.
unfoldable pub before_colon : Bytes → Bytes
before_colon [] = []
before_colon (c ∷ s) = let rest = before_colon s in if c == b':' then [] else c ∷ rest

abbrev pub starts_outside_word : Bytes → Bool
starts_outside_word [] = true
starts_outside_word (c ∷ s) = not (is_word_rune c)

-- `\bCup\b` here; `inside` says whether the rune before is of a word.
unfoldable pub cup_here : Bool → Bytes → Bool
unfolding is_digit to_lower_byte equal
cup_here inside (a ∷ b ∷ c ∷ s) =
    not inside && equal (to_lower (a ∷ b ∷ c ∷ [])) (codes "cup") && starts_outside_word s
cup_here inside s = false

abbrev with_rune : ℕ → Option Bytes → Option Bytes
with_rune c none = none
with_rune c (some s) = some (c ∷ s)

abbrev three : Bytes → Bytes
three (a ∷ b ∷ c ∷ s) = a ∷ b ∷ c ∷ []
three s = s

-- `competition`, behind what is read so far: the first match, of which the group is all of it.
unfoldable pub through_cup : Bool → Bytes → Option Bytes
unfolding cup_here is_digit
through_cup inside [] = none
through_cup inside (c ∷ s) =
    let later = with_rune c (through_cup (is_word_rune c) s) in
    if cup_here inside (c ∷ s) then some (three (c ∷ s)) else if c == 10 then none else later

abbrev text_or : Bytes → Option Bytes → Bytes
text_or s none = s
text_or s (some t) = t

-- The words up to and including "Cup", before any stage or tie.
unfoldable pub competition_words : Bytes → Bytes
unfolding through_cup before_colon
competition_words s = text_or (before_colon s) (through_cup false (before_colon s))

-- `competitionAliases`
abbrev pub is_fed_cup : Bytes → Bool
is_fed_cup c = equal c (codes "fed-cup") || equal c (codes "bjk-cup")

module _ (u : Unicode) where
  -- `Normalise`
  unfoldable pub normalise : Bytes → Bytes
  unfolding drop_suffix slug
  normalise s =
      slug u (drop_suffix is_name_suffix (drop_suffix is_name_suffix (trim is_space_rune s)))

  -- `Competition`
  unfoldable pub competition : Bytes → Bytes
  unfolding competition_words slug equal
  competition s =
      let c = slug u (competition_words s) in
      if is_fed_cup c then codes "billie-jean-king-cup" else c

  -- `titleCompetition`
  unfoldable pub title_competition : Bytes → Bytes
  unfolding competition_words slug equal
  title_competition s =
      if is_fed_cup (slug u (competition_words s))
      then codes "Billie Jean King Cup"
      else trim is_space_rune (competition_words s)

-- `trimZeros`
unfoldable pub trim_zeros : Bytes → Bytes
trim_zeros [] = []
trim_zeros (c ∷ []) = c ∷ []
trim_zeros (c ∷ d ∷ s) = let rest = trim_zeros (d ∷ s) in if c == b'0' then rest else c ∷ d ∷ s

-- `rawKey`
pub data RawKey : Type 0 where
  raw_number raw_code : Bytes → RawKey
  raw_none : RawKey

-- `^\d{4}-`, and what follows it.
unfoldable pub after_year : Bytes → Option Bytes
unfolding is_digit
after_year (a ∷ b ∷ c ∷ d ∷ e ∷ s) =
    if is_digit a && is_digit b && is_digit c && is_digit d && e == b'-' then some s else none
after_year s = none

-- `(?:-\d{4})?$`
unfoldable pub is_year_or_end : Bytes → Bool
unfolding is_digit
is_year_or_end [] = true
is_year_or_end (e ∷ a ∷ b ∷ c ∷ d ∷ []) =
    e == b'-' && is_digit a && is_digit b && is_digit c && is_digit d
is_year_or_end s = false

abbrev with_digit : ℕ → Bytes × Bytes → Bytes × Bytes
with_digit c (ds, s) = (c ∷ ds, s)

-- `\d*`, as many as there are, and what follows them.
unfoldable pub split_digits : Bytes → Bytes × Bytes
unfolding is_digit
split_digits [] = ([], [])
split_digits (c ∷ s) =
    let more = with_digit c (split_digits s) in if is_digit c then more else ([], c ∷ s)

-- The group of `numberID`, behind the year.
unfoldable pub number_part : Bytes → Option Bytes
unfolding split_digits is_year_or_end
number_part s =
    let (ds, rest) = split_digits s in
    if not (is_empty ds) && is_year_or_end rest then some ds else none

-- `M\d{3}`
unfoldable pub is_m_code : Bytes → Bool
unfolding is_digit
is_m_code (m ∷ a ∷ b ∷ c ∷ []) = m == b'M' && is_digit a && is_digit b && is_digit c
is_m_code s = false

abbrev raw_of : Row → Bytes → Option Bytes → RawKey
raw_of r s (some n) =
    if equal r.tour (codes "atp") || leb 2016 r.season then raw_number (trim_zeros n) else raw_none
raw_of r s none = if is_m_code s then raw_code s else raw_none

abbrev raw_after : Row → Option Bytes → RawKey
raw_after r none = raw_none
raw_after r (some s) = raw_of r s (number_part s)

-- `rawKeyOf`
unfoldable pub raw_key_of : Row → RawKey
unfolding after_year number_part is_m_code trim_zeros equal
raw_key_of r = raw_after r (after_year r.source_id)

-- `NumberKey`
unfoldable pub number_key : Bytes → Bytes
number_key n = codes "number:" ++ n

-- `nameKey`
unfoldable pub name_key : Bytes → Bytes → ℕ → Bytes
unfolding Int.itoa
name_key tier norm ordinal =
    let key = codes "name:" ++ tier ++ b':' ∷ norm in
    if ltb 1 ordinal then key ++ b':' ∷ Int.itoa ordinal else key

-- `teamKey`
unfoldable pub team_key : Bytes → Bytes
team_key c = codes "team:" ++ c

abbrev onto_first : ℕ → List Bytes → List Bytes
onto_first c [] = (c ∷ []) ∷ []
onto_first c (w ∷ ws) = (c ∷ w) ∷ ws

-- `strings.Split(s, ":")`
unfoldable pub split_colons : Bytes → List Bytes
split_colons [] = [] ∷ []
split_colons (c ∷ s) =
    let rest = split_colons s in if c == b':' then [] ∷ rest else onto_first c rest

abbrev or_zero : Option ℕ → ℕ
or_zero none = 0
or_zero (some n) = n

-- What `ordinalOf` makes of the parts of a key.
abbrev pub ordinal_of_parts : List Bytes → ℕ
ordinal_of_parts (kind ∷ tier ∷ norm ∷ n ∷ rest) =
    if equal kind (codes "name") then or_zero (Int.atoi n) else 0
ordinal_of_parts parts = 0

-- `ordinalOf`
unfoldable pub ordinal_of : Bytes → ℕ
unfolding split_colons equal Int.atoi
ordinal_of key = ordinal_of_parts (split_colons key)

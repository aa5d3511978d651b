-- ===== src/Score/Normalise.antt =====
-- internal/score/parse.go: `normalise`, `healSpacing` and `looksLikeSet`, on ASCII texts.
pub mod RoundTrip
use tennis_wiki.Base.{
  ℕ, Bool, true, false, not, ◌&&◌, ◌||◌, List, [], ◌∷◌, ◌++◌, Option, none, some, leb, ◌==◌,
  if◌then◌else◌, is_empty, take,
}
use tennis_wiki.Base.Text.{
  Bytes, codes, is_space, is_digit, to_upper, to_upper_byte, to_lower_byte, to_lower, equal,
  has_prefix, ends_with, contains, index, trim, fields, join,
}
use tennis_wiki.Score.Model.{
  Outcome, complete, retired, walkover, defaulted, abandoned, unknown, is_complete,
}

-- `indexFold`. Texts are ASCII: in other texts Go's lower case may be longer than the text itself.
unfoldable pub index_fold : Bytes → Bytes → Option ℕ
unfolding index to_lower_byte
index_fold s sub = index (to_lower s) sub

-- One prose suffix: from the word on the text is dropped, and the match was abandoned.
unfoldable pub cut_prose : Bytes → Bytes × Outcome → Bytes × Outcome
unfolding index_fold
cut_prose word (text, outcome) = elim (index_fold text word) [
  | none ↦ (text, outcome)
  | some i ↦ (take i text, abandoned)
]

-- The table `markers`, in its order, and its search.
abbrev markers : List (Bytes × Outcome)
markers =
    (codes "W/O", walkover)
    ∷ (codes "WO", walkover)
    ∷ (codes "RET", retired)
    ∷ (codes "DEF", defaulted)
    ∷ (codes "ABD", abandoned)
    ∷ (codes "UNK", unknown)
    ∷ []

unfoldable pub find_marker : Bytes → List (Bytes × Outcome) → Option Outcome
unfolding equal
find_marker upper [] = none
find_marker upper ((token, out) ∷ ms) = if equal upper token then some out else find_marker upper ms

abbrev is_stop : ℕ → Bool
is_stop c = c == b'.' || c == b','

-- The marker that a field is, with dots and commas round it and in any case.
unfoldable pub marker_of : Bytes → Option Outcome
unfolding find_marker trim to_upper_byte
marker_of field = find_marker (to_upper (trim is_stop field)) markers

-- The loop over the fields.
unfoldable pub keep_fields : List Bytes → List Bytes → Outcome → List Bytes × Outcome
unfolding marker_of contains
keep_fields [] kept outcome = (kept, outcome)
keep_fields (f ∷ fs) kept outcome = elim (marker_of f) [
  | some out ↦ keep_fields fs kept out
  | none ↦ elim (contains b'?' f) [
    | true ↦ keep_fields fs kept (if is_complete outcome then unknown else outcome)
    | false ↦ keep_fields fs (kept ++ f ∷ []) outcome
  ]
]

-- `out[len(out)-1] += field`
unfoldable pub append_last : List Bytes → Bytes → List Bytes
append_last [] f = []
append_last (w ∷ []) f = (w ++ f) ∷ []
append_last (w ∷ v ∷ ws) f = w ∷ append_last (v ∷ ws) f

-- The two tests at the end of the loop of `healSpacing`: a bracket joins the word before it.
unfoldable pub heal_one : List Bytes → Bytes → List Bytes
unfolding append_last has_prefix
heal_one out f =
    if has_prefix f (b'(' ∷ []) && not (is_empty out) then append_last out f else out ++ f ∷ []

unfoldable pub heal : List Bytes → List Bytes → List Bytes
unfolding heal_one ends_with
heal out [] = out
heal out (f ∷ []) = heal_one out f
heal out (f ∷ g ∷ fs) = elim (ends_with b'-' f) [
  | true ↦ heal (out ++ (f ++ g) ∷ []) fs
  | false ↦ heal (heal_one out f) (g ∷ fs)
]

-- `healSpacing`
unfoldable pub heal_spacing : Bytes → Bytes
unfolding heal fields join
heal_spacing text = join (heal [] (fields text))

-- `normalise`
unfoldable pub normalise : Bytes → Bytes × Outcome
unfolding cut_prose keep_fields heal_spacing trim
normalise raw =
    let (text, outcome) = cut_prose (codes "abandoned") (
      cut_prose (codes "unfinished")
        (cut_prose (codes "played and") (trim is_space raw, complete))) in
    let (kept, outcome') = keep_fields (fields text) [] outcome in
    (heal_spacing (join kept), outcome')

-- `looksLikeSet`
unfoldable pub looks_like_set : Bytes → Bool
unfolding is_digit contains
looks_like_set [] = false
looks_like_set (c ∷ s) = c == b'[' || is_digit c && contains b'-' (c ∷ s)

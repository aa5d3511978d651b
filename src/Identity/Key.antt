-- ===== src/Identity/Key.antt =====
-- internal/identity/identity.go: `Key`, the name that rows are grouped by.
pub mod Sorting
use tennis_wiki.Base.{ℕ, Bool, List, [], ◌∷◌, map, ◌==◌, if◌then◌else◌}
use tennis_wiki.Base.Text.{Bytes, text_less, fields, join}
use mathlib.Core.List.{reverse}
use tennis_wiki.Name.{Unicode, normalise}

-- One round of the insertion sort: the word goes left past the words that it is less than. The part
-- that is sorted is listed from its right end.
unfoldable pub insert_word : Bytes → List Bytes → List Bytes
unfolding text_less
insert_word w [] = w ∷ []
insert_word w (x ∷ xs) = if text_less w x then x ∷ insert_word w xs else w ∷ x ∷ xs

unfoldable pub sort_words : List Bytes → List Bytes → List Bytes
unfolding insert_word
sort_words sorted [] = sorted
sort_words sorted (w ∷ ws) = sort_words (insert_word w sorted) ws

-- `strings.ReplaceAll(fullName, ",", " ")`
abbrev pub comma_to_blank : ℕ → ℕ
comma_to_blank c = if c == b',' then 32 else c

-- The words of a name, folded.
unfoldable pub words : Unicode → List ℕ → List Bytes
unfolding fields normalise
words u name = fields (normalise u (map comma_to_blank name))

-- `Key`
unfoldable pub key : Unicode → List ℕ → Bytes
unfolding words sort_words join
key u name = join (reverse (sort_words [] (words u name)))

-- ===== src/Charting/People.antt =====
-- internal/charting/resolve.go: `samePerson`, `surnames` and `key`, on the folded names.
use tennis_wiki.Base.{
  ℕ, Bool, true, false, not, ◌&&◌, ◌||◌, List, [], ◌∷◌, ◌++◌, leb, ◌==◌, if◌then◌else◌, is_empty,
  length,
}
use tennis_wiki.Base.Text.{Bytes, codes, equal, is_space, text_less, trim, fields}
use tennis_wiki.Name.{Unicode, normalise}

unfoldable pub has_word : Bytes → List Bytes → Bool
unfolding equal
has_word w [] = false
has_word w (v ∷ vs) = equal v w || has_word w vs

-- The words in a name that are not a surname on their own.
abbrev pub particles : List Bytes
particles =
    codes "de"
    ∷ codes "del"
    ∷ codes "della"
    ∷ codes "der"
    ∷ codes "den"
    ∷ codes "di"
    ∷ codes "da"
    ∷ codes "do"
    ∷ codes "dos"
    ∷ codes "du"
    ∷ codes "van"
    ∷ codes "von"
    ∷ codes "la"
    ∷ codes "le"
    ∷ codes "el"
    ∷ codes "al"
    ∷ codes "y"
    ∷ codes "e"
    ∷ codes "jr"
    ∷ codes "sr"
    ∷ codes "ii"
    ∷ codes "iii"
    ∷ []

-- `strings.Join(words, "")`
unfoldable pub run_together : List Bytes → Bytes
run_together [] = []
run_together (w ∷ ws) = w ++ run_together ws

unfoldable pub without_particles : List Bytes → List Bytes
unfolding has_word
without_particles [] = []
without_particles (w ∷ ws) =
    if has_word w particles then without_particles ws else w ∷ without_particles ws

-- `surnames`, of the words behind the first: a name that is all particles is still a name.
unfoldable pub surnames_of : List Bytes → List Bytes
unfolding without_particles run_together
surnames_of rest =
    let out =
      without_particles rest ++ (if leb 2 (length rest) then run_together rest ∷ [] else []) in
    if is_empty out then rest else out

unfoldable pub surnames_of_words : List Bytes → List Bytes
unfolding surnames_of
surnames_of_words [] = []
surnames_of_words (w ∷ []) = w ∷ []
surnames_of_words (w ∷ v ∷ ws) = surnames_of (v ∷ ws)

-- `strings.ReplaceAll(s, " ", "")`
unfoldable pub without_blanks : Bytes → Bytes
without_blanks [] = []
without_blanks (c ∷ s) = if c == 32 then without_blanks s else c ∷ without_blanks s

-- `a[0] == b[0]` on names that are not empty.
abbrev pub same_initial : Bytes → Bytes → Bool
same_initial (c ∷ a) (d ∷ b) = c == d
same_initial _ _ = false

unfoldable pub shares_given_name : List Bytes → List Bytes → Bool
unfolding has_word
shares_given_name (v ∷ vs) (w ∷ ws) = has_word v (w ∷ ws) || has_word w (v ∷ vs)
shares_given_name _ _ = false

-- A word of the first list is one of the second.
unfoldable pub share_word : List Bytes → List Bytes → Bool
unfolding has_word
share_word [] ws = false
share_word (v ∷ vs) ws = has_word v ws || share_word vs ws

-- `key`
unfoldable pub key : Bytes → Bytes → Bytes → Bytes
unfolding text_less trim is_space
key round a b =
    if text_less b a
    then trim is_space round ++ (b'|' ∷ b ++ (b'|' ∷ a))
    else trim is_space round ++ (b'|' ∷ a ++ (b'|' ∷ b))

module _ (u : Unicode) where
  -- `surnames`
  unfoldable pub surnames : List ℕ → List Bytes
  unfolding surnames_of_words fields normalise
  surnames full = surnames_of_words (fields (normalise u full))

  -- `samePerson` behind the two tests for one name.
  unfoldable pub alike : List ℕ → List ℕ → Bool
  unfolding shares_given_name share_word surnames
  alike charted stored =
      let a = normalise u charted in
      let b = normalise u stored in
      if is_empty a
        || (is_empty b || (not (same_initial a b) && not (shares_given_name (fields a) (fields b))))
      then false
      else share_word (surnames charted) (surnames stored)

  -- `samePerson`
  unfoldable pub same_person : List ℕ → List ℕ → Bool
  unfolding alike without_blanks equal
  same_person charted stored =
      let a = normalise u charted in
      let b = normalise u stored in
      if equal a b || equal (without_blanks a) (without_blanks b)
      then true
      else alike charted stored

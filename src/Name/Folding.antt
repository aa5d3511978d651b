-- ===== src/Name/Folding.antt =====
-- internal/name/name.go: what `fold` and one round of `convert` write.
use tennis_wiki.Base.{
  ℕ, ◌<◌, ◌≡◌, refl, inl, inr, Bool, true, false, ◌&&◌, ◌||◌, List, [], ◌∷◌, leb, arith, All,
  Bool-cases,
}
use tennis_wiki.Base.Text.{Bytes, to_lower_byte}
use tennis_wiki.Name.{is_upper, is_lower, Unicode, folds, among, find_fold, fold, to_lower_rune}

-- A letter or a digit of a key.
abbrev pub is_word : ℕ → Bool
is_word c = is_lower c || leb b'0' c && leb c b'9'

abbrev all_word : Bytes → Bool
all_word [] = true
all_word (c ∷ s) = is_word c && all_word s

abbrev all_above : List ℕ → Bool
all_above [] = true
all_above (r ∷ rs) = leb 128 r && all_above rs

-- Each case takes runes above ASCII to letters.
abbrev well_formed : List (List ℕ × Bytes) → Bool
well_formed [] = true
well_formed ((rs, ascii) ∷ rest) = (all_above rs && all_word ascii) && well_formed rest

folds-well_formed : well_formed folds ≡ true
folds-well_formed = refl

all_word-All : (s : Bytes) → all_word s ≡ true → All (λ c. is_word c ≡ true) s
all_word-All [] h = tt
all_word-All (c ∷ s) h = (ground arith, all_word-All s (ground arith))

find_fold-All :
    (r : ℕ) (t : List (List ℕ × Bytes))
    → well_formed t ≡ true
    → All (λ c. is_word c ≡ true) (find_fold r t)
unfolding find_fold
find_fold-All r [] h = tt
find_fold-All r ((rs, ascii) ∷ t) h = elim (Bool-cases (among r rs)) [
  | inl e ↦ rw e (all_word-All ascii (ground arith))
  | inr e ↦ rw e (find_fold-All r t (ground arith))
]

-- What `fold` writes is letters.
pub fold-All : (r : ℕ) → All (λ c. is_word c ≡ true) (fold r)
unfolding fold
fold-All r = find_fold-All r folds folds-well_formed

among_above : (r : ℕ) (rs : List ℕ) → all_above rs ≡ true → r < 128 → among r rs ≡ false
unfolding among
among_above r [] h l = refl
among_above r (x ∷ rs) h l = ground (arith, among_above r rs)

find_fold_ascii :
    (r : ℕ) (t : List (List ℕ × Bytes)) → well_formed t ≡ true → r < 128 → find_fold r t ≡ []
unfolding find_fold
find_fold_ascii r [] h l = refl
find_fold_ascii r ((rs, ascii) ∷ t) h l = ground (arith, among_above r rs, find_fold_ascii r t)

-- No rune of ASCII is folded.
pub fold_ascii : (r : ℕ) → r < 128 → fold r ≡ []
unfolding fold
fold_ascii r l = find_fold_ascii r folds folds-well_formed l

module _ (u : Unicode) where
  pub to_lower_rune-is_not_upper : (r : ℕ) → is_upper (to_lower_rune u r) ≡ false
  unfolding to_lower_rune to_lower_byte
  to_lower_rune-is_not_upper r = ground (arith, u.lower_is_not_upper r)

  -- The letters and digits of a key are their own lower case, and are written as they are.
  pub to_lower_rune_word : (c : ℕ) → is_upper c ≡ false → c < 128 → to_lower_rune u c ≡ c
  unfolding to_lower_rune to_lower_byte
  to_lower_rune_word c h l = ground arith

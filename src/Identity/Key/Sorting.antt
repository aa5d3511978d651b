-- ===== src/Identity/Key/Sorting.antt =====
-- internal/identity/identity.go: the insertion sort of `Key`, and the order of the words.
use mathlib.Core.List.{Permᴰ, reverse}
use tennis_wiki.Base.{ℕ, ◌≡◌, refl, sym, ◌∙◌, ap, true, List, [], ◌∷◌, Bool-cases, inl, inr}
use tennis_wiki.Base.Text.{Bytes, text_less, join}
use tennis_wiki.Base.Text.Ordering.{text_less_trans, text_less_asym, text_less_total}
use tennis_wiki.Name.{Unicode}
use tennis_wiki.Identity.Key.{insert_word, sort_words, words, key}

-- The lesser word goes past the greater.
insert_lesser :
    (a b : Bytes) (xs : List Bytes)
    → text_less a b ≡ true
    → insert_word a (insert_word b xs) ≡ insert_word b (insert_word a xs)
unfolding insert_word
insert_lesser a b [] h = rw (h, text_less_asym a b h) refl
insert_lesser a b (x ∷ xs) h = elim (Bool-cases (text_less b x)) [
  | inl e ↦
      rw (e, text_less_trans a b x h e, insert_word, e) (ap (λ ys. x ∷ ys) (insert_lesser a b xs h))
  | inr e ↦ elim (Bool-cases (text_less a x)) [
    | inl f ↦ rw (e, f, insert_word, h, e) refl
    | inr f ↦ rw (e, f, insert_word, h, text_less_asym a b h) refl
  ]
]

insert_word_comm :
    (a b : Bytes) (xs : List Bytes)
    → insert_word a (insert_word b xs) ≡ insert_word b (insert_word a xs)
insert_word_comm a b xs = elim (Bool-cases (text_less a b)) [
  | inl e ↦ insert_lesser a b xs e
  | inr e ↦ elim (Bool-cases (text_less b a)) [
    | inl f ↦ sym (insert_lesser b a xs f)
    | inr f ↦ rw (text_less_total a b e f) refl
  ]
]

sort_words_perm :
    {ws vs : List Bytes}
    → Permᴰ ws vs
    → (sorted : List Bytes) → sort_words sorted ws ≡ sort_words sorted vs
unfolding sort_words
sort_words_perm Permᴰ.nil sorted = refl
sort_words_perm (Permᴰ.cons {b} e p) sorted = rw e (sort_words_perm p (insert_word b sorted))
sort_words_perm (Permᴰ.swap {l = l} e f) sorted =
    rw (e, f) (ap (λ s. sort_words s l) (insert_word_comm _ _ sorted))
sort_words_perm (Permᴰ.trans p q) sorted = sort_words_perm p sorted ∙ sort_words_perm q sorted

-- Two names that are the same words in any order have one key.
pub key-words : (u : Unicode) (n m : List ℕ) → Permᴰ (words u n) (words u m) → key u n ≡ key u m
unfolding key
key-words u n m p = ap (λ ws. join (reverse ws)) (sort_words_perm p [])

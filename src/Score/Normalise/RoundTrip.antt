-- ===== src/Score/Normalise/RoundTrip.antt =====
-- internal/score/parse.go: what `normalise` makes of words that are sets.
use tennis_wiki.Base.{
  ℕ, ◌≡◌, ◌≢◌, ◌∙◌, refl, true, false, List, [], ◌∷◌, ◌++◌, arith, All, All-mono, append_assoc,
  append-nil, none,
}
use tennis_wiki.Base.Text.{
  Bytes, codes, is_space, is_digit, contains, has_prefix, to_lower, to_lower_byte, to_upper_byte,
  trim, fields, join,
}
use tennis_wiki.Base.Text.Words.{IsWord, fields-trim, All-trim, All-contains, index_absent}
use tennis_wiki.Score.Model.{Outcome, complete}
use tennis_wiki.Score.Normalise.{
  index_fold, cut_prose, marker_of, keep_fields, heal_one, heal, heal_spacing, normalise,
  looks_like_set,
}
use tennis_wiki.Score.Print.Words.{is_score_byte, IsScoreByte, IsSetWord}

-- Bytes that none of the prose suffixes survives without.
abbrev pub IsPlain : ℕ → Type 0
IsPlain c = (to_lower_byte c ≢ b'p') × (to_lower_byte c ≢ b'i') × (to_lower_byte c ≢ b'b')

to_lower_lacks :
    (c : ℕ) (s : Bytes) → All (λ b. to_lower_byte b ≢ c) s → contains c (to_lower s) ≡ false
unfolding contains
to_lower_lacks c [] h = refl
to_lower_lacks c (x ∷ s) h = ground (arith, to_lower_lacks c s h.1)

cut_prose_none :
    (letter : ℕ) (word text : Bytes) (o : Outcome)
    → contains letter word ≡ true
    → All (λ b. to_lower_byte b ≢ letter) text
    → cut_prose word (text, o) ≡ (text, o)
unfolding cut_prose index_fold
cut_prose_none letter word text o h lacks =
    ground (arith, index_absent letter (to_lower text) word h (to_lower_lacks letter text lacks))

pub normalise_plain :
    (raw : Bytes)
    → All IsPlain raw
    → normalise raw ≡ (
      heal_spacing (join (keep_fields (fields raw) [] complete).0),
      (keep_fields (fields raw) [] complete).1,
    )
unfolding normalise contains
normalise_plain raw h =
    let text = All-trim IsPlain is_space raw h in
    rw (
      cut_prose_none b'p' (codes "played and") (trim is_space raw) complete refl
          (All-mono (λ c l. l.0) _ text),
      cut_prose_none b'i' (codes "unfinished") (trim is_space raw) complete refl
          (All-mono (λ c l. l.1) _ text),
      cut_prose_none b'b' (codes "abandoned") (trim is_space raw) complete refl
          (All-mono (λ c l. l.2) _ text),
      fields-trim raw,
    )

pub IsSetWord-IsWord : (t : Bytes) → IsSetWord t → IsWord t
unfolding is_score_byte is_space
IsSetWord-IsWord t w = ((λ e. cc w.split), All-mono (λ c l. ground arith) t w.letters)

first_letter : (t : Bytes) (w : IsSetWord t) → is_score_byte w.first ≡ true
unfolding is_score_byte
first_letter t w = ground arith

first_no_bracket : (t : Bytes) (w : IsSetWord t) → w.first ≢ b'('
unfolding is_digit
first_no_bracket t w = ground arith

-- A set's word is no marker and has no question mark.
marker_of-none : (c : ℕ) (s : Bytes) → is_score_byte c ≡ true → marker_of (c ∷ s) ≡ none
unfolding marker_of is_score_byte to_upper_byte
marker_of-none c s h = ground arith

marker_of-IsSetWord : (t : Bytes) → IsSetWord t → marker_of t ≡ none
marker_of-IsSetWord t w = rw w.split (marker_of-none w.first w.others (first_letter t w))

score_byte_no_mark : (c : ℕ) → IsScoreByte c → c ≢ b'?'
unfolding is_score_byte
score_byte_no_mark c h = ground arith

pub keep_fields-IsSetWord :
    (t : Bytes) (fs kept : List Bytes) (o : Outcome)
    → IsSetWord t
    → keep_fields (t ∷ fs) kept o ≡ keep_fields fs (kept ++ t ∷ []) o
unfolding keep_fields
keep_fields-IsSetWord t fs kept o w =
    ground (
      arith,
      marker_of-IsSetWord t w,
      All-contains b'?' t (All-mono score_byte_no_mark t w.letters),
    )

heal_one-IsSetWord : (out : List Bytes) (t : Bytes) → IsSetWord t → heal_one out t ≡ out ++ t ∷ []
unfolding heal_one has_prefix
heal_one-IsSetWord out t w = ground (arith, w.split, first_no_bracket t w)

pub heal-IsSetWord : (ts out : List Bytes) → All IsSetWord ts → heal out ts ≡ out ++ ts
unfolding heal
heal-IsSetWord [] out h = rw append-nil
heal-IsSetWord (t ∷ []) out h = heal_one-IsSetWord out t h.0
heal-IsSetWord (t ∷ u ∷ ts) out h =
    rw (h.0.ends, heal)
      (rw (heal_one-IsSetWord out t h.0)
        (heal-IsSetWord (u ∷ ts) _ h.1 ∙ append_assoc out (t ∷ []) (u ∷ ts)))

pub looks_like_set-IsSetWord : (t : Bytes) → IsSetWord t → looks_like_set t ≡ true
unfolding looks_like_set
looks_like_set-IsSetWord t w = ground (arith, w.split, w.dash, w.starts)

-- ===== src/Name/Keys.antt =====
-- internal/name/name.go: the form of what `convert` returns.
use tennis_wiki.Base.{
  ℕ, ◌<◌, ◌≡◌, refl, ap, sym, ◌⊎◌, inl, inr, Bool, true, false, ◌&&◌, List, [], ◌∷◌, ◌++◌, map, ltb,
  ◌==◌, is_empty, arith, All, Bool-cases, ==_iff,
}
use mathlib.Core.Path.{ap₂}
use tennis_wiki.Base.Text.{Bytes, is_digit, trim, trim_left, trim_right}
use tennis_wiki.Name.{
  is_upper, Unicode, is_space_rune, fold, to_lower_rune, is_alphanumeric, write_rune, write_runes,
  convert,
}
use tennis_wiki.Name.Folding.{
  is_word, fold-All, fold_ascii, to_lower_rune-is_not_upper, to_lower_rune_word,
}

-- What may follow: letters and digits, and single separators, but no separator where the flag says
-- that one came last, or at the start.
abbrev pub Clean : ℕ → Bool → Bytes → Type 0
Clean sep last [] = Unit
Clean sep last (c ∷ s) =
    ((is_word c ≡ true) × Clean sep false s) ⊎ ((c ≡ sep) × (last ≡ false) × Clean sep true s)

-- The same, not ending in a separator, nor empty where the flag says that one came last.
abbrev pub Joined : ℕ → Bool → Bytes → Type 0
Joined sep last [] = last ≡ false
Joined sep last (c ∷ s) =
    ((is_word c ≡ true) × Joined sep false s) ⊎ ((c ≡ sep) × (last ≡ false) × Joined sep true s)

-- A key: nothing, or words with one separator between two of them.
abbrev pub IsKey : ℕ → Bytes → Type 0
IsKey sep s = (s ≡ []) ⊎ Joined sep true s

module _ (u : Unicode) (sep : ℕ) (low : sep < 65) (apart : is_word sep ≡ false) where
  word_Clean :
      (w s : Bytes) → All (λ c. is_word c ≡ true) w → Clean sep false s → Clean sep false (w ++ s)
  word_Clean [] s h k = k
  word_Clean (c ∷ w) s h k = inl (h.0, word_Clean w s h.1 k)

  words_Clean :
      (last : Bool) (w s : Bytes)
      → is_empty w ≡ false
      → All (λ c. is_word c ≡ true) w
      → Clean sep false s
      → Clean sep last (w ++ s)
  words_Clean last [] s e h k = cc
  words_Clean last (c ∷ w) s e h k = inl (h.0, word_Clean w s h.1 k)

  pub ascii_word :
      (r : ℕ) → is_upper r ≡ false → ltb r 127 && is_alphanumeric u r ≡ true → is_word r ≡ true
  unfolding is_alphanumeric is_digit
  ascii_word r h e = ground arith

  pub write_runes-Clean :
      (last : Bool) (rs : List ℕ)
      → All (λ r. is_upper r ≡ false) rs
      → Clean sep last (write_runes u sep last rs)
  unfolding write_runes write_rune
  write_runes-Clean last [] h = tt
  write_runes-Clean last (r ∷ rs) h = elim (Bool-cases (ltb r 127 && is_alphanumeric u r)) [
    | inl e ↦ rw e (inl (ascii_word r h.0 e, write_runes-Clean false rs h.1))
    | inr e ↦ elim (Bool-cases (is_empty (fold r))) [
      | inr f ↦
          rw (e, f)
            (words_Clean last (fold r) (write_runes u sep false rs) f (fold-All r)
              (write_runes-Clean false rs h.1))
      | inl f ↦ elim (Bool-cases (is_alphanumeric u r)) [
        | inl g ↦ rw (e, f, g) (write_runes-Clean last rs h.1)
        | inr g ↦ elim (Bool-cases last) [
          | inl l ↦ rw (e, f, g, l) (write_runes-Clean true rs h.1)
          | inr l ↦ rw (e, f, g, l) (inr (refl, refl, write_runes-Clean true rs h.1))
        ]
      ]
    ]
  ]

  pub trim_left-Clean : (s : Bytes) → Clean sep true s → trim_left (λ c. c == sep) s ≡ s
  unfolding trim_left
  trim_left-Clean [] h = refl
  trim_left-Clean (c ∷ s) (inl (w, k)) =
      let e : (c == sep) ≡ false = ground (arith, w, apart) in rw e refl
  trim_left-Clean (c ∷ s) (inr (e, f, k)) = cc

  Joined-rest : (t : Bytes) → (t ≡ []) ⊎ Joined sep false t → Joined sep false t
  Joined-rest t (inl e) = rw e refl
  Joined-rest t (inr j) = j

  Joined-more : (t : Bytes) → Joined sep true t → is_empty t ≡ false
  Joined-more [] j = cc
  Joined-more (c ∷ t) j = refl

  trim_right-Clean :
      (last : Bool) (s : Bytes)
      → Clean sep last s
      → (trim_right (λ c. c == sep) s ≡ []) ⊎ Joined sep last (trim_right (λ c. c == sep) s)
  unfolding trim_right
  trim_right-Clean last [] h = inl refl
  trim_right-Clean last (c ∷ s) (inl (w, k)) =
      let e : (c == sep) ≡ false = ground (arith, w, apart) in
      rw e (inr (inl (w, Joined-rest (trim_right (λ x. x == sep) s) (trim_right-Clean false s k))))
  trim_right-Clean last (c ∷ s) (inr (e, f, k)) =
      let same : (c == sep) ≡ true = (==_iff c sep).1 e in
      elim (trim_right-Clean true s k) [
        | inl q ↦ rw (same, q) (inl refl)
        | inr j ↦ rw (same, Joined-more (trim_right (λ x. x == sep) s) j) (inr (inr (e, f, j)))
      ]

  pub lowered : (s : List ℕ) → All (λ r. is_upper r ≡ false) (map (to_lower_rune u) s)
  lowered [] = tt
  lowered (r ∷ s) = (to_lower_rune-is_not_upper u r, lowered s)

  -- Whatever the text, for a separator below the letters that is no digit, `convert` returns a key:
  -- nothing, or words of lower-case ASCII letters and digits with one separator between two of them
  -- and none at the ends.
  pub convert-IsKey : (s : List ℕ) → IsKey sep (convert u s sep)
  unfolding convert trim
  convert-IsKey s =
      let runes = map (to_lower_rune u) (trim is_space_rune s) in
      let clean = write_runes-Clean true runes (lowered (trim is_space_rune s)) in
      rw (trim_left-Clean (write_runes u sep true runes) clean)
        (trim_right-Clean true (write_runes u sep true runes) clean)

  -- A key survives each step of `convert`.
  trim_right-Joined :
      (cut : ℕ → Bool) (last : Bool) (s : Bytes)
      → ((c : ℕ) → is_word c ≡ true → cut c ≡ false)
      → Joined sep last s
      → trim_right cut s ≡ s
  unfolding trim_right
  trim_right-Joined cut last [] keep j = refl
  trim_right-Joined cut last (c ∷ s) keep (inl (w, j)) =
      rw (keep c w) (ap (λ t. c ∷ t) (trim_right-Joined cut false s keep j))
  trim_right-Joined cut last (c ∷ s) keep (inr (e, f, j)) =
      let same = trim_right-Joined cut true s keep j in
      elim (Bool-cases (cut c)) [
        | inl b ↦ rw (b, same, Joined-more s j) refl
        | inr b ↦ rw (b, same) refl
      ]

  trim-Joined :
      (cut : ℕ → Bool) (s : Bytes)
      → ((c : ℕ) → is_word c ≡ true → cut c ≡ false)
      → Joined sep true s
      → trim cut s ≡ s
  unfolding trim trim_left
  trim-Joined cut [] keep j = cc
  trim-Joined cut (c ∷ s) keep (inl (w, j)) =
      rw (keep c w) (trim_right-Joined cut true (c ∷ s) keep (inl (w, j)))
  trim-Joined cut (c ∷ s) keep (inr (e, f, j)) = cc

  lower_Joined : (last : Bool) (s : Bytes) → Joined sep last s → map (to_lower_rune u) s ≡ s
  lower_Joined last [] j = refl
  lower_Joined last (c ∷ s) (inl (w, j)) =
      rw (to_lower_rune_word u c (ground arith) (ground arith))
        (ap (λ t. c ∷ t) (lower_Joined false s j))
  lower_Joined last (c ∷ s) (inr (e, f, j)) =
      rw (to_lower_rune_word u c (ground arith) (ground arith))
        (ap (λ t. c ∷ t) (lower_Joined true s j))

  write_runes-Joined : (last : Bool) (s : Bytes) → Joined sep last s → write_runes u sep last s ≡ s
  unfolding write_runes write_rune
  write_runes-Joined last [] j = refl
  write_runes-Joined last (c ∷ s) (inl (w, j)) =
      let e : ltb c 127 && is_alphanumeric u c ≡ true =
        unfold is_alphanumeric is_digit in ground arith in
      rw e (ap (λ t. c ∷ t) (write_runes-Joined false s j))
  write_runes-Joined last (c ∷ s) (inr (e, f, j)) =
      let no : is_alphanumeric u c ≡ false = unfold is_alphanumeric is_digit in ground arith in
      let plain : fold c ≡ [] = fold_ascii c (omega arith) in
      let no_letter : ltb c 127 && is_alphanumeric u c ≡ false = ground (arith, no) in
      rw (no_letter, plain, no, f) (ap₂ (λ x t. x ∷ t) (sym e) (write_runes-Joined true s j))

  not_space : (c : ℕ) → is_word c ≡ true → is_space_rune c ≡ false
  unfolding is_space_rune
  not_space c w = ground arith

  not_sep : (c : ℕ) → is_word c ≡ true → (c == sep) ≡ false
  not_sep c w = ground (arith, apart)

  convert_key : (s : Bytes) → IsKey sep s → convert u s sep ≡ s
  unfolding convert
  convert_key s (inl e) = rw e (unfold trim trim_left trim_right write_runes in refl)
  convert_key s (inr j) =
      rw
        (
          trim-Joined is_space_rune s not_space j,
          lower_Joined true s j,
          write_runes-Joined true s j,
        )
        (trim-Joined (λ c. c == sep) s not_sep j)

  -- For a separator below the letters that is no digit, converting twice gives what converting once
  -- gives.
  pub convert-convert : (s : List ℕ) → convert u (convert u s sep) sep ≡ convert u s sep
  convert-convert s = convert_key (convert u s sep) (convert-IsKey s)

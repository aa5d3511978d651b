-- ===== src/Name.antt =====
-- internal/name/name.go: the folding of names for slugs and for search. A text is the list of its
-- runes. Runes of ASCII are treated as Go's `unicode` does; for the others, `Unicode` says which are
-- letters or digits and what is their lower case.
pub mod Folding
pub mod Keys
pub mod Agreement
pub mod Tests
use tennis_wiki.Base.{
  ℕ, ◌<◌, ◌≡◌, Bool, true, false, not, ◌&&◌, ◌||◌, List, [], ◌∷◌, ◌++◌, map, ltb, leb, ◌==◌,
  if◌then◌else◌, is_empty,
}
use tennis_wiki.Base.Text.{Bytes, codes, is_digit, to_lower_byte, trim}

abbrev pub is_upper : ℕ → Bool
is_upper c = leb b'A' c && leb c b'Z'

abbrev pub is_lower : ℕ → Bool
is_lower c = leb b'a' c && leb c b'z'

-- `unicode.ToLower`, `unicode.IsLetter` and `unicode.IsDigit` above ASCII. A lower case is no upper
-- case of ASCII.
pub record Unicode : Type 0 where
  pub lower : ℕ → ℕ
  pub letter : ℕ → Bool
  pub digit : ℕ → Bool
  pub lower_is_not_upper : (r : ℕ) → is_upper (lower r) ≡ false

-- `unicode.IsSpace`
unfoldable pub is_space_rune : ℕ → Bool
is_space_rune r =
    leb 9 r && leb r 13
    || r == 32
    || r == 0x85
    || r == 0xa0
    || r == 0x1680
    || leb 0x2000 r && leb r 0x200a
    || r == 0x2028
    || r == 0x2029
    || r == 0x202f
    || r == 0x205f
    || r == 0x3000

-- The cases of `fold`.
abbrev pub folds : List (List ℕ × Bytes)
folds =
    (225 ∷ 224 ∷ 226 ∷ 228 ∷ 227 ∷ 229 ∷ 257 ∷ 259 ∷ 261 ∷ [], codes "a")
    ∷ (230 ∷ [], codes "ae")
    ∷ (231 ∷ 263 ∷ 269 ∷ 265 ∷ [], codes "c")
    ∷ (271 ∷ 273 ∷ [], codes "d")
    ∷ (233 ∷ 232 ∷ 234 ∷ 235 ∷ 275 ∷ 277 ∷ 279 ∷ 281 ∷ 283 ∷ [], codes "e")
    ∷ (287 ∷ 291 ∷ [], codes "g")
    ∷ (295 ∷ [], codes "h")
    ∷ (237 ∷ 236 ∷ 238 ∷ 239 ∷ 299 ∷ 303 ∷ 305 ∷ [], codes "i")
    ∷ (314 ∷ 318 ∷ 322 ∷ [], codes "l")
    ∷ (241 ∷ 324 ∷ 328 ∷ [], codes "n")
    ∷ (243 ∷ 242 ∷ 244 ∷ 246 ∷ 245 ∷ 248 ∷ 333 ∷ 337 ∷ [], codes "o")
    ∷ (339 ∷ [], codes "oe")
    ∷ (341 ∷ 345 ∷ [], codes "r")
    ∷ (347 ∷ 353 ∷ 351 ∷ 537 ∷ [], codes "s")
    ∷ (223 ∷ [], codes "ss")
    ∷ (357 ∷ 355 ∷ 539 ∷ [], codes "t")
    ∷ (250 ∷ 249 ∷ 251 ∷ 252 ∷ 363 ∷ 367 ∷ 369 ∷ 371 ∷ [], codes "u")
    ∷ (253 ∷ 255 ∷ [], codes "y")
    ∷ (378 ∷ 382 ∷ 380 ∷ [], codes "z")
    ∷ []

unfoldable pub among : ℕ → List ℕ → Bool
among r [] = false
among r (x ∷ xs) = x == r || among r xs

unfoldable pub find_fold : ℕ → List (List ℕ × Bytes) → Bytes
unfolding among
find_fold r [] = []
find_fold r ((rs, ascii) ∷ rest) = if among r rs then ascii else find_fold r rest

-- `fold`
unfoldable pub fold : ℕ → Bytes
unfolding find_fold
fold r = find_fold r folds

module _ (u : Unicode) where
  unfoldable pub to_lower_rune : ℕ → ℕ
  unfolding to_lower_byte
  to_lower_rune r = if ltb r 128 then to_lower_byte r else u.lower r

  -- `unicode.IsLetter(r) || unicode.IsDigit(r)`
  unfoldable pub is_alphanumeric : ℕ → Bool
  unfolding is_digit
  is_alphanumeric r =
      if ltb r 128 then is_upper r || is_lower r || is_digit r else u.letter r || u.digit r

  -- One rune of the loop of `convert`: what is written, and `lastSep`.
  unfoldable pub write_rune : ℕ → Bool → ℕ → Bytes × Bool
  write_rune sep last_sep r =
      if ltb r 127 && is_alphanumeric r
      then (r ∷ [], false)
      else if not (is_empty (fold r))
      then (fold r, false)
      else if is_alphanumeric r
      then ([], last_sep)
      else if not last_sep
      then (sep ∷ [], true)
      else ([], last_sep)

  -- The loop of `convert`: what it writes from here on.
  unfoldable pub write_runes : ℕ → Bool → List ℕ → Bytes
  write_runes sep last_sep [] = []
  write_runes sep last_sep (r ∷ rs) =
      let (written, last_sep') = write_rune sep last_sep r in
      written ++ write_runes sep last_sep' rs

  -- `convert`
  unfoldable pub convert : List ℕ → ℕ → Bytes
  convert s sep =
      trim (λ c. c == sep) (write_runes sep true (map to_lower_rune (trim is_space_rune s)))

  -- `Slug`
  unfoldable pub slug : List ℕ → Bytes
  unfolding convert
  slug s = convert s b'-'

  -- `Normalise`
  unfoldable pub normalise : List ℕ → Bytes
  unfolding convert
  normalise s = convert s 32

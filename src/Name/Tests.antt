-- ===== src/Name/Tests.antt =====
-- internal/name: runs of the folding, and the theorems at concrete names.
use tennis_wiki.Base.{
  ◌+◌, ℕ, ◌≡◌, refl, false, List, [], ◌∷◌, ◌++◌, map, leb, ◌&&◌, if◌then◌else◌, arith,
}
use tennis_wiki.Base.Text.{codes, trim}
use tennis_wiki.Name.{
  Unicode, is_upper, is_space_rune, fold, to_lower_rune, is_alphanumeric, write_rune, write_runes,
  convert, slug, normalise,
}
use tennis_wiki.Name.Keys.{IsKey, convert-IsKey, convert-convert}
use tennis_wiki.Name.Agreement.{spaced, normalise-slug}

abbrev pub wide_lower : ℕ → ℕ
wide_lower r = if leb 0x41 r && leb r 0x5a then r + 32 else r

pub wide_lower-is_not_upper : (r : ℕ) → is_upper (wide_lower r) ≡ false
wide_lower-is_not_upper r = ground arith

-- No letters above ASCII but those of `fold`.
abbrev pub latin : Unicode
latin = record {
  lower = wide_lower;
  letter = λ r. false;
  digit = λ r. false;
  lower_is_not_upper = wide_lower-is_not_upper;
}

-- "Novak Djoković", with blanks round it.
abbrev djokovic : List ℕ
djokovic = codes "  Novak Djokovi" ++ 0x107 ∷ 32 ∷ []

slug_of_djokovic :
    (slug latin djokovic ≡ codes "novak-djokovic")
    × (slug latin (codes "O'Connell, C. ") ≡ codes "o-connell-c")
unfolding slug write_runes write_rune fold is_alphanumeric to_lower_rune trim is_space_rune
slug_of_djokovic = (refl, refl)

convert-IsKey_example : IsKey b'-' (convert latin djokovic b'-')
convert-IsKey_example = convert-IsKey latin b'-' (omega arith) refl djokovic

convert-convert_example :
    convert latin (convert latin djokovic b'-') b'-' ≡ convert latin djokovic b'-'
convert-convert_example = convert-convert latin b'-' (omega arith) refl djokovic

normalise-slug_example : normalise latin djokovic ≡ map spaced (slug latin djokovic)
normalise-slug_example = normalise-slug latin djokovic

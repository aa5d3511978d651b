-- ===== src/Base/Text.antt =====
-- The functions of Go's package `strings` that the program calls, on texts as lists of bytes.
-- Letters and white space are those of ASCII: the texts modelled hold no byte above 127.
pub mod Words
pub mod Ordering
use Prim.Native.Char.{code}
use Prim.Native.String.{String}
use Prim.Native.Nat.{ℕ, zero, suc, ◌+◌, ◌-◌}
use mathlib.Core.Path.{◌≡◌, refl, ap, ◌∙◌}
use mathlib.Core.Bool.{Bool, true, false, not, ◌&&◌, ◌||◌}
use mathlib.Core.List.{List, [], ◌∷◌, ◌++◌, map, append-nil, append_assoc}
use mathlib.Core.Option.{Option, none, some}
use native.Mathlib.Omega.{arith}
use tennis_wiki.Base.Tests.{ltb, leb, ◌==◌, if◌then◌else◌, Bool-cases}
use tennis_wiki.Base.Lists.{is_empty, All}

abbrev pub Bytes : Type 0
Bytes = List ℕ

-- The bytes of a literal.
abbrev pub codes : String → Bytes
codes String.[] = []
codes (String.◌∷◌ c s) = code c ∷ codes s

-- `unicode.IsSpace` on ASCII: \t \n \v \f \r and the blank.
unfoldable pub is_space : ℕ → Bool
is_space c = c == 32 || leb 9 c && leb c 13

unfoldable pub is_digit : ℕ → Bool
is_digit c = leb b'0' c && leb c b'9'

unfoldable pub to_upper_byte : ℕ → ℕ
to_upper_byte c = if leb b'a' c && leb c b'z' then c - 32 else c

unfoldable pub to_lower_byte : ℕ → ℕ
to_lower_byte c = if leb b'A' c && leb c b'Z' then c + 32 else c

abbrev pub to_upper : Bytes → Bytes
to_upper = map to_upper_byte

abbrev pub to_lower : Bytes → Bytes
to_lower = map to_lower_byte

-- `==` on texts.
unfoldable pub equal : Bytes → Bytes → Bool
equal [] t = is_empty t
equal (c ∷ s) [] = false
equal (c ∷ s) (d ∷ t) = c == d && equal s t

-- `<` on strings.
unfoldable pub text_less : Bytes → Bytes → Bool
text_less s [] = false
text_less [] (d ∷ t) = true
text_less (c ∷ s) (d ∷ t) = if c == d then text_less s t else ltb c d

unfoldable pub has_prefix : Bytes → Bytes → Bool
has_prefix s [] = true
has_prefix [] (y ∷ ys) = false
has_prefix (x ∷ xs) (y ∷ ys) = x == y && has_prefix xs ys

-- `strings.HasSuffix(s, c)` for a single byte.
unfoldable pub ends_with : ℕ → Bytes → Bool
ends_with c [] = false
ends_with c (x ∷ []) = x == c
ends_with c (x ∷ y ∷ s) = ends_with c (y ∷ s)

-- `strings.Contains(s, c)` for a single byte.
unfoldable pub contains : ℕ → Bytes → Bool
contains c [] = false
contains c (x ∷ s) = x == c || contains c s

abbrev shift : Option ℕ → Option ℕ
shift none = none
shift (some i) = some (suc i)

-- `strings.Index`; -1 is `none`.
unfoldable pub index : Bytes → Bytes → Option ℕ
unfolding has_prefix
index [] sub = if has_prefix [] sub then some 0 else none
index (x ∷ s) sub =
    let later = shift (index s sub) in if has_prefix (x ∷ s) sub then some 0 else later

unfoldable pub trim_left : (ℕ → Bool) → Bytes → Bytes
trim_left cut [] = []
trim_left cut (x ∷ s) = let rest = trim_left cut s in if cut x then rest else x ∷ s

unfoldable pub trim_right : (ℕ → Bool) → Bytes → Bytes
trim_right cut [] = []
trim_right cut (x ∷ s) =
    let rest = trim_right cut s in if cut x && is_empty rest then [] else x ∷ rest

-- `strings.TrimSpace`, and `strings.Trim` with the test of its cutset.
unfoldable pub trim : (ℕ → Bool) → Bytes → Bytes
unfolding trim_left trim_right
trim cut s = trim_right cut (trim_left cut s)

abbrev flush : Bytes → List Bytes → List Bytes
flush [] fs = fs
flush (c ∷ w) fs = (c ∷ w) ∷ fs

pub fields_from : Bytes → Bytes → List Bytes
fields_from word [] = flush word []
fields_from word (c ∷ s) = elim (is_space c) [
  | true ↦ flush word (fields_from [] s)
  | false ↦ fields_from (word ++ c ∷ []) s
]

-- `strings.Fields`: the maximal runs of bytes that are not white space.
unfoldable pub fields : Bytes → List Bytes
unfolding fields_from is_space
fields = fields_from []

-- `strings.Join(words, " ")`.
unfoldable pub join : List Bytes → Bytes
join [] = []
join (w ∷ []) = w
join (w ∷ v ∷ ws) = w ++ (32 ∷ join (v ∷ ws))

-- ===== src/Score/Scanner.antt =====
-- internal/score/parse.go: the scanner and what reads one token. The scanner's state is the input
-- from its position on; `max_digits`, which no method changes, is an argument. An error is the
-- message that is wrapped with `ErrMalformed`.
pub mod Bounds
pub mod RoundTrip
pub mod Token
pub mod Digits
pub mod Short
pub mod RunTogether
use tennis_wiki.Base.{
  ℕ, zero, suc, ◌+◌, ◌-◌, Bool, true, false, not, ◌&&◌, ◌||◌, List, [], ◌∷◌, ◌++◌, Option, none,
  some, ltb, leb, ◌==◌, if◌then◌else◌, length, is_empty, ◌≡◌, ◌⊎◌, inl, inr, refl,
}
use tennis_wiki.Base.Int
use tennis_wiki.Base.Text.{Bytes, is_digit, ends_with, has_prefix, codes}
use tennis_wiki.Score.Model.{ScoreSet, implied_tiebreak_winner}

-- `out_of_fuel` is no error of the program: it marks a loop of the model that was cut off.
pub data ScoreError : Type 0 where
  number_expected implausible_score dash_expected unclosed_tiebreak : ScoreError
  trailing_text unexpected_text out_of_fuel : ScoreError

pub data Result {ℓ} (A : Type ℓ) : Type ℓ where
  ok : A → Result A
  err : ScoreError → Result A

-- `if err != nil { return err }` between two steps.
infixl 5 ◌>>=◌
abbrev pub ◌>>=◌ {ℓ κ} : {A : Type ℓ} {B : Type κ} → Result A → (A → Result B) → Result B
◌>>=◌ step next = elim step [ ok a ↦ next a | err why ↦ err why ]

abbrev pub max_games : ℕ
max_games = 99

-- The first loop of `int`: the digits from the position on, at most `m` of them unless `m` is 0,
-- and the input behind them. `n` is how many were read, `p.pos - start`.
unfoldable pub take_digits : ℕ → ℕ → Bytes → Bytes × Bytes
unfolding is_digit
take_digits m n [] = ([], [])
take_digits m n (c ∷ s) =
    let (ds, rest) = take_digits m (n + 1) s in
    if is_digit c && not (ltb 0 m && leb m n) then (c ∷ ds, rest) else ([], c ∷ s)

-- The second loop of `int`, in Go's `int`.
unfoldable pub digits_value : ℕ → Bytes → ℕ
unfolding Int.add Int.mul Int.sub
digits_value n [] = n
digits_value n (c ∷ ds) = digits_value (Int.add (Int.mul n 10) (Int.sub c b'0')) ds

-- `scanner.int`
unfoldable pub read_int : ℕ → Bytes → Result (ℕ × Bytes)
unfolding take_digits digits_value Int.lt
read_int m s =
    let (ds, rest) = take_digits m 0 s in
    if is_empty ds
    then err number_expected
    else if Int.lt max_games (digits_value 0 ds)
    then err implausible_score
    else ok (digits_value 0 ds, rest)

-- `scanner.accept`: the input behind the byte, if it is next.
unfoldable pub accept : ℕ → Bytes → Option Bytes
accept c [] = none
accept c (x ∷ s) = if x == c then some s else none

-- `accept` where its failure is an error.
unfoldable pub demand : ℕ → ScoreError → Bytes → Result Bytes
unfolding accept
demand c e s = elim (accept c s) [ none ↦ err e | some rest ↦ ok rest ]

abbrev pub plain_set : ℕ → ℕ → ScoreSet
plain_set w l = record {
  games_winner = w;
  games_loser = l;
  tiebreak_winner = 0;
  tiebreak_loser = 0;
  super_tiebreak = false;
}

abbrev pub super_set : ℕ → ℕ → ScoreSet
super_set w l = record (plain_set 0 0) {
  tiebreak_winner = w;
  tiebreak_loser = l;
  super_tiebreak = true;
}

-- The points inside the brackets of `7-6(5)` and `7-6(8-6)`.
unfoldable pub read_points : ℕ → Bytes → Result (ℕ × ℕ × Bytes)
read_points m s = do
  (first, s1) ← read_int m s
  elim (accept b'-' s1) [
    | none ↦ ok (implied_tiebreak_winner first, first, s1)
    | some s2 ↦ do (second, s3) ← read_int m s2; ok (first, second, s3)
  ]

-- The end of `scanner.set`, behind the games: the tiebreak, if a bracket opens one.
unfoldable pub read_tiebreak : ℕ → ScoreSet → Bytes → Result (ScoreSet × Bytes)
read_tiebreak m set s = elim (accept b'(' s) [
  | none ↦ ok (set, s)
  | some s1 ↦ do
    (tw, tl, s2) ← read_points m s1
    s3 ← demand b')' unclosed_tiebreak s2
    ok (record set { tiebreak_winner = tw; tiebreak_loser = tl }, s3)
]

-- `scanner.set`
unfoldable pub read_set : ℕ → Bytes → Result (ScoreSet × Bytes)
read_set m s = do
  (w, s1) ← read_int m s
  s2 ← demand b'-' dash_expected s1
  (l, s3) ← read_int m s2
  read_tiebreak m (plain_set w l) s3

-- `scanner.atDigit`
unfoldable pub at_digit : Bytes → Bool
unfolding is_digit
at_digit [] = false
at_digit (c ∷ s) = is_digit c

-- Where the next set of a token begins: behind a hyphen, or at a digit.
unfoldable pub next_set : Bytes → Option Bytes
unfolding accept at_digit
next_set s = elim (accept b'-' s) [
  | some rest ↦ some rest
  | none ↦ if at_digit s then some s else none
]

-- The loop of `scanSets`; a round reads three bytes at least.
unfoldable pub scan_from : ℕ → ℕ → List ScoreSet → Bytes → Result (List ScoreSet)
scan_from zero m sets s = err out_of_fuel
scan_from (suc fuel) m sets s = do
  (set, rest) ← read_set m s
  elim (is_empty rest) [
    | true ↦ ok (sets ++ set ∷ [])
    | false ↦ elim (next_set rest) [
      | none ↦ err unexpected_text
      | some s' ↦ scan_from fuel m (sets ++ set ∷ []) s'
    ]
  ]

unfoldable pub scan_sets : ℕ → Bytes → Result (List ScoreSet)
scan_sets m token = scan_from (length token + 1) m [] token

-- `strings.TrimSuffix(body, "]")`
unfoldable pub trim_bracket : Bytes → Bytes
trim_bracket [] = []
trim_bracket (c ∷ []) = if c == b']' then [] else c ∷ []
trim_bracket (c ∷ d ∷ s) = c ∷ trim_bracket (d ∷ s)

-- `parseSuperTiebreak`, on what stands behind the opening bracket.
unfoldable pub read_super_tiebreak : Bytes → Result ScoreSet
read_super_tiebreak body = do
  (w, s1) ← read_int 0 (trim_bracket body)
  s2 ← demand b'-' dash_expected s1
  (l, s3) ← read_int 0 s2
  elim (is_empty s3) [ true ↦ ok (super_set w l) | false ↦ err trailing_text ]

-- The retry of `parseToken`: the first error stands unless the second scan succeeds.
abbrev pub or_retry : Result (List ScoreSet) → Result (List ScoreSet) → Result (List ScoreSet)
or_retry (ok sets) again = ok sets
or_retry (err e) (ok sets) = ok sets
or_retry (err e) (err _) = err e

-- `parseToken`
unfoldable pub parse_token : Bytes → Result (List ScoreSet)
parse_token [] = or_retry (scan_sets 0 []) (scan_sets 1 [])
parse_token (c ∷ s) =
    if c == b'['
    then (do set ← read_super_tiebreak s; ok (set ∷ []))
    else if ends_with b'-' (c ∷ s)
    then ok []
    else or_retry (scan_sets 0 (c ∷ s)) (scan_sets 1 (c ∷ s))

-- ===== src/Score/Scanner/Bounds.antt =====
-- internal/score/parse.go: what a successful scan returns, and the fuel of its loop.
use tennis_wiki.Base.{
  ℕ, zero, suc, ◌+◌, ◌<◌, ◌≤◌, ◌≡◌, ◌≢◌, refl, false, List, [], ◌∷◌, ◌++◌, length, is_empty, ◌==◌,
  arith, Bool-cases, Option-cases, inl, inr, some, All, All-append,
}
use tennis_wiki.Base.Int
use tennis_wiki.Base.Text.{Bytes, ends_with}
use tennis_wiki.Score.Model.{ScoreSet, implied_tiebreak_winner}
use tennis_wiki.Score.Scanner.Short.{IsShort, digits_value_small}
use tennis_wiki.Score.Scanner.{
  digits_value, Result, ok, err, ◌>>=◌, ScoreError, dash_expected, unclosed_tiebreak, out_of_fuel,
  max_games, take_digits, read_int, accept, demand, read_points, read_tiebreak, read_set, next_set,
  scan_from, scan_sets, read_super_tiebreak, parse_token, or_retry, plain_set, super_set,
  trim_bracket,
}

-- No number of a set is above 99, but for the winner's points that the short form implies, which are
-- at most two more.
pub record IsPlausible (s : ScoreSet) : Type 0 where
  pub winner_games : s.games_winner ≤ max_games
  pub loser_games : s.games_loser ≤ max_games
  pub loser_points : s.tiebreak_loser ≤ max_games
  pub winner_points : s.tiebreak_winner ≤ max_games + 2

length-take_digits :
    (m n : ℕ) (s : Bytes) → length (take_digits m n s).0 + length (take_digits m n s).1 ≡ length s
unfolding take_digits
length-take_digits m n [] = refl
length-take_digits m n (c ∷ s) = ground (arith, length-take_digits m (n + 1) s)

-- A computation returns what satisfies `P`, or fails with an error of the program.
abbrev pub Sound {ℓ} : {A : Type ℓ} → (A → Type 0) → Result A → Type 0
Sound P (ok a) = P a
Sound P (err e) = e ≢ out_of_fuel

pub Sound-bind {ℓ κ} :
    {A : Type ℓ} {B : Type κ} (P : A → Type 0) (Q : B → Type 0) (m : Result A) (f : A → Result B)
    → Sound P m
    → ((a : A) → P a → Sound Q (f a))
    → Sound Q (m >>= f)
Sound-bind P Q (ok a) f p k = k a p
Sound-bind P Q (err e) f p k = p

-- What `int` returns is a plausible number, and it reads a digit at least.
abbrev IntRead : Bytes → ℕ × Bytes → Type 0
IntRead s r = (r.0 ≤ max_games) × (length r.1 < length s)

small_number : (n : ℕ) → n < Int.two_63 → Int.lt max_games n ≡ false → n ≤ max_games
unfolding Int.lt
small_number n h e = ground (arith, h, e)

read_int-Sound : (m : ℕ) (s : Bytes) → IsShort s → Sound (IntRead s) (read_int m s)
unfolding read_int
read_int-Sound m s h = ground (
  arith,
  length-take_digits m 0 s,
  small_number (digits_value 0 (take_digits m 0 s).0) (digits_value_small m s h),
)

implied_tiebreak_winner_le : (n : ℕ) → n ≤ max_games → implied_tiebreak_winner n ≤ max_games + 2
unfolding implied_tiebreak_winner Int.lt Int.add
implied_tiebreak_winner_le n h = ground (arith, h)

accept-some :
    (c : ℕ) (s : Bytes) {rest : Bytes} → accept c s ≡ some rest → length s ≡ suc (length rest)
unfolding accept
accept-some c [] h = cc
accept-some c (x ∷ s) h = ground arith

demand-Sound :
    (c : ℕ) (e : ScoreError) (s : Bytes)
    → e ≢ out_of_fuel
    → Sound (λ rest. length rest < length s) (demand c e s)
unfolding demand accept
demand-Sound c e [] h = h
demand-Sound c e (x ∷ s) h = ground arith

-- The bracket's points.
abbrev PointsRead : Bytes → ℕ × ℕ × Bytes → Type 0
PointsRead s r = (r.0 ≤ max_games + 2) × (r.1 ≤ max_games) × (length r.2 < length s)

read_points-Sound : (m : ℕ) (s : Bytes) → IsShort s → Sound (PointsRead s) (read_points m s)
unfolding read_points
read_points-Sound m s short =
    Sound-bind (IntRead s) (PointsRead s) (read_int m s) _ (read_int-Sound m s short) λ a p.
      elim (Option-cases (accept b'-' a.1)) [
        | inl e ↦ rw e (implied_tiebreak_winner_le a.0 p.0, p.0, p.1)
        | inr (rest, e) ↦ rw e (
            Sound-bind (IntRead rest) (PointsRead s) (read_int m rest) _
              (read_int-Sound m rest (omega (arith, accept-some b'-' a.1 e, p.1, short)))
              λ b q. (omega (arith, p.0), q.0, omega (arith, accept-some b'-' a.1 e)))
      ]

abbrev SetRead : Bytes → ScoreSet × Bytes → Type 0
SetRead s r = IsPlausible r.0 × (length r.1 < length s)

with_points-IsPlausible :
    (set : ScoreSet) (w l : ℕ)
    → IsPlausible set
    → w ≤ max_games + 2
    → l ≤ max_games
    → IsPlausible (record set { tiebreak_winner = w; tiebreak_loser = l })
with_points-IsPlausible set w l p hw hl = record {
  winner_games = p.winner_games;
  loser_games = p.loser_games;
  loser_points = hl;
  winner_points = hw;
}

read_tiebreak-Sound :
    (m : ℕ) (set : ScoreSet) (s t : Bytes)
    → IsPlausible set
    → length s < length t
    → IsShort t
    → Sound (SetRead t) (read_tiebreak m set s)
unfolding read_tiebreak
read_tiebreak-Sound m set s t p b short = elim (Option-cases (accept b'(' s)) [
  | inl e ↦ rw (e, Sound, read_tiebreak) (p, b)
  | inr (rest, e) ↦
      rw (e, Sound, read_tiebreak)
        (Sound-bind (PointsRead rest) (SetRead t) (read_points m rest) _
          (read_points-Sound m rest (omega (arith, accept-some b'(' s e, b, short)))
          λ r q.
            Sound-bind (λ s3. length s3 < length r.2) (SetRead t)
              (demand b')' unclosed_tiebreak r.2) _
              (demand-Sound b')' unclosed_tiebreak r.2 (λ x. cc))
              λ s3 d. (
                with_points-IsPlausible set r.0 r.1 p q.0 q.1,
                omega (arith, accept-some b'(' s e, q.2),
              ))
]

plain_set-IsPlausible : (w l : ℕ) → w ≤ max_games → l ≤ max_games → IsPlausible (plain_set w l)
plain_set-IsPlausible w l hw hl = record {
  winner_games = hw;
  loser_games = hl;
  loser_points = omega arith;
  winner_points = omega arith;
}

read_set-Sound : (m : ℕ) (s : Bytes) → IsShort s → Sound (SetRead s) (read_set m s)
unfolding read_set
read_set-Sound m s short =
    Sound-bind (IntRead s) (SetRead s) (read_int m s) _ (read_int-Sound m s short) λ a p.
      Sound-bind (λ r. length r < length a.1) (SetRead s) (demand b'-' dash_expected a.1) _
        (demand-Sound b'-' dash_expected a.1 (λ x. cc))
        λ s2 d.
          Sound-bind (IntRead s2) (SetRead s) (read_int m s2) _
            (read_int-Sound m s2 (omega (arith, p.1, d, short)))
            λ c q.
              read_tiebreak-Sound m (plain_set a.0 c.0) c.1 s
                (plain_set-IsPlausible a.0 c.0 p.0 q.0) (omega (arith, p.1, d, q.1)) short

next_set-some : (s : Bytes) {rest : Bytes} → next_set s ≡ some rest → length rest ≤ length s
unfolding next_set
next_set-some s h = ground (arith, accept-some b'-' s)

-- Every set of a scan is plausible, and with this much fuel the loop ends by its own test.
scan_from-Sound :
    (fuel m : ℕ) (sets : List ScoreSet) (s : Bytes)
    → length s < fuel
    → IsShort s
    → All IsPlausible sets
    → Sound (All IsPlausible) (scan_from fuel m sets s)
unfolding scan_from
scan_from-Sound zero m sets s b short p = absurd (omega arith)
scan_from-Sound (suc fuel) m sets s b short p =
    Sound-bind (SetRead s) (All IsPlausible) (read_set m s) _ (read_set-Sound m s short) λ r q.
      let sets' = All-append IsPlausible sets (r.0 ∷ []) p (q.0, tt) in
      elim (Bool-cases (is_empty r.1)) [
        | inl e ↦ rw e sets'
        | inr e ↦ rw e (elim (Option-cases (next_set r.1)) [
          | inl n ↦ rw n (λ x. cc)
          | inr (rest, n) ↦ rw n (
              scan_from-Sound fuel m (sets ++ r.0 ∷ []) rest
                (omega (arith, q.1, next_set-some r.1 n))
                (omega (arith, q.1, next_set-some r.1 n, short)) sets')
        ])
      ]

scan_sets-Sound :
    (m : ℕ) (token : Bytes) → IsShort token → Sound (All IsPlausible) (scan_sets m token)
unfolding scan_sets
scan_sets-Sound m token short = scan_from-Sound (length token + 1) m [] token (omega arith) short tt

super_set-IsPlausible : (w l : ℕ) → w ≤ max_games → l ≤ max_games → IsPlausible (super_set w l)
super_set-IsPlausible w l hw hl = record {
  winner_games = omega arith;
  loser_games = omega arith;
  loser_points = hl;
  winner_points = omega (arith, hw);
}

trim_bracket_le : (s : Bytes) → length (trim_bracket s) ≤ length s
unfolding trim_bracket
trim_bracket_le [] = omega arith
trim_bracket_le (c ∷ []) = ground arith
trim_bracket_le (c ∷ d ∷ s) = omega (arith, trim_bracket_le (d ∷ s))

read_super_tiebreak-Sound :
    (body : Bytes) → IsShort body → Sound IsPlausible (read_super_tiebreak body)
unfolding read_super_tiebreak
read_super_tiebreak-Sound body short =
    Sound-bind (IntRead _) IsPlausible (read_int 0 (trim_bracket body)) _
      (read_int-Sound 0 (trim_bracket body) (omega (arith, trim_bracket_le body, short)))
      λ a p.
        Sound-bind (λ r. length r < length a.1) IsPlausible (demand b'-' dash_expected a.1) _
          (demand-Sound b'-' dash_expected a.1 (λ x. cc))
          λ s2 d.
            Sound-bind (IntRead s2) IsPlausible (read_int 0 s2) _
              (read_int-Sound 0 s2 (omega (arith, p.1, d, trim_bracket_le body, short)))
              λ c q. elim (Bool-cases (is_empty c.1)) [
                | inl e ↦ rw e (super_set-IsPlausible a.0 c.0 p.0 q.0)
                | inr e ↦ rw e (λ x. cc)
              ]

or_retry-Sound :
    (m n : Result (List ScoreSet))
    → Sound (All IsPlausible) m
    → Sound (All IsPlausible) n
    → Sound (All IsPlausible) (or_retry m n)
or_retry-Sound (ok a) n p q = p
or_retry-Sound (err e) (ok a) p q = q
or_retry-Sound (err e) (err f) p q = p

scan_token-Sound :
    (t : Bytes) → IsShort t → Sound (All IsPlausible) (or_retry (scan_sets 0 t) (scan_sets 1 t))
scan_token-Sound t short =
    or_retry-Sound (scan_sets 0 t) (scan_sets 1 t) (scan_sets-Sound 0 t short)
      (scan_sets-Sound 1 t short)

-- One short token: plausible sets, or an error that is the program's own.
pub parse_token-Sound :
    (token : Bytes) → IsShort token → Sound (All IsPlausible) (parse_token token)
unfolding parse_token
parse_token-Sound [] short = scan_token-Sound [] short
parse_token-Sound (c ∷ s) short = elim (Bool-cases (c == b'[')) [
  | inl e ↦ rw e (
      Sound-bind IsPlausible (All IsPlausible) (read_super_tiebreak s) _
        (read_super_tiebreak-Sound s (omega (arith, short))) λ set p. (p, tt))
  | inr e ↦ rw e (elim (Bool-cases (ends_with b'-' (c ∷ s))) [
    | inl d ↦ rw d tt
    | inr d ↦ rw d (scan_token-Sound (c ∷ s) short)
  ])
]

-- ===== src/Simulate/Play/Halving.antt =====
-- internal/simulate/montecarlo.go: the field that is halved in place.
use tennis_wiki.Base.{
  ℕ, zero, suc, ◌+◌, ◌*◌, ◌/◌, ◌^◌, ◌≡◌, ◌∙◌, refl, ap, sym, arith, Bool, List, [], ◌∷◌, ◌++◌,
  append_assoc, append-nil, if◌then◌else◌, length, length-append, get_or, set,
}
use native.Mathlib.Nat.{pow-suc}
use tennis_wiki.Simulate.Play.{Run, range_from, play_pair, play_pairs, play_rounds, play_once}

get_or-append :
    (xs : List ℕ) (i y : ℕ) (ys : List ℕ) (d : ℕ) → i ≡ length xs → get_or (xs ++ (y ∷ ys)) i d ≡ y
get_or-append [] zero y ys d h = refl
get_or-append [] (suc i) y ys d h = absurd (omega arith)
get_or-append (x ∷ xs) zero y ys d h = absurd (omega arith)
get_or-append (x ∷ xs) (suc i) y ys d h = get_or-append xs i y ys d (omega arith)

set-append :
    (xs : List ℕ) (i y : ℕ) (ys : List ℕ) (v : ℕ)
    → i ≡ length xs
    → set (xs ++ (y ∷ ys)) i v ≡ xs ++ (v ∷ ys)
set-append [] zero y ys v h = refl
set-append [] (suc i) y ys v h = absurd (omega arith)
set-append (x ∷ xs) zero y ys v h = absurd (omega arith)
set-append (x ∷ xs) (suc i) y ys v h = ap (λ l. x ∷ l) (set-append xs i y ys v (omega arith))

-- The list behind the first element of `junk ++ a ∷ []`.
abbrev first_of : List ℕ → ℕ → ℕ
first_of [] a = a
first_of (j ∷ junk) a = j

abbrev others_of : List ℕ → ℕ → List ℕ
others_of [] a = []
others_of (j ∷ junk) a = junk ++ a ∷ []

shift :
    (junk : List ℕ) (a : ℕ) (ys : List ℕ)
    → junk ++ (a ∷ ys) ≡ first_of junk a ∷ (others_of junk a ++ ys)
shift [] a ys = refl
shift (j ∷ junk) a ys = ap (λ l. j ∷ l) (sym (append_assoc junk (a ∷ []) ys))

length-others_of : (junk : List ℕ) (a : ℕ) → length (others_of junk a) ≡ length junk
length-others_of [] a = refl
length-others_of (j ∷ junk) a = omega (arith, length-append junk (a ∷ []))

module _ (p : ℕ) (front junk ys : List ℕ) (a c : ℕ) (hp : p ≡ length front)
    (hj : p ≡ length junk) where
  read_first : get_or (front ++ (junk ++ (a ∷ c ∷ ys))) (2 * p) 0 ≡ a
  read_first =
      rw (← append_assoc front junk (a ∷ c ∷ ys)) (
        get_or-append (front ++ junk) (2 * p) a (c ∷ ys) 0
          (omega (arith, length-append front junk)))

  read_second : get_or (front ++ (junk ++ (a ∷ c ∷ ys))) (2 * p + 1) 0 ≡ c
  read_second =
      rw (← append_assoc front junk (a ∷ c ∷ ys), ← append_assoc (front ++ junk) (a ∷ []) (c ∷ ys))
        (get_or-append ((front ++ junk) ++ a ∷ []) (2 * p + 1) c ys 0
          (omega (arith, length-append front junk, length-append (front ++ junk) (a ∷ []))))

  write_winner :
      (v : ℕ)
      → set (front ++ (junk ++ (a ∷ c ∷ ys))) p v
        ≡ (front ++ v ∷ []) ++ ((others_of junk a ++ c ∷ []) ++ ys)
  write_winner v =
      rw
        (
          shift junk a (c ∷ ys),
          set-append front p (first_of junk a) (others_of junk a ++ (c ∷ ys)) v hp,
        )
        (simp append_assoc)

length-range_from : (i n : ℕ) → length (range_from i n) ≡ n
unfolding range_from
length-range_from i zero = refl
length-range_from i (suc n) = ap suc (length-range_from (i + 1) n)

single : (l : List ℕ) → length l ≡ 1 → (x : ℕ) × (l ≡ x ∷ [])
single [] h = absurd (omega arith)
single (x ∷ []) h = (x, refl)
single (x ∷ y ∷ l) h = absurd (omega arith)

module _ (beats : ℕ → ℕ → ℕ → Bool) where
  -- The winners of the pairings of a list, in order, from draw number `n` on.
  abbrev pub winners : ℕ → List ℕ → List ℕ
  winners n [] = []
  winners n (a ∷ []) = []
  winners n (a ∷ c ∷ rest) = (if beats n a c then a else c) ∷ winners (n + 1) rest

  -- A bracket played round by round, on fresh lists: `k` rounds, the first with `alive` players.
  abbrev pub play_out : ℕ → ℕ → ℕ → List ℕ → List ℕ
  play_out n alive zero l = l
  play_out n alive (suc k) l = play_out (n + alive / 2) (alive / 2) k (winners n l)

  module _ (rounds r : ℕ) where
    -- One pairing: the winner joins the finished front of the array.
    play_pair-field :
        (p : ℕ) (s : Run) (front junk ys : List ℕ) (a c : ℕ)
        → s.field ≡ front ++ (junk ++ (a ∷ c ∷ ys))
        → p ≡ length front
        → p ≡ length junk
        → ((play_pair beats rounds r p s).field
            ≡ (front ++ (if beats s.drawn a c then a else c) ∷ [])
              ++ ((others_of junk a ++ c ∷ []) ++ ys))
    unfolding play_pair
    play_pair-field p s front junk ys a c f hp hj =
        rw (f, read_first p front junk ys a c hp hj, read_second p front junk ys a c hp hj)
          (write_winner p front junk ys a c hp hj _)

    -- All the pairings of a round: the front of the array becomes the winners, in order.
    play_pairs-winners :
        (n p : ℕ) (s : Run) (front junk l tail : List ℕ)
        → s.field ≡ front ++ (junk ++ (l ++ tail))
        → p ≡ length front
        → p ≡ length junk
        → length l ≡ n + n
        → (rest : List ℕ) × ((play_pairs beats rounds r p n s).field
            ≡ (front ++ winners s.drawn l) ++ rest)
          × (length (winners s.drawn l) ≡ n)
          × ((play_pairs beats rounds r p n s).drawn ≡ s.drawn + n)
    unfolding play_pairs play_pair
    play_pairs-winners zero p s front junk [] tail f hp hj hl =
        (junk ++ tail, f ∙ simp append-nil, refl, omega arith)
    play_pairs-winners zero p s front junk (a ∷ l) tail f hp hj hl = absurd (omega arith)
    play_pairs-winners (suc n) p s front junk [] tail f hp hj hl = absurd (omega arith)
    play_pairs-winners (suc n) p s front junk (a ∷ []) tail f hp hj hl = absurd (omega arith)
    play_pairs-winners (suc n) p s front junk (a ∷ c ∷ l) tail f hp hj hl =
        let w = if beats s.drawn a c then a else c in
        let (rest, field, count, drawn) =
          play_pairs-winners n (p + 1) (play_pair beats rounds r p s) (front ++ w ∷ [])
            (others_of junk a ++ c ∷ []) l tail
            (play_pair-field p s front junk (l ++ tail) a c f hp hj)
            (omega (arith, length-append front (w ∷ [])))
            (omega (arith, length-append (others_of junk a) (c ∷ []), length-others_of junk a))
            (omega arith) in
        (
          rest,
          field ∙ ap (λ k. k ++ rest) (append_assoc front (w ∷ []) (winners (s.drawn + 1) l)),
          ap suc count,
          omega arith,
        )

  -- The in-place rounds leave, at the front of the array, what playing on fresh lists leaves.
  play_rounds-play_out :
      (rounds r alive k : ℕ) (s : Run) (l rest : List ℕ)
      → alive ≡ 2 ^ k
      → s.field ≡ l ++ rest
      → length l ≡ alive
      → (rest' : List ℕ) × ((play_rounds beats rounds r alive k s).field
          ≡ play_out s.drawn alive k l ++ rest')
        × (length (play_out s.drawn alive k l) ≡ 1)
  unfolding play_rounds
  play_rounds-play_out rounds r alive zero s l rest ha f hl = (rest, f, hl ∙ ha)
  play_rounds-play_out rounds r alive (suc k) s l rest ha f hl =
      let half : alive / 2 ≡ 2 ^ k = omega (arith, pow-suc 2 k) in
      let even : (alive + 1) / 2 ≡ alive / 2 = omega (arith, pow-suc 2 k) in
      let s' = play_pairs beats rounds r 0 (alive / 2) s in
      let (rest', field, count, drawn) =
        play_pairs-winners rounds r (alive / 2) 0 s [] [] l rest f refl refl
          (omega (arith, pow-suc 2 k)) in
      let (rest'', field', one) =
        play_rounds-play_out rounds (r + 1) (alive / 2) k s' (winners s.drawn l) rest' half field
          count in
      rw (play_rounds, even, ← drawn) (rest'', field', one)

  -- A complete bracket of `2 ^ rounds` lines, played in place by `playOnce`, has one survivor, and
  -- it is the champion of the bracket played round by round on fresh lists.
  pub play_once-play_out :
      (rounds : ℕ) (tally : List ℕ) (drawn : ℕ)
      → (champion : ℕ) × (rest : List ℕ) × (play_out drawn
            (2 ^ rounds)
            rounds
            (range_from 0 (2 ^ rounds))
          ≡ champion ∷ [])
        × ((play_once beats rounds (2 ^ rounds) tally drawn).field ≡ champion ∷ rest)
  unfolding play_once
  play_once-play_out rounds tally drawn =
      let (rest, field, one) =
        play_rounds-play_out rounds 0 (2 ^ rounds) rounds _ (range_from 0 (2 ^ rounds)) [] refl
          (sym (append-nil _)) (length-range_from 0 (2 ^ rounds)) in
      let (champion, only) =
        single (play_out drawn (2 ^ rounds) rounds (range_from 0 (2 ^ rounds))) one in
      (champion, rest, only, field ∙ ap (λ l. l ++ rest) only)

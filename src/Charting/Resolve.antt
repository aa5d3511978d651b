-- ===== src/Charting/Resolve.antt =====
-- internal/charting/resolve.go: `NewIndex`, `candidates` and `Resolve`.

use tennis_wiki.Base.{
  ℕ, ◌+◌, ◌-◌, Bool, false, not, ◌&&◌, ◌||◌, List, [], ◌∷◌, ◌++◌, ltb, leb, ◌==◌, if◌then◌else◌,
  is_empty,
}
use tennis_wiki.Base.Result.{Result, ok, err}
use tennis_wiki.Base.Text.{Bytes, equal}
use tennis_wiki.Name.{Unicode}
use tennis_wiki.Charting.People.{key, surnames, same_person}

pub record Candidate : Type 0 where
  pub match_id : ℕ
  pub winner_id : ℕ
  pub loser_id : ℕ
  pub winner : List ℕ
  pub loser : List ℕ
  pub round : Bytes
  pub played_on : ℕ

pub record Resolution : Type 0 where
  pub match_id : ℕ
  pub player1_id : ℕ
  pub player2_id : ℕ

-- The fields of a charted `Match` that are read here.
pub record Chart : Type 0 where
  pub player1 : List ℕ
  pub player2 : List ℕ
  pub played_on : ℕ
  pub round : Bytes

-- The two reasons of `Resolve`.
pub data Reason : Type 0 where
  no_match more_than_one : Reason

abbrev pub before : ℕ
before = 168

abbrev pub after : ℕ
after = 504

abbrev pub Index : Type 0
Index = List (Bytes × List Candidate)

-- `ix.byKey[k] = append(ix.byKey[k], c)`
unfoldable pub add_under : Bytes → Candidate → Index → Index
unfolding equal
add_under k c [] = (k, c ∷ []) ∷ []
add_under k c ((j, cs) ∷ ix) =
    if equal j k then (j, cs ++ c ∷ []) ∷ ix else (j, cs) ∷ add_under k c ix

-- `ix.byKey[k]`
unfoldable pub under : Bytes → Index → List Candidate
unfolding equal
under k [] = []
under k ((j, cs) ∷ ix) = if equal j k then cs else under k ix

-- The two keys that one pair of surnames puts a row under.
abbrev pub add_pair : Candidate → Bytes → Bytes → Index → Index
add_pair c a b ix = add_under (key [] a b) c (add_under (key c.round a b) c ix)

unfoldable pub add_losers : Candidate → Bytes → List Bytes → Index → Index
unfolding add_under key
add_losers c a [] ix = ix
add_losers c a (b ∷ bs) ix = add_losers c a bs (add_pair c a b ix)

unfoldable pub add_winners : Candidate → List Bytes → List Bytes → Index → Index
unfolding add_losers
add_winners c [] bs ix = ix
add_winners c (a ∷ rest) bs ix = add_winners c rest bs (add_losers c a bs ix)

unfoldable pub in_window : ℕ → ℕ → Bool
in_window charted start = not (ltb (charted + before) start) && not (ltb (start + after) charted)

unfoldable pub distance : ℕ → ℕ → ℕ
distance charted start = if ltb charted start then (start - charted) + after else charted - start

unfoldable pub was_seen : ℕ → List ℕ → Bool
was_seen i [] = false
was_seen i (j ∷ js) = j == i || was_seen i js

-- The rows found, and the ids of those seen.
pub record Hits : Type 0 where
  pub found : List Candidate
  pub seen : List ℕ

module _ (u : Unicode) where
  -- The loop of `NewIndex`.
  unfoldable pub add_all : List Candidate → Index → Index
  unfolding add_winners surnames
  add_all [] ix = ix
  add_all (c ∷ cs) ix = add_all cs (add_winners c (surnames u c.winner) (surnames u c.loser) ix)

  -- `NewIndex`
  unfoldable pub new_index : List Candidate → Index
  unfolding add_all
  new_index cs = add_all cs []

  module _ (m : Chart) where
    -- The two players are those of the row, in either order.
    unfoldable pub same_players : Candidate → Bool
    unfolding same_person
    same_players c =
        same_person u m.player1 c.winner && same_person u m.player2 c.loser
        || same_person u m.player1 c.loser && same_person u m.player2 c.winner

    unfoldable pub consider : Candidate → Hits → Hits
    unfolding same_players was_seen in_window
    consider c h =
        if was_seen c.match_id h.seen || not (in_window m.played_on c.played_on)
        then h
        else if same_players c
        then record { found = h.found ++ c ∷ []; seen = c.match_id ∷ h.seen }
        else h

    unfoldable pub consider_all : List Candidate → Hits → Hits
    unfolding consider
    consider_all [] h = h
    consider_all (c ∷ cs) h = consider_all cs (consider c h)

    unfoldable pub search_second : Index → Bytes → Bytes → List Bytes → Hits → Hits
    unfolding consider_all under key
    search_second ix round s1 [] h = h
    search_second ix round s1 (s2 ∷ ss) h =
        search_second ix round s1 ss (consider_all (under (key round s1 s2) ix) h)

    unfoldable pub search_first : Index → Bytes → List Bytes → List Bytes → Hits → Hits
    unfolding search_second
    search_first ix round [] bs h = h
    search_first ix round (s1 ∷ ss) bs h =
        search_first ix round ss bs (search_second ix round s1 bs h)

    -- `candidates`
    unfoldable pub candidates : Index → Bytes → List Candidate
    unfolding search_first surnames
    candidates ix round =
        (search_first ix round (surnames u m.player1) (surnames u m.player2)
          (record { found = []; seen = [] })).found

    abbrev pub far : Candidate → ℕ
    far c = distance m.played_on c.played_on

    -- `sort.Slice(found, ...)`
    unfoldable pub insert : Candidate → List Candidate → List Candidate
    unfolding distance
    insert c [] = c ∷ []
    insert c (d ∷ ds) = if leb (far c) (far d) then c ∷ d ∷ ds else d ∷ insert c ds

    unfoldable pub sort : List Candidate → List Candidate
    unfolding insert
    sort [] = []
    sort (c ∷ cs) = insert c (sort cs)

    -- The rows that are read in the round, or, if there are none, in any.
    unfoldable pub found_in : Index → List Candidate
    unfolding candidates
    found_in ix =
        let rounded = candidates ix m.round in
        if is_empty rounded && not (is_empty m.round) then candidates ix [] else rounded

    -- Which player each of the charted names is.
    unfoldable pub name_players : Candidate → Resolution
    unfolding same_person
    name_players c =
        if same_person u m.player1 c.winner
        then record { match_id = c.match_id; player1_id = c.winner_id; player2_id = c.loser_id }
        else record { match_id = c.match_id; player1_id = c.loser_id; player2_id = c.winner_id }

    -- The switch on how many rows were found, nearest first.
    unfoldable pub settle : List Candidate → Result Reason Resolution
    unfolding name_players
    settle [] = err no_match
    settle (c ∷ []) = ok (name_players c)
    settle (c ∷ d ∷ ds) = if far c == far d then err more_than_one else ok (name_players c)

    -- `Resolve`
    unfoldable pub resolve : Index → Result Reason Resolution
    unfolding settle sort found_in
    resolve ix = settle (sort (found_in ix))

-- ===== src/Ingest/Ledger.antt =====
-- internal/ingest/pipeline.go: what the ledger is told of a file, against what the store has taken.
pub mod Projections
pub mod Steps
pub mod Receive
pub mod Orders
pub mod Files
pub mod Held
use tennis_wiki.Base.{
  ℕ, ◌+◌, ◌≡◌, Bool, true, false, not, ◌&&◌, ◌||◌, List, [], ◌∷◌, ◌++◌, Option, none, some,
  if◌then◌else◌, is_empty, All,
}
use tennis_wiki.Base.Count.{keep}
use tennis_wiki.Base.Dict.{Eq, find_or}
use tennis_wiki.Base.Text.{Bytes}
use tennis_wiki.Ingest.{FileKey, file_key_eq, Chunk, FileTally}
use tennis_wiki.Ingest.Balance.{chunk_rows, total_seen}
use tennis_wiki.Ingest.Writing.{Entry, Commit, Writing, is_none, no_tally}

-- The chunks of a file. The chunks that have arrived stand with the latest first.
abbrev pub only : {A : Type 0} → FileKey → List (Chunk A) → List (Chunk A)
only k = keep (λ c. file_key_eq.same c.key k)

-- A chunk that closes its file.
abbrev pub closes : {A : Type 0} → Chunk A → Bool
closes c = not (c.skipped || c.missing) && is_none c.rows

abbrev pub any_close : {A : Type 0} → List (Chunk A) → Bool
any_close [] = false
any_close (c ∷ cs) = closes c || any_close cs

abbrev pub last_validator : {A : Type 0} → List (Chunk A) → Option Bytes
last_validator [] = none
last_validator (c ∷ cs) = if closes c then some c.validator else none

-- The rows of the chunks, in the order of their arrival.
abbrev pub rows_back : {A : Type 0} → List (Chunk A) → List A
rows_back [] = []
rows_back (c ∷ cs) = rows_back cs ++ chunk_rows c.rows

-- What the store has taken of a file, and the matches that it wrote.
unfoldable pub taken : {A : Type 0} → FileKey → List (Commit A) → List A
taken k [] = []
taken k (b ∷ bs) =
    let rest = taken k bs in if file_key_eq.same b.key k then b.rows ++ rest else rest

unfoldable pub matches_of : {A : Type 0} → FileKey → List (Commit A) → ℕ
matches_of k [] = 0
matches_of k (b ∷ bs) =
    let rest = matches_of k bs in if file_key_eq.same b.key k then b.matches + rest else rest

-- The entry is of a file that is closed and of which the store has taken every row.
abbrev pub IsHeld : {A : Type 0} → List (Chunk A) → List (Commit A) → Entry → Type 0
IsHeld past committed e =
    (last_validator (only e.key past) ≡ some e.validator)
    × ((e.seen ≡ total_seen (only e.key past))
        × ((e.written ≡ matches_of e.key committed)
            × (taken e.key committed ≡ rows_back (only e.key past))))

-- Without an error the store has every row that arrived, and a file that is not closed has its
-- counts in the tally.
abbrev pub IsCurrent : {A E : Type 0} → List (Chunk A) → Writing A E → Type 0
IsCurrent past w =
    (k : FileKey)
    → (taken k w.committed ≡ rows_back (only k past))
      × (any_close (only k past) ≡ false
          → find_or k no_tally w.tally
            ≡ record { seen = total_seen (only k past); written = matches_of k w.committed })

abbrev pub IsTrue : {A E : Type 0} → List (Chunk A) → Writing A E → Type 0
IsTrue past w =
    (is_none w.error ≡ true → IsCurrent past w) × All (IsHeld past w.committed) w.recorded

-- A chunk that says that nothing was read has no rows.
abbrev pub IsIdle : {A : Type 0} → Chunk A → Type 0
IsIdle c = c.skipped || c.missing ≡ true → (c.seen ≡ 0) × (c.rows ≡ none)

-- No chunk of a file arrives after the one that closes it.
abbrev pub IsOrderly : {A : Type 0} → List (Chunk A) → List (Chunk A) → Type 0
IsOrderly past [] = Unit
IsOrderly past (c ∷ cs) = (any_close (only c.key past) ≡ false) × IsOrderly (c ∷ past) cs

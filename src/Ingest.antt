-- ===== src/Ingest.antt =====
-- internal/ingest: from the files of a mirror to the database. This file has the types of
-- pipeline.go and ledger.go. The pipeline does not look into a row: `A` is the type of rows.
pub mod Reading
pub mod Writing
pub mod Sources
pub mod Merge
pub mod Balance
pub mod Counted
pub mod Accounted
pub mod Ledger
mod Tests
use tennis_wiki.Base.{ℕ, ◌+◌, Bool, true, false, List, [], ◌∷◌, Option, none, some, ◌≡◌}
use tennis_wiki.Base.Dict.{Eq, pair_eq, text_eq}
use tennis_wiki.Base.Int
use tennis_wiki.Base.Text.{Bytes}

-- `FileKey`: the source and the unit.
abbrev pub FileKey : Type 0
FileKey = Bytes × Bytes

instance abbrev pub file_key_eq : Eq FileKey
file_key_eq = pair_eq text_eq text_eq

-- `SeasonKey`
unfoldable pub season_key : Bytes → ℕ → FileKey
unfolding Int.itoa
season_key source season = (source, Int.itoa season)

-- `chunk`; nil rows are `none`.
pub record Chunk (A : Type 0) : Type 0 where
  pub key : FileKey
  pub rows : Option (List A)
  pub seen : ℕ
  pub rejected : ℕ
  pub missing : Bool
  pub skipped : Bool
  pub validator : Bytes

-- `RunStats`
pub record RunStats : Type 0 where
  pub files_read : ℕ
  pub files_missing : ℕ
  pub files_skipped : ℕ
  pub rows_seen : ℕ
  pub rows_written : ℕ
  pub rows_rejected : ℕ
  pub rows_collapsed : ℕ

-- `fileTally`
pub record FileTally : Type 0 where
  pub seen : ℕ
  pub written : ℕ

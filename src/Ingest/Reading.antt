-- ===== src/Ingest/Reading.antt =====
-- internal/ingest/pipeline.go: `readFile`, in a run that is not cancelled. What `open` and the reader
-- answer is a parameter: the records of a file are a list, where `none` is a row that cannot be
-- parsed.
use tennis_wiki.Base.{
  ℕ, ◌+◌, Bool, true, false, not, ◌||◌, List, [], ◌∷◌, ◌++◌, Option, none, some, ltb, leb,
  if◌then◌else◌, is_empty, length,
}
use tennis_wiki.Base.Text.{Bytes}
use tennis_wiki.Ingest.{FileKey, Chunk}

-- What `open` and `NewReader` answer: `ErrUnchanged`, `ErrNotFound`, another error, or the validator
-- and the records.
pub data Opened (A E : Type 0) : Type 0 where
  unchanged not_found : Opened A E
  failed : E → Opened A E
  opened : Bytes → List (Option A) → Opened A E

module _ {A : Type 0} where
  -- The chunk that `flush` sends.
  abbrev pub batch_chunk : FileKey → List A → ℕ → ℕ → Chunk A
  batch_chunk key batch seen rejected = record {
    key = key;
    rows = some batch;
    seen = seen;
    rejected = rejected;
    missing = false;
    skipped = false;
    validator = [];
  }

  -- The chunk without rows that closes a file, or says that there is none to read.
  abbrev pub bare_chunk : FileKey → Bool → Bool → Bytes → Chunk A
  bare_chunk key missing skipped validator = record {
    key = key;
    rows = none;
    seen = 0;
    rejected = 0;
    missing = missing;
    skipped = skipped;
    validator = validator;
  }

  -- The loop over the records, with the batch and the counts so far: the chunks sent from here on.
  unfoldable pub read_records : ℕ → FileKey → List (Option A) → List A → ℕ → ℕ → List (Chunk A)
  read_records size key [] batch seen rejected =
      if not (is_empty batch) || ltb 0 seen then batch_chunk key batch seen rejected ∷ [] else []
  read_records size key (none ∷ rs) batch seen rejected =
      read_records size key rs batch (seen + 1) (rejected + 1)
  read_records size key (some r ∷ rs) batch seen rejected =
      let flushed = read_records size key rs [] 0 0 in
      let kept = read_records size key rs (batch ++ r ∷ []) (seen + 1) rejected in
      if leb size (length (batch ++ r ∷ []))
      then batch_chunk key (batch ++ r ∷ []) (seen + 1) rejected ∷ flushed
      else kept

  -- `readFile`: the chunks that it sends; a file that cannot be opened sends none.
  unfoldable pub read_file : {E : Type 0} → ℕ → FileKey → Opened A E → List (Chunk A)
  unfolding read_records
  read_file size key unchanged = bare_chunk key false true [] ∷ []
  read_file size key not_found = bare_chunk key true false [] ∷ []
  read_file size key (failed e) = []
  read_file size key (opened current records) =
      read_records size key records [] 0 0 ++ bare_chunk key false false current ∷ []

-- ===== src/Ingest/Writing.antt =====
-- internal/ingest/pipeline.go: the single writer of `Run`, over the chunks in the order in which they
-- arrive. `write_batch` is what `Store.WriteBatch` answers for a batch, behind those it has taken:
-- the matches written and the rows collapsed, or an error. `has_ledger` says whether there is a
-- ledger; what it is told is the list `recorded`.
use tennis_wiki.Base.{
  ℕ, ◌+◌, Bool, true, false, not, ◌&&◌, ◌||◌, List, [], ◌∷◌, ◌++◌, Option, none, some, ◌==◌,
  if◌then◌else◌, is_empty,
}
use tennis_wiki.Base.Dict.{find_or, modify, remove}
use tennis_wiki.Base.Result.{Result, ok, err}
use tennis_wiki.Base.Text.{Bytes}
use tennis_wiki.Ingest.{FileKey, file_key_eq, Chunk, RunStats, FileTally}

abbrev pub no_stats : RunStats
no_stats = record {
  files_read = 0;
  files_missing = 0;
  files_skipped = 0;
  rows_seen = 0;
  rows_written = 0;
  rows_rejected = 0;
  rows_collapsed = 0;
}

-- What `RecordFile` is given.
pub record Entry : Type 0 where
  pub key : FileKey
  pub validator : Bytes
  pub seen : ℕ
  pub written : ℕ

-- A batch that the store has taken, with the matches that it wrote and the rows it collapsed.
pub record Commit (A : Type 0) : Type 0 where
  pub key : FileKey
  pub rows : List A
  pub matches : ℕ
  pub collapsed : ℕ

-- The variables of the loop, the batches that the store has taken, and what the ledger was told.
pub record Writing (A E : Type 0) : Type 0 where
  pub stats : RunStats
  pub error : Option E
  pub tally : List (FileKey × FileTally)
  pub committed : List (Commit A)
  pub recorded : List Entry

abbrev pub new_writing : {A E : Type 0} → Writing A E
new_writing = record { stats = no_stats; error = none; tally = []; committed = []; recorded = [] }

abbrev pub no_tally : FileTally
no_tally = record { seen = 0; written = 0 }

abbrev pub is_none : {E : Type 0} → Option E → Bool
is_none none = true
is_none (some e) = false

module _ {A E : Type 0} (has_ledger : Bool)
    (write_batch : List (Commit A) → FileKey → List A → Result E (ℕ × ℕ)) where
  -- `record`
  unfoldable pub record_file : FileKey → Bytes → FileTally → List Entry → List Entry
  record_file key validator t entries =
      if not has_ledger || is_empty validator
      then entries
      else entries
        ++ record { key = key; validator = validator; seen = t.seen; written = t.written } ∷ []

  -- The counts that every chunk adds to.
  abbrev pub count_chunk : Chunk A → RunStats → RunStats
  count_chunk c s = record s {
    rows_seen = s.rows_seen + c.seen;
    rows_rejected = s.rows_rejected + c.rejected;
  }

  -- A chunk without rows closes its file.
  unfoldable pub close_file : Chunk A → Writing A E → Writing A E
  unfolding find_or remove record_file
  close_file c w = record w {
    stats = record w.stats { files_read = w.stats.files_read + 1 };
    recorded =
        if is_none w.error
        then record_file c.key c.validator (find_or c.key no_tally w.tally) w.recorded
        else w.recorded;
    tally = remove c.key w.tally;
  }

  -- What the store answers for a batch.
  unfoldable pub after_write : Chunk A → List A → Result E (ℕ × ℕ) → Writing A E → Writing A E
  unfolding modify
  after_write c rows (err e) w = record w { error = some e }
  after_write c rows (ok (matches, collapsed)) w = record w {
    stats = record w.stats {
      rows_written = w.stats.rows_written + matches;
      rows_collapsed = w.stats.rows_collapsed + collapsed;
    };
    tally = modify c.key no_tally (λ t. record t { written = t.written + matches }) w.tally;
    committed =
        w.committed
        ++ record { key = c.key; rows = rows; matches = matches; collapsed = collapsed } ∷ [];
  }

  -- The chunk of an open file, its rows counted.
  unfoldable pub take_rows : Chunk A → Option (List A) → Writing A E → Writing A E
  unfolding close_file after_write
  take_rows c none w = close_file c w
  take_rows c (some rows) w =
      if is_none w.error then after_write c rows (write_batch w.committed c.key rows) w else w

  -- The body of the loop over the chunks.
  unfoldable pub receive : Chunk A → Writing A E → Writing A E
  unfolding take_rows modify
  receive c w =
      let counted = count_chunk c w.stats in
      if c.skipped
      then record w { stats = record counted { files_skipped = counted.files_skipped + 1 } }
      else if c.missing
      then record w { stats = record counted { files_missing = counted.files_missing + 1 } }
      else take_rows c c.rows (record w {
        stats = counted;
        tally = modify c.key no_tally (λ t. record t { seen = t.seen + c.seen }) w.tally;
      })

  unfoldable pub receive_all : List (Chunk A) → Writing A E → Writing A E
  unfolding receive
  receive_all [] w = w
  receive_all (c ∷ cs) w = receive_all cs (receive c w)

-- The errors of `Run`: of the store or a reader, and that there was nothing to read.
pub data RunError (E : Type 0) : Type 0 where
  run_failed : E → RunError E
  nothing_found : RunError E

abbrev pub first_error : {E : Type 0} → Option E → List E → Option E
first_error (some e) es = some e
first_error none [] = none
first_error none (e ∷ es) = some e

abbrev pub answer : {E : Type 0} → RunStats → Option E → RunStats × Option (RunError E)
answer s (some e) = (s, some (run_failed e))
answer s none = (s, if s.files_read == 0 && s.files_skipped == 0 then some nothing_found else none)

-- The end of `Run`, behind the loop; the errors of the readers are drained into the first.
unfoldable pub conclude : {A E : Type 0} → Writing A E → List E → RunStats × Option (RunError E)
conclude w es = answer w.stats (first_error w.error es)

-- `Run`, on the chunks in the order of their arrival and the errors of the readers.
module _ {A E : Type 0} (has_ledger : Bool)
    (write_batch : List (Commit A) → FileKey → List A → Result E (ℕ × ℕ)) where
  unfoldable pub run : List (Chunk A) → List E → RunStats × Option (RunError E)
  unfolding receive_all conclude
  run arrived es = conclude (receive_all has_ledger write_batch arrived new_writing) es

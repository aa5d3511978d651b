-- ===== src/Ingest/Accounted.antt =====
-- internal/ingest/pipeline.go: the sums of a run.
use mathlib.Core.Path.{subst}
use mathlib.Core.List.Permᴰ
use tennis_wiki.Base.{
  ℕ, ◌+◌, ◌≡◌, refl, sym, ◌∙◌, Bool, List, [], ◌∷◌, map, Option, none, some, inl, inr, arith, All,
  All-append, All_perm, Bool-cases, length, if◌then◌else◌,
}
use tennis_wiki.Base.Result.{Result, ok, err}
use tennis_wiki.Ingest.{FileKey, file_key_eq, Chunk}
use tennis_wiki.Ingest.Balance.{
  chunk_rows, IsBalanced, read_file-IsBalanced, total_seen, total_seen-append, total_seen_perm,
  records_of, read_file-total,
}
use tennis_wiki.Ingest.Merge.{Merges, all_chunks, Merges-perm}
use tennis_wiki.Ingest.Reading.{Opened, read_file}
use tennis_wiki.Ingest.Writing.{
  Commit, Writing, new_writing, is_none, close_file, after_write, take_rows, receive, receive_all,
  run,
}
use tennis_wiki.Ingest.Counted.{
  conclude-none, conclude-stats, entered, receive-entered, receive_all-none, receive_all-seen,
  stuck,
}

-- What is read of the files.
abbrev pub files_of : {A E : Type 0} → ℕ → List (FileKey × Opened A E) → List (List (Chunk A))
files_of size = map (λ f. read_file size f.0 f.1)

abbrev pub total_records : {A E : Type 0} → List (FileKey × Opened A E) → ℕ
total_records [] = 0
total_records (f ∷ fs) = records_of f.1 + total_records fs

files_of-IsBalanced :
    {A E : Type 0} (size : ℕ) (files : List (FileKey × Opened A E))
    → All IsBalanced (all_chunks (files_of size files))
files_of-IsBalanced size [] = tt
files_of-IsBalanced size ((key, o) ∷ files) =
    All-append IsBalanced (read_file size key o) _ (read_file-IsBalanced size key o)
      (files_of-IsBalanced size files)

files_of-total :
    {A E : Type 0} (size : ℕ) (files : List (FileKey × Opened A E))
    → total_seen (all_chunks (files_of size files)) ≡ total_records files
files_of-total size [] = refl
files_of-total size ((key, o) ∷ files) = omega (
  arith,
  total_seen-append (read_file size key o) (all_chunks (files_of size files)),
  read_file-total size key o,
  files_of-total size files,
)

module _ {A E : Type 0} (has_ledger : Bool)
    (write_batch : List (Commit A) → FileKey → List A → Result E (ℕ × ℕ)) where
  abbrev Balances : Writing A E → Type 0
  Balances w =
      w.stats.rows_seen ≡ w.stats.rows_written + w.stats.rows_collapsed + w.stats.rows_rejected

  module _
      (all_accounted : (before : List (Commit A)) (key : FileKey) (rows : List A) (m k : ℕ)
        → write_batch before key rows ≡ ok (m, k)
        → m + k ≡ length rows) where
    -- A batch that the store answers for: no error before it, and all of its rows are counted.
    after_write-Balances :
        (c : Chunk A) (rows : List A) (answer : Result E (ℕ × ℕ)) (w : Writing A E)
        → answer ≡ write_batch w.committed c.key rows
        → (after_write has_ledger write_batch c rows answer w).error ≡ none
        → w.stats.rows_seen
          ≡ w.stats.rows_written + w.stats.rows_collapsed + w.stats.rows_rejected + length rows
        → Balances (after_write has_ledger write_batch c rows answer w)
    unfolding after_write
    after_write-Balances c rows (err e) w q h b = cc
    after_write-Balances c rows (ok (m, k)) w q h b =
        omega (arith, b, all_accounted w.committed c.key rows m k (sym q))

    take_rows-Balances :
        (c : Chunk A) (rows : Option (List A)) (w : Writing A E)
        → (take_rows has_ledger write_batch c rows w).error ≡ none
        → w.stats.rows_seen
          ≡ w.stats.rows_written
            + w.stats.rows_collapsed
            + w.stats.rows_rejected
            + length (chunk_rows rows)
        → Balances (take_rows has_ledger write_batch c rows w)
    unfolding take_rows close_file
    take_rows-Balances c none w h b = omega (arith, b)
    take_rows-Balances c (some rows) w h b = elim (Bool-cases (is_none w.error)) [
      | inl e ↦ rw e (
          after_write-Balances c rows (write_batch w.committed c.key rows) w refl
            (subst
              (λ t.
                (if t
                  then after_write has_ledger write_batch c rows
                      (write_batch w.committed c.key rows) w
                  else w).error
                ≡ none)
              e h)
            b)
      | inr e ↦ absurd (
          stuck has_ledger write_batch w.error e (
            subst
              (λ t.
                (if t
                  then after_write has_ledger write_batch c rows
                      (write_batch w.committed c.key rows) w
                  else w).error
                ≡ none)
              e h))
    ]

    receive-Balances :
        (c : Chunk A) (w : Writing A E)
        → IsBalanced c
        → (receive has_ledger write_batch c w).error ≡ none
        → Balances w
        → Balances (receive has_ledger write_batch c w)
    unfolding receive
    receive-Balances c w h n b = elim (Bool-cases c.skipped) [
      | inl e ↦ rw e (omega (arith, b, h.0, h.1 (rw e refl)))
      | inr e ↦ elim (Bool-cases c.missing) [
        | inl f ↦ rw (e, f) (omega (arith, b, h.0, h.1 (rw (e, f) refl)))
        | inr f ↦
            let same = receive-entered has_ledger write_batch c w e f in
            subst Balances (sym same) (
              take_rows-Balances c c.rows (entered has_ledger write_batch c w)
                (subst (λ v. v.error ≡ none) same n) (omega (arith, b, h.0)))
      ]
    ]

    receive_all-Balances :
        (cs : List (Chunk A)) (w : Writing A E)
        → All IsBalanced cs
        → (receive_all has_ledger write_batch cs w).error ≡ none
        → Balances w
        → Balances (receive_all has_ledger write_batch cs w)
    unfolding receive_all
    receive_all-Balances [] w h n b = b
    receive_all-Balances (c ∷ cs) w h n b =
        let next = receive has_ledger write_batch c w in
        receive_all-Balances cs next h.1 n
          (receive-Balances c w h.0 (receive_all-none has_ledger write_batch cs next n) b)

    -- A run that returns no error has seen every record of every file that was read, and each of
    -- them was written, collapsed onto another, or rejected: in whatever order the chunks of the
    -- files arrive, whatever the size of the batches, and if the store counts each row of a batch
    -- that it takes as written or as collapsed.
    pub run-accounts :
        (size : ℕ) (files : List (FileKey × Opened A E)) (arrived : List (Chunk A)) (es : List E)
        → Merges (files_of size files) arrived
        → (run has_ledger write_batch arrived es).1 ≡ none
        → ((run has_ledger write_batch arrived es).0.rows_seen ≡ total_records files)
          × ((run has_ledger write_batch arrived es).0.rows_seen
              ≡ (run has_ledger write_batch arrived es).0.rows_written
                + (run has_ledger write_batch arrived es).0.rows_collapsed
                + (run has_ledger write_batch arrived es).0.rows_rejected)
    unfolding run
    run-accounts size files arrived es m h =
        let w = receive_all has_ledger write_batch arrived new_writing in
        let same = conclude-stats has_ledger write_batch w es in
        let whole = Merges-perm m in
        rw same (
          receive_all-seen has_ledger write_batch arrived new_writing
              ∙ omega (arith, total_seen_perm whole, files_of-total size files),
          receive_all-Balances arrived new_writing
              (All_perm IsBalanced (Permᴰ.symm whole) (files_of-IsBalanced size files))
              (conclude-none has_ledger write_batch w es h) (omega arith),
        )

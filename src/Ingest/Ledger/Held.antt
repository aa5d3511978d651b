-- ===== src/Ingest/Ledger/Held.antt =====
-- internal/ingest/pipeline.go: the entries of the ledger behind a run.
use mathlib.Core.Path.{subst}
use mathlib.Core.List.Permᴰ
use tennis_wiki.Base.{
  ℕ, ◌+◌, ◌≡◌, refl, sym, ap, ◌∙◌, Bool, false, List, [], ◌∷◌, ◌++◌, some, length, All, All-mono,
  All_perm, some_injective, inl, inr, Bool-cases, arith, append_assoc, append-nil,
}
use tennis_wiki.Base.Count.{keep}
use tennis_wiki.Base.Dict.Laws.{HasDistinctKeys}
use tennis_wiki.Base.Result.{Result}
use tennis_wiki.Ingest.{FileKey, file_key_eq, Chunk}
use tennis_wiki.Ingest.Accounted.{files_of}
use tennis_wiki.Ingest.Balance.{chunk_rows, total_seen, read_file-total}
use tennis_wiki.Ingest.Ledger.{
  only, any_close, last_validator, rows_back, taken, matches_of, IsHeld, IsIdle,
}
use tennis_wiki.Ingest.Ledger.Files.{
  readable, rows_sent, rows_sent-read_records, all-IsIdle, all-IsFile, files_of-AreApart,
  only-files_of,
}
use tennis_wiki.Ingest.Ledger.Orders.{Merges-IsOrderly, Merges-only}
use tennis_wiki.Ingest.Ledger.Receive.{onto, receive_all-IsTrue, new_writing-IsTrue}
use tennis_wiki.Ingest.Ledger.Projections.{only_same, only_other}
use tennis_wiki.Ingest.Merge.{Merges, Merges-perm}
use tennis_wiki.Ingest.Reading.{
  Opened, unchanged, not_found, failed, opened, bare_chunk, read_records, read_file,
}
use tennis_wiki.Ingest.Writing.{Entry, Commit, new_writing, receive_all}

-- The entry describes what was read of the file, and the store has taken all of it.
abbrev pub IsCommitted : {A E : Type 0} → Opened A E → List (Commit A) → Entry → Type 0
IsCommitted (opened current records) committed e =
    (e.validator ≡ current)
    × ((e.seen ≡ length records)
        × ((e.written ≡ matches_of e.key committed) × (taken e.key committed ≡ readable records)))
IsCommitted _ committed e = ⊥

module _ {A E : Type 0} (has_ledger : Bool)
    (write_batch : List (Commit A) → FileKey → List A → Result E (ℕ × ℕ)) where
  abbrev laid : List (Chunk A) → List (Chunk A) → List (Chunk A)
  laid = onto has_ledger write_batch

  only-laid :
      (k : FileKey) (cs past : List (Chunk A))
      → only k (laid cs past) ≡ laid (only k cs) (only k past)
  unfolding keep
  only-laid k [] past = refl
  only-laid k (c ∷ cs) past = elim (Bool-cases (file_key_eq.same c.key k)) [
    | inl e ↦ only-laid k cs (c ∷ past) ∙ rw (only_same k c past e, e) refl
    | inr e ↦ only-laid k cs (c ∷ past) ∙ rw (only_other k c past e, e) refl
  ]

  seen-laid :
      (cs past : List (Chunk A)) → total_seen (laid cs past) ≡ total_seen past + total_seen cs
  seen-laid [] past = omega arith
  seen-laid (c ∷ cs) past = omega (arith, seen-laid cs (c ∷ past))

  rows-laid : (cs past : List (Chunk A)) → rows_back (laid cs past) ≡ rows_back past ++ rows_sent cs
  rows-laid [] past = sym (append-nil _)
  rows-laid (c ∷ cs) past =
      rows-laid cs (c ∷ past) ∙ append_assoc (rows_back past) (chunk_rows c.rows) (rows_sent cs)

  laid-last : (cs past : List (Chunk A)) (c : Chunk A) → laid (cs ++ c ∷ []) past ≡ c ∷ laid cs past
  laid-last [] past c = refl
  laid-last (d ∷ cs) past c = laid-last cs (d ∷ past) c

  rows_sent-append : (cs ds : List (Chunk A)) → rows_sent (cs ++ ds) ≡ rows_sent cs ++ rows_sent ds
  rows_sent-append [] ds = refl
  rows_sent-append (c ∷ cs) ds =
      rw (rows_sent-append cs ds)
        (sym (append_assoc (chunk_rows c.rows) (rows_sent cs) (rows_sent ds)))

  file-IsCommitted :
      (size : ℕ) (k : FileKey) (o : Opened A E) (committed : List (Commit A)) (e : Entry)
      → last_validator (laid (read_file size k o) []) ≡ some e.validator
      → e.seen ≡ total_seen (laid (read_file size k o) [])
      → e.written ≡ matches_of e.key committed
      → taken e.key committed ≡ rows_back (laid (read_file size k o) [])
      → IsCommitted o committed e
  unfolding read_file
  file-IsCommitted size k unchanged bs e v s w t = cc
  file-IsCommitted size k not_found bs e v s w t = cc
  file-IsCommitted size k (failed x) bs e v s w t = cc
  file-IsCommitted size k (opened current rs) bs e v s w t =
      let batches = read_records size k rs [] 0 0 in
      let close : Chunk A = bare_chunk k false false current in
      (
        sym (
            some_injective current e.validator
              (ap last_validator (sym (laid-last batches [] close)) ∙ v)),
        (
          s
              ∙ seen-laid (batches ++ close ∷ []) []
              ∙ omega (arith, read_file-total {E = E} size k (opened current rs)),
          (
            w,
            t
                ∙ rows-laid (batches ++ close ∷ []) []
                ∙ rows_sent-append batches (close ∷ [])
                ∙ append-nil _
                ∙ rows_sent-read_records size k rs [] 0 0,
          ),
        ),
      )

  open_start :
      (fs : List (List (Chunk A)))
      → All (All (λ (c : Chunk A). any_close (only {A = A} c.key []) ≡ false)) fs
  unfolding keep
  open_start [] = tt
  open_start (f ∷ fs) = (each f, open_start fs)
    where
      each :
          (cs : List (Chunk A))
          → All (λ (c : Chunk A). any_close (only {A = A} c.key []) ≡ false) cs
      each [] = tt
      each (c ∷ cs) = (refl, each cs)

  entry-IsCommitted :
      (size : ℕ) (k : FileKey) (o : Opened A E) (arrived : List (Chunk A))
      (committed : List (Commit A)) (e : Entry)
      → only k arrived ≡ read_file size k o
      → e.key ≡ k
      → IsHeld (laid arrived []) committed e
      → IsCommitted o committed e
  unfolding keep
  entry-IsCommitted size k o arrived committed e q same h =
      let whole : only e.key (laid arrived []) ≡ laid (read_file size k o) [] =
        ap (λ j. only j (laid arrived [])) same ∙ only-laid k arrived [] ∙ ap (λ l. laid l []) q in
      file-IsCommitted size k o committed e
        (subst (λ l. last_validator l ≡ some e.validator) whole h.0)
        (subst (λ l. e.seen ≡ total_seen l) whole h.1.0) h.1.1.0
        (subst (λ l. taken e.key committed ≡ rows_back l) whole h.1.1.1)

  -- Whatever is in the ledger behind a run was committed: an entry for a file that was read has the
  -- file's validator and the number of its records, and the batches that the store has taken of the
  -- file, one after another, are all the rows of it that can be parsed, with the matches written as
  -- the entry says; no entry is for a file that is unchanged, missing or not readable. In whatever
  -- order the chunks of the files arrive, whatever the size of the batches and whether or not the
  -- store fails in between, if no two files have the same key.
  pub receive_all-IsCommitted :
      (size : ℕ) (files : List (FileKey × Opened A E)) (arrived : List (Chunk A))
      → HasDistinctKeys files
      → Merges (files_of size files) arrived
      → All
          (λ f.
            All
              (λ e.
                e.key ≡ f.0
                → IsCommitted f.1
                    (receive_all has_ledger write_batch arrived new_writing).committed
                    e)
              (receive_all has_ledger write_batch arrived new_writing).recorded)
          files
  receive_all-IsCommitted size files arrived d m =
      let apart = files_of-AreApart size files d in
      let idle : All IsIdle arrived =
        All_perm IsIdle (Permᴰ.symm (Merges-perm m)) (all-IsIdle size files) in
      let orderly =
        Merges-IsOrderly [] m apart (all-IsFile size files) (open_start (files_of size files)) in
      let held =
        (receive_all-IsTrue has_ledger write_batch arrived [] new_writing idle orderly
          (new_writing-IsTrue has_ledger write_batch)).1 in
      All-mono
        (λ f q.
          All-mono
            (λ e h same.
              entry-IsCommitted size f.0 f.1 arrived _ e (Merges-only f.0 m apart ∙ q) same h)
            (receive_all has_ledger write_batch arrived new_writing).recorded held)
        files (only-files_of size files d)

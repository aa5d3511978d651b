-- ===== src/Ingest/Ledger/Files.antt =====
-- internal/ingest/pipeline.go: the chunks that `readFile` sends.
use mathlib.Core.Path.{subst}
use tennis_wiki.Base.{
  ℕ, ◌+◌, ◌≡◌, ◌≢◌, refl, sym, ap, ◌∙◌, true, false, not, ◌||◌, List, [], ◌∷◌, ◌++◌, Option, none,
  some, is_empty, length, ltb, leb, All, All-append, All-mono, inl, inr, Bool-cases, arith,
  append_assoc, append-nil,
}
use tennis_wiki.Base.Count.{keep}
use tennis_wiki.Base.Dict.Laws.{HasDistinctKeys}
use tennis_wiki.Base.Pairs.{Pairs}
use tennis_wiki.Ingest.{FileKey, file_key_eq, Chunk}
use tennis_wiki.Ingest.Accounted.{files_of}
use tennis_wiki.Ingest.Balance.{chunk_rows}
use tennis_wiki.Ingest.Ledger.{only, closes, IsIdle}
use tennis_wiki.Ingest.Ledger.Orders.{AreApart, IsFile, only-append, only-apart, only-apart_all}
use tennis_wiki.Ingest.Ledger.Projections.{only_same}
use tennis_wiki.Ingest.Merge.{all_chunks}
use tennis_wiki.Ingest.Reading.{
  Opened, unchanged, not_found, failed, opened, read_records, read_file,
}

-- The rows of a file that can be parsed.
abbrev pub readable : {A : Type 0} → List (Option A) → List A
readable [] = []
readable (none ∷ rs) = readable rs
readable (some r ∷ rs) = r ∷ readable rs

-- The rows of the chunks.
abbrev pub rows_sent : {A : Type 0} → List (Chunk A) → List A
rows_sent [] = []
rows_sent (c ∷ cs) = chunk_rows c.rows ++ rows_sent cs

-- A chunk of a batch of the file.
abbrev IsBatch : {A : Type 0} → FileKey → Chunk A → Type 0
IsBatch k c = (c.key ≡ k) × ((closes c ≡ false) × IsIdle c)

module _ {A : Type 0} (size : ℕ) (key : FileKey) where
  read_records-IsBatch :
      (rs : List (Option A)) (batch : List A) (seen rejected : ℕ)
      → All (IsBatch key) (read_records size key rs batch seen rejected)
  unfolding read_records
  read_records-IsBatch [] batch seen rejected =
      elim (Bool-cases (not (is_empty batch) || ltb 0 seen)) [
        | inl e ↦ rw e ((refl, (refl, λ q. absurd (ground (arith, q)))), tt)
        | inr e ↦ rw e tt
      ]
  read_records-IsBatch (none ∷ rs) batch seen rejected =
      read_records-IsBatch rs batch (seen + 1) (rejected + 1)
  read_records-IsBatch (some r ∷ rs) batch seen rejected =
      elim (Bool-cases (leb size (length (batch ++ r ∷ [])))) [
        | inl e ↦
            rw e ((refl, (refl, λ q. absurd (ground (arith, q)))), read_records-IsBatch rs [] 0 0)
        | inr e ↦ rw e (read_records-IsBatch rs (batch ++ r ∷ []) (seen + 1) rejected)
      ]

  pub rows_sent-read_records :
      (rs : List (Option A)) (batch : List A) (seen rejected : ℕ)
      → rows_sent (read_records size key rs batch seen rejected) ≡ batch ++ readable rs
  unfolding read_records
  rows_sent-read_records [] [] seen rejected = elim (Bool-cases (ltb 0 seen)) [
    | inl e ↦ rw e refl
    | inr e ↦ rw e refl
  ]
  rows_sent-read_records [] (x ∷ batch) seen rejected = refl
  rows_sent-read_records (none ∷ rs) batch seen rejected =
      rows_sent-read_records rs batch (seen + 1) (rejected + 1)
  rows_sent-read_records (some r ∷ rs) batch seen rejected =
      elim (Bool-cases (leb size (length (batch ++ r ∷ [])))) [
        | inl e ↦ rw e (
            ap (λ l. (batch ++ r ∷ []) ++ l) (rows_sent-read_records rs [] 0 0)
            ∙ append_assoc batch (r ∷ []) (readable rs))
        | inr e ↦ rw e (
            rows_sent-read_records rs (batch ++ r ∷ []) (seen + 1) rejected
            ∙ append_assoc batch (r ∷ []) (readable rs))
      ]

  pub read_file-keys : {E : Type 0} (o : Opened A E) → All (λ c. c.key ≡ key) (read_file size key o)
  unfolding read_file
  read_file-keys unchanged = (refl, tt)
  read_file-keys not_found = (refl, tt)
  read_file-keys (failed e) = tt
  read_file-keys (opened current rs) =
      All-append _ (read_records size key rs [] 0 0) _
        (All-mono (λ c h. h.0) (read_records size key rs [] 0 0) (read_records-IsBatch rs [] 0 0))
        (refl, tt)

  pub read_file-IsIdle : {E : Type 0} (o : Opened A E) → All IsIdle (read_file size key o)
  unfolding read_file
  read_file-IsIdle unchanged = ((λ q. (refl, refl)), tt)
  read_file-IsIdle not_found = ((λ q. (refl, refl)), tt)
  read_file-IsIdle (failed e) = tt
  read_file-IsIdle (opened current rs) =
      All-append IsIdle (read_records size key rs [] 0 0) _
        (All-mono (λ c h. h.1.1) (read_records size key rs [] 0 0) (read_records-IsBatch rs [] 0 0))
        ((λ q. (refl, refl)), tt)

  batches-IsFile :
      (cs : List (Chunk A)) (d : Chunk A) → All (λ c. closes c ≡ false) cs → IsFile (cs ++ d ∷ [])
  batches-IsFile [] d h = (tt, tt)
  batches-IsFile (c ∷ cs) d h = (every (cs ++ d ∷ []) h.0, batches-IsFile cs d h.1)
    where
      every : (ds : List (Chunk A)) → closes c ≡ false → All (λ d. closes c ≡ false) ds
      every [] q = tt
      every (x ∷ ds) q = (q, every ds q)

  pub read_file-IsFile : {E : Type 0} (o : Opened A E) → IsFile (read_file size key o)
  unfolding read_file
  read_file-IsFile unchanged = (tt, tt)
  read_file-IsFile not_found = (tt, tt)
  read_file-IsFile (failed e) = tt
  read_file-IsFile (opened current rs) =
      batches-IsFile (read_records size key rs [] 0 0) _
        (All-mono (λ c h. h.1.0) (read_records size key rs [] 0 0) (read_records-IsBatch rs [] 0 0))

only-all :
    {A : Type 0} (k : FileKey) (cs : List (Chunk A)) → All (λ c. c.key ≡ k) cs → only k cs ≡ cs
unfolding keep
only-all k [] h = refl
only-all k (c ∷ cs) h = only_same k c cs (same_of h.0) ∙ ap (λ l. c ∷ l) (only-all k cs h.1)
  where
    same_of : c.key ≡ k → file_key_eq.same c.key k ≡ true
    same_of e = subst (λ j. file_key_eq.same c.key j ≡ true) e (file_key_eq.same_refl c.key)

-- The files of a run, of which no two have the same key.
module _ {A E : Type 0} (size : ℕ) where
  pub all-IsIdle :
      (files : List (FileKey × Opened A E)) → All IsIdle (all_chunks (files_of size files))
  all-IsIdle [] = tt
  all-IsIdle ((k, o) ∷ files) =
      All-append IsIdle (read_file size k o) (all_chunks (files_of size files))
        (read_file-IsIdle size k o) (all-IsIdle files)

  pub all-IsFile : (files : List (FileKey × Opened A E)) → All IsFile (files_of size files)
  all-IsFile [] = tt
  all-IsFile ((k, o) ∷ files) = (read_file-IsFile size k o, all-IsFile files)

  -- A key that is not that of a file.
  apart-file : (j k : FileKey) (o : Opened A E) → j ≢ k → All (λ d. j ≢ d.key) (read_file size k o)
  apart-file j k o n = All-mono (λ d e q. n (q ∙ e)) (read_file size k o) (read_file-keys size k o)

  apart-files :
      (j : FileKey) (files : List (FileKey × Opened A E))
      → All (λ f. j ≢ f.0) files
      → All (All (λ d. j ≢ d.key)) (files_of size files)
  apart-files j [] h = tt
  apart-files j ((k, o) ∷ files) h = (apart-file j k o h.0, apart-files j files h.1)

  pub files_of-AreApart :
      (files : List (FileKey × Opened A E))
      → HasDistinctKeys files
      → Pairs AreApart (files_of size files)
  files_of-AreApart [] h = tt
  files_of-AreApart ((k, o) ∷ files) h = (apart_each files h.0, files_of-AreApart files h.1)
    where
      apart_each :
          (fs : List (FileKey × Opened A E))
          → All (λ f. k ≢ f.0) fs
          → All (AreApart (read_file size k o)) (files_of size fs)
      apart_each [] q = tt
      apart_each ((j, p) ∷ fs) q = (
        All-mono
            (λ c e. All-mono (λ d n r. n (sym e ∙ r)) (read_file size j p) (apart-file k j p q.0))
            (read_file size k o) (read_file-keys size k o),
        apart_each fs q.1,
      )

  -- The chunks of a file's key are the chunks of the file.
  pub only-files_of :
      (files : List (FileKey × Opened A E))
      → HasDistinctKeys files
      → All (λ f. only f.0 (all_chunks (files_of size files)) ≡ read_file size f.0 f.1) files
  only-files_of [] h = tt
  only-files_of ((k, o) ∷ files) h = (
    only-append k (read_file size k o) (all_chunks (files_of size files))
        ∙ rw
            (
              only-all k (read_file size k o) (read_file-keys size k o),
              only-apart_all k (files_of size files) (apart-files k files h.0),
            )
            (append-nil _),
    later files h.0 (only-files_of files h.1),
  )
    where
      later :
          (fs : List (FileKey × Opened A E))
          → All (λ f. k ≢ f.0) fs
          → All (λ f. only f.0 (all_chunks (files_of size files)) ≡ read_file size f.0 f.1) fs
          → All
              (λ f.
                only f.0 (read_file size k o ++ all_chunks (files_of size files))
                ≡ read_file size f.0 f.1)
              fs
      later [] q r = tt
      later ((j, p) ∷ fs) q r = (
        only-append j (read_file size k o) (all_chunks (files_of size files))
            ∙ ap (λ l. l ++ only j (all_chunks (files_of size files)))
                (only-apart j (read_file size k o) (apart-file j k o (λ e. q.0 (sym e))))
            ∙ r.0,
        later fs q.1 r.1,
      )

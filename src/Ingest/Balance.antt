-- ===== src/Ingest/Balance.antt =====
-- internal/ingest/pipeline.go: what a run counts.
use mathlib.Core.List.{Permᴰ}
use tennis_wiki.Base.{
  ℕ, ◌+◌, ◌≡◌, refl, ◌∙◌, true, false, not, ◌||◌, List, [], ◌∷◌, ◌++◌, Option, none, some, inl, inr,
  ltb, leb, arith, All, All-append, Bool-cases, is_empty, length, length-append,
}
use tennis_wiki.Ingest.{FileKey, Chunk}
use tennis_wiki.Ingest.Reading.{
  Opened, unchanged, not_found, failed, opened, bare_chunk, read_records, read_file,
}

-- The rows of a chunk.
abbrev pub chunk_rows : {A : Type 0} → Option (List A) → List A
chunk_rows none = []
chunk_rows (some rows) = rows

-- The rows seen are those of the chunk and those rejected; what is not read has none.
abbrev pub IsBalanced : {A : Type 0} → Chunk A → Type 0
IsBalanced c =
    (c.seen ≡ length (chunk_rows c.rows) + c.rejected)
    × (c.skipped || c.missing ≡ true → length (chunk_rows c.rows) ≡ 0)

read_records-IsBalanced :
    {A : Type 0} (size : ℕ) (key : FileKey) (rs : List (Option A)) (batch : List A)
    (seen rejected : ℕ)
    → seen ≡ length batch + rejected
    → All IsBalanced (read_records size key rs batch seen rejected)
unfolding read_records
read_records-IsBalanced size key [] batch seen rejected h =
    elim (Bool-cases (not (is_empty batch) || ltb 0 seen)) [
      | inl e ↦ rw e ((h, λ q. absurd (ground (arith, q))), tt)
      | inr e ↦ rw e tt
    ]
read_records-IsBalanced size key (none ∷ rs) batch seen rejected h =
    read_records-IsBalanced size key rs batch (seen + 1) (rejected + 1) (omega (arith, h))
read_records-IsBalanced size key (some r ∷ rs) batch seen rejected h =
    let more : seen + 1 ≡ length (batch ++ r ∷ []) + rejected =
      omega (arith, h, length-append batch (r ∷ [])) in
    elim (Bool-cases (leb size (length (batch ++ r ∷ [])))) [
      | inl e ↦ rw e (
        (more, λ q. absurd (ground (arith, q))),
        read_records-IsBalanced size key rs [] 0 0 (omega arith),
      )
      | inr e ↦
          rw e (read_records-IsBalanced size key rs (batch ++ r ∷ []) (seen + 1) rejected more)
    ]

pub read_file-IsBalanced :
    {A E : Type 0} (size : ℕ) (key : FileKey) (o : Opened A E)
    → All IsBalanced (read_file size key o)
unfolding read_file
read_file-IsBalanced size key unchanged = ((omega arith, λ q. refl), tt)
read_file-IsBalanced size key not_found = ((omega arith, λ q. refl), tt)
read_file-IsBalanced size key (failed e) = tt
read_file-IsBalanced size key (opened current records) =
    All-append IsBalanced (read_records size key records [] 0 0) _
      (read_records-IsBalanced size key records [] 0 0 (omega arith)) ((omega arith, λ q. refl), tt)

-- The records seen, and those of a file.
abbrev pub total_seen : {A : Type 0} → List (Chunk A) → ℕ
total_seen [] = 0
total_seen (c ∷ cs) = c.seen + total_seen cs

abbrev pub records_of : {A E : Type 0} → Opened A E → ℕ
records_of (opened current records) = length records
records_of _ = 0

pub total_seen-append :
    {A : Type 0} (cs ds : List (Chunk A)) → total_seen (cs ++ ds) ≡ total_seen cs + total_seen ds
total_seen-append [] ds = omega arith
total_seen-append (c ∷ cs) ds = omega (arith, total_seen-append cs ds)

pub total_seen_perm :
    {A : Type 0} {cs ds : List (Chunk A)} → Permᴰ cs ds → total_seen cs ≡ total_seen ds
total_seen_perm Permᴰ.nil = refl
total_seen_perm (Permᴰ.cons e p) = rw (e, total_seen_perm p) refl
total_seen_perm (Permᴰ.swap e f) = rw (e, f) (omega arith)
total_seen_perm (Permᴰ.trans p q) = total_seen_perm p ∙ total_seen_perm q

read_records-total :
    {A : Type 0} (size : ℕ) (key : FileKey) (rs : List (Option A)) (batch : List A)
    (seen rejected : ℕ)
    → total_seen (read_records size key rs batch seen rejected) ≡ seen + length rs
unfolding read_records
read_records-total size key [] batch seen rejected = ground arith
read_records-total size key (none ∷ rs) batch seen rejected =
    read_records-total size key rs batch (seen + 1) (rejected + 1) ∙ omega arith
read_records-total size key (some r ∷ rs) batch seen rejected =
    elim (Bool-cases (leb size (length (batch ++ r ∷ [])))) [
      | inl e ↦ rw e (omega (arith, read_records-total size key rs [] 0 0))
      | inr e ↦
          rw e (read_records-total size key rs (batch ++ r ∷ []) (seen + 1) rejected ∙ omega arith)
    ]

pub read_file-total :
    {A E : Type 0} (size : ℕ) (key : FileKey) (o : Opened A E)
    → total_seen (read_file size key o) ≡ records_of o
unfolding read_file
read_file-total size key unchanged = omega arith
read_file-total size key not_found = omega arith
read_file-total size key (failed e) = omega arith
read_file-total size key (opened current records) = omega (
  arith,
  total_seen-append (read_records size key records [] 0 0)
      (bare_chunk key false false current ∷ []),
  read_records-total size key records [] 0 0,
)

-- ===== src/Ingest/Ledger/Projections.antt =====
-- internal/ingest/pipeline.go: the chunks and the batches of one file, when one more arrives.
use tennis_wiki.Base.{
  ◌+◌, ◌≡◌, refl, true, false, List, [], ◌∷◌, ◌++◌, inl, inr, Bool-cases, arith, append_assoc,
  append-nil,
}
use tennis_wiki.Base.Count.{keep}
use tennis_wiki.Ingest.{FileKey, file_key_eq, Chunk}
use tennis_wiki.Ingest.Ledger.{only, taken, matches_of}
use tennis_wiki.Ingest.Writing.{Commit}

pub only_same :
    {A : Type 0} (k : FileKey) (c : Chunk A) (past : List (Chunk A))
    → file_key_eq.same c.key k ≡ true
    → only k (c ∷ past) ≡ c ∷ only k past
unfolding keep
only_same k c past e = rw e refl

pub only_other :
    {A : Type 0} (k : FileKey) (c : Chunk A) (past : List (Chunk A))
    → file_key_eq.same c.key k ≡ false
    → only k (c ∷ past) ≡ only k past
unfolding keep
only_other k c past e = rw e refl

-- The batch of one file more.
pub taken_same :
    {A : Type 0} (k : FileKey) (bs : List (Commit A)) (b : Commit A)
    → file_key_eq.same b.key k ≡ true
    → taken k (bs ++ b ∷ []) ≡ taken k bs ++ b.rows
unfolding taken
taken_same k [] b e = rw e (append-nil b.rows)
taken_same k (x ∷ bs) b e = elim (Bool-cases (file_key_eq.same x.key k)) [
  | inl q ↦ rw (q, taken_same k bs b e, append_assoc) refl
  | inr q ↦ rw (q, taken_same k bs b e) refl
]

pub taken_other :
    {A : Type 0} (k : FileKey) (bs : List (Commit A)) (b : Commit A)
    → file_key_eq.same b.key k ≡ false
    → taken k (bs ++ b ∷ []) ≡ taken k bs
unfolding taken
taken_other k [] b e = rw e refl
taken_other k (x ∷ bs) b e = rw (taken_other k bs b e) refl

pub matches_of_same :
    {A : Type 0} (k : FileKey) (bs : List (Commit A)) (b : Commit A)
    → file_key_eq.same b.key k ≡ true
    → matches_of k (bs ++ b ∷ []) ≡ matches_of k bs + b.matches
unfolding matches_of
matches_of_same k [] b e = rw e (omega arith)
matches_of_same k (x ∷ bs) b e = elim (Bool-cases (file_key_eq.same x.key k)) [
  | inl q ↦ rw q (omega (arith, matches_of_same k bs b e))
  | inr q ↦ rw q (matches_of_same k bs b e)
]

pub matches_of_other :
    {A : Type 0} (k : FileKey) (bs : List (Commit A)) (b : Commit A)
    → file_key_eq.same b.key k ≡ false
    → matches_of k (bs ++ b ∷ []) ≡ matches_of k bs
unfolding matches_of
matches_of_other k [] b e = rw e refl
matches_of_other k (x ∷ bs) b e = rw (matches_of_other k bs b e) refl

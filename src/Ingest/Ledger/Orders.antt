-- ===== src/Ingest/Ledger/Orders.antt =====
-- internal/ingest/pipeline.go: the chunks of one file among those of all, in any order of arrival.
use mathlib.Core.Path.{subst}
use tennis_wiki.Base.{
  ◌≡◌, ◌≢◌, refl, sym, ap, ◌∙◌, false, List, [], ◌∷◌, ◌++◌, All, All-append, All_left, All_right,
  All-mono, inl, inr, Bool-cases,
}
use tennis_wiki.Base.Count.{keep}
use tennis_wiki.Base.Pairs.{Pairs}
use tennis_wiki.Ingest.{FileKey, file_key_eq, Chunk}
use tennis_wiki.Ingest.Ledger.{only, closes, any_close, IsOrderly}
use tennis_wiki.Ingest.Ledger.Projections.{only_same, only_other}
use tennis_wiki.Ingest.Merge.{Merges, all_chunks, all_chunks-append, all_chunks-empty}

-- Chunks of two files have different keys.
abbrev pub AreApart : {A : Type 0} → List (Chunk A) → List (Chunk A) → Type 0
AreApart f g = All (λ c. All (λ d. c.key ≢ d.key) g) f

-- Only the last chunk of a file closes it.
abbrev pub IsFile : {A : Type 0} → List (Chunk A) → Type 0
IsFile = Pairs (λ c d. closes c ≡ false)

-- No chunk of the list is of a file that is closed.
abbrev IsOpen : {A : Type 0} → List (Chunk A) → List (Chunk A) → Type 0
IsOpen past = All (λ c. any_close (only c.key past) ≡ false)

any_close_other :
    {A : Type 0} (k : FileKey) (c : Chunk A) (past : List (Chunk A))
    → c.key ≢ k
    → any_close (only k past) ≡ false
    → any_close (only k (c ∷ past)) ≡ false
unfolding keep
any_close_other k c past n h = elim (Bool-cases (file_key_eq.same c.key k)) [
  | inl e ↦ absurd (n (file_key_eq.same-true c.key k e))
  | inr e ↦ rw e h
]

any_close_open :
    {A : Type 0} (k : FileKey) (c : Chunk A) (past : List (Chunk A))
    → closes c ≡ false
    → any_close (only k past) ≡ false
    → any_close (only k (c ∷ past)) ≡ false
unfolding keep
any_close_open k c past n h = elim (Bool-cases (file_key_eq.same c.key k)) [
  | inl e ↦ rw (e, n) h
  | inr e ↦ rw e h
]

IsOpen-others :
    {A : Type 0} (c : Chunk A) (past : List (Chunk A)) (fs : List (List (Chunk A)))
    → All (All (λ d. c.key ≢ d.key)) fs
    → All (IsOpen past) fs
    → All (IsOpen (c ∷ past)) fs
IsOpen-others c past [] n h = tt
IsOpen-others c past (f ∷ fs) n h = (go f n.0 h.0, IsOpen-others c past fs n.1 h.1)
  where
    go : (ds : List (Chunk _)) → All (λ d. c.key ≢ d.key) ds → IsOpen past ds → IsOpen (c ∷ past) ds
    go [] p q = tt
    go (d ∷ ds) p q = (any_close_other d.key c past p.0 q.0, go ds p.1 q.1)

IsOpen-rest :
    {A : Type 0} (c : Chunk A) (past cs : List (Chunk A))
    → All (λ d. closes c ≡ false) cs
    → IsOpen past cs
    → IsOpen (c ∷ past) cs
IsOpen-rest c past [] n h = tt
IsOpen-rest c past (d ∷ cs) n h =
    (any_close_open d.key c past n.0 h.0, IsOpen-rest c past cs n.1 h.1)

-- The keys of the chunk's file are not those of the files before and after.
apart_of :
    {A : Type 0} (before : List (List (Chunk A))) (c : Chunk A) (cs : List (Chunk A))
    (after : List (List (Chunk A)))
    → Pairs AreApart (before ++ (c ∷ cs) ∷ after)
    → All (All (λ d. c.key ≢ d.key)) before
      × (All (All (λ d. c.key ≢ d.key)) after × Pairs AreApart (before ++ cs ∷ after))
apart_of [] c cs after h =
    (tt, (All-mono (λ g q. q.0) after h.0, (All-mono (λ g q. q.1) after h.0, h.1)))
apart_of (f ∷ before) c cs after h =
    let (left, (right, rest)) = apart_of before c cs after h.1 in
    let here = All_right (AreApart f) before ((c ∷ cs) ∷ after) h.0 in
    (
      (All-mono (λ e q x. q.0 (sym x)) f here.0, left),
      (
        right,
        (
          All-append (AreApart f) before (cs ∷ after)
              (All_left (AreApart f) before ((c ∷ cs) ∷ after) h.0)
              (All-mono (λ e q. q.1) f here.0, here.1),
          rest,
        ),
      ),
    )

-- In whatever order the chunks arrive, none of a file comes after the one that closes it.
pub Merges-IsOrderly :
    {A : Type 0} {files : List (List (Chunk A))} {out : List (Chunk A)} (past : List (Chunk A))
    → Merges files out
    → Pairs AreApart files
    → All IsFile files
    → All (IsOpen past) files
    → IsOrderly past out
Merges-IsOrderly past (Merges.done h) a f o = tt
Merges-IsOrderly past (Merges.step before c cs after m) a f o =
    let (left, (right, rest)) = apart_of before c cs after a in
    let here = All_right (IsOpen past) before ((c ∷ cs) ∷ after) o in
    let file = All_right IsFile before ((c ∷ cs) ∷ after) f in
    (
      here.0.0,
      Merges-IsOrderly (c ∷ past) m rest
          (All-append IsFile before (cs ∷ after) (All_left IsFile before ((c ∷ cs) ∷ after) f)
            (file.0.1, file.1))
          (All-append (IsOpen (c ∷ past)) before (cs ∷ after)
            (IsOpen-others c past before left (All_left (IsOpen past) before ((c ∷ cs) ∷ after) o))
            (IsOpen-rest c past cs file.0.0 here.0.1, IsOpen-others c past after right here.1)),
    )

pub only-append :
    {A : Type 0} (k : FileKey) (cs ds : List (Chunk A)) → only k (cs ++ ds) ≡ only k cs ++ only k ds
unfolding keep
only-append k [] ds = refl
only-append k (c ∷ cs) ds = elim (Bool-cases (file_key_eq.same c.key k)) [
  | inl e ↦ rw (e, only-append k cs ds) refl
  | inr e ↦ rw (e, only-append k cs ds) refl
]

-- A file whose keys differ from a key.
pub only-apart :
    {A : Type 0} (k : FileKey) (ds : List (Chunk A)) → All (λ d. k ≢ d.key) ds → only k ds ≡ []
unfolding keep
only-apart k [] h = refl
only-apart k (d ∷ ds) h = elim (Bool-cases (file_key_eq.same d.key k)) [
  | inl e ↦ absurd (h.0 (sym (file_key_eq.same-true d.key k e)))
  | inr e ↦ rw (e, only-apart k ds h.1) refl
]

pub only-apart_all :
    {A : Type 0} (k : FileKey) (fs : List (List (Chunk A)))
    → All (All (λ d. k ≢ d.key)) fs
    → only k (all_chunks fs) ≡ []
unfolding keep
only-apart_all k [] h = refl
only-apart_all k (f ∷ fs) h =
    only-append k f (all_chunks fs) ∙ rw (only-apart k f h.0, only-apart_all k fs h.1) refl

only-split :
    {A : Type 0} (k : FileKey) (before : List (List (Chunk A))) (f : List (Chunk A))
    (after : List (List (Chunk A)))
    → only k (all_chunks (before ++ f ∷ after))
      ≡ only k (all_chunks before) ++ only k (f ++ all_chunks after)
only-split k before f after =
    ap (only k) (all_chunks-append before (f ∷ after))
    ∙ only-append k (all_chunks before) (f ++ all_chunks after)

-- The chunks of one key arrive in the order of their file.
pub Merges-only :
    {A : Type 0} {files : List (List (Chunk A))} {out : List (Chunk A)} (k : FileKey)
    → Merges files out
    → Pairs AreApart files
    → only k out ≡ only k (all_chunks files)
Merges-only {files} k (Merges.done h) a = ap (only k) (sym (all_chunks-empty files h))
Merges-only k (Merges.step before c cs after {out} m) a =
    let (left, (right, rest)) = apart_of before c cs after a in
    let later = Merges-only k m rest ∙ only-split k before cs after in
    elim (Bool-cases (file_key_eq.same c.key k)) [
      | inr e ↦
          only_other k c out e
          ∙ later
          ∙ ap (λ l. only k (all_chunks before) ++ l)
              (sym (only_other k c (cs ++ all_chunks after) e))
          ∙ sym (only-split k before (c ∷ cs) after)
      | inl e ↦
          let none_before : only k (all_chunks before) ≡ [] = only-apart_all k before (
            subst (λ j. All (All (λ d. j ≢ d.key)) before) (file_key_eq.same-true c.key k e)
              left) in
          only_same k c out e
          ∙ ap (λ l. c ∷ l) (later ∙ ap (λ l. l ++ only k (cs ++ all_chunks after)) none_before)
          ∙ sym (only_same k c (cs ++ all_chunks after) e)
          ∙ ap (λ l. l ++ only k ((c ∷ cs) ++ all_chunks after)) (sym none_before)
          ∙ sym (only-split k before (c ∷ cs) after)
    ]

-- ===== src/Ingest/Merge.antt =====
-- internal/ingest/pipeline.go: the orders in which the chunks of files that are read at once may
-- arrive. The chunks of one file arrive in their order, since one reader sends them.
use mathlib.Core.List.{Permᴰ}
use mathlib.Core.List.Permᴰ
use tennis_wiki.Base.{◌≡◌, refl, List, [], ◌∷◌, ◌++◌, append_assoc, All}
use tennis_wiki.Base.Gather.{gather}

-- At each step some file's next chunk arrives.
pub data Merges {A : Type 0} : List (List A) → List A → Type 0 where
  done : {files : List (List A)} → All (λ f. f ≡ []) files → Merges files []
  step :
      (before : List (List A)) (c : A) (cs : List A) (after : List (List A)) {out : List A}
      → Merges (before ++ cs ∷ after) out
      → Merges (before ++ (c ∷ cs) ∷ after) (c ∷ out)

abbrev pub all_chunks : {A : Type 0} → List (List A) → List A
all_chunks = gather (λ f. f)

pub all_chunks-append :
    {A : Type 0} (fs gs : List (List A)) → all_chunks (fs ++ gs) ≡ all_chunks fs ++ all_chunks gs
all_chunks-append [] gs = refl
all_chunks-append (f ∷ fs) gs = rw (all_chunks-append fs gs, append_assoc) refl

pub all_chunks-empty : {A : Type 0} (fs : List (List A)) → All (λ f. f ≡ []) fs → all_chunks fs ≡ []
all_chunks-empty [] h = refl
all_chunks-empty (f ∷ fs) h = rw h.0 (all_chunks-empty fs h.1)

-- Every chunk of every file arrives, and no other.
pub Merges-perm :
    {A : Type 0} {files : List (List A)} {out : List A}
    → Merges files out
    → Permᴰ out (all_chunks files)
Merges-perm {files} (done h) = rw (all_chunks-empty files h) Permᴰ.nil
Merges-perm (step before c cs after m) = rw (all_chunks-append before ((c ∷ cs) ∷ after)) (
    Permᴰ.trans (Permᴰ.cons refl (rw (← all_chunks-append before (cs ∷ after)) (Merges-perm m)))
      (Permᴰ.symm (Permᴰ.middle c (all_chunks before) (cs ++ all_chunks after))))

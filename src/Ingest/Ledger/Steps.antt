-- ===== src/Ingest/Ledger/Steps.antt =====
-- internal/ingest/pipeline.go: one chunk, against what the ledger and the store hold.
use mathlib.Core.Path.{subst}
use tennis_wiki.Base.{
  ℕ, ◌+◌, ◌≡◌, refl, sym, ap, ◌∙◌, Bool, true, false, ◌||◌, List, [], ◌∷◌, ◌++◌, none, some,
  if◌then◌else◌, All, All-mono, inl, inr, Bool-cases, arith, append-nil,
}
use tennis_wiki.Base.Dict.{find_or, modify, remove}
use tennis_wiki.Base.Dict.Laws.{find_or-modify, find_or-modify_other, find_or-remove_other}
use tennis_wiki.Base.Text.{Bytes}
use tennis_wiki.Ingest.{file_key_eq, Chunk, FileTally}
use tennis_wiki.Ingest.Ledger.{
  only, closes, any_close, last_validator, matches_of, IsHeld, IsCurrent,
}
use tennis_wiki.Ingest.Writing.{Entry, Commit, Writing, no_tally}
use tennis_wiki.Ingest.Ledger.Projections.{
  only_same, only_other, taken_same, taken_other, matches_of_same, matches_of_other,
}

-- An entry stays true when a chunk of another file arrives.
IsHeld-other :
    {A : Type 0} (c : Chunk A) (past : List (Chunk A)) (bs : List (Commit A)) (e : Entry)
    → file_key_eq.same c.key e.key ≡ false
    → IsHeld past bs e
    → IsHeld (c ∷ past) bs e
IsHeld-other c past bs e o h = rw (only_other e.key c past o) h

closed_of :
    {A : Type 0} (cs : List (Chunk A)) (v : Bytes)
    → last_validator cs ≡ some v
    → any_close cs ≡ true
closed_of [] v h = absurd cc
closed_of (c ∷ cs) v h = elim (Bool-cases (closes c)) [
  | inl e ↦ rw e refl
  | inr e ↦ absurd (wrong (subst (λ t. (if t then some c.validator else none) ≡ some v) e h))
]
  where
    wrong : none ≡ some v → ⊥
    wrong q = cc

-- The file of an entry is not that of a chunk that may still arrive.
entry-other :
    {A : Type 0} (c : Chunk A) (past : List (Chunk A)) (bs : List (Commit A)) (e : Entry)
    → any_close (only c.key past) ≡ false
    → IsHeld past bs e
    → file_key_eq.same c.key e.key ≡ false
entry-other c past bs e o h = elim (Bool-cases (file_key_eq.same c.key e.key)) [
  | inr q ↦ q
  | inl q ↦
      let same : c.key ≡ e.key = file_key_eq.same-true c.key e.key q in
      absurd (
        both_ways (subst (λ k. any_close (only k past) ≡ false) same o)
          (closed_of (only e.key past) e.validator h.0))
]
  where
    both_ways : {b : Bool} → b ≡ false → b ≡ true → ⊥
    both_ways p q = cc

-- The entries that were true stay so, when a chunk arrives and with it perhaps a batch is taken.
pub IsHeld-all :
    {A : Type 0} (c : Chunk A) (past : List (Chunk A)) (bs : List (Commit A)) (es : List Entry)
    → any_close (only c.key past) ≡ false
    → All (IsHeld past bs) es
    → All (IsHeld (c ∷ past) bs) es
IsHeld-all c past bs es o h =
    All-mono (λ e q. IsHeld-other c past bs e (entry-other c past bs e o q) q) es h

pub IsHeld-taken :
    {A : Type 0} (c : Chunk A) (past : List (Chunk A)) (bs : List (Commit A)) (b : Commit A)
    (es : List Entry)
    → any_close (only c.key past) ≡ false
    → b.key ≡ c.key
    → All (IsHeld past bs) es
    → All (IsHeld (c ∷ past) (bs ++ b ∷ [])) es
IsHeld-taken c past bs b es o f h =
    All-mono {P = IsHeld past bs} {Q = IsHeld (c ∷ past) (bs ++ b ∷ [])}
      (λ e q.
        let other : file_key_eq.same c.key e.key ≡ false = entry-other c past bs e o q in
        let other' : file_key_eq.same b.key e.key ≡ false =
          subst (λ k. file_key_eq.same k e.key ≡ false) (sym f) other in
        rw
          (
            only_other e.key c past other,
            matches_of_other e.key bs b other',
            taken_other e.key bs b other',
          )
          q)
      es h

-- The tally, when the rows of a chunk are counted, and when they are written.
abbrev pub add_seen : ℕ → FileTally → FileTally
add_seen n t = record t { seen = t.seen + n }

abbrev pub add_written : ℕ → FileTally → FileTally
add_written m t = record t { written = t.written + m }

-- What a file's chunk adds, and that it adds nothing to another file.
module _ {A E : Type 0} where
  -- A chunk that says that nothing was read.
  pub idle-IsCurrent :
      (c : Chunk A) (past : List (Chunk A)) (w v : Writing A E)
      → c.skipped || c.missing ≡ true
      → c.seen ≡ 0
      → c.rows ≡ none
      → v.committed ≡ w.committed
      → v.tally ≡ w.tally
      → IsCurrent past w
      → IsCurrent (c ∷ past) v
  idle-IsCurrent c past w v s n r f g h k = elim (Bool-cases (file_key_eq.same c.key k)) [
    | inr o ↦ rw (only_other k c past o, f, g) (h k)
    | inl o ↦
        rw (only_same k c past o, f, g, r, s, n)
          (
            (h k).0 ∙ sym (append-nil _),
            λ q.
                (h k).1 q
                ∙ ap (λ t. record { seen = t; written = matches_of k w.committed }) (omega arith),
          )
  ]

  -- A batch that is taken.
  pub taken-IsCurrent :
      (c : Chunk A) (past : List (Chunk A)) (w v : Writing A E) (rows : List A) (m n : ℕ)
      → closes c ≡ false
      → c.rows ≡ some rows
      → v.committed
        ≡ w.committed ++ record { key = c.key; rows = rows; matches = m; collapsed = n } ∷ []
      → v.tally
        ≡ modify c.key no_tally (add_written m) (modify c.key no_tally (add_seen c.seen) w.tally)
      → IsCurrent past w
      → IsCurrent (c ∷ past) v
  taken-IsCurrent c past w v rows m n s r f g h k =
      let b : Commit A = record { key = c.key; rows = rows; matches = m; collapsed = n } in
      let counted = modify c.key no_tally (add_seen c.seen) w.tally in
      elim (Bool-cases (file_key_eq.same c.key k)) [
        | inr o ↦
            rw
              (
                only_other k c past o,
                f,
                g,
                taken_other k w.committed b o,
                matches_of_other k w.committed b o,
                find_or-modify_other c.key k no_tally no_tally (add_written m) counted o,
                find_or-modify_other c.key k no_tally no_tally (add_seen c.seen) w.tally o,
              )
              (h k)
        | inl o ↦
            rw
              (
                only_same k c past o,
                f,
                g,
                s,
                r,
                taken_same k w.committed b o,
                matches_of_same k w.committed b o,
                find_or-modify c.key k no_tally (add_written m) counted o,
                find_or-modify c.key k no_tally (add_seen c.seen) w.tally o,
              )
              (
                ap (λ l. l ++ rows) ((h k).0),
                λ q.
                    ap (λ t. add_written m (add_seen c.seen t)) ((h k).1 q)
                    ∙ ap (λ t. record { seen = t; written = matches_of k w.committed + m })
                        (omega arith),
              )
      ]

  -- A file that is closed.
  pub closed-IsCurrent :
      (c : Chunk A) (past : List (Chunk A)) (w v : Writing A E)
      → closes c ≡ true
      → c.rows ≡ none
      → v.committed ≡ w.committed
      → v.tally ≡ remove c.key (modify c.key no_tally (add_seen c.seen) w.tally)
      → IsCurrent past w
      → IsCurrent (c ∷ past) v
  closed-IsCurrent c past w v s r f g h k =
      let counted = modify c.key no_tally (add_seen c.seen) w.tally in
      elim (Bool-cases (file_key_eq.same c.key k)) [
        | inr o ↦
            rw
              (
                only_other k c past o,
                f,
                g,
                find_or-remove_other c.key k no_tally counted o,
                find_or-modify_other c.key k no_tally no_tally (add_seen c.seen) w.tally o,
              )
              (h k)
        | inl o ↦
            rw (only_same k c past o, f, g, s, r)
              ((h k).0 ∙ sym (append-nil _), λ q. absurd (ground (arith, q)))
      ]

  -- The entry of a file that is closed.
  pub closed-IsHeld :
      (c : Chunk A) (past : List (Chunk A)) (w : Writing A E)
      → closes c ≡ true
      → c.rows ≡ none
      → any_close (only c.key past) ≡ false
      → IsCurrent past w
      → IsHeld (c ∷ past) w.committed (
          let t = find_or c.key no_tally (modify c.key no_tally (add_seen c.seen) w.tally) in
          record { key = c.key; validator = c.validator; seen = t.seen; written = t.written })
  closed-IsHeld c past w s r o h =
      let self : file_key_eq.same c.key c.key ≡ true = file_key_eq.same_refl c.key in
      rw
        (
          only_same c.key c past self,
          s,
          r,
          find_or-modify c.key c.key no_tally (add_seen c.seen) w.tally self,
          (h c.key).1 o,
        )
        (refl, (omega arith, (refl, (h c.key).0 ∙ sym (append-nil _))))

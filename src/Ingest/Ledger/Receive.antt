-- ===== src/Ingest/Ledger/Receive.antt =====
-- internal/ingest/pipeline.go: the loop of the writer, against what the ledger and the store hold.
use mathlib.Core.Path.{subst}
use tennis_wiki.Base.{
  ◌⊎◌, ℕ, ◌+◌, ◌≡◌, refl, sym, Bool, true, false, not, ◌||◌, List, [], ◌∷◌, Option, none, some,
  is_empty, All, All-append, inl, inr, Bool-cases, arith,
}
use tennis_wiki.Base.Count.{keep}
use tennis_wiki.Base.Dict.{modify, find_or}
use tennis_wiki.Base.Result.{Result, ok, err}
use tennis_wiki.Ingest.{FileKey, file_key_eq, Chunk, RunStats}
use tennis_wiki.Ingest.Ledger.{
  taken, matches_of, only, closes, any_close, IsHeld, IsCurrent, IsTrue, IsIdle, IsOrderly,
}
use tennis_wiki.Ingest.Ledger.Steps.{
  add_seen, IsHeld-all, IsHeld-taken, idle-IsCurrent, taken-IsCurrent, closed-IsCurrent,
  closed-IsHeld,
}
use tennis_wiki.Ingest.Writing.{
  Commit, Writing, is_none, no_tally, close_file, after_write, take_rows, receive, receive_all,
  record_file, new_writing, count_chunk,
}
use tennis_wiki.Ingest.Counted.{entered}

module _ {A E : Type 0} (has_ledger : Bool)
    (write_batch : List (Commit A) → FileKey → List A → Result E (ℕ × ℕ)) where
  record_file-IsHeld :
      (c : Chunk A) (past : List (Chunk A)) (w : Writing A E)
      → closes c ≡ true
      → c.rows ≡ none
      → any_close (only c.key past) ≡ false
      → IsCurrent past w
      → All (IsHeld (c ∷ past) w.committed) w.recorded
      → All (IsHeld (c ∷ past) w.committed) (
          record_file has_ledger write_batch c.key c.validator
            (find_or c.key no_tally (modify c.key no_tally (add_seen c.seen) w.tally))
            w.recorded)
  unfolding record_file
  record_file-IsHeld c past w s r o h es =
      elim (Bool-cases (not has_ledger || is_empty c.validator)) [
        | inl e ↦ rw e es
        | inr e ↦ rw e (
            All-append (IsHeld (c ∷ past) w.committed) w.recorded _ es
              (closed-IsHeld c past w s r o h, tt))
      ]

  close_file-IsTrue :
      (c : Chunk A) (past : List (Chunk A)) (w : Writing A E)
      → closes c ≡ true
      → c.rows ≡ none
      → any_close (only c.key past) ≡ false
      → IsTrue past w
      → IsTrue (c ∷ past) (close_file has_ledger write_batch c (entered has_ledger write_batch c w))
  unfolding close_file
  close_file-IsTrue c past w s r o (h, es) = elim (Bool-cases (is_none w.error)) [
    | inl e ↦ (
      (λ q.
          closed-IsCurrent c past w
            (close_file has_ledger write_batch c (entered has_ledger write_batch c w)) s r refl refl
            (h e)),
      rw e
          (record_file-IsHeld c past w s r o (h e) (IsHeld-all c past w.committed w.recorded o es)),
    )
    | inr e ↦
        ((λ q. absurd (ground (arith, e, q))), rw e (IsHeld-all c past w.committed w.recorded o es))
  ]

  after_write-IsTrue :
      (c : Chunk A) (past : List (Chunk A)) (w : Writing A E) (rows : List A)
      (answer : Result E (ℕ × ℕ))
      → closes c ≡ false
      → c.rows ≡ some rows
      → any_close (only c.key past) ≡ false
      → IsCurrent past w
      → All (IsHeld past w.committed) w.recorded
      → IsTrue
          (c ∷ past)
          (after_write has_ledger write_batch c rows answer (entered has_ledger write_batch c w))
  unfolding after_write
  after_write-IsTrue c past w rows (err x) s r o h es =
      ((λ q. absurd (ground (arith, q))), IsHeld-all c past w.committed w.recorded o es)
  after_write-IsTrue c past w rows (ok (m, n)) s r o h es = (
    (λ q.
        taken-IsCurrent c past w
          (after_write has_ledger write_batch c rows (ok (m, n))
            (entered has_ledger write_batch c w))
          rows m n s r refl refl h),
    IsHeld-taken c past w.committed
        (record { key = c.key; rows = rows; matches = m; collapsed = n }) w.recorded o refl es,
  )

  open-IsTrue :
      (c : Chunk A) (past : List (Chunk A)) (w : Writing A E) (rows : Option (List A))
      → c.skipped || c.missing ≡ false
      → c.rows ≡ rows
      → any_close (only c.key past) ≡ false
      → IsTrue past w
      → IsTrue
          (c ∷ past)
          (take_rows has_ledger write_batch c rows (entered has_ledger write_batch c w))
  unfolding take_rows
  open-IsTrue c past w none s r o h = close_file-IsTrue c past w (rw (s, r) refl) r o h
  open-IsTrue c past w (some rows) s r o (h, es) = elim (Bool-cases (is_none w.error)) [
    | inl e ↦ rw e (
        after_write-IsTrue c past w rows (write_batch w.committed c.key rows) (rw (s, r) refl) r o
          (h e) es)
    | inr e ↦
        rw e ((λ q. absurd (ground (arith, e, q))), IsHeld-all c past w.committed w.recorded o es)
  ]

  -- The writer, where nothing was read of a file: only its counts differ.
  passed_by : RunStats → Writing A E → Writing A E
  passed_by s w = record w { stats = s }

  passed_by-IsTrue :
      (c : Chunk A) (past : List (Chunk A)) (w : Writing A E) (s : RunStats)
      → IsIdle c
      → c.skipped || c.missing ≡ true
      → any_close (only c.key past) ≡ false
      → IsTrue past w
      → IsTrue (c ∷ past) (passed_by s w)
  unfolding passed_by
  passed_by-IsTrue c past w s i idle o (h, es) = (
    (λ q. idle-IsCurrent c past w (passed_by s w) idle (i idle).0 (i idle).1 refl refl (h q)),
    IsHeld-all c past w.committed w.recorded o es,
  )

  receive-cases :
      (c : Chunk A) (w : Writing A E)
      → ((c.skipped || c.missing ≡ true)
          × ((s : RunStats) × (receive has_ledger write_batch c w ≡ passed_by s w)))
        ⊎ ((c.skipped || c.missing ≡ false)
            × (receive has_ledger write_batch c w
                ≡ take_rows has_ledger write_batch c c.rows (entered has_ledger write_batch c w)))
  unfolding receive passed_by
  receive-cases c w =
      let counted = count_chunk has_ledger write_batch c w.stats in
      elim (Bool-cases c.skipped) [
        | inl e ↦
            inl
              (rw e refl, (record counted { files_skipped = counted.files_skipped + 1 }, rw e refl))
        | inr e ↦ elim (Bool-cases c.missing) [
          | inl f ↦ inl (
            rw (e, f) refl,
            (record counted { files_missing = counted.files_missing + 1 }, rw (e, f) refl),
          )
          | inr f ↦ inr (rw (e, f) refl, rw (e, f) refl)
        ]
      ]

  receive-IsTrue :
      (c : Chunk A) (past : List (Chunk A)) (w : Writing A E)
      → IsIdle c
      → any_close (only c.key past) ≡ false
      → IsTrue past w
      → IsTrue (c ∷ past) (receive has_ledger write_batch c w)
  receive-IsTrue c past w i o h = elim (receive-cases c w) [
    | inl (idle, (s, e)) ↦
        subst (IsTrue (c ∷ past)) (sym e) (passed_by-IsTrue c past w s i idle o h)
    | inr (open_file, e) ↦
        subst (IsTrue (c ∷ past)) (sym e) (open-IsTrue c past w c.rows open_file refl o h)
  ]

  -- The chunks, laid one after another onto those that have arrived.
  abbrev pub onto : List (Chunk A) → List (Chunk A) → List (Chunk A)
  onto [] past = past
  onto (c ∷ cs) past = onto cs (c ∷ past)

  pub receive_all-IsTrue :
      (cs past : List (Chunk A)) (w : Writing A E)
      → All IsIdle cs
      → IsOrderly past cs
      → IsTrue past w
      → IsTrue (onto cs past) (receive_all has_ledger write_batch cs w)
  unfolding receive_all
  receive_all-IsTrue [] past w i o h = h
  receive_all-IsTrue (c ∷ cs) past w i o h =
      receive_all-IsTrue cs (c ∷ past) (receive has_ledger write_batch c w) i.1 o.1
        (receive-IsTrue c past w i.0 o.0 h)

  pub new_writing-IsTrue : IsTrue [] (new_writing {A = A} {E = E})
  unfolding keep find_or taken matches_of
  new_writing-IsTrue = ((λ q k. (refl, λ p. refl)), tt)

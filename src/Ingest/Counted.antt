-- ===== src/Ingest/Counted.antt =====
-- internal/ingest/pipeline.go: what the writer counts, and the error that it keeps.
use tennis_wiki.Base.{
  ℕ, ◌+◌, ◌≡◌, refl, ap, Bool, false, List, [], ◌∷◌, Option, none, some, inl, inr, arith,
  Bool-cases, Option-cases,
}
use tennis_wiki.Base.Dict.{modify}
use tennis_wiki.Base.Result.{Result, ok, err}
use tennis_wiki.Ingest.{FileKey, file_key_eq, Chunk, RunStats}
use tennis_wiki.Ingest.Balance.{total_seen}
use tennis_wiki.Ingest.Writing.{
  Commit, Writing, is_none, close_file, after_write, take_rows, receive, receive_all, answer,
  run_failed, conclude, first_error, count_chunk, no_tally,
}

module _ {A E : Type 0} (has_ledger : Bool)
    (write_batch : List (Commit A) → FileKey → List A → Result E (ℕ × ℕ)) where
  pub after_write-seen :
      (c : Chunk A) (rows : List A) (answer : Result E (ℕ × ℕ)) (w : Writing A E)
      → (after_write has_ledger write_batch c rows answer w).stats.rows_seen ≡ w.stats.rows_seen
  unfolding after_write
  after_write-seen c rows (err e) w = refl
  after_write-seen c rows (ok (m, k)) w = refl

  pub take_rows-seen :
      (c : Chunk A) (rows : Option (List A)) (w : Writing A E)
      → (take_rows has_ledger write_batch c rows w).stats.rows_seen ≡ w.stats.rows_seen
  unfolding take_rows close_file
  take_rows-seen c none w = refl
  take_rows-seen c (some rows) w = elim (Bool-cases (is_none w.error)) [
    | inr e ↦ rw e refl
    | inl e ↦ rw e (after_write-seen c rows (write_batch w.committed c.key rows) w)
  ]

  pub receive-seen :
      (c : Chunk A) (w : Writing A E)
      → (receive has_ledger write_batch c w).stats.rows_seen ≡ w.stats.rows_seen + c.seen
  unfolding receive
  receive-seen c w = elim (Bool-cases c.skipped) [
    | inl e ↦ rw e refl
    | inr e ↦ elim (Bool-cases c.missing) [
      | inl f ↦ rw (e, f) refl
      | inr f ↦ rw (e, f) (take_rows-seen c c.rows _)
    ]
  ]

  -- An open file's chunk, its rows counted.
  abbrev pub entered : Chunk A → Writing A E → Writing A E
  entered c w = record w {
    stats = count_chunk has_ledger write_batch c w.stats;
    tally = modify c.key no_tally (λ t. record t { seen = t.seen + c.seen }) w.tally;
  }

  pub receive-entered :
      (c : Chunk A) (w : Writing A E)
      → c.skipped ≡ false
      → c.missing ≡ false
      → receive has_ledger write_batch c w ≡ take_rows has_ledger write_batch c c.rows (entered c w)
  unfolding receive
  receive-entered c w e f = rw (e, f) refl

  pub stuck : (error : Option E) → is_none error ≡ false → error ≡ none → ⊥
  stuck none e h = cc
  stuck (some x) e h = cc

  -- An error is kept.
  pub take_rows-keeps :
      (c : Chunk A) (rows : Option (List A)) (w : Writing A E) (x : E)
      → w.error ≡ some x
      → (take_rows has_ledger write_batch c rows w).error ≡ some x
  unfolding take_rows close_file
  take_rows-keeps c none w x h = h
  take_rows-keeps c (some rows) w x h =
      let closed : is_none w.error ≡ false = ap is_none h in rw closed h

  pub receive-keeps :
      (c : Chunk A) (w : Writing A E) (x : E)
      → w.error ≡ some x
      → (receive has_ledger write_batch c w).error ≡ some x
  unfolding receive
  receive-keeps c w x h = elim (Bool-cases c.skipped) [
    | inl e ↦ rw e h
    | inr e ↦ elim (Bool-cases c.missing) [
      | inl f ↦ rw (e, f) h
      | inr f ↦ rw (e, f) (take_rows-keeps c c.rows (entered c w) x h)
    ]
  ]

  pub receive_all-keeps :
      (cs : List (Chunk A)) (w : Writing A E) (x : E)
      → w.error ≡ some x
      → (receive_all has_ledger write_batch cs w).error ≡ some x
  unfolding receive_all
  receive_all-keeps [] w x h = h
  receive_all-keeps (c ∷ cs) w x h =
      receive_all-keeps cs (receive has_ledger write_batch c w) x (receive-keeps c w x h)

  -- A loop that ends without an error had none before.
  pub receive_all-none :
      (cs : List (Chunk A)) (w : Writing A E)
      → (receive_all has_ledger write_batch cs w).error ≡ none
      → w.error ≡ none
  receive_all-none cs w h = elim (Option-cases w.error) [
    | inl e ↦ e
    | inr (x, e) ↦ absurd (other x (receive_all-keeps cs w x e))
  ]
    where
      other : (x : E) → (receive_all has_ledger write_batch cs w).error ≡ some x → ⊥
      other x q = cc

  pub receive_all-seen :
      (cs : List (Chunk A)) (w : Writing A E)
      → (receive_all has_ledger write_batch cs w).stats.rows_seen
        ≡ w.stats.rows_seen + total_seen cs
  unfolding receive_all
  receive_all-seen [] w = omega arith
  receive_all-seen (c ∷ cs) w =
      omega (arith, receive_all-seen cs (receive has_ledger write_batch c w), receive-seen c w)

  pub answer-stats : (s : RunStats) (first : Option E) → (answer s first).0 ≡ s
  answer-stats s none = refl
  answer-stats s (some e) = refl

  pub conclude-stats : (w : Writing A E) (es : List E) → (conclude w es).0 ≡ w.stats
  unfolding conclude
  conclude-stats w es = answer-stats w.stats (first_error w.error es)

  pub conclude-error :
      (w : Writing A E) (es : List E) (x : E)
      → w.error ≡ some x
      → (conclude w es).1 ≡ some (run_failed x)
  unfolding conclude
  conclude-error w es x e = ap (λ o. (answer w.stats (first_error o es)).1) e

  pub conclude-none : (w : Writing A E) (es : List E) → (conclude w es).1 ≡ none → w.error ≡ none
  conclude-none w es h = elim (Option-cases w.error) [
    | inl e ↦ e
    | inr (x, e) ↦ absurd (other x (conclude-error w es x e))
  ]
    where
      other : (x : E) → (conclude w es).1 ≡ some (run_failed x) → ⊥
      other x q = cc

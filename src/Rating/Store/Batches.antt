-- ===== src/Rating/Store/Batches.antt =====
-- internal/rating/store.go: what the writer has copied.
use tennis_wiki.Base.{
  ℕ, ◌≡◌, refl, sym, ◌∙◌, ap, Bool, true, false, List, [], ◌∷◌, ◌++◌, Option, some, ltb, arith,
  length, length-append, append-nil, append_assoc, Bool-cases, Option-cases, inl, inr, is_empty,
}
use mathlib.Core.Path.{subst}
use tennis_wiki.Rating.Store.{Writer, flush_rows, add_row, write_all, if_written}

module _ {A : Type 0} (copy : List A → List A → Option ℕ) (batch : ℕ)
    -- CopyFrom returns the number of rows that it copied, all of the batch.
    (copies_all : (done rows : List A) (n : ℕ) → copy done rows ≡ some n → n ≡ length rows) where
  -- Everything given to the writer is copied or waits in the buffer, and the rows copied are counted.
  pub record IsKept (given : List A) (w : Writer A) : Type 0 where
    pub in_order : w.copied ++ w.buf ≡ given
    pub counted : w.rows ≡ length w.copied

  nothing_waits : (rows : List A) → is_empty rows ≡ true → rows ≡ []
  nothing_waits [] h = refl
  nothing_waits (s ∷ rows) h = cc

  flush_rows-IsKept :
      (given : List A) (w v : Writer A)
      → IsKept given w
      → flush_rows copy batch w ≡ (v, true)
      → IsKept given v × (v.buf ≡ [])
  unfolding flush_rows
  flush_rows-IsKept given w v h e = elim (Bool-cases (is_empty w.buf)) [
    | inl f ↦
        subst (λ x. IsKept given x × (x.buf ≡ [])) (ap (λ x. x.0) (rw f at e))
          (h, nothing_waits w.buf f)
    | inr f ↦ elim (Option-cases (copy w.copied w.buf)) [
      | inl k ↦ absurd (cc (ap (λ x. x.1) (rw (f, k) at e)))
      | inr (n, k) ↦
          subst (λ x. IsKept given x × (x.buf ≡ [])) (ap (λ x. x.0) (rw (f, k) at e))
            (
              record {
                in_order = append-nil (w.copied ++ w.buf) ∙ h.in_order;
                counted =
                    omega (
                      arith,
                      h.counted,
                      copies_all w.copied w.buf n k,
                      length-append w.copied w.buf,
                    );
              },
              refl,
            )
    ]
  ]

  add_row-IsKept :
      (given : List A) (s : A) (w v : Writer A)
      → IsKept given w
      → add_row copy batch s w ≡ (v, true)
      → IsKept (given ++ s ∷ []) v
  unfolding add_row
  add_row-IsKept given s w v h e =
      let grown : IsKept (given ++ s ∷ []) (record w { buf = w.buf ++ s ∷ [] }) = record {
        in_order =
            sym (append_assoc w.copied w.buf (s ∷ [])) ∙ ap (λ rows. rows ++ s ∷ []) h.in_order;
        counted = h.counted;
      } in
      elim (Bool-cases (ltb (length (w.buf ++ s ∷ [])) batch)) [
        | inl f ↦ subst (λ x. IsKept (given ++ s ∷ []) x) (ap (λ x. x.0) (rw f at e)) grown
        | inr f ↦
            (flush_rows-IsKept (given ++ s ∷ []) (record w { buf = w.buf ++ s ∷ [] }) v grown
              (rw f at e)).0
      ]

  if_written_ok :
      (o : Writer A × Bool) (next : Writer A → Writer A × Bool) (v : Writer A)
      → if_written copy batch o next ≡ (v, true)
      → (w : Writer A) × (o ≡ (w, true)) × (next w ≡ (v, true))
  if_written_ok (w, true) next v e = (w, refl, e)
  if_written_ok (w, false) next v e = absurd (cc (ap (λ x. x.1) e))

  from-IsKept :
      (given ss : List A) (w v : Writer A)
      → IsKept given w
      → write_all copy batch ss w ≡ (v, true)
      → IsKept (given ++ ss) v × (v.buf ≡ [])
  unfolding write_all
  from-IsKept given [] w v h e = rw append-nil (flush_rows-IsKept given w v h e)
  from-IsKept given (s ∷ ss) w v h e =
      let (w1, one, rest) = if_written_ok (add_row copy batch s w) (write_all copy batch ss) v e in
      rw (← append_assoc given (s ∷ []) ss)
        (from-IsKept (given ++ s ∷ []) ss w1 v (add_row-IsKept given s w w1 h one) rest)

  -- If no copy fails, the writer has copied exactly the snapshots that it was given, in their order,
  -- whatever the size of the batches, and has counted them.
  pub copied-write_all :
      (ss : List A) (v : Writer A)
      → write_all copy batch ss (record { buf = []; rows = 0; copied = [] }) ≡ (v, true)
      → (v.copied ≡ ss) × (v.rows ≡ length ss)
  copied-write_all ss v e =
      let (kept, empty) =
        from-IsKept [] ss (record { buf = []; rows = 0; copied = [] }) v
          (record { in_order = refl; counted = refl }) e in
      let all : v.copied ≡ ss =
        sym (append-nil v.copied) ∙ ap (λ rows. v.copied ++ rows) (sym empty) ∙ kept.in_order in
      (all, kept.counted ∙ ap (λ rows. length rows) all)

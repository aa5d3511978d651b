-- ===== src/Ingest/Tests.antt =====
-- internal/ingest/pipeline.go: a run over three files, the files that a registry plans, and the theorems
-- at these. Rows are numbers.
use mathlib.Core.Path.{subst}
use tennis_wiki.Base.{
  ℕ, ◌+◌, ◌≡◌, ◌≢◌, refl, sym, ap, ◌∙◌, true, false, List, [], ◌∷◌, map, none, some, length, arith,
  All,
}
use tennis_wiki.Base.Count.{keep}
use tennis_wiki.Base.Dict.{find_or, modify, remove}
use tennis_wiki.Base.Dict.Laws.{HasDistinctKeys}
use tennis_wiki.Base.Int
use tennis_wiki.Base.Pairs.{Pairs}
use tennis_wiki.Base.Result.{Result, ok, err}
use tennis_wiki.Base.Sort
use tennis_wiki.Base.Text.{Bytes, codes, equal, text_less}
use tennis_wiki.Base.Text.Words.{equal_refl}
use tennis_wiki.Ingest.{FileKey, file_key_eq, season_key, Chunk}
use tennis_wiki.Ingest.Accounted.{files_of, run-accounts}
use tennis_wiki.Ingest.Ledger.Held.{IsCommitted, receive_all-IsCommitted}
use tennis_wiki.Ingest.Merge.{Merges}
use tennis_wiki.Ingest.Reading.{
  Opened, unchanged, opened, batch_chunk, bare_chunk, read_records, read_file,
}
use tennis_wiki.Ingest.Sources.{Source, covers, preferred, sources_for, job_key, plan}
use tennis_wiki.Ingest.Sources.Keys.{HaveDistinctNames, plan-AreApart}
use tennis_wiki.Ingest.Writing.{
  Commit, new_writing, run, receive, receive_all, take_rows, close_file, after_write, record_file,
  conclude,
}

abbrev of_2019 : FileKey
of_2019 = (codes "mirror", codes "2019")

abbrev of_2020 : FileKey
of_2020 = (codes "mirror", codes "2020")

abbrev of_2021 : FileKey
of_2021 = (codes "mirror", codes "2021")

-- The second record of the first file cannot be parsed; the last file has not changed.
abbrev files : List (FileKey × Opened ℕ ℕ)
files =
    (of_2019, opened (codes "v1") (some 11 ∷ none ∷ some 12 ∷ some 13 ∷ []))
    ∷ (of_2020, opened (codes "v2") (some 21 ∷ []))
    ∷ (of_2021, unchanged)
    ∷ []

abbrev arrived : List (Chunk ℕ)
arrived =
    batch_chunk of_2019 (11 ∷ 12 ∷ []) 3 1
    ∷ batch_chunk of_2020 (21 ∷ []) 1 0
    ∷ bare_chunk of_2021 false true []
    ∷ batch_chunk of_2019 (13 ∷ []) 1 0
    ∷ bare_chunk of_2020 false false (codes "v2")
    ∷ bare_chunk of_2019 false false (codes "v1")
    ∷ []

arrival : Merges (files_of 2 files) arrived
unfolding read_file read_records
arrival = Merges.step [] _ _ _ (
    Merges.step (_ ∷ []) _ _ _ (
      Merges.step (_ ∷ _ ∷ []) _ _ _ (
        Merges.step [] _ _ _ (
          Merges.step (_ ∷ []) _ _ _
            (Merges.step [] _ _ _ (Merges.done (refl, (refl, (refl, tt)))))))))

-- A store that writes the first row of a batch and collapses the others onto it.
abbrev store : List (Commit ℕ) → FileKey → List ℕ → Result ℕ (ℕ × ℕ)
store before key [] = ok (0, 0)
store before key (r ∷ rows) = ok (1, length rows)

abbrev accounted : Result ℕ (ℕ × ℕ) → ℕ
accounted (ok (m, k)) = m + k
accounted (err e) = 0

store-accounts :
    (before : List (Commit ℕ)) (key : FileKey) (rows : List ℕ) (m k : ℕ)
    → store before key rows ≡ ok (m, k)
    → m + k ≡ length rows
store-accounts before key [] m k e = sym (ap accounted e) ∙ omega arith
store-accounts before key (r ∷ rows) m k e = sym (ap accounted e) ∙ omega arith

no_error : (run true store arrived []).1 ≡ none
unfolding run receive_all receive take_rows close_file after_write conclude
no_error = refl

run-accounts_example :
    ((run true store arrived []).0.rows_seen ≡ 5)
    × ((run true store arrived []).0.rows_seen
        ≡ (run true store arrived []).0.rows_written
          + (run true store arrived []).0.rows_collapsed
          + (run true store arrived []).0.rows_rejected)
run-accounts_example = run-accounts true store store-accounts 2 files arrived [] arrival no_error

differ : (j k : FileKey) → file_key_eq.same j k ≡ false → j ≢ k
differ j k d e =
    absurd (ground (arith, d, subst (λ i. file_key_eq.same j i ≡ true) e (file_key_eq.same_refl j)))

distinct_keys : HasDistinctKeys files
unfolding equal
distinct_keys = (
  (differ of_2019 of_2020 refl, (differ of_2019 of_2021 refl, tt)),
  ((differ of_2020 of_2021 refl, tt), (tt, tt)),
)

-- The ledger is told of the two files that were read.
recorded_of :
    (receive_all true store arrived new_writing).recorded
    ≡ record { key = of_2020; validator = codes "v2"; seen = 1; written = 1 }
      ∷ record { key = of_2019; validator = codes "v1"; seen = 4; written = 2 }
      ∷ []
unfolding receive_all receive take_rows close_file after_write record_file find_or modify remove
    equal
recorded_of = refl

receive_all-IsCommitted_example :
    All
      (λ f.
        All
          (λ e.
            e.key ≡ f.0 → IsCommitted f.1 (receive_all true store arrived new_writing).committed e)
          (receive_all true store arrived new_writing).recorded)
      files
receive_all-IsCommitted_example =
    receive_all-IsCommitted true store 2 files arrived distinct_keys arrival

abbrev source_of : Bytes → Bytes → ℕ → Source
source_of name tour precedence = record {
  name = name;
  tour = tour;
  first_season = 2019;
  last_season = 2020;
  precedence = precedence;
}

abbrev registry : List Source
registry =
    source_of (codes "old") (codes "atp") 1
    ∷ source_of (codes "women") (codes "wta") 1
    ∷ source_of (codes "new") (codes "atp") 2
    ∷ []

planned :
    map job_key (plan registry (codes "atp" ∷ codes "wta" ∷ []) (2020 ∷ []))
    ≡ (codes "new", codes "2020") ∷ (codes "old", codes "2020") ∷ (codes "women", codes "2020") ∷ []
unfolding plan sources_for preferred covers job_key season_key Sort.insert Sort.sort keep equal
    text_less Int.itoa
planned = refl

differ_text : (s t : Bytes) → equal s t ≡ false → s ≢ t
differ_text s t d e = absurd (ground (arith, d, subst (λ r. equal s r ≡ true) e (equal_refl s)))

distinct_names : HaveDistinctNames registry
unfolding equal
distinct_names =
    ((differ_text _ _ refl, (differ_text _ _ refl, tt)), ((differ_text _ _ refl, tt), (tt, tt)))

distinct_tours : Pairs (λ t v. t ≢ v) (codes "atp" ∷ codes "wta" ∷ [])
unfolding equal
distinct_tours = ((differ_text _ _ refl, tt), (tt, tt))

plan-AreApart_example :
    Pairs
      (λ j k. job_key j ≢ job_key k)
      (plan registry (codes "atp" ∷ codes "wta" ∷ []) (2019 ∷ 2020 ∷ []))
plan-AreApart_example =
    plan-AreApart registry (codes "atp" ∷ codes "wta" ∷ []) (2019 ∷ 2020 ∷ []) distinct_names
      distinct_tours ((omega arith, omega arith), ((omega arith, omega arith), tt))
      ((omega arith, tt), (tt, tt))

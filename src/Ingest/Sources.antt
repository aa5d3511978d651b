-- ===== src/Ingest/Sources.antt =====
-- internal/ingest/source.go and `plan` of pipeline.go: the sources of a registry, and the files that a
-- run reads of them.
pub mod Keys
use tennis_wiki.Base.{
  ℕ, ◌+◌, ◌≡◌, Bool, true, false, not, ◌&&◌, List, [], ◌∷◌, ◌++◌, map, ltb, leb, ◌==◌,
  if◌then◌else◌, is_empty,
}
use tennis_wiki.Base.Count.{keep}
use tennis_wiki.Base.Gather.{gather}
use tennis_wiki.Base.Sort.{sort}
use tennis_wiki.Base.Text.{Bytes, codes, equal, text_less}
use tennis_wiki.Ingest.{FileKey, season_key}

-- The fields of `Source` that choose its files; seasons and precedences are not negative.
pub record Source : Type 0 where
  pub name : Bytes
  pub tour : Bytes
  pub first_season : ℕ
  pub last_season : ℕ
  pub precedence : ℕ

-- `Covers`
unfoldable pub covers : Source → ℕ → Bool
covers s season = leb s.first_season season && leb season s.last_season

-- The test given to `sort.SliceStable`.
unfoldable pub preferred : Source → Source → Bool
unfolding text_less
preferred a b =
    if not (a.precedence == b.precedence)
    then ltb b.precedence a.precedence
    else text_less a.name b.name

-- `For`
unfoldable pub sources_for : List Source → Bytes → ℕ → List Source
unfolding covers preferred equal keep sort
sources_for sources tour season =
    sort preferred (keep (λ s. equal s.tour tour && covers s season) sources)

-- `job`
pub record Job : Type 0 where
  pub source : Source
  pub season : ℕ

-- `job.key`
unfoldable pub job_key : Job → FileKey
unfolding season_key
job_key j = season_key j.source.name j.season

-- The jobs of one tour and season.
abbrev pub jobs_of : List Source → Bytes → ℕ → List Job
jobs_of sources tour season =
    map (λ s. record { source = s; season = season }) (sources_for sources tour season)

-- The loops of `plan`, over the tours and the seasons that it settles on.
unfoldable pub plan : List Source → List Bytes → List ℕ → List Job
unfolding sources_for
plan sources tours seasons = gather (λ t. gather (λ y. jobs_of sources t y) seasons) tours

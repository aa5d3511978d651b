-- ===== src/Identity/Tests.antt =====
-- internal/identity: runs of the reconciliation, and the theorems at concrete rows.
use mathlib.Core.List.{Permᴰ}
use mathlib.Core.List.Permᴰ
use tennis_wiki.Base.{ℕ, ◌≡◌, refl, false, List, [], ◌∷◌, none, some, map, All}
use tennis_wiki.Base.Text.{codes, trim}
use tennis_wiki.Name.{
  normalise, write_runes, write_rune, fold, is_alphanumeric, to_lower_rune, is_space_rune,
}
use tennis_wiki.Name.Tests.{latin}
use tennis_wiki.Identity.{Date, Player, Match, Reason, score_by_year, is_numeric}
use tennis_wiki.Identity.Group.{
  Placed, propose, fold_same_source, keep_rest, select, fold_days, by_day, match_stubs,
}
use tennis_wiki.Identity.Key.{key, words}
use tennis_wiki.Identity.Key.Sorting.{key-words}
use tennis_wiki.Identity.Reconcile.{Group, reconcile}
use tennis_wiki.Identity.Best.{IsProposal, propose-IsProposal}
use tennis_wiki.Identity.Safety.{IsSafe}
use tennis_wiki.Identity.Safety.Reconciled.{reconcile-IsSafe}

abbrev born : Date
born = record { year = 2001; month = 8; day = 16 }

-- A row of the player table, the same person under an id of the other kind, and a namesake.
abbrev sinner : Player
sinner = record {
  id = 1;
  source_id = codes "206173";
  slug = codes "jannik-sinner";
  full_name = codes "Jannik Sinner";
  country = codes "ITA";
  birth_date = some born;
  birth_year = some 2000;
  matches = 400;
  match_only = false;
}

abbrev stub : Player
stub = record {
  id = 2;
  source_id = codes "S0AG";
  slug = codes "sinner-jannik";
  full_name = codes "Sinner, Jannik";
  country = codes "ITA";
  birth_date = none;
  birth_year = some 2000;
  matches = 3;
  match_only = false;
}

abbrev twin : Player
twin = record {
  id = 3;
  source_id = codes "999999";
  slug = codes "jannik-sinner-2";
  full_name = codes "Jannik Sinner";
  country = codes "ITA";
  birth_date = some born;
  birth_year = none;
  matches = 12;
  match_only = false;
}

abbrev as_listed : List Group → List Group
as_listed groups = groups

abbrev days_as_listed : List (Date × List Placed) → List (Date × List Placed)
days_as_listed days = days

-- The pairs proposed, by id, with their confidences.
ids_of_proposals :
    map {B = ℕ × ℕ × ℕ}
      (λ m. (m.canonical.id, m.duplicate.id, m.confidence))
      (reconcile latin as_listed days_as_listed (sinner ∷ stub ∷ twin ∷ []))
    ≡ (1, 2, 90) ∷ (1, 3, 100) ∷ []
unfolding reconcile key words normalise write_runes write_rune fold is_alphanumeric to_lower_rune
    trim is_space_rune fold_same_source keep_rest select is_numeric fold_days by_day match_stubs
    score_by_year
ids_of_proposals = refl

reconcile-IsSafe_example :
    All (IsSafe latin) (reconcile latin as_listed days_as_listed (sinner ∷ stub ∷ twin ∷ []))
reconcile-IsSafe_example =
    reconcile-IsSafe latin as_listed days_as_listed Permᴰ.refl Permᴰ.refl
      (sinner ∷ stub ∷ twin ∷ [])

abbrev link : Match
link = record {
  canonical = sinner;
  duplicate = stub;
  confidence = 90;
  reason = Reason.year_matches;
}

linked : propose (sinner ∷ []) stub ≡ some link
unfolding propose score_by_year
linked = refl

propose-IsProposal_example : IsProposal stub (sinner ∷ []) link
propose-IsProposal_example = propose-IsProposal stub (sinner ∷ []) link linked

swapped : Permᴰ (words latin (codes "Jannik Sinner")) (words latin (codes "Sinner, Jannik"))
unfolding words normalise write_runes write_rune fold is_alphanumeric to_lower_rune trim
    is_space_rune
swapped = Permᴰ.swap refl refl

key-words_example : key latin (codes "Jannik Sinner") ≡ key latin (codes "Sinner, Jannik")
key-words_example = key-words latin (codes "Jannik Sinner") (codes "Sinner, Jannik") swapped

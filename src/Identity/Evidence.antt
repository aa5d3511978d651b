-- ===== src/Identity/Evidence.antt =====
-- internal/identity/identity.go: what a score says of the two rows.
use tennis_wiki.Base.{
  ◌≤◌, ◌≡◌, ◌⊎◌, true, false, not, ◌&&◌, Option, none, some, arith, is_empty, inl, inr, refl,
}
use tennis_wiki.Base.Text.{equal}
use tennis_wiki.Identity.{
  Date, Player, auto_link, review_floor, same_country, birth_year_of, both_years_known, same_day,
  same_year, score_by_year, score_without_dates, score_dates, score,
}

-- Both dates of birth are known and are one day, and the countries do not differ.
pub record SameBirth (a b : Player) : Type 0 where
  pub first : Date
  pub second : Date
  pub first_known : a.birth_date ≡ some first
  pub second_known : b.birth_date ≡ some second
  pub one_day : same_day first second ≡ true
  pub no_dispute :
      not (is_empty a.country) && (not (is_empty b.country) && not (equal a.country b.country))
      ≡ false

-- Both countries are known and are one, and the years of birth, one of them derived, are one.
pub record SameYear (a b : Player) : Type 0 where
  pub one_country : same_country a b ≡ true
  pub one_year : (same_year a.birth_year b.birth_year ≡ true) ⊎ (birth_year_of a ≡ birth_year_of b)
  pub known : both_years_known a b ≡ true

module _ (a b : Player) where
  known_dates :
      (o p : Option Date) (d e : Date)
      → o ≡ some d
      → p ≡ some e
      → review_floor ≤ (score_dates o p a b).0
      → same_day d e ≡ true
  unfolding score_dates
  known_dates none p d e h k l = cc
  known_dates (some x) none d e h k l = cc
  known_dates (some x) (some y) d e h k l = ground arith

  -- Two rows whose dates of birth are known and differ score below the floor.
  pub score-same_day :
      (d e : Date)
      → a.birth_date ≡ some d
      → b.birth_date ≡ some e
      → review_floor ≤ (score a b).0
      → same_day d e ≡ true
  unfolding score
  score-same_day d e h k l = known_dates a.birth_date b.birth_date d e h k l

  year_evidence : auto_link ≤ (score_without_dates a b).0 → SameYear a b
  unfolding score_without_dates score_by_year
  year_evidence h = ground arith

  -- What a score that links without review rests on.
  abbrev pub Confirmed : Type 0
  Confirmed = SameBirth a b ⊎ SameYear a b

  evidence_from_dates :
      (o p : Option Date)
      → a.birth_date ≡ o
      → b.birth_date ≡ p
      → auto_link ≤ (score_dates o p a b).0
      → Confirmed
  unfolding score_dates
  evidence_from_dates none p h k l = inr (year_evidence l)
  evidence_from_dates (some d) none h k l = inr (year_evidence l)
  evidence_from_dates (some d) (some e) h k l = inl (record {
    first = d;
    second = e;
    first_known = h;
    second_known = k;
    one_day = ground arith;
    no_dispute = ground arith;
  })

  pub score_confirmed : auto_link ≤ (score a b).0 → Confirmed
  unfolding score
  score_confirmed l = evidence_from_dates a.birth_date b.birth_date refl refl l

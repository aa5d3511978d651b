-- ===== src/Events/Tests.antt =====
-- internal/events: runs of the derivation on a few rows, and the theorems at them.
use mathlib.Core.List.{Permᴰ, reverse}
use mathlib.Core.List.Permᴰ
use tennis_wiki.Base.Gather.{gather}
use tennis_wiki.Base.{arith, suc, All, ℕ, ◌≡◌, refl, List, [], ◌∷◌, map}
use tennis_wiki.Base.Int
use tennis_wiki.Base.Text.{
  Bytes, codes, equal, is_digit, to_lower_byte, trim, trim_left, trim_right, text_less,
}
use tennis_wiki.Name.{
  slug, convert, write_runes, write_rune, is_alphanumeric, to_lower_rune, fold, find_fold, among,
  is_space_rune,
}
use tennis_wiki.Name.Tests.{latin}
use tennis_wiki.Events.{Row, Edition, Event}
use tennis_wiki.Events.Filing.{
  new_filing, add_text, note_name, assign, assign_number, file_raw, file_target, file_row,
  file_rows, candidates, place_first, place, place_all,
}
use tennis_wiki.Events.Resolve.{
  same_link, display_name, edition_before, event_before, key_at, count_link, by_event, by_link,
  describe, finish, file, collect, resolve, Result,
}
use tennis_wiki.Events.Overrides.{
  validate, validate_all, put_ids, enter, enter_all, index_of, hit, applying, hit_found, target,
  pinned_name, unmatched_from, unmatched, Override,
}
use tennis_wiki.Events.Ordinals.{
  played_before, by_group, number_rows, number_groups, ordinals_within_season,
}
use tennis_wiki.Events.Names.{
  all_digits, drop_suffix, before_colon, cup_here, through_cup, competition_words, normalise,
  competition, title_competition, trim_zeros, after_year, is_year_or_end, split_digits, number_part,
  is_m_code, raw_key_of, number_key, name_key, team_key, split_colons, ordinal_of,
}
use tennis_wiki.Base.Dict.{find?, modify, put}
use tennis_wiki.Base.Sort.{Increasing}
use tennis_wiki.Base.Sort
use tennis_wiki.Events.Ordinals.{Pending}
use tennis_wiki.Events.Ordinals.Ranks.{earlier, ordinals_within_season-earlier}
use tennis_wiki.Events.Names.Keys.{ordinal_of-name_key}
use tennis_wiki.Events.Filing.Accounted.{HasDistinctIds}
use tennis_wiki.Events.Resolve.Partition.{resolve-partition}
use tennis_wiki.Events.Resolve.Runs.{IsDescribed}
use tennis_wiki.Events.Resolve.Derived.{resolve-Increasing, resolve-IsDescribed}

abbrev atp_row : ℕ → Bytes → Bytes → Bytes → ℕ → ℕ → Row
atp_row id source_id name level season day = record {
  id = id;
  tour = codes "atp";
  source_id = source_id;
  name = name;
  level = level;
  tier = codes "tour";
  season = season;
  start_date = day;
}

-- Two editions under one number, one by a code that an override files, two Adelaides of one season
-- in the source's order, one more that is bridged, and a tie.
abbrev rows : List Row
rows =
    atp_row 1 (codes "2019-0404") (codes "Indian Wells Masters") (codes "M") 2019 100
    ∷ atp_row 2 (codes "2021-M006") (codes "Indian Wells Masters") (codes "M") 2021 300
    ∷ atp_row 3 (codes "2023-a2") (codes "Adelaide 2") (codes "A") 2023 20
    ∷ atp_row 4 (codes "2023-a1") (codes "Adelaide 1") (codes "A") 2023 10
    ∷ atp_row 5 (codes "2022-8998") (codes "Adelaide") (codes "A") 2022 12
    ∷ atp_row 6 (codes "2022-d") (codes "Davis Cup WG R1: ESP vs CZE") (codes "D") 2022 40
    ∷ []

abbrev decisions : List Override
decisions =
    record {
      tour = codes "atp";
      number = [];
      code = codes "M006";
      source_id = [];
      source_ids = [];
      to = codes "404";
      name = [];
    }
    ∷ []

abbrev result : Result
unfolding new_filing add_text note_name assign assign_number file_raw file_target file_row file_rows
    candidates place_first place place_all same_link display_name edition_before event_before key_at
    count_link by_event by_link describe finish file collect resolve validate validate_all put_ids
    enter enter_all index_of hit applying hit_found target pinned_name unmatched_from unmatched
    played_before by_group number_rows number_groups ordinals_within_season all_digits drop_suffix
    before_colon cup_here through_cup competition_words normalise competition title_competition
    trim_zeros after_year is_year_or_end split_digits number_part is_m_code raw_key_of number_key
    name_key team_key split_colons ordinal_of find? modify put Sort.insert Sort.sort slug convert
    write_runes write_rune is_alphanumeric to_lower_rune fold find_fold among is_space_rune equal
    is_digit to_lower_byte trim trim_left trim_right text_less Int.itoa Int.atoi Int.digits_value
result = resolve latin (λ m. m) (λ m. m) (λ m. m) rows decisions

abbrev ids : Event → List ℕ
ids ev = map (λ (d : Edition). d.row.id) ev.editions

groups_of_rows : map ids result.events ≡ (3 ∷ []) ∷ (1 ∷ 2 ∷ []) ∷ (5 ∷ 4 ∷ []) ∷ (6 ∷ []) ∷ []
unfolding new_filing add_text note_name assign assign_number file_raw file_target file_row file_rows
    candidates place_first place place_all same_link display_name edition_before event_before key_at
    count_link by_event by_link describe finish file collect resolve validate validate_all put_ids
    enter enter_all index_of hit applying hit_found target pinned_name unmatched_from unmatched
    played_before by_group number_rows number_groups ordinals_within_season all_digits drop_suffix
    before_colon cup_here through_cup competition_words normalise competition title_competition
    trim_zeros after_year is_year_or_end split_digits number_part is_m_code raw_key_of number_key
    name_key team_key split_colons ordinal_of find? modify put Sort.insert Sort.sort slug convert
    write_runes write_rune is_alphanumeric to_lower_rune fold find_fold among is_space_rune equal
    is_digit to_lower_byte trim trim_left trim_right text_less Int.itoa Int.atoi Int.digits_value
groups_of_rows = refl

keys_of_rows :
    map (λ (e : Event). e.key) result.events
    ≡ codes "name:tour:adelaide:2"
      ∷ codes "number:404"
      ∷ codes "number:8998"
      ∷ codes "team:davis-cup"
      ∷ []
unfolding new_filing add_text note_name assign assign_number file_raw file_target file_row file_rows
    candidates place_first place place_all same_link display_name edition_before event_before key_at
    count_link by_event by_link describe finish file collect resolve validate validate_all put_ids
    enter enter_all index_of hit applying hit_found target pinned_name unmatched_from unmatched
    played_before by_group number_rows number_groups ordinals_within_season all_digits drop_suffix
    before_colon cup_here through_cup competition_words normalise competition title_competition
    trim_zeros after_year is_year_or_end split_digits number_part is_m_code raw_key_of number_key
    name_key team_key split_colons ordinal_of find? modify put Sort.insert Sort.sort slug convert
    write_runes write_rune is_alphanumeric to_lower_rune fold find_fold among is_space_rune equal
    is_digit to_lower_byte trim trim_left trim_right text_less Int.itoa Int.atoi Int.digits_value
keys_of_rows = refl

names_of_rows :
    map (λ (e : Event). e.name) result.events
    ≡ codes "Adelaide 2"
      ∷ codes "Indian Wells Masters"
      ∷ codes "Adelaide 1"
      ∷ codes "Davis Cup"
      ∷ []
unfolding new_filing add_text note_name assign assign_number file_raw file_target file_row file_rows
    candidates place_first place place_all same_link display_name edition_before event_before key_at
    count_link by_event by_link describe finish file collect resolve validate validate_all put_ids
    enter enter_all index_of hit applying hit_found target pinned_name unmatched_from unmatched
    played_before by_group number_rows number_groups ordinals_within_season all_digits drop_suffix
    before_colon cup_here through_cup competition_words normalise competition title_competition
    trim_zeros after_year is_year_or_end split_digits number_part is_m_code raw_key_of number_key
    name_key team_key split_colons ordinal_of find? modify put Sort.insert Sort.sort slug convert
    write_runes write_rune is_alphanumeric to_lower_rune fold find_fold among is_space_rune equal
    is_digit to_lower_byte trim trim_left trim_right text_less Int.itoa Int.atoi Int.digits_value
names_of_rows = refl

-- The maps visited backwards.
abbrev reversed {ℓ} : {A : Type ℓ} (m : List A) → Permᴰ (reverse m) m
reversed m = Permᴰ.reverse m

-- The ids of the rows are 1 to 6.
distinct_rows : HasDistinctIds rows
distinct_rows = (
  (omega arith, (omega arith, (omega arith, (omega arith, (omega arith, tt))))),
  (
    (omega arith, (omega arith, (omega arith, (omega arith, tt)))),
    (
      (omega arith, (omega arith, (omega arith, tt))),
      ((omega arith, (omega arith, tt)), ((omega arith, tt), (tt, tt))),
    ),
  ),
)

resolve-partition_example :
    Permᴰ
      (map
        (λ ed. ed.row)
        (gather (λ ev. ev.editions) (resolve latin reverse reverse reverse rows decisions).events))
      rows
resolve-partition_example =
    resolve-partition latin reverse reverse reverse reversed reversed rows decisions distinct_rows

resolve-Increasing_example :
    Increasing event_before (resolve latin reverse reverse reverse rows decisions).events
resolve-Increasing_example =
    resolve-Increasing latin reverse reverse reverse reversed reversed rows decisions distinct_rows

resolve-IsDescribed_example :
    All IsDescribed (resolve latin reverse reverse reverse rows decisions).events
resolve-IsDescribed_example =
    resolve-IsDescribed latin reverse reverse reverse reversed reversed rows decisions distinct_rows

ordinal_of-name_key_example :
    ordinal_of (name_key (codes "itf") (normalise latin (codes "W15 Monastir")) 2) ≡ 2
ordinal_of-name_key_example =
    ordinal_of-name_key latin (codes "itf") (codes "W15 Monastir") 2
      (omega arith, (omega arith, (omega arith, tt))) (omega arith)

-- The two Adelaides of one season.
abbrev adelaides : List Pending
adelaides =
    record {
      row = atp_row 3 (codes "2023-a2") (codes "Adelaide 2") (codes "A") 2023 20;
      norm = codes "adelaide";
    }
    ∷ record {
      row = atp_row 4 (codes "2023-a1") (codes "Adelaide 1") (codes "A") 2023 10;
      norm = codes "adelaide";
    }
    ∷ []

earlier-adelaides : map (λ p. suc (earlier p adelaides)) adelaides ≡ 2 ∷ 1 ∷ []
unfolding earlier played_before equal text_less
earlier-adelaides = refl

ordinals_within_season-earlier_example :
    ordinals_within_season reverse adelaides ≡ map (λ p. suc (earlier p adelaides)) adelaides
ordinals_within_season-earlier_example =
    ordinals_within_season-earlier reverse reversed adelaides ((omega arith, tt), (tt, tt))

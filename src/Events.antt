-- ===== src/Events.antt =====
-- internal/events: what an event is across seasons. This file has the types of events.go.
pub mod Names
pub mod Overrides
pub mod Ordinals
pub mod Filing
pub mod Resolve
mod Tests
use tennis_wiki.Base.{ℕ, List, Bool, true, false, ◌≡◌, refl}
use tennis_wiki.Base.Text.{Bytes}

-- `Row`. A time is a number of days.
pub record Row : Type 0 where
  pub id : ℕ
  pub tour : Bytes
  pub source_id : Bytes
  pub name : Bytes
  pub level : Bytes
  pub tier : Bytes
  pub season : ℕ
  pub start_date : ℕ

-- `Link`
pub data Link : Type 0 where
  link_override link_number link_bridged link_name link_team : Link

-- `Edition`
pub record Edition : Type 0 where
  pub row : Row
  pub link : Link

-- `Event`, without the slug, which `Resolve` leaves empty.
pub record Event : Type 0 where
  pub tour : Bytes
  pub key : Bytes
  pub name : Bytes
  pub ordinal : ℕ
  pub first_season : ℕ
  pub last_season : ℕ
  pub editions : List Edition

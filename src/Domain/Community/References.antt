-- ===== src/Domain/Community/References.antt =====
-- domain/community.py: the values that a report keeps of the canonical entities.

use fpl_data_relay.Prelude.{
  ℕ, String, Bool, true, not, ◌&&◌, Option, none, some, string_key, nat_key,
}
use fpl_data_relay.Result.{Result, ok, ◌>>◌, raise_if, value_error}
use fpl_data_relay.Domain.Time.{Datetime, is_aware}
use fpl_data_relay.Domain.Community.Kinds.{SourceType, EntityType, given, fields_valid}
use fpl_data_relay.Domain.Json.{ℤ}
use fpl_data_relay.Domain.Community.Documents.{Engagement}

pub record EvidenceReference : Type 0 where
  pub document_id : String
  pub source_key : String
  pub source_type : SourceType
  pub publisher : String
  pub title : String
  pub url : String
  pub published_at : Datetime
  pub engagement : Engagement

unfoldable pub validate_evidence : EvidenceReference → Result EvidenceReference
validate_evidence e = do
  fields_valid (given e.document_id && given e.source_key && given e.publisher && given e.title)
  raise_if (not (is_aware e.published_at))
      (value_error "Evidence published_at must be timezone-aware.")
  ok e

pub record PlayerSnapshot : Type 0 where
  pub web_name : String
  pub first_name : String
  pub second_name : String
  pub team_id : ℕ
  pub team_name : String
  pub element_type_id : ℕ
  pub element_type_name : String
  pub now_cost : Option ℤ
  pub selected_by_percent : Option String
  pub total_points : Option ℤ
  pub form : Option String
  pub minutes : Option ℤ
  pub goals_scored : Option ℤ
  pub assists : Option ℤ
  pub clean_sheets : Option ℤ
  pub status : Option String
  pub news : Option String
  pub chance_of_playing_next_round : Option ℤ
  pub chance_of_playing_this_round : Option ℤ

pub record TeamSnapshot : Type 0 where
  pub name : String
  pub short_name : String
  pub strength : Option ℤ
  pub strength_overall_home : Option ℤ
  pub strength_overall_away : Option ℤ
  pub strength_attack_home : Option ℤ
  pub strength_attack_away : Option ℤ
  pub strength_defence_home : Option ℤ
  pub strength_defence_away : Option ℤ

pub record EventSnapshot : Type 0 where
  pub name : String
  pub deadline_time : Option Datetime
  pub average_entry_score : Option ℤ
  pub highest_score : Option ℤ
  pub highest_scoring_entry : Option ℤ
  pub finished : Option Bool
  pub data_checked : Option Bool
  pub is_previous : Bool
  pub is_current : Bool
  pub is_next : Bool

abbrev pub is_aware_or_none : Option Datetime → Bool
is_aware_or_none none = true
is_aware_or_none (some t) = is_aware t

unfoldable pub validate_event_snapshot : EventSnapshot → Result EventSnapshot
validate_event_snapshot s = do
  raise_if (not (is_aware_or_none s.deadline_time))
      (value_error "Event deadline_time must be timezone-aware.")
  ok s

pub record FixtureSnapshot : Type 0 where
  pub event_id : Option ℕ
  pub kickoff_time : Option Datetime
  pub home_team_id : ℕ
  pub home_team_name : String
  pub away_team_id : ℕ
  pub away_team_name : String
  pub home_score : Option ℕ
  pub away_score : Option ℕ
  pub started : Bool
  pub finished : Bool

unfoldable pub validate_fixture_snapshot : FixtureSnapshot → Result FixtureSnapshot
validate_fixture_snapshot s = do
  raise_if (not (is_aware_or_none s.kickoff_time))
      (value_error "Fixture kickoff_time must be timezone-aware.")
  ok s

pub record PlayerReference : Type 0 where
  pub season_id : String
  pub entity_id : ℕ
  pub display_name : String
  pub snapshot : PlayerSnapshot

pub record TeamReference : Type 0 where
  pub season_id : String
  pub entity_id : ℕ
  pub display_name : String
  pub snapshot : TeamSnapshot

pub record EventReference : Type 0 where
  pub season_id : String
  pub entity_id : ℕ
  pub display_name : String
  pub snapshot : EventSnapshot

pub record FixtureReference : Type 0 where
  pub season_id : String
  pub entity_id : ℕ
  pub display_name : String
  pub snapshot : FixtureSnapshot

pub data EntityReference : Type 0 where
  player_reference : PlayerReference → EntityReference
  team_reference : TeamReference → EntityReference
  event_reference : EventReference → EntityReference
  fixture_reference : FixtureReference → EntityReference

-- `(item.entity_type, item.entity_id)`
abbrev pub reference_type : EntityReference → EntityType
reference_type (player_reference r) = EntityType.player
reference_type (team_reference r) = EntityType.team
reference_type (event_reference r) = EntityType.event
reference_type (fixture_reference r) = EntityType.fixture

abbrev pub reference_id : EntityReference → ℕ
reference_id (player_reference r) = r.entity_id
reference_id (team_reference r) = r.entity_id
reference_id (event_reference r) = r.entity_id
reference_id (fixture_reference r) = r.entity_id

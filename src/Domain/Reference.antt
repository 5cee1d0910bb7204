-- ===== src/Domain/Reference.antt =====
-- domain/reference.py and domain/fixtures.py: the entities that the rules and the planner read.
use fpl_data_relay.Prelude.{ℕ, String, Bool, Option, List}
use fpl_data_relay.Domain.Json.{Json, ℤ}
use fpl_data_relay.Domain.Time.{Datetime}

pub record Season : Type 0 where
  pub id : String
  pub start_year : ℕ
  pub end_year : ℕ
  pub first_deadline_time : Datetime
  pub last_deadline_time : Datetime
  pub is_current : Bool

pub record Event : Type 0 where
  pub id : ℕ
  pub name : String
  pub deadline_time : Option Datetime
  pub average_entry_score : Option ℤ
  pub finished : Option Bool
  pub data_checked : Option Bool
  pub highest_scoring_entry : Option ℤ
  pub deadline_time_epoch : Option ℤ
  pub deadline_time_game_offset : Option ℤ
  pub highest_score : Option ℤ
  pub is_previous : Bool
  pub is_current : Bool
  pub is_next : Bool

pub record FixtureStatEntry : Type 0 where
  pub value : Json
  pub element : Option ℕ

pub record FixtureStat : Type 0 where
  pub identifier : String
  pub a : List FixtureStatEntry
  pub h : List FixtureStatEntry

pub record Fixture : Type 0 where
  pub id : ℕ
  pub code : Option ℕ
  pub event : Option ℕ
  pub finished : Bool
  pub finished_provisional : Option Bool
  pub kickoff_time : Option Datetime
  pub minutes : Option ℕ
  pub provisional_start_time : Option Bool
  pub started : Bool
  pub team_a : ℕ
  pub team_a_score : Option ℕ
  pub team_h : ℕ
  pub team_h_score : Option ℕ
  pub stats : List FixtureStat
  pub pulse_id : Option ℕ

-- ===== src/Domain/Bootstrap.antt =====
-- domain/reference.py: the entities of the bootstrap response that the rules do not read, and the
-- response itself. Numbers that name an entity are natural; all others are integers.
use fpl_data_relay.Prelude.{ℕ, String, Bool, Option, List}
use fpl_data_relay.Domain.Json.{ℤ}
use fpl_data_relay.Domain.Time.{Datetime}
use fpl_data_relay.Domain.Reference.{Event}

pub record Phase : Type 0 where
  pub id : ℕ
  pub name : String
  pub start_event : ℕ
  pub stop_event : ℕ

pub record Team : Type 0 where
  pub id : ℕ
  pub name : String
  pub short_name : String
  pub code : Option ℤ
  pub strength : Option ℤ
  pub strength_overall_home : Option ℤ
  pub strength_overall_away : Option ℤ
  pub strength_attack_home : Option ℤ
  pub strength_attack_away : Option ℤ
  pub strength_defence_home : Option ℤ
  pub strength_defence_away : Option ℤ
  pub pulse_id : Option ℤ

pub record ElementType : Type 0 where
  pub id : ℕ
  pub singular_name : String
  pub singular_name_short : Option String
  pub plural_name : Option String
  pub plural_name_short : Option String
  pub squad_select : Option ℤ
  pub squad_min_play : Option ℤ
  pub squad_max_play : Option ℤ
  pub ui_shirt_specific : Option Bool
  pub sub_positions_locked : List ℤ
  pub element_count : Option ℤ

pub record ElementStatDefinition : Type 0 where
  pub label : String
  pub name : String

pub record Element : Type 0 where
  pub id : ℕ
  pub code : Option ℤ
  pub first_name : String
  pub second_name : String
  pub web_name : String
  pub photo : Option String
  pub team : ℕ
  pub team_code : Option ℤ
  pub element_type : ℕ
  pub status : Option String
  pub news : Option String
  pub news_added : Option Datetime
  pub now_cost : Option ℤ
  pub selected_by_percent : Option String
  pub total_points : Option ℤ
  pub chance_of_playing_next_round : Option ℤ
  pub chance_of_playing_this_round : Option ℤ
  pub form : Option String
  pub minutes : Option ℤ
  pub goals_scored : Option ℤ
  pub assists : Option ℤ
  pub clean_sheets : Option ℤ
  pub goals_conceded : Option ℤ
  pub own_goals : Option ℤ
  pub penalties_saved : Option ℤ
  pub penalties_missed : Option ℤ
  pub yellow_cards : Option ℤ
  pub red_cards : Option ℤ
  pub saves : Option ℤ
  pub bonus : Option ℤ
  pub bps : Option ℤ
  pub influence : Option String
  pub creativity : Option String
  pub threat : Option String
  pub ict_index : Option String
  pub expected_goals : Option String
  pub expected_assists : Option String
  pub expected_goal_involvements : Option String
  pub expected_goals_conceded : Option String

pub record BootstrapStatic : Type 0 where
  pub events : List Event
  pub phases : List Phase
  pub teams : List Team
  pub elements : List Element
  pub element_stats : List ElementStatDefinition
  pub element_types : List ElementType

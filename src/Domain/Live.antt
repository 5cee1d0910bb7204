-- ===== src/Domain/Live.antt =====
-- domain/live.py: the event status and the live data of an event.
use fpl_data_relay.Prelude.{ℕ, String, Bool, Option, List}
use fpl_data_relay.Domain.Json.{Json, ℤ}

pub data EventStatusPoints : Type 0 where
  not_started live provisional confirmed : EventStatusPoints

pub record EventStatusDay : Type 0 where
  pub event : ℕ
  pub bonus_added : Bool
  pub date : ℕ
  pub points : EventStatusPoints

pub record EventStatusResponse : Type 0 where
  pub status : List EventStatusDay
  pub leagues : Option String

pub record LiveElementStats : Type 0 where
  pub minutes : Option ℤ
  pub goals_scored : Option ℤ
  pub assists : Option ℤ
  pub clean_sheets : Option ℤ
  pub goals_conceded : Option ℤ
  pub own_goals : Option ℤ
  pub penalties_saved : Option ℤ
  pub penalties_missed : Option ℤ
  pub yellow_cards : Option ℤ
  pub red_cards : Option ℤ
  pub saves : Option ℤ
  pub bonus : Option ℤ
  pub bps : Option ℤ
  pub influence : Option String
  pub creativity : Option String
  pub threat : Option String
  pub ict_index : Option String
  pub starts : Option ℤ
  pub expected_goals : Option String
  pub expected_assists : Option String
  pub expected_goal_involvements : Option String
  pub expected_goals_conceded : Option String
  pub defensive_contribution : Option ℤ
  pub total_points : Option ℤ
  pub in_dreamteam : Option Bool

pub record LiveElementExplainStat : Type 0 where
  pub identifier : String
  pub points : ℤ
  pub value : Json

pub record LiveElementExplain : Type 0 where
  pub fixture : ℕ
  pub stats : List LiveElementExplainStat

pub record LiveElement : Type 0 where
  pub id : ℕ
  pub stats : LiveElementStats
  pub explain : List LiveElementExplain

pub record EventLiveResponse : Type 0 where
  pub elements : List LiveElement

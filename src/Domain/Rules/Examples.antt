-- ===== src/Domain/Rules/Examples.antt =====
-- Two events of the season 2025-26, and the theorems at this input.
use fpl_data_relay.Prelude.{ℕ, ◌≡◌, refl, Bool, true, false, Option, none, some, [], ◌∷◌}
use fpl_data_relay.Result.{ok}
use fpl_data_relay.Domain.Time.{Datetime, utc, seconds, year}
use fpl_data_relay.Domain.Calendar.{decimal}
use fpl_data_relay.Domain.Reference.{Event}
use fpl_data_relay.Domain.Rules.{select_current_event_id, derive_season, min_from, max_from}
use fpl_data_relay.Domain.Rules.CurrentEvent.{SelectsCurrent, select_current_event_cases}
use fpl_data_relay.Domain.Rules.SeasonBounds.{Derives, derive_season-Derives}

abbrev event : ℕ → Bool → Option Datetime → Event
event id current deadline = record {
  id = id;
  name = "Gameweek";
  deadline_time = deadline;
  average_entry_score = none;
  finished = none;
  data_checked = none;
  highest_scoring_entry = none;
  deadline_time_epoch = none;
  deadline_time_game_offset = none;
  highest_score = none;
  is_previous = false;
  is_current = current;
  is_next = false;
}

-- 2025-08-15T17:30Z and 2026-05-24T13:30Z
abbrev opening : Event
opening = event 1 true (some (utc (seconds 63890875800)))

abbrev closing : Event
closing = event 38 false (some (utc (seconds 63915226200)))

select_runs : select_current_event_id (opening ∷ closing ∷ []) ≡ ok (some 1)
unfolding select_current_event_id
select_runs = refl

derive_runs :
    derive_season (opening ∷ closing ∷ [])
    ≡ ok (record {
      id = "2025-26";
      start_year = 2025;
      end_year = 2026;
      first_deadline_time = utc (seconds 63890875800);
      last_deadline_time = utc (seconds 63915226200);
      is_current = true;
    })
unfolding derive_season min_from max_from year decimal
derive_runs = refl

select_current_event_cases_example :
    SelectsCurrent (opening ∷ closing ∷ []) (select_current_event_id (opening ∷ closing ∷ []))
select_current_event_cases_example = select_current_event_cases (opening ∷ closing ∷ [])

derive_season-Derives_example :
    Derives (opening ∷ closing ∷ []) (derive_season (opening ∷ closing ∷ []))
derive_season-Derives_example =
    derive_season-Derives opening (closing ∷ [])
      ((utc (seconds 63890875800), refl, refl), ((utc (seconds 63915226200), refl, refl), tt))

-- ===== src/LambdaIngestion/Schedules.antt =====
-- lambda_ingestion.py: the listing and the reconciliation of the live schedules.
pub mod Reconciled
pub mod Listing
pub mod Whole
mod Examples
use fpl_data_relay.Prelude.{
  ℕ, zero, suc, ◌+◌, String, Bool, true, false, not, ◌&&◌, Option, none, some, List, [], ◌∷◌, ◌++◌,
  ◌=?◌, string_key, length, filter, contains, if◌then◌else◌,
}
use fpl_data_relay.Prelude.Dict.{Dict, put, keys, sorted_set}
use fpl_data_relay.Result.{Result, ok, err, runtime_error, ◌>>=◌ as ◌then◌}
use fpl_data_relay.Exec.{Exec, return, raise, lift, for_each, ◌>>=◌, ◌>>◌}
use fpl_data_relay.Domain.Json.{Json, Items, Fields, arr, nil, cons, obj, str, null, find_field}
use fpl_data_relay.Domain.Time.{Datetime, not_after}
use fpl_data_relay.Application.Jobs.{MatchWindow, schedule_name}
use fpl_data_relay.LambdaIngestion.Ports.{Settings, Services, Libraries}
use fpl_data_relay.LambdaIngestion.Definitions.{
  LiveScheduleDefinition, parse_schedule_definition, same_definition, schedule_parameters,
}

pub record ScheduleReconciliationResult : Type 0 where
  pub created_count : ℕ
  pub updated_count : ℕ
  pub deleted_count : ℕ

-- The name of one entry of a listing.
abbrev name_of_value : Option Json → Result String
name_of_value (some (str s)) =
    if s =? "" then err (runtime_error "Scheduler returned a schedule without a name.") else ok s
name_of_value _ = err (runtime_error "Scheduler returned a schedule without a name.")

abbrev entry_name : Json → Result String
entry_name (obj fields) = name_of_value (find_field "Name" fields)
entry_name _ = err (runtime_error "Scheduler returned an invalid schedule entry.")

abbrev entry_names : Items → Result (List String)
entry_names nil = ok []
entry_names (cons x xs) = entry_name x then λ name. entry_names xs then λ names. ok (name ∷ names)

-- `response.get("Schedules", [])`
abbrev names_in : Option Json → Result (List String)
names_in none = ok []
names_in (some (arr items)) = entry_names items
names_in (some _) = err (runtime_error "Scheduler returned an invalid schedule list.")

-- `response.get("NextToken")`
abbrev token_in : Option Json → Result (Option String)
token_in none = ok none
token_in (some null) = ok none
token_in (some (str token)) = ok (some token)
token_in (some _) = err (runtime_error "Scheduler returned an invalid pagination token.")

-- The dict of the desired windows by name.
pub desired_from : Dict String MatchWindow → List MatchWindow → Dict String MatchWindow
unfolding put schedule_name
desired_from d [] = d
desired_from d (w ∷ windows) = desired_from (put (schedule_name w) w d) windows

-- The names that are no longer desired.
abbrev pub obsolete_names : List String → Dict String MatchWindow → List String
obsolete_names existing desired =
    sorted_set (filter (λ name. not (contains name (keys desired))) existing)

module _ {S : Type 0} (settings : Settings) (services : Services S) (libraries : Libraries) where
  open settings use {schedule_group_name}
  open services use {scheduler}

  -- The loop over the pages. None is a loop that the fuel has not seen end.
  pub list_names : (fuel : ℕ) → List String → Option String → Exec S (Option (List String))
  list_names zero names next_token = return none
  list_names (suc fuel) names next_token = do
    response ← scheduler.list_schedules schedule_group_name "fpl-live-" next_token
    more ← lift (names_in (find_field "Schedules" response))
    token ← lift (token_in (find_field "NextToken" response))
    elim token [
      | none ↦ return (some (names ++ more))
      | some t ↦ list_names fuel (names ++ more) (some t)
    ]

  pub list_live_schedule_names : (fuel : ℕ) → Exec S (Option (List String))
  unfolding list_names
  list_live_schedule_names fuel = list_names fuel [] none

  -- The schedule exists: it is written again if it differs. The counts are of creations and updates.
  pub update_existing : String → Fields → Exec S (ℕ × ℕ)
  unfolding parse_schedule_definition
  update_existing name parameters = do
    response ← scheduler.get_schedule schedule_group_name name
    actual ← lift (parse_schedule_definition response)
    desired ← lift (parse_schedule_definition parameters)
    (if same_definition actual desired
        then return (0, 0)
        else scheduler.update_schedule parameters >> return (0, 1))

  -- The body of the loop over the desired windows.
  pub reconcile_one : List String → Datetime → String → MatchWindow → Exec S (ℕ × ℕ)
  unfolding update_existing schedule_parameters
  reconcile_one existing now name window =
      if contains name existing && not_after window.start now
      then return (0, 0)
      else lift (schedule_parameters settings libraries window now) >>= λ parameters.
          if contains name existing
          then update_existing name parameters
          else scheduler.create_schedule parameters >> return (1, 0)

  pub reconcile_each :
      List String → Datetime → Dict String MatchWindow → (created updated : ℕ) → Exec S (ℕ × ℕ)
  unfolding reconcile_one
  reconcile_each existing now [] created updated = return (created, updated)
  reconcile_each existing now ((name, window) ∷ desired) created updated = do
    counts ← reconcile_one existing now name window
    reconcile_each existing now desired (created + counts.0) (updated + counts.1)

  pub delete_each : List String → Exec S (Unit {0})
  delete_each = for_each (λ name. scheduler.delete_schedule schedule_group_name name)

  -- `reconcile_schedules`, from the names that the listing has found.
  pub reconcile_found :
      List String → List MatchWindow → Datetime → Exec S ScheduleReconciliationResult
  unfolding reconcile_each desired_from delete_each
  reconcile_found existing windows now = do
    delete_each (obsolete_names existing (desired_from [] windows))
    counts ← reconcile_each existing now (desired_from [] windows) 0 0
    return (record {
      created_count = counts.0;
      updated_count = counts.1;
      deleted_count = length (obsolete_names existing (desired_from [] windows));
    })

  pub reconcile_schedules :
      (fuel : ℕ) → List MatchWindow → Datetime → Exec S (Option ScheduleReconciliationResult)
  unfolding list_live_schedule_names reconcile_found
  reconcile_schedules fuel windows now = do
    found ← list_live_schedule_names fuel
    elim found [
      | none ↦ return none
      | some existing ↦ reconcile_found existing windows now >>= λ result. return (some result)
    ]

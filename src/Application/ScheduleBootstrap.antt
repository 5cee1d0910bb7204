-- ===== src/Application/ScheduleBootstrap.antt =====
-- application/schedule_bootstrap.py: the schedules that a file keeps while a migration runs, and their
-- pause. The file is a part of the world.
pub mod Paused
mod Examples
use fpl_data_relay.Prelude.{
  ℕ, String, Bool, true, false, not, ◌&&◌, ◌||◌, Option, none, some, List, [], ◌∷◌, ◌==◌, ◌=?◌,
  string_key, any, if◌then◌else◌,
}
use fpl_data_relay.Result.{
  Result, ok, err, Error, value_error, runtime_error, raise_if, ◌>>=◌ as ◌then◌, ◌>>◌ as ◌also◌,
}
use fpl_data_relay.Exec.{Exec, return, raise, lift, raise_when, for_each, ◌>>=◌, ◌>>◌}
use fpl_data_relay.Domain.Time.{Datetime, is_aware}
use fpl_data_relay.Application.Administration.Maintenance.{starts_with}
use fpl_data_relay.Application.Administration.Ports.{
  ScheduleState, enabled, disabled, ScheduleTargetSnapshot, ScheduleSnapshot, AwsIdentity,
  AwsAdministration,
}

pub record ScheduleBootstrapSnapshot : Type 0 where
  pub account_id : String
  pub aws_region : String
  pub app_stack_name : String
  pub captured_at : Datetime
  pub schedules : List ScheduleSnapshot

-- The file of the snapshot: whether it exists, its validated content, and its creation.
pub record SnapshotFile (S : Type 0) : Type 0 where
  pub exists : Exec S Bool
  pub load_schedule_snapshot : Exec S ScheduleBootstrapSnapshot
  pub write_schedule_snapshot : ScheduleBootstrapSnapshot → Exec S (Unit {0})

abbrev pub same_identity : ScheduleSnapshot → ScheduleSnapshot → Bool
same_identity a b = a.group_name =? b.group_name && a.name =? b.name

abbrev pub has_identity : ScheduleSnapshot → List ScheduleSnapshot → Bool
has_identity a schedules = any (same_identity a) schedules

abbrev pub has_duplicates : List ScheduleSnapshot → Bool
has_duplicates [] = false
has_duplicates (a ∷ schedules) = has_identity a schedules || has_duplicates schedules

abbrev is_empty : List ScheduleSnapshot → Bool
is_empty [] = true
is_empty (a ∷ schedules) = false

-- `schedule_map`: the dict by identity is the list, where no identity stands twice.
pub schedule_map : List ScheduleSnapshot → Result (List ScheduleSnapshot)
schedule_map schedules =
    raise_if (has_duplicates schedules)
      (runtime_error "Schedule set contains duplicate identities.")
    also ok schedules

-- `aware_utc`; the instant stays the same.
pub aware_utc : Datetime → Result Datetime
aware_utc value =
    raise_if (not (is_aware value)) (value_error "Schedule time must be timezone-aware.")
    also ok value

-- The constraints of `ScheduleBootstrapSnapshot`; the account id is that of a valid identity.
pub validate_snapshot : ScheduleBootstrapSnapshot → Result ScheduleBootstrapSnapshot
validate_snapshot snapshot =
    raise_if (snapshot.aws_region =? "" || snapshot.app_stack_name =? "")
      (value_error "String should have at least 1 character")
    also raise_if (is_empty snapshot.schedules)
        (value_error "List should have at least 1 item after validation")
    also raise_if (not (is_aware snapshot.captured_at))
        (value_error "Schedule snapshot timestamp must be timezone-aware.")
    also raise_if (has_duplicates snapshot.schedules)
        (value_error "Schedule snapshot contains duplicate identities.")
    also ok snapshot

pub validate_snapshot_context :
    ScheduleBootstrapSnapshot → (account_id aws_region app_stack_name : String) → Result (Unit {0})
validate_snapshot_context snapshot account_id aws_region app_stack_name =
    raise_if
      (not (
        snapshot.account_id =? account_id
        && snapshot.aws_region =? aws_region
        && snapshot.app_stack_name =? app_stack_name))
      (runtime_error "Schedule snapshot context mismatch.")

abbrev same_optional : Option String → Option String → Bool
same_optional none none = true
same_optional none (some b) = false
same_optional (some a) none = false
same_optional (some a) (some b) = a =? b

abbrev same_target : ScheduleTargetSnapshot → ScheduleTargetSnapshot → Bool
same_target a b =
    a.arn =? b.arn
    && a.role_arn =? b.role_arn
    && a.input =? b.input
    && a.dead_letter_arn =? b.dead_letter_arn
    && a.maximum_event_age_seconds == b.maximum_event_age_seconds
    && a.maximum_retry_attempts == b.maximum_retry_attempts

-- The dumps without the state, and without the expression if it may change.
abbrev pub same_definition_but :
    (without_expression : Bool) → ScheduleSnapshot → ScheduleSnapshot → Bool
same_definition_but without_expression a b =
    a.name =? b.name
    && a.group_name =? b.group_name
    && (without_expression || a.schedule_expression =? b.schedule_expression)
    && a.schedule_expression_timezone =? b.schedule_expression_timezone
    && a.flexible_window_mode =? b.flexible_window_mode
    && same_optional a.action_after_completion b.action_after_completion
    && same_optional a.description b.description
    && same_target a.target b.target

-- `current_by_identity[...]`
abbrev pub find_identity : ScheduleSnapshot → List ScheduleSnapshot → Option ScheduleSnapshot
find_identity a [] = none
find_identity a (b ∷ schedules) = if same_identity a b then some b else find_identity a schedules

abbrev pub has_drifted :
    (allow_live_expression_change : Bool) → List ScheduleSnapshot → ScheduleSnapshot → Bool
unfolding starts_with
has_drifted allow_live_expression_change current stored = elim (find_identity stored current) [
  | none ↦ true
  | some found ↦ not (
      same_definition_but (allow_live_expression_change && starts_with "fpl-live-" stored.name)
        stored found)
]

pub validate_schedule_set :
    (stored current : List ScheduleSnapshot)
    → (allow_live_expression_change : Bool) → Result (Unit {0})
unfolding has_drifted schedule_map
validate_schedule_set stored current allow_live_expression_change =
    schedule_map stored then λ stored_by_identity. schedule_map current then λ current_by_identity.
    raise_if
      (any (λ a. not (has_identity a current_by_identity)) stored_by_identity
        || any (λ a. not (has_identity a stored_by_identity)) current_by_identity)
      (runtime_error "Schedule set changed.")
    also raise_if
        (any (has_drifted allow_live_expression_change current_by_identity) stored_by_identity)
        (runtime_error "Schedule definitions changed after capture.")

abbrev pub is_enabled : ScheduleState → Bool
is_enabled enabled = true
is_enabled disabled = false

module _ {S : Type 0} (aws : AwsAdministration S) (file : SnapshotFile S) where
  -- The snapshot of the first attempt.
  capture_snapshot :
      AwsIdentity
      → (aws_region app_stack_name : String) → Datetime
      → Exec S ScheduleBootstrapSnapshot
  unfolding validate_snapshot
  capture_snapshot identity aws_region app_stack_name capture_time = do
    schedules ← aws.schedule_snapshots
    snapshot ← lift (
        validate_snapshot (record {
          account_id = identity.account_id;
          aws_region = aws_region;
          app_stack_name = app_stack_name;
          captured_at = capture_time;
          schedules = schedules;
        }))
    file.write_schedule_snapshot snapshot
    return snapshot

  -- What follows once the snapshot is there.
  pub pause_captured :
      ScheduleBootstrapSnapshot
      → (account_id aws_region app_stack_name : String) → Exec S ScheduleBootstrapSnapshot
  unfolding validate_snapshot_context validate_schedule_set
  pause_captured snapshot account_id aws_region app_stack_name = do
    lift (validate_snapshot_context snapshot account_id aws_region app_stack_name)
    current ← aws.schedule_snapshots
    lift (validate_schedule_set snapshot.schedules current false)
    for_each (λ s. aws.set_schedule_state s ScheduleState.disabled s.schedule_expression) current
    after ← aws.schedule_snapshots
    lift (validate_schedule_set snapshot.schedules after false)
    raise_when (any (λ (s : ScheduleSnapshot). is_enabled s.state) after)
        (runtime_error "Schedules remained enabled after pause.")
    return snapshot

  pub pause_schedules_to_snapshot :
      (aws_region app_stack_name : String)
      → (captured_at : Datetime) → Exec S ScheduleBootstrapSnapshot
  unfolding capture_snapshot pause_captured aware_utc
  pause_schedules_to_snapshot aws_region app_stack_name captured_at = do
    capture_time ← lift (aware_utc captured_at)
    identity ← aws.identity
    is_there ← file.exists
    snapshot ←
        (if is_there
          then file.load_schedule_snapshot
          else capture_snapshot identity aws_region app_stack_name capture_time)
    pause_captured snapshot identity.account_id aws_region app_stack_name

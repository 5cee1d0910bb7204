-- ===== src/Application/Administration/Ports.antt =====
-- application/ports/administration.py: the records and the ports of the administration.
use fpl_data_relay.Prelude.{ℕ, ◌+◌, String, Bool, Option, List}
use fpl_data_relay.Exec.{Exec}
use fpl_data_relay.Domain.Time.{Datetime}
use fpl_data_relay.Domain.Reference.{Season, Event, Fixture}

pub data ScheduleState : Type 0 where
  enabled disabled : ScheduleState

pub record ScheduleTargetSnapshot : Type 0 where
  pub arn : String
  pub role_arn : String
  pub input : String
  pub dead_letter_arn : String
  pub maximum_event_age_seconds : ℕ
  pub maximum_retry_attempts : ℕ

pub record ScheduleSnapshot : Type 0 where
  pub name : String
  pub group_name : String
  pub state : ScheduleState
  pub schedule_expression : String
  pub schedule_expression_timezone : String
  pub flexible_window_mode : String
  pub action_after_completion : Option String
  pub description : Option String
  pub target : ScheduleTargetSnapshot

pub record QueueDepth : Type 0 where
  pub name : String
  pub url : String
  pub visible : ℕ
  pub in_flight : ℕ
  pub delayed : ℕ

-- `QueueDepth.total`
abbrev pub total : QueueDepth → ℕ
total d = d.visible + d.in_flight + d.delayed

pub data MaintenancePhase : Type 0 where
  entering active exiting closed : MaintenancePhase

pub record MaintenanceWindow : Type 0 where
  pub id : ℕ
  pub reason : String
  pub operator_arn : String
  pub phase : MaintenancePhase
  pub schedules : List ScheduleSnapshot
  pub collector_was_running : Option Bool
  pub queues_before : List QueueDepth
  pub queues_after : List QueueDepth
  pub started_at : Datetime
  pub activated_at : Option Datetime
  pub closed_at : Option Datetime
  pub closed_by : Option String

pub record AwsIdentity : Type 0 where
  pub account_id : String
  pub arn : String

pub record NasCollectorStatus : Type 0 where
  pub running : Bool
  pub health : String
  pub image : String

pub record ChangeFeedRebaselineResult : Type 0 where
  pub id : ℕ
  pub season_id : String
  pub reason : String
  pub change_events_deleted : ℕ
  pub entity_changes_deleted : ℕ
  pub snapshots_rebuilt : ℕ
  pub created_at : Datetime

pub data AdministrationWorkflow : Type 0 where
  begin_maintenance end_maintenance rebaseline : AdministrationWorkflow

pub data AdministrationWorkflowStep : Type 0 where
  check_maintenance check_dead_letters check_queues read_collector pause_schedules
        drain_before_collector_stop stop_collector drain_after_collector_stop activate_maintenance
        begin_exit start_collector restore_schedules send_reference send_live drain_after_reference
        drain_after_live drain_before_rebaseline rebuild_baseline :
      AdministrationWorkflowStep

pub data AdministrationWorkflowStepState : Type 0 where
  started completed skipped failed : AdministrationWorkflowStepState

pub data QueueDrainStage : Type 0 where
  standalone before_collector_stop after_collector_stop after_reference after_live
        before_rebaseline :
      QueueDrainStage

-- Durations count microseconds of the monotonic clock.
pub record QueueDrainProgress : Type 0 where
  pub stage : QueueDrainStage
  pub queues : List QueueDepth
  pub elapsed : ℕ
  pub stable_for : ℕ
  pub required_stable_seconds : ℕ
  pub sampled_at : Datetime

-- `AdministrationProgress`; the detail of a workflow step is a text for display, and left out.
pub data AdministrationProgress : Type 0 where
  of_step :
      AdministrationWorkflow
      → AdministrationWorkflowStep
      → AdministrationWorkflowStepState
      → Datetime
      → AdministrationProgress
  of_drain : QueueDrainProgress → AdministrationProgress

abbrev pub Reporter : Type 0 → Type 0
Reporter S = AdministrationProgress → Exec S (Unit {0})

-- `AwsAdministration`, as far as the workflows call it.
pub record AwsAdministration (S : Type 0) : Type 0 where
  pub identity : Exec S AwsIdentity
  pub queue_depths : (include_dead_letters : Bool) → Exec S (List QueueDepth)
  pub schedule_snapshots : Exec S (List ScheduleSnapshot)
  pub set_schedule_state : ScheduleSnapshot → ScheduleState → String → Exec S (Unit {0})
  pub send_fetch_job : String → Exec S String
  pub send_community_job : String → Exec S String

-- `NasAdministration`, as far as the workflows call it.
pub record NasAdministration (S : Type 0) : Type 0 where
  pub status : Exec S NasCollectorStatus
  pub start : Exec S NasCollectorStatus
  pub stop : Exec S NasCollectorStatus

-- `ProductionAdministrationDatabase`, as far as the workflows call it.
pub record AdministrationDatabase (S : Type 0) : Type 0 where
  pub maintenance_active : Exec S Bool
  pub get_open_maintenance : Exec S (Option MaintenanceWindow)
  pub open_maintenance :
      (reason operator_arn : String)
      → List ScheduleSnapshot
      → List QueueDepth
      → Option Bool
      → Exec S MaintenanceWindow
  pub activate : ℕ → Bool → List QueueDepth → Exec S MaintenanceWindow
  pub begin_maintenance_exit : ℕ → Exec S MaintenanceWindow
  pub close_maintenance : ℕ → String → Exec S MaintenanceWindow
  pub rebaseline_current_change_feed : String → Exec S ChangeFeedRebaselineResult
  pub get_current_season : Exec S (Option Season)
  pub get_current_event : String → Exec S (Option Event)
  pub list_fixtures : String → Option ℕ → ℕ → ℕ → Exec S (List Fixture)

-- The clocks, the pause of the drain loop and its three settings in seconds. A reading of the
-- monotonic clock counts microseconds.
pub record AdministrationRuntime (S : Type 0) : Type 0 where
  pub drain_timeout_seconds : ℕ
  pub drain_poll_seconds : ℕ
  pub drain_stable_seconds : ℕ
  pub monotonic_clock : Exec S ℕ
  pub sleeper : ℕ → Exec S (Unit {0})
  pub clock : Exec S Datetime

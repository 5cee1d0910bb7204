-- ===== src/Application/Administration/Begin/Examples.antt =====
-- A running collector and empty queues, and the theorem on the beginning of a maintenance.
use fpl_data_relay.Prelude.{◌≡◌, refl, Bool, true, false, none, some, [], ◌∷◌}
use fpl_data_relay.Result.{ok}
use fpl_data_relay.Exec.{Exec, return}
use fpl_data_relay.Domain.Time.{utc}
use fpl_data_relay.Application.Administration.Ports.{
  QueueDepth, MaintenancePhase, MaintenanceWindow, NasCollectorStatus, Reporter, AwsAdministration,
  NasAdministration, AdministrationDatabase, AdministrationRuntime,
}
use fpl_data_relay.Application.Administration.Drain.{drain_queues_with_progress, aware_now}
use fpl_data_relay.Application.Administration.Maintenance.{
  ensure_dead_letters_empty, pause_schedules, stop_collector, activate_maintenance,
}
use fpl_data_relay.Application.Administration.Begin.{begin_production_maintenance_with_progress}
use fpl_data_relay.Application.Administration.Begin.Quiet.{Calm}
use fpl_data_relay.Application.Administration.Begin.Activation.{Quiescing}
use fpl_data_relay.Application.Administration.Begin.Workflow.{begin-Keeps}

record World : Type 0 where
  is_running : Bool
  is_active : Bool

abbrev window : MaintenanceWindow
window = record {
  id = 1;
  reason = "upgrade";
  operator_arn = "arn:operator";
  phase = MaintenancePhase.entering;
  schedules = [];
  collector_was_running = some true;
  queues_before = [];
  queues_after = [];
  started_at = utc 1;
  activated_at = none;
  closed_at = none;
  closed_by = none;
}

abbrev queue : QueueDepth
queue = record { name = "fetch"; url = "https://queue"; visible = 0; in_flight = 0; delayed = 0 }

abbrev aws : AwsAdministration World
aws = record {
  identity = return (record { account_id = "123456789012"; arn = "arn:operator" });
  queue_depths = λ dead. return (queue ∷ []);
  schedule_snapshots = return [];
  set_schedule_state = λ schedule state expression. return tt;
  send_fetch_job = λ body. return "1";
  send_community_job = λ body. return "1";
}

abbrev reported : World → NasCollectorStatus
reported s = record { running = s.is_running; health = "healthy"; image = "collector" }

abbrev switched : Bool → Exec World NasCollectorStatus
switched b s = (
  ok (record { running = b; health = "healthy"; image = "collector" }),
  record s { is_running = b },
)

abbrev nas : NasAdministration World
nas = record { status = λ s. (ok (reported s), s); start = switched true; stop = switched false }

abbrev database : AdministrationDatabase World
database = record {
  maintenance_active = λ s. (ok s.is_active, s);
  get_open_maintenance = return (some window);
  open_maintenance = λ reason arn schedules queues was. return window;
  activate = λ id was depths s. (ok window, record s { is_active = true });
  begin_maintenance_exit = λ id. return window;
  close_maintenance = λ id arn. return window;
  rebaseline_current_change_feed = λ reason. return (record {
    id = 1;
    season_id = "2025-26";
    reason = reason;
    change_events_deleted = 0;
    entity_changes_deleted = 0;
    snapshots_rebuilt = 0;
    created_at = utc 1;
  });
  get_current_season = return none;
  get_current_event = λ season_id. return none;
  list_fixtures = λ season_id event after_id limit. return [];
}

abbrev runtime : AdministrationRuntime World
runtime = record {
  drain_timeout_seconds = 60;
  drain_poll_seconds = 5;
  drain_stable_seconds = 0;
  monotonic_clock = return 0;
  sleeper = λ n. return tt;
  clock = return (utc 1);
}

abbrev silent : Reporter World
silent p = return tt

abbrev start : World
start = record { is_running = true; is_active = false }

begin_runs :
    begin_production_maintenance_with_progress aws nas database runtime silent 1 "upgrade" start
    ≡ (ok (some window), record { is_running = false; is_active = true })
unfolding begin_production_maintenance_with_progress aware_now ensure_dead_letters_empty
    pause_schedules drain_queues_with_progress stop_collector activate_maintenance
begin_runs = refl

abbrev IsQuiet : World → Type 0
IsQuiet s = s.is_active ≡ true → s.is_running ≡ false

calm : Calm aws nas database runtime silent IsQuiet
calm = record {
  depths = λ dead s q. q;
  identity = λ s q. q;
  snapshots = λ s q. q;
  sets = λ schedule state expression s q. q;
  monotonic = λ s q. q;
  clock = λ s q. q;
  sleeps = λ n s q. q;
  reports = λ p s q. q;
  reads_window = λ s q. q;
  opens = λ reason arn schedules queues was s q. q;
  status = λ s q. q;
}

calm_stopped : Calm aws nas database runtime silent (λ s. IsQuiet s × (s.is_running ≡ false))
calm_stopped = record {
  depths = λ dead s q. q;
  identity = λ s q. q;
  snapshots = λ s q. q;
  sets = λ schedule state expression s q. q;
  monotonic = λ s q. q;
  clock = λ s q. q;
  sleeps = λ n s q. q;
  reports = λ p s q. q;
  reads_window = λ s q. q;
  opens = λ reason arn schedules queues was s q. q;
  status = λ s q. q;
}

laws : Quiescing aws nas database runtime silent IsQuiet
laws = record {
  is_running = λ s. s.is_running;
  calm = calm;
  calm_stopped = calm_stopped;
  told = λ s s' c h. cc h;
  stops = λ s q e. refl;
  stop_told = λ s s' c h. cc h;
  activates = λ id was depths s empty q stopped e. stopped;
}

begin-Keeps_example :
    IsQuiet
      (begin_production_maintenance_with_progress aws nas database runtime silent 1 "upgrade"
        start).1
begin-Keeps_example =
    begin-Keeps aws nas database runtime silent IsQuiet laws 1 "upgrade" start (λ e. cc e)

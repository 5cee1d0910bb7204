-- ===== src/Application/ScheduleBootstrap/Examples.antt =====
-- Two schedules and a file that does not exist yet, and the theorem on their pause.
use fpl_data_relay.Prelude.{
  ◌≡◌, refl, String, Option, none, some, List, [], ◌∷◌, map, if◌then◌else◌,
}
use fpl_data_relay.Prelude.Dict.{is_some}
use fpl_data_relay.Result.{ok, runtime_error}
use fpl_data_relay.Exec.{Exec, return, raise}
use fpl_data_relay.Domain.Time.{utc}
use fpl_data_relay.Application.Administration.Ports.{
  ScheduleState, enabled, disabled, ScheduleSnapshot, AwsAdministration,
}
use fpl_data_relay.Application.ScheduleBootstrap.{
  ScheduleBootstrapSnapshot, SnapshotFile, same_identity, pause_schedules_to_snapshot,
}
use fpl_data_relay.Application.ScheduleBootstrap.Paused.{Paused, pause_schedules_to_snapshot-Paused}

record World : Type 0 where
  schedules : List ScheduleSnapshot
  file : Option ScheduleBootstrapSnapshot

abbrev schedule : String → ScheduleState → ScheduleSnapshot
schedule name state = record {
  name = name;
  group_name = "relay";
  state = state;
  schedule_expression = "rate(1 hour)";
  schedule_expression_timezone = "UTC";
  flexible_window_mode = "OFF";
  action_after_completion = none;
  description = none;
  target = record {
    arn = "arn:queue";
    role_arn = "arn:role";
    input = "{}";
    dead_letter_arn = "arn:dead";
    maximum_event_age_seconds = 900;
    maximum_retry_attempts = 3;
  };
}

abbrev aws : AwsAdministration World
aws = record {
  identity = return (record { account_id = "123456789012"; arn = "arn:operator" });
  queue_depths = λ dead. return [];
  schedule_snapshots = λ s. (ok s.schedules, s);
  set_schedule_state = λ target state expression s. (
    ok tt,
    record s {
      schedules =
          map (λ a. if same_identity target a then record a { state = state } else a) s.schedules;
    },
  );
  send_fetch_job = λ body. return "1";
  send_community_job = λ body. return "1";
}

abbrev loaded : Option ScheduleBootstrapSnapshot → Exec World ScheduleBootstrapSnapshot
loaded none = raise (runtime_error "Schedule snapshot does not exist.")
loaded (some snapshot) = return snapshot

abbrev file : SnapshotFile World
file = record {
  exists = λ s. (ok (is_some s.file), s);
  load_schedule_snapshot = λ s. loaded s.file s;
  write_schedule_snapshot = λ snapshot s. (ok tt, record s { file = some snapshot });
}

abbrev both : List ScheduleSnapshot
both = schedule "reference-hourly" enabled ∷ schedule "community" disabled ∷ []

abbrev start : World
start = record { schedules = both; file = none }

abbrev snapshot : ScheduleBootstrapSnapshot
snapshot = record {
  account_id = "123456789012";
  aws_region = "eu-west-2";
  app_stack_name = "relay";
  captured_at = utc 1;
  schedules = both;
}

abbrev after : World
after = record {
  schedules = schedule "reference-hourly" disabled ∷ schedule "community" disabled ∷ [];
  file = some snapshot;
}

pause_runs :
    pause_schedules_to_snapshot aws file "eu-west-2" "relay" (utc 1) start ≡ (ok snapshot, after)
unfolding pause_schedules_to_snapshot
pause_runs = refl

pause_schedules_to_snapshot-Paused_example : Paused aws file snapshot after
pause_schedules_to_snapshot-Paused_example =
    pause_schedules_to_snapshot-Paused aws file "eu-west-2" "relay" (utc 1) start after snapshot
      pause_runs

-- ===== src/LambdaIngestion/Sample.antt =====
-- A world of queued messages and schedules, and services in it.
use fpl_data_relay.Prelude.{
  ℕ, String, false, ◌&&◌, Option, none, some, List, [], ◌∷◌, ◌=?◌, string_key, take, filter, ltb,
  leb, ◌==◌, if◌then◌else◌,
}
use fpl_data_relay.Result.{ok, runtime_error}
use fpl_data_relay.Exec.{Exec, return, raise}
use fpl_data_relay.Domain.Json.{Fields, end, null}
use fpl_data_relay.Domain.Time.{Datetime, utc, seconds}
use fpl_data_relay.Domain.Reference.{Event, Fixture}
use fpl_data_relay.Application.Jobs.{reference}
use fpl_data_relay.Application.Bundles.{PayloadBundle, of_reference, CollectedPayloadMessage}
use fpl_data_relay.LambdaIngestion.Ports.{Settings, Services, SchedulerClient, Libraries}
use fpl_data_relay.LambdaIngestion.Schedules.Reconciled.{named}

pub record World : Type 0 where
  pub sent : List String
  pub schedules : String → Option Fields

abbrev pub settings : Settings
settings = record {
  fetch_queue_url = "https://queue";
  schedule_group_name = "live";
  schedule_target_role_arn = "arn:role";
  schedule_dead_letter_queue_arn = "arn:dead";
  fetch_queue_arn = "arn:queue";
  payload_bucket = "payloads";
  payload_prefix = "fpl";
}

abbrev pub store_request : Fields → Exec World (Unit {0})
store_request f s =
    (ok tt, record s { schedules = λ n. if named f =? n then some f else s.schedules n })

abbrev pub found_or_raise : Option Fields → Exec World Fields
found_or_raise none = raise (runtime_error "ResourceNotFoundException")
found_or_raise (some f) = return f

abbrev pub scheduler : SchedulerClient World
scheduler = record {
  list_schedules = λ group prefix token. return end;
  get_schedule = λ group name s. found_or_raise (s.schedules name) s;
  create_schedule = store_request;
  update_schedule = store_request;
  delete_schedule = λ group name s.
      (ok tt, record s { schedules = λ n. if name =? n then none else s.schedules n });
}

abbrev pub fixture : Fixture
fixture = record {
  id = 7;
  code = none;
  event = some 1;
  finished = false;
  finished_provisional = none;
  kickoff_time = some (utc 1);
  minutes = none;
  provisional_start_time = none;
  started = false;
  team_a = 1;
  team_a_score = none;
  team_h = 2;
  team_h_score = none;
  stats = [];
  pulse_id = none;
}

abbrev pub services : Services World
services = record {
  get_object = λ bucket key. return (some (123 ∷ 125 ∷ []));
  send_message = λ url delay body s. (ok tt, record s { sent = body ∷ s.sent });
  list_fixtures = λ season_id event after_id limit.
      return (take limit (filter (λ (f : Fixture). ltb after_id f.id) (fixture ∷ [])));
  sleep = λ n. return tt;
  scheduler = scheduler;
}

abbrev pub sha256 : String
sha256 = "0123456789abcdef0123456789abcdef0123456789abcdef0123456789abcdef"

abbrev pub bundle : PayloadBundle
bundle =
    of_reference
      (record { fetched_at = utc 9; bootstrap_static = null; fixtures = null; event_status = null })

abbrev pub message : CollectedPayloadMessage
message = record {
  job = reference;
  bucket = "payloads";
  key = "fpl/v2/reference/2025/08/15/01234567-89ab-4cde-8fab-0123456789ab.json";
  size_bytes = 2;
  sha256 = sha256;
}

abbrev event : ℕ → Datetime → Event
event id deadline = record {
  id = id;
  name = "Gameweek";
  deadline_time = some deadline;
  average_entry_score = none;
  finished = none;
  data_checked = none;
  highest_scoring_entry = none;
  deadline_time_epoch = none;
  deadline_time_game_offset = none;
  highest_score = none;
  is_previous = false;
  is_current = id == 1;
  is_next = false;
}

-- With the deadlines 2025-08-15T17:30Z and 2026-05-24T13:30Z.
abbrev pub libraries : Libraries
libraries = record {
  sha256_hex = λ raw. sha256;
  is_digit = λ c. leb b'0' c && leb c b'9';
  read_bundle = λ raw. ok bundle;
  read_message = λ body. ok message;
  dump_job = λ job. "job";
  read_bootstrap = λ j. ok (record {
    events = event 1 (utc (seconds 63890875800)) ∷ event 38 (utc (seconds 63915226200)) ∷ [];
    phases = [];
    teams = [];
    elements = [];
    element_stats = [];
    element_types = [];
  });
  read_fixture = λ j. ok fixture;
  read_event_status = λ j. ok (record { status = []; leagues = none });
  read_event_live = λ j. ok (record { elements = [] });
}

abbrev pub start : World
start = record { sent = []; schedules = λ n. none }

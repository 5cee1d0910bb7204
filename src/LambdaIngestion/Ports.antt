-- ===== src/LambdaIngestion/Ports.antt =====
-- The settings and the services of the ingestion Lambda: S3, SQS, EventBridge Scheduler and the
-- database, acting on a world `S`, and the libraries that read JSON.
use fpl_data_relay.Prelude.{ℕ, String, Bool, Option, List}
use fpl_data_relay.Result.{Result}
use fpl_data_relay.Exec.{Exec}
use fpl_data_relay.Domain.Json.{Json, Fields}
use fpl_data_relay.Domain.Reference.{Fixture}
use fpl_data_relay.Domain.Bootstrap.{BootstrapStatic}
use fpl_data_relay.Domain.Live.{EventStatusResponse, EventLiveResponse}
use fpl_data_relay.Application.Jobs.{LiveJob}
use fpl_data_relay.Application.Bundles.{PayloadBundle, CollectedPayloadMessage}

-- The constants that the module reads from its environment.
pub record Settings : Type 0 where
  pub fetch_queue_url : String
  pub schedule_group_name : String
  pub schedule_target_role_arn : String
  pub schedule_dead_letter_queue_arn : String
  pub fetch_queue_arn : String
  pub payload_bucket : String
  pub payload_prefix : String

-- `SchedulerClient`
pub record SchedulerClient (S : Type 0) : Type 0 where
  -- The group, the prefix and the token of the page.
  pub list_schedules : String → String → Option String → Exec S Fields
  pub get_schedule : (group name : String) → Exec S Fields
  pub create_schedule : Fields → Exec S (Unit {0})
  pub update_schedule : Fields → Exec S (Unit {0})
  pub delete_schedule : (group name : String) → Exec S (Unit {0})

-- S3, whose response may lack a body, SQS, the fixture pages and the clock.
pub record Services (S : Type 0) : Type 0 where
  pub get_object : (bucket key : String) → Exec S (Option (List ℕ))
  pub send_message : (queue_url : String) (delay_seconds : ℕ) (body : String) → Exec S (Unit {0})
  -- The season, the event, the id to start after and the limit.
  pub list_fixtures : String → Option ℕ → ℕ → ℕ → Exec S (List Fixture)
  pub sleep : ℕ → Exec S (Unit {0})
  pub scheduler : SchedulerClient S

-- hashlib, `\d` of re, and pydantic's JSON: a bundle and a message before the validators of their
-- classes, and the models of the FPL payloads.
pub record Libraries : Type 0 where
  pub sha256_hex : List ℕ → String
  pub is_digit : ℕ → Bool
  pub read_bundle : List ℕ → Result PayloadBundle
  pub read_message : String → Result CollectedPayloadMessage
  pub dump_job : LiveJob → String
  pub read_bootstrap : Json → Result BootstrapStatic
  pub read_fixture : Json → Result Fixture
  pub read_event_status : Json → Result EventStatusResponse
  pub read_event_live : Json → Result EventLiveResponse

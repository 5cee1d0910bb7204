-- ===== src/LambdaIngestion/Process.antt =====
-- lambda_ingestion.py: the handler and the processing of one collected payload. Log lines are not
-- modelled, and the JSON of the models is read by the libraries.
pub mod Maintenance
use fpl_data_relay.Prelude.{
  ℕ, String, Bool, true, false, not, ◌&&◌, Option, none, some, List, [], ◌∷◌, ◌==◌, ◌=?◌,
  string_key, if◌then◌else◌,
}
use fpl_data_relay.Result.{
  Result, ok, err, Error, value_error, runtime_error, database_waking_error, ingestion_lock_error,
  ◌>>=◌ as ◌then◌,
}
use fpl_data_relay.Exec.{Exec, return, raise, lift, raise_when, ◌>>=◌, ◌>>◌}
use fpl_data_relay.Domain.Json.{Json, Items, arr, nil, cons}
use fpl_data_relay.Domain.Time.{Datetime, is_aware}
use fpl_data_relay.Domain.Reference.{Fixture}
use fpl_data_relay.Application.Jobs.{
  LiveJob, IngestionJob, reference, live, build_match_windows, next_live_delay,
}
use fpl_data_relay.Application.Bundles.{
  PayloadBundle, of_reference, of_live, bundle_job, ReferencePayloadBundle, LivePayloadBundle,
  CollectedPayloadMessage, validate_message,
}
use fpl_data_relay.Application.Ingestion.{IngestionResult}
use fpl_data_relay.Application.Ingestion.Ports.{FplGateway, IngestionRepository, Runtime}
use fpl_data_relay.Application.Ingestion.Service.{
  ingest_reference_payload, ingest_live_payload, require_some,
}
use fpl_data_relay.LambdaIngestion.Ports.{Settings, Services, Libraries}
use fpl_data_relay.LambdaIngestion.Payload.{job_kind, load_payload_bundle}
use fpl_data_relay.LambdaIngestion.Pages.{read_all_fixtures}
use fpl_data_relay.LambdaIngestion.Schedules.{reconcile_schedules}

pub record LambdaResult : Type 0 where
  pub status : String
  pub job_kind : String

-- Equal aware times are one instant; the validators of a job refuse naive ones.
abbrev same_time : Datetime → Datetime → Bool
same_time a b = a.moment == b.moment

-- `bundle.job == message.job`
abbrev pub same_job : IngestionJob → IngestionJob → Bool
same_job reference reference = true
same_job (live a) (live b) =
    a.season_id =? b.season_id
    && a.event_id == b.event_id
    && same_time a.window_start b.window_start
    && same_time a.window_end b.window_end
same_job reference (live b) = false
same_job (live a) reference = false

abbrev no_upstream : Error
no_upstream = runtime_error "Collected-payload ingestion cannot fetch upstream."

-- `UnavailableFplGateway`
abbrev pub unavailable_fpl_gateway : {S : Type 0} → FplGateway S
unavailable_fpl_gateway = record {
  fetch_bootstrap_static = raise no_upstream;
  fetch_fixtures = raise no_upstream;
  fetch_current_fixtures = λ event_id. raise no_upstream;
  fetch_event_status = raise no_upstream;
  fetch_event_live = λ event_id. raise no_upstream;
}

validate_items : (Json → Result Fixture) → Items → Result (List Fixture)
validate_items read nil = ok []
validate_items read (cons x xs) =
    read x then λ item. validate_items read xs then λ items. ok (item ∷ items)

-- `validate_fpl_model_list` of adapters/outbound/fpl/validation.py
pub validate_fpl_model_list : (Json → Result Fixture) → Json → Result (List Fixture)
unfolding validate_items
validate_fpl_model_list read (arr items) = validate_items read items
validate_fpl_model_list read _ = err (value_error "Input should be a valid list")

abbrev pub database_resume_delay_seconds : ℕ
database_resume_delay_seconds = 15

abbrev pub skip_locked :
    {S : Type 0}
    → IngestionJob
    → Result (Option LambdaResult) × S
    → Result (Option LambdaResult) × S
skip_locked job (err ingestion_lock_error, s) =
    (ok (some (record { status = "skipped_lock_held"; job_kind = job_kind job })), s)
skip_locked job (r, s) = (r, s)

abbrev pub reference_done : LambdaResult
reference_done = record { status = "reference_ingested"; job_kind = "reference" }

module _ {S : Type 0} (settings : Settings) (services : Services S) (libraries : Libraries)
    (repository : IngestionRepository S) (runtime : Runtime S) where
  open services use {send_message, sleep}
  open libraries use {
    read_message, dump_job, read_bootstrap, read_fixture, read_event_status, read_event_live,
  }

  -- The `except DatabaseWakingError` of the first attempt.
  abbrev resumed : {A : Type 0} → Exec S A → Result A × S → Result A × S
  resumed operation (err database_waking_error, s) =
      (sleep database_resume_delay_seconds >> operation) s
  resumed operation (r, s) = (r, s)

  pub persist_with_database_resume : {A : Type 0} → Exec S A → Exec S A
  persist_with_database_resume operation s = resumed operation (operation s)

  pub requeue_live_job : LiveJob → ℕ → Exec S (Unit {0})
  requeue_live_job job delay_seconds =
      send_message settings.fetch_queue_url delay_seconds (dump_job job)

  -- The planning after a reference ingestion, outside maintenance. None is a loop over pages that
  -- the fuel has not seen end.
  pub plan_schedules : (fuel : ℕ) → Datetime → Exec S (Option LambdaResult)
  plan_schedules fuel now = do
    current ← repository.get_current_season
    season ←
        require_some (runtime_error "Reference ingestion did not create a current season.") current
    read ← read_all_fixtures services fuel season.id
    elim read [
      | none ↦ return none
      | some fixtures ↦ lift (build_match_windows season.id fixtures now) >>= λ planned.
          reconcile_schedules settings services libraries fuel planned.0 now >>= λ result.
          elim result [ none ↦ return none | some counts ↦ return (some reference_done) ]
    ]

  pub process_reference :
      (fuel : ℕ) → ReferencePayloadBundle → Datetime → Exec S (Option LambdaResult)
  unfolding persist_with_database_resume plan_schedules validate_fpl_model_list
  process_reference fuel bundle now = do
    bootstrap ← lift (read_bootstrap bundle.bootstrap_static)
    fixtures ← lift (validate_fpl_model_list read_fixture bundle.fixtures)
    event_status ← lift (read_event_status bundle.event_status)
    result ← persist_with_database_resume (
        ingest_reference_payload unavailable_fpl_gateway repository runtime bootstrap fixtures
          event_status bundle.fetched_at)
    maintenance_active ← repository.maintenance_active
    (if maintenance_active then return (some reference_done) else plan_schedules fuel now)

  abbrev requeue_after : LiveJob → Option ℕ → Exec S (Unit {0})
  unfolding requeue_live_job
  requeue_after job none = return tt
  requeue_after job (some delay) = requeue_live_job job delay

  pub process_live : LivePayloadBundle → Datetime → Exec S LambdaResult
  unfolding persist_with_database_resume requeue_after validate_fpl_model_list
  process_live bundle now = do
    event_status ← lift (read_event_status bundle.event_status)
    current_fixtures ← lift (validate_fpl_model_list read_fixture bundle.current_fixtures)
    event_live ← lift (read_event_live bundle.event_live)
    result ← persist_with_database_resume (
        ingest_live_payload unavailable_fpl_gateway repository runtime bundle.job.season_id
          bundle.job.event_id event_status current_fixtures event_live bundle.fetched_at)
    maintenance_active ← repository.maintenance_active
    delay ← lift (
        if maintenance_active
        then ok none
        else next_live_delay bundle.job now result.has_active_fixture)
    requeue_after bundle.job delay
    return (record { status = "live_ingested"; job_kind = "live" })

  abbrev process_bundle : (fuel : ℕ) → PayloadBundle → Datetime → Exec S (Option LambdaResult)
  unfolding process_reference process_live
  process_bundle fuel (of_reference bundle) now = process_reference fuel bundle now
  process_bundle fuel (of_live bundle) now =
      process_live bundle now >>= λ result. return (some result)

  pub process_collected_payload :
      (fuel : ℕ) → CollectedPayloadMessage → Datetime → Exec S (Option LambdaResult)
  unfolding process_bundle
  process_collected_payload fuel message now = do
    bundle ← load_payload_bundle settings services libraries message
    raise_when (not (same_job (bundle_job bundle) message.job))
        (value_error "Collected payload job does not match its SQS message.")
    process_bundle fuel bundle now

  -- The `except IngestionLockError` around the processing.
  pub handle_message :
      (fuel : ℕ) → CollectedPayloadMessage → Datetime → Exec S (Option LambdaResult)
  unfolding process_collected_payload
  handle_message fuel message now s =
      skip_locked message.job (process_collected_payload fuel message now s)

  -- `handler`, on the bodies of the records of the event.
  pub handler : (fuel : ℕ) → List String → Exec S (Option LambdaResult)
  unfolding handle_message
  handler fuel (body ∷ []) = do
    message ← lift (read_message body then validate_message)
    now ← runtime.utc_now
    handle_message fuel message now
  handler fuel _ = raise (value_error "Ingestion Lambda requires exactly one SQS record.")

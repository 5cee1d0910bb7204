-- ===== src/LambdaIngestion/Process/Maintenance.antt =====
-- The Lambda during maintenance: payloads are persisted, and nothing is scheduled or queued.
use fpl_data_relay.Prelude.{
  ℕ, ◌≡◌, String, Bool, true, not, ◌==◌, ◌=?◌, string_key, ltb, length, Option, none, some, List,
  [], ◌∷◌, if◌then◌else◌,
}
use fpl_data_relay.Result.{
  Error, Result, ok, err, database_waking_error, ingestion_lock_error, ◌>>=◌ as ◌then◌,
}
use fpl_data_relay.Exec.{
  Exec, return, lift, raise_when, Keeps, Keeps-bind, Keeps-lift_bind, Keeps-raise_when, ◌>>=◌, ◌>>◌,
}
use fpl_data_relay.Domain.Time.{Datetime}
use fpl_data_relay.Application.Jobs.{IngestionJob, next_live_delay}
use fpl_data_relay.Application.Bundles.{
  PayloadBundle, of_reference, of_live, ReferencePayloadBundle, LivePayloadBundle,
  CollectedPayloadMessage, matches, max_collected_payload_bytes, bundle_job, validate_message,
}
use fpl_data_relay.Application.Ingestion.{IngestionResult}
use fpl_data_relay.Application.Ingestion.Service.{ingest_reference_payload, ingest_live_payload}
use fpl_data_relay.Application.Ingestion.Ports.{IngestionRepository, Runtime}
use fpl_data_relay.Application.Ingestion.Service.Writes.{Invariant, payloads-Keeps}
use fpl_data_relay.LambdaIngestion.Ports.{Settings, Services, Libraries}
use fpl_data_relay.LambdaIngestion.Payload.{load_payload_bundle, require_body, expected_key}
use fpl_data_relay.LambdaIngestion.Process.{
  LambdaResult, same_job, unavailable_fpl_gateway, validate_fpl_model_list, resumed,
  persist_with_database_resume, plan_schedules, process_reference, process_live, requeue_after,
  process_bundle, process_collected_payload, handle_message, handler, skip_locked, reference_done,
}

-- An invariant of a world in maintenance: consistent writes of the repository keep it, reading an
-- object and sleeping keep it, and where it holds the repository reports maintenance.
pub record InMaintenance {S : Type 0} (services : Services S) (repository : IngestionRepository S)
    (runtime : Runtime S) (P : S → Type 0) : Type 0 where
  pub writes : Invariant repository runtime P
  pub object_read : (bucket key : String) → Keeps P (services.get_object bucket key)
  pub sleeps : (seconds : ℕ) → Keeps P (services.sleep seconds)
  pub active : (s : S) → P s → repository.maintenance_active s ≡ (ok true, s)

module _ {S : Type 0} (settings : Settings) (services : Services S) (libraries : Libraries)
    (repository : IngestionRepository S) (runtime : Runtime S) (P : S → Type 0)
    (laws : InMaintenance services repository runtime P) where
  open laws use {writes, object_read, sleeps, active}

  require_body-Keeps : (response : Option (List ℕ)) → Keeps P (require_body response)
  require_body-Keeps none s p = p
  require_body-Keeps (some raw) s p = p

  load-Keeps :
      (message : CollectedPayloadMessage)
      → Keeps P (load_payload_bundle settings services libraries message)
  unfolding load_payload_bundle
  load-Keeps message = checked (not (message.bucket =? settings.payload_bucket)) _ _ (
      checked (not (matches (expected_key settings services libraries message.job) message.key)) _ _
        (Keeps-bind P (services.get_object message.bucket message.key) _
          (object_read message.bucket message.key)
          λ response. Keeps-bind P (require_body response) _ (require_body-Keeps response) λ raw.
            checked (not (length raw == message.size_bytes)) _ _ (
              checked (ltb max_collected_payload_bytes (length raw)) _ _
                (checked (not (libraries.sha256_hex raw =? message.sha256)) _ _ (λ s p. p)))))
    where
      checked :
          {B : Type 0} (test : Bool) (e : Error) (rest : Exec S B)
          → Keeps P rest
          → Keeps P (raise_when test e >> rest)
      checked test e rest k =
          Keeps-bind P (raise_when test e) (λ _. rest) (Keeps-raise_when P test e) (λ _. k)

  resume-Keeps :
      {A : Type 0} (operation : Exec S A)
      → Keeps P operation
      → Keeps P
          (persist_with_database_resume settings services libraries repository runtime operation)
  unfolding persist_with_database_resume
  resume-Keeps {A} operation k s p = again (operation s).0 (operation s).1 (k s p)
    where
      again :
          (r : Result A) (t : S)
          → P t
          → P (resumed settings services libraries repository runtime operation (r, t)).1
      again (ok a) t p = p
      again (err database_waking_error) t p =
          Keeps-bind P (services.sleep 15) _ (sleeps 15) (λ _. k) t p
      again (err ingestion_lock_error) t p = p
      again (err e) t p = p

  persisted-Keeps :
      {A B : Type 0} (operation : Exec S A) (rest : A → Exec S B)
      → Keeps P operation
      → ((a : A) → Keeps P (rest a))
      → Keeps P (
          persist_with_database_resume settings services libraries repository runtime operation
          >>= rest)
  persisted-Keeps operation rest k l =
      Keeps-bind P
        (persist_with_database_resume settings services libraries repository runtime operation) rest
        (resume-Keeps operation k) l

  -- The repository reports maintenance, so the rest runs with that answer.
  asked-Keeps :
      {B : Type 0} (rest : Bool → Exec S B)
      → Keeps P (rest true)
      → Keeps P (repository.maintenance_active >>= rest)
  asked-Keeps rest k s p = rw (active s p) (k s p)

  process_reference-Keeps :
      (fuel : ℕ) (bundle : ReferencePayloadBundle) (now : Datetime)
      → Keeps P (process_reference settings services libraries repository runtime fuel bundle now)
  unfolding process_reference
  process_reference-Keeps fuel bundle now =
      Keeps-lift_bind P (libraries.read_bootstrap bundle.bootstrap_static) _ λ bootstrap.
        Keeps-lift_bind P (validate_fpl_model_list libraries.read_fixture bundle.fixtures) _
          λ fixtures.
            Keeps-lift_bind P (libraries.read_event_status bundle.event_status) _ λ status.
              persisted-Keeps
                (ingest_reference_payload unavailable_fpl_gateway repository runtime bootstrap
                  fixtures status bundle.fetched_at)
                _
                ((payloads-Keeps unavailable_fpl_gateway repository runtime P writes).0 bootstrap
                  fixtures status bundle.fetched_at)
                λ result.
                  asked-Keeps
                    (λ b.
                      if b
                      then return (some reference_done)
                      else plan_schedules settings services libraries repository runtime fuel now)
                    (λ s p. p)

  process_live-Keeps :
      (bundle : LivePayloadBundle) (now : Datetime)
      → Keeps P (process_live settings services libraries repository runtime bundle now)
  unfolding process_live
  process_live-Keeps bundle now =
      Keeps-lift_bind P (libraries.read_event_status bundle.event_status) _ λ status.
        Keeps-lift_bind P (validate_fpl_model_list libraries.read_fixture bundle.current_fixtures) _
          λ fixtures. Keeps-lift_bind P (libraries.read_event_live bundle.event_live) _ λ live.
            persisted-Keeps
              (ingest_live_payload unavailable_fpl_gateway repository runtime bundle.job.season_id
                bundle.job.event_id status fixtures live bundle.fetched_at)
              _
              ((payloads-Keeps unavailable_fpl_gateway repository runtime P writes).1
                bundle.job.season_id bundle.job.event_id status fixtures live bundle.fetched_at)
              λ result. asked-Keeps (λ active. live_rest result active) (λ s p. p)
    where
      live_rest : IngestionResult → Bool → Exec S LambdaResult
      live_rest result maintenance_active = do
        delay ← lift (
            if maintenance_active
            then ok none
            else next_live_delay bundle.job now result.has_active_fixture)
        requeue_after settings services libraries repository runtime bundle.job delay
        return (record { status = "live_ingested"; job_kind = "live" })

  process_bundle-Keeps :
      (fuel : ℕ) (bundle : PayloadBundle) (now : Datetime)
      → Keeps P (process_bundle settings services libraries repository runtime fuel bundle now)
  unfolding process_bundle
  process_bundle-Keeps fuel (of_reference bundle) now = process_reference-Keeps fuel bundle now
  process_bundle-Keeps fuel (of_live bundle) now =
      Keeps-bind P (process_live settings services libraries repository runtime bundle now) _
        (process_live-Keeps bundle now) (λ result s p. p)

  process_collected_payload-Keeps :
      (fuel : ℕ) (message : CollectedPayloadMessage) (now : Datetime)
      → Keeps P (
          process_collected_payload settings services libraries repository runtime fuel message now)
  unfolding process_collected_payload
  process_collected_payload-Keeps fuel message now =
      Keeps-bind P (load_payload_bundle settings services libraries message) _ (load-Keeps message)
        λ bundle.
          Keeps-bind P (raise_when (not (same_job (bundle_job bundle) message.job)) _) _
            (Keeps-raise_when P _ _) λ _. process_bundle-Keeps fuel bundle now

  skip_locked-Keeps :
      (job : IngestionJob) (r : Result (Option LambdaResult)) (s : S)
      → P s
      → P (skip_locked job (r, s)).1
  skip_locked-Keeps job (ok a) s p = p
  skip_locked-Keeps job (err ingestion_lock_error) s p = p
  skip_locked-Keeps job (err database_waking_error) s p = p
  skip_locked-Keeps job (err e) s p = p

  -- In maintenance the handler keeps every invariant that consistent writes of the repository
  -- keep, whatever it receives: it sends no message and makes no request to the scheduler, since
  -- nothing is assumed of those.
  pub handler-Keeps_in_maintenance :
      (fuel : ℕ) (bodies : List String)
      → Keeps P (handler settings services libraries repository runtime fuel bodies)
  unfolding handler handle_message
  handler-Keeps_in_maintenance fuel [] = λ s p. p
  handler-Keeps_in_maintenance fuel (body ∷ []) =
      Keeps-lift_bind P (libraries.read_message body then validate_message) _ λ message.
        Keeps-bind P runtime.utc_now _ writes.clock λ now s p.
          skip_locked-Keeps message.job
            (process_collected_payload settings services libraries repository runtime fuel message
              now s).0
            (process_collected_payload settings services libraries repository runtime fuel message
              now s).1
            (process_collected_payload-Keeps fuel message now s p)
  handler-Keeps_in_maintenance fuel (body ∷ other ∷ bodies) = λ s p. p

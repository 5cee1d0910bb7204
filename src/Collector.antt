-- ===== src/Collector.antt =====
-- collector.py: the worker on the NAS that collects one job, uploads the payload, publishes the message that
-- points at it, and deletes the job. Timings and log lines are left out.
pub mod Loop
pub mod Acknowledged
pub mod Trusted
mod Examples
use Prim.Native.String.{◌++◌ as ◌&◌}
use Prim.Native.String
use Prim.Native.Char.{code}
use fpl_data_relay.Prelude.{
  ℕ, String, Bool, ◌&&◌, ◌==◌, ◌≡◌, refl, if◌then◌else◌, List, [], ◌∷◌, length, ltb, Option,
}
use fpl_data_relay.Result.{Result, ok, err, runtime_error, value_error}
use fpl_data_relay.Exec.{Exec, return, lift, raise_when, ◌>>=◌, ◌>>◌}
use fpl_data_relay.Domain.Json.{Json}
use fpl_data_relay.Domain.Time.{Datetime}
use fpl_data_relay.Application.Jobs.{IngestionJob, reference, live, LiveJob}
use fpl_data_relay.Application.Bundles.{
  max_collected_payload_bytes, PayloadBundle, of_reference, of_live, bundle_fetched_at,
  fetched_at_must_be_timezone_aware, CollectedPayloadMessage, validate_message,
}
use fpl_data_relay.LambdaIngestion.Payload.{job_kind}

pub record CollectorSettings : Type 0 where
  pub payload_bucket : String
  pub payload_prefix : String

pub record SqsMessage : Type 0 where
  pub message_id : String
  pub receipt_handle : String
  pub body : String

-- The FPL client, S3, the two queues, the clock and `uuid4`, which act on a world `S`. A message
-- is published as its JSON.
pub record CollectorPorts (S : Type 0) : Type 0 where
  pub fetch_bootstrap_static : Exec S Json
  pub fetch_fixtures : Exec S Json
  pub fetch_current_fixtures : ℕ → Exec S Json
  pub fetch_event_status : Exec S Json
  pub fetch_event_live : ℕ → Exec S Json
  pub put_object : (bucket key : String) → List ℕ → Exec S (Unit {0})
  pub send_message : CollectedPayloadMessage → Exec S (Unit {0})
  pub delete_message : String → Exec S (Unit {0})
  pub receive_message : Exec S (List SqsMessage)
  -- The `Arn`, where it is text.
  pub get_caller_identity : Exec S (Option String)
  pub get_queue_attributes : Exec S (Unit {0})
  pub touch_heartbeat : Exec S (Unit {0})
  pub utc_now : Exec S Datetime
  pub uuid4 : Exec S String

-- pydantic's JSON of a job, the canonical bytes of a bundle, their digest, and the date of an instant as `%Y/%m/%d` in UTC.
pub record CollectorLibraries : Type 0 where
  pub read_job : String → Result IngestionJob
  pub canonical_bundle_bytes : PayloadBundle → List ℕ
  pub payload_sha256_bytes : List ℕ → String
  pub date_path : Datetime → String

is_slash : ℕ → Bool
is_slash c = c == b'/'

lstrip_slashes : String → String
unfolding is_slash
lstrip_slashes String.[] = ""
lstrip_slashes (String.◌∷◌ c s) =
    let rest = lstrip_slashes s in if is_slash (code c) then rest else String.◌∷◌ c s

-- A slash is dropped where nothing but slashes follows it.
rstrip_slashes : String → String
unfolding is_slash
rstrip_slashes String.[] = ""
rstrip_slashes (String.◌∷◌ c s) =
    let rest = rstrip_slashes s in
    if is_slash (code c) && String.count rest == 0 then "" else String.◌∷◌ c rest

-- `prefix.strip("/")`
unfoldable pub strip_slashes : String → String
unfolding lstrip_slashes rstrip_slashes
strip_slashes s = rstrip_slashes (lstrip_slashes s)

stripped : strip_slashes "//fpl/raw/" ≡ "fpl/raw"
unfolding strip_slashes
stripped = refl

abbrev pub reference_bundle : Datetime → (bootstrap fixtures event_status : Json) → PayloadBundle
reference_bundle fetched_at bootstrap fixtures event_status = of_reference (record {
  fetched_at = fetched_at;
  bootstrap_static = bootstrap;
  fixtures = fixtures;
  event_status = event_status;
})

abbrev pub live_bundle :
    LiveJob → Datetime → (event_status current_fixtures event_live : Json) → PayloadBundle
live_bundle job fetched_at event_status current_fixtures event_live = of_live (record {
  fetched_at = fetched_at;
  job = job;
  event_status = event_status;
  current_fixtures = current_fixtures;
  event_live = event_live;
})

module _ {S : Type 0} (settings : CollectorSettings) (ports : CollectorPorts S)
    (libraries : CollectorLibraries) where
  -- `_collect`, whose fetches of a gather run in order.
  unfoldable pub collect : IngestionJob → Exec S PayloadBundle
  collect reference = do
    fetched_at ← ports.utc_now
    bootstrap ← ports.fetch_bootstrap_static
    fixtures ← ports.fetch_fixtures
    event_status ← ports.fetch_event_status
    lift (
        fetched_at_must_be_timezone_aware
          (reference_bundle fetched_at bootstrap fixtures event_status))
  collect (live job) = do
    fetched_at ← ports.utc_now
    event_status ← ports.fetch_event_status
    current_fixtures ← ports.fetch_current_fixtures job.event_id
    event_live ← ports.fetch_event_live job.event_id
    lift (
        fetched_at_must_be_timezone_aware
          (live_bundle job fetched_at event_status current_fixtures event_live))

  -- `payload_key`, for the text that `uuid4` gives
  unfoldable pub payload_key : String → Datetime → String → String
  payload_key kind fetched_at uuid =
      strip_slashes settings.payload_prefix
      & ("/v2/" & (kind & ("/" & (libraries.date_path fetched_at & ("/" & (uuid & ".json"))))))

  -- The message about the payload of a job.
  unfoldable pub new_message : IngestionJob → PayloadBundle → String → CollectedPayloadMessage
  unfolding payload_key
  new_message job bundle uuid = record {
    job = job;
    bucket = settings.payload_bucket;
    key = payload_key (job_kind job) (bundle_fetched_at bundle) uuid;
    size_bytes = length (libraries.canonical_bundle_bytes bundle);
    sha256 = libraries.payload_sha256_bytes (libraries.canonical_bundle_bytes bundle);
  }

  -- What follows the upload.
  unfoldable pub forward : SqsMessage → CollectedPayloadMessage → Exec S (Unit {0})
  forward message result = do
    valid ← lift (validate_message result)
    ports.send_message valid
    ports.delete_message message.receipt_handle

  unfoldable pub deliver : SqsMessage → IngestionJob → PayloadBundle → Exec S (Unit {0})
  unfolding payload_key forward
  deliver message job bundle = do
    raise_when (ltb max_collected_payload_bytes (length (libraries.canonical_bundle_bytes bundle)))
        (runtime_error "Collected payload is larger than the maximum.")
    uuid ← ports.uuid4
    ports.put_object settings.payload_bucket
        (payload_key (job_kind job) (bundle_fetched_at bundle) uuid)
        (libraries.canonical_bundle_bytes bundle)
    forward message (new_message job bundle uuid)

  unfoldable pub process_message : SqsMessage → Exec S (Unit {0})
  unfolding collect deliver
  process_message message = do
    job ← lift (libraries.read_job message.body)
    bundle ← collect job
    deliver message job bundle

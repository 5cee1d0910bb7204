-- ===== src/Collector/Examples.antt =====
-- The collector in a small world that records its calls.
use fpl_data_relay.Prelude.{◌≡◌, refl, String, true, some, List, [], ◌∷◌, arith}
use fpl_data_relay.Result.{ok}
use fpl_data_relay.Exec.{return, Lands}
use fpl_data_relay.Domain.Json.{null}
use fpl_data_relay.Domain.Time.{utc}
use fpl_data_relay.Application.Jobs.{reference}
use fpl_data_relay.Application.Bundles.{
  matches, CollectedPayloadMessage, fetched_at_must_be_timezone_aware, validate_message,
}
use fpl_data_relay.LambdaIngestion.Payload.{load_payload_bundle}
use fpl_data_relay.LambdaIngestion.Sample as Lambda
use fpl_data_relay.Collector.{
  CollectorSettings, CollectorPorts, CollectorLibraries, SqsMessage, strip_slashes, new_message,
  collect, forward, deliver, process_message,
}
use fpl_data_relay.Collector.Loop.{run}
use fpl_data_relay.Collector.Acknowledged.{OthersKeep, Acknowledged, process_message-Leads}
use fpl_data_relay.Collector.Trusted.{Agrees, uuid_pattern, new_message-load_payload_bundle}

record World : Type 0 where
  stored : List String
  published : List CollectedPayloadMessage
  deleted : List String

abbrev settings : CollectorSettings
settings = record { payload_bucket = "payloads"; payload_prefix = "/fpl/" }

abbrev uuid : String
uuid = "01234567-89ab-4cde-8fab-0123456789ab"

abbrev ports : CollectorPorts World
ports = record {
  fetch_bootstrap_static = return null;
  fetch_fixtures = return null;
  fetch_current_fixtures = λ event_id. return null;
  fetch_event_status = return null;
  fetch_event_live = λ event_id. return null;
  put_object = λ bucket key body s. (ok tt, record s { stored = key ∷ s.stored });
  send_message = λ m s. (ok tt, record s { published = m ∷ s.published });
  delete_message = λ receipt s. (ok tt, record s { deleted = receipt ∷ s.deleted });
  receive_message = return [];
  get_caller_identity = return (some "arn");
  get_queue_attributes = return tt;
  touch_heartbeat = return tt;
  utc_now = return (utc 9);
  uuid4 = return uuid;
}

abbrev libraries : CollectorLibraries
libraries = record {
  read_job = λ body. ok reference;
  canonical_bundle_bytes = λ b. 123 ∷ 125 ∷ [];
  payload_sha256_bytes = λ bytes. Lambda.sha256;
  date_path = λ d. "2025/08/15";
}

abbrev start : World
start = record { stored = []; published = []; deleted = [] }

abbrev job_message : SqsMessage
job_message = record { message_id = "1"; receipt_handle = "receipt"; body = "{}" }

abbrev IsUndeleted : World → Type 0
IsUndeleted s = s.deleted ≡ []

laws : OthersKeep settings ports libraries IsUndeleted
laws = record {
  bootstrap = λ s p. p;
  fixtures = λ s p. p;
  current_fixtures = λ event_id s p. p;
  event_status = λ s p. p;
  event_live = λ event_id s p. p;
  puts = λ bucket key body s p. p;
  sends = λ m s p. p;
  now = λ s p. p;
  uuids = λ s p. p;
  refuses = λ receipt s e p h. cc;
}

process_message-Leads_example :
    Lands IsUndeleted
      (λ u. Acknowledged settings ports libraries IsUndeleted job_message)
      (process_message settings ports libraries job_message start)
process_message-Leads_example =
    process_message-Leads settings ports libraries IsUndeleted laws job_message start refl

run_waits : run settings ports libraries (λ s. s) 3 start ≡ (ok tt, start)
unfolding run
run_waits = refl

process_message_runs :
    (process_message settings ports libraries job_message start).1.deleted ≡ "receipt" ∷ []
unfolding process_message collect deliver forward fetched_at_must_be_timezone_aware validate_message
    new_message strip_slashes
process_message_runs = refl

agree : Agrees settings ports libraries Lambda.settings Lambda.services Lambda.libraries
unfolding strip_slashes matches
agree = record { bucket = refl; prefix = refl; hash = λ bytes. refl; dates = λ d. refl }

random : matches uuid_pattern uuid ≡ true
unfolding matches
random = refl

new_message-load_payload_bundle_example :
    load_payload_bundle Lambda.settings Lambda.services Lambda.libraries
      (new_message settings ports libraries reference Lambda.bundle uuid)
      Lambda.start
    ≡ (ok Lambda.bundle, Lambda.start)
new_message-load_payload_bundle_example =
    new_message-load_payload_bundle settings ports libraries Lambda.settings Lambda.services
      Lambda.libraries agree reference Lambda.bundle uuid random Lambda.start refl refl
      (omega arith) refl

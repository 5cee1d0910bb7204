-- ===== src/Application/Ingestion/Ports.antt =====
-- application/ports/persistence.py and upstream.py: what the ingestion service asks of its ports.
-- The repository, the upstream client, the clock and the hash act on an abstract world `S`.
use fpl_data_relay.Prelude.{ℕ, String, Bool, Option, List}
use fpl_data_relay.Exec.{Exec}
use fpl_data_relay.Domain.Time.{Datetime}
use fpl_data_relay.Domain.Changes.{IngestionMetadata, UpsertOutcome}
use fpl_data_relay.Domain.Reference.{Season, Event, Fixture}
use fpl_data_relay.Domain.Bootstrap.{BootstrapStatic}
use fpl_data_relay.Domain.Live.{EventStatusResponse, EventLiveResponse}

-- `FplGateway`
pub record FplGateway (S : Type 0) : Type 0 where
  pub fetch_bootstrap_static : Exec S BootstrapStatic
  pub fetch_fixtures : Exec S (List Fixture)
  pub fetch_current_fixtures : ℕ → Exec S (List Fixture)
  pub fetch_event_status : Exec S EventStatusResponse
  pub fetch_event_live : ℕ → Exec S EventLiveResponse

-- `IngestionRepository`, with the lock as its two ends.
pub record IngestionRepository (S : Type 0) : Type 0 where
  pub acquire_lock : Exec S (Unit {0})
  pub release_lock : S → S
  pub upsert_reference_snapshot :
      Season
      → BootstrapStatic
      → List Fixture
      → EventStatusResponse
      → (bootstrap_metadata fixtures_metadata status_metadata : IngestionMetadata)
      → Exec S (List UpsertOutcome)
  pub upsert_live_snapshot :
      ℕ
      → EventStatusResponse
      → List Fixture
      → EventLiveResponse
      → (status_metadata fixtures_metadata live_metadata : IngestionMetadata)
      → Exec S (List UpsertOutcome)
  pub get_current_season : Exec S (Option Season)
  pub get_current_event : String → Exec S (Option Event)
  pub get_event : String → ℕ → Exec S (Option Event)
  pub get_fixture : String → ℕ → Exec S (Option Fixture)
  pub maintenance_active : Exec S Bool

-- `payload_sha256(model_to_payload(...))` of each payload, and `datetime.now(tz=UTC)`.
pub record Runtime (S : Type 0) : Type 0 where
  pub hash_bootstrap : BootstrapStatic → String
  pub hash_fixtures : List Fixture → String
  pub hash_event_status : EventStatusResponse → String
  pub hash_event_live : EventLiveResponse → String
  pub utc_now : Exec S Datetime

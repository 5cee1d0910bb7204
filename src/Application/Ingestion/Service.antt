-- ===== src/Application/Ingestion/Service.antt =====
-- application/ingestion/service.py: `IngestionService`.
pub mod Locking
pub mod Writes
mod Examples
use fpl_data_relay.Prelude.{
  ℕ, String, Bool, true, false, not, ◌&&◌, Option, none, some, List, [], ◌∷◌, ◌=?◌, string_key,
  if◌then◌else◌,
}
use fpl_data_relay.Prelude.Dict.{is_some}
use fpl_data_relay.Result.{Error, Result, ok, err, value_error, runtime_error}
use fpl_data_relay.Exec.{Exec, return, raise, lift, raise_when, ◌>>=◌, ◌>>◌}
use fpl_data_relay.Domain.Time.{Datetime}
use fpl_data_relay.Domain.Changes.{
  IngestionSourceKey, IngestionMetadata, payload_hash_must_be_sha256,
}
use fpl_data_relay.Domain.Reference.{Season, Event, Fixture}
use fpl_data_relay.Domain.Bootstrap.{BootstrapStatic}
use fpl_data_relay.Domain.Live.{EventStatusResponse, EventLiveResponse}
use fpl_data_relay.Domain.Rules.{derive_season, select_current_event_id, has_active_fixture}
use fpl_data_relay.Application.Ingestion.{IngestionResult, result_from_outcomes, combine_results}
use fpl_data_relay.Application.Ingestion.Ports.{FplGateway, IngestionRepository, Runtime}

abbrev pub no_reference_data : Error
no_reference_data = runtime_error "Cannot ingest live resources before reference data exists."

-- `if value is None: raise e`
abbrev pub require_some : {S A : Type 0} → Error → Option A → Exec S A
require_some e none = raise e
require_some e (some a) = return a

module _ {S : Type 0} (client : FplGateway S) (repository : IngestionRepository S)
    (runtime : Runtime S) where
  open client use {
    fetch_bootstrap_static, fetch_fixtures, fetch_current_fixtures, fetch_event_status,
    fetch_event_live,
  }
  open repository use {
    acquire_lock, release_lock, upsert_reference_snapshot, upsert_live_snapshot, get_current_season,
    get_current_event, get_event, get_fixture,
  }
  open runtime use {hash_bootstrap, hash_fixtures, hash_event_status, hash_event_live, utc_now}

  -- `async with self._repository.ingestion_lock(): body`
  abbrev unlocked : {A : Type 0} → Result A × S → Result A × S
  unlocked (r, s) = (r, release_lock s)

  pub with_lock : {A : Type 0} → Exec S A → Exec S A
  with_lock body = acquire_lock >> λ s. unlocked (body s)

  pub metadata_for_payload :
      String → IngestionSourceKey → Option ℕ → (hash : String) → Datetime → Exec S IngestionMetadata
  metadata_for_payload season_id source_key event_id hash fetched_at = do
    checked_at ← utc_now
    payload_hash ← lift (payload_hash_must_be_sha256 hash)
    return (record {
      season_id = season_id;
      source_key = source_key;
      event_id = event_id;
      payload_hash = payload_hash;
      fetched_at = fetched_at;
      checked_at = checked_at;
    })

  pub persist_reference :
      BootstrapStatic → List Fixture → EventStatusResponse → Datetime → Exec S IngestionResult
  persist_reference bootstrap fixtures event_status fetched_at = do
    season ← lift (derive_season bootstrap.events)
    current_event_id ← lift (select_current_event_id bootstrap.events)
    bootstrap_metadata ←
        metadata_for_payload season.id IngestionSourceKey.bootstrap none (hash_bootstrap bootstrap)
          fetched_at
    fixtures_metadata ←
        metadata_for_payload season.id IngestionSourceKey.fixtures none (hash_fixtures fixtures)
          fetched_at
    status_metadata ←
        metadata_for_payload season.id IngestionSourceKey.event_status current_event_id
          (hash_event_status event_status) fetched_at
    outcomes ←
        upsert_reference_snapshot season bootstrap fixtures event_status bootstrap_metadata
          fixtures_metadata status_metadata
    return (result_from_outcomes outcomes (some season.id) current_event_id false)

  -- `asyncio.gather`: the fetches in turn.
  ingest_reference_unlocked : Exec S IngestionResult
  ingest_reference_unlocked = do
    fetched_at ← utc_now
    bootstrap ← fetch_bootstrap_static
    fixtures ← fetch_fixtures
    event_status ← fetch_event_status
    persist_reference bootstrap fixtures event_status fetched_at

  pub ingest_reference_payload :
      BootstrapStatic → List Fixture → EventStatusResponse → Datetime → Exec S IngestionResult
  ingest_reference_payload bootstrap fixtures event_status fetched_at =
      with_lock (persist_reference bootstrap fixtures event_status fetched_at)

  pub persist_live :
      Season
      → ℕ
      → EventStatusResponse
      → List Fixture
      → EventLiveResponse
      → Datetime
      → Exec S IngestionResult
  persist_live season event_id event_status current_fixtures event_live fetched_at = do
    status_metadata ←
        metadata_for_payload season.id IngestionSourceKey.event_status (some event_id)
          (hash_event_status event_status) fetched_at
    fixtures_metadata ←
        metadata_for_payload season.id IngestionSourceKey.current_fixtures (some event_id)
          (hash_fixtures current_fixtures) fetched_at
    live_metadata ←
        metadata_for_payload season.id IngestionSourceKey.event_live (some event_id)
          (hash_event_live event_live) fetched_at
    outcomes ←
        upsert_live_snapshot event_id event_status current_fixtures event_live status_metadata
          fixtures_metadata live_metadata
    return (
        result_from_outcomes outcomes (some season.id) (some event_id)
          (has_active_fixture current_fixtures))

  -- The fixture of the command line names the event.
  target_of_fixture : Season → ℕ → Exec S (Season × ℕ)
  target_of_fixture season fixture_id = do
    found ← get_fixture season.id fixture_id
    fixture ←
        require_some
          (runtime_error
            "Cannot ingest live resources for fixture: fixture does not exist. Run reference ingestion first.")
          found
    event_id ←
        require_some
          (runtime_error "Cannot ingest live resources for fixture: fixture has no event id.")
          fixture.event
    return (season, event_id)

  target_of_current_event : Season → Exec S (Season × ℕ)
  target_of_current_event season = do
    current ← get_current_event season.id
    event ←
        require_some
          (runtime_error "Cannot ingest live resources because FPL has no current event.") current
    return (season, event.id)

  target_in : Season → (target_event_id fixture_id : Option ℕ) → Exec S (Season × ℕ)
  unfolding target_of_fixture target_of_current_event
  target_in season (some event_id) fixture_id = return (season, event_id)
  target_in season none (some fixture_id) = target_of_fixture season fixture_id
  target_in season none none = target_of_current_event season

  pub resolve_live_target : (target_event_id fixture_id : Option ℕ) → Exec S (Season × ℕ)
  unfolding target_in
  resolve_live_target target_event_id fixture_id = do
    raise_when (is_some target_event_id && is_some fixture_id)
        (value_error "Provide either target_event_id or fixture_id, not both.")
    current ← get_current_season
    season ← require_some no_reference_data current
    target_in season target_event_id fixture_id

  ingest_live_unlocked : (target_event_id fixture_id : Option ℕ) → Exec S IngestionResult
  ingest_live_unlocked target_event_id fixture_id = do
    target ← resolve_live_target target_event_id fixture_id
    fetched_at ← utc_now
    event_status ← fetch_event_status
    current_fixtures ← fetch_current_fixtures target.1
    event_live ← fetch_event_live target.1
    persist_live target.0 target.1 event_status current_fixtures event_live fetched_at

  -- The body of `ingest_live_payload` under its lock.
  live_payload_unlocked :
      String
      → ℕ
      → EventStatusResponse
      → List Fixture
      → EventLiveResponse
      → Datetime
      → Exec S IngestionResult
  live_payload_unlocked season_id event_id event_status current_fixtures event_live fetched_at = do
    current ← get_current_season
    season ← require_some no_reference_data current
    raise_when (not (season.id =? season_id))
        (runtime_error "Live payload season does not match current season.")
    event ← get_event season_id event_id
    raise_when (not (is_some event)) (runtime_error "Live payload event does not exist in season.")
    persist_live season event_id event_status current_fixtures event_live fetched_at

  pub ingest_live_payload :
      String
      → ℕ
      → EventStatusResponse
      → List Fixture
      → EventLiveResponse
      → Datetime
      → Exec S IngestionResult
  unfolding live_payload_unlocked
  ingest_live_payload season_id event_id event_status current_fixtures event_live fetched_at =
      with_lock (
        live_payload_unlocked season_id event_id event_status current_fixtures event_live
          fetched_at)

  pub ingest_reference_once : Exec S IngestionResult
  unfolding ingest_reference_unlocked
  ingest_reference_once = with_lock ingest_reference_unlocked

  pub ingest_live_once : (target_event_id fixture_id : Option ℕ) → Exec S IngestionResult
  unfolding ingest_live_unlocked
  ingest_live_once target_event_id fixture_id =
      with_lock (ingest_live_unlocked target_event_id fixture_id)

  all_unlocked : Exec S (IngestionResult × IngestionResult)
  all_unlocked = do
    reference_result ← ingest_reference_unlocked
    live_result ← ingest_live_unlocked none none
    return (reference_result, live_result)

  pub ingest_all_once : Exec S IngestionResult
  unfolding all_unlocked ingest_reference_unlocked ingest_live_unlocked
  ingest_all_once = do
    results ← with_lock all_unlocked
    return (combine_results results.0 results.1)

-- ===== src/Application/Ingestion/Service/Writes.antt =====
-- What the service may write: an invariant of the world that consistent writes keep is kept by
-- every cycle.
use Prim.Native.String
use fpl_data_relay.Prelude.{ℕ, ◌≡◌, String, Option, none, some, List, arith}
use fpl_data_relay.Result.{Error, Result, ok}
use fpl_data_relay.Exec.{
  Exec, proceed-inv, lift, raise_when, Keeps, Gives, Keeps-bind, Keeps-bind_where, Keeps-lift,
  Keeps-raise_when, ◌>>=◌,
}
use fpl_data_relay.Domain.Time.{Datetime}
use fpl_data_relay.Domain.Changes.{
  IngestionSourceKey, IngestionMetadata, payload_hash_must_be_sha256,
}
use fpl_data_relay.Domain.Reference.{Season, Fixture}
use fpl_data_relay.Domain.Bootstrap.{BootstrapStatic}
use fpl_data_relay.Domain.Live.{EventStatusResponse, EventLiveResponse}
use fpl_data_relay.Domain.Rules.{derive_season, select_current_event_id}
use fpl_data_relay.Application.Ingestion.Ports.{FplGateway, IngestionRepository, Runtime}
use fpl_data_relay.Application.Ingestion.Service.{
  with_lock, metadata_for_payload, persist_reference, persist_live, ingest_reference_payload,
  ingest_live_payload, live_payload_unlocked, require_some,
}

-- The metadata of a payload: its season, source and event, and a hash of 64 characters.
pub record Describes (season_id : String) (source : IngestionSourceKey) (event_id : Option ℕ)
    (fetched_at : Datetime) (m : IngestionMetadata) : Type 0 where
  pub season : m.season_id ≡ season_id
  pub key : m.source_key ≡ source
  pub event : m.event_id ≡ event_id
  pub fetched : m.fetched_at ≡ fetched_at
  pub hashed : String.count m.payload_hash ≡ 64

-- An invariant of the world: everything keeps it but a write, and a write does so if its season
-- and metadata are consistent.
pub record Invariant {S : Type 0} (repository : IngestionRepository S) (runtime : Runtime S)
    (P : S → Type 0) : Type 0 where
  pub clock : Keeps P runtime.utc_now
  pub lock : Keeps P repository.acquire_lock
  pub unlock : (s : S) → P s → P (repository.release_lock s)
  pub season_read : Keeps P repository.get_current_season
  pub event_read : (season_id : String) (id : ℕ) → Keeps P (repository.get_event season_id id)
  pub reference_write :
      (season : Season) (bootstrap : BootstrapStatic) (fixtures : List Fixture)
      (status : EventStatusResponse) (event_id : Option ℕ) (at : Datetime)
      (m n o : IngestionMetadata)
      → derive_season bootstrap.events ≡ ok season
      → select_current_event_id bootstrap.events ≡ ok event_id
      → Describes season.id IngestionSourceKey.bootstrap none at m
      → Describes season.id IngestionSourceKey.fixtures none at n
      → Describes season.id IngestionSourceKey.event_status event_id at o
      → Keeps P (repository.upsert_reference_snapshot season bootstrap fixtures status m n o)
  pub live_write :
      (season_id : String) (event_id : ℕ) (status : EventStatusResponse) (fixtures : List Fixture)
      (live : EventLiveResponse) (at : Datetime) (m n o : IngestionMetadata)
      → Describes season_id IngestionSourceKey.event_status (some event_id) at m
      → Describes season_id IngestionSourceKey.current_fixtures (some event_id) at n
      → Describes season_id IngestionSourceKey.event_live (some event_id) at o
      → Keeps P (repository.upsert_live_snapshot event_id status fixtures live m n o)

sha256_length : (hash h : String) → payload_hash_must_be_sha256 hash ≡ ok h → String.count h ≡ 64
unfolding payload_hash_must_be_sha256
sha256_length hash h e = ground arith

module _ {S : Type 0} (client : FplGateway S) (repository : IngestionRepository S)
    (runtime : Runtime S) (P : S → Type 0) (inv : Invariant repository runtime P) where
  open inv use {clock, lock, unlock, season_read, event_read, reference_write, live_write}

  module _ (season_id : String) (source : IngestionSourceKey) (event_id : Option ℕ) (hash : String)
      (at : Datetime) where
    abbrev metadata : Exec S IngestionMetadata
    metadata = metadata_for_payload client repository runtime season_id source event_id hash at

    metadata-Keeps : Keeps P metadata
    unfolding metadata_for_payload
    metadata-Keeps = Keeps-bind P runtime.utc_now _ clock λ checked.
        Keeps-bind P (lift (payload_hash_must_be_sha256 hash)) _
          (Keeps-lift P (payload_hash_must_be_sha256 hash)) (λ h s p. p)

    metadata-Gives : Gives (Describes season_id source event_id at) metadata
    unfolding metadata_for_payload
    metadata-Gives s m h =
        let (checked, _, h') = proceed-inv (runtime.utc_now s).0 _ _ h in
        let (valid, e, h'') =
          proceed-inv (payload_hash_must_be_sha256 hash) _ (runtime.utc_now s).1 h' in
        let same = sha256_length hash valid e in
        record {
          season = ground arith;
          key = ground arith;
          event = ground arith;
          fetched = ground arith;
          hashed = ground arith;
        }

  with_metadata :
      {B : Type 0} (season_id : String) (source : IngestionSourceKey) (event_id : Option ℕ)
      (hash : String) (at : Datetime) (rest : IngestionMetadata → Exec S B)
      → ((m : IngestionMetadata) → Describes season_id source event_id at m → Keeps P (rest m))
      → Keeps P (metadata season_id source event_id hash at >>= rest)
  with_metadata season_id source event_id hash at rest k =
      Keeps-bind_where P (Describes season_id source event_id at)
        (metadata season_id source event_id hash at) rest
        (metadata-Keeps season_id source event_id hash at)
        (metadata-Gives season_id source event_id hash at) k

  -- A pure step that returns gives its equation to the rest.
  with_lift :
      {A B : Type 0} (r : Result A) (rest : A → Exec S B)
      → ((a : A) → r ≡ ok a → Keeps P (rest a))
      → Keeps P (lift r >>= rest)
  with_lift r rest k =
      Keeps-bind_where P (λ a. r ≡ ok a) (lift r) rest (Keeps-lift P r) (λ s a e. e) k

  persist_reference-Keeps :
      (bootstrap : BootstrapStatic) (fixtures : List Fixture) (status : EventStatusResponse)
      (at : Datetime)
      → Keeps P (persist_reference client repository runtime bootstrap fixtures status at)
  unfolding persist_reference
  persist_reference-Keeps bootstrap fixtures status at =
      with_lift (derive_season bootstrap.events) _ λ season e.
        with_lift (select_current_event_id bootstrap.events) _ λ i f.
          with_metadata season.id _ _ _ at _ λ m dm. with_metadata season.id _ _ _ at _ λ n dn.
            with_metadata season.id _ _ _ at _ λ o p.
              Keeps-bind P
                (repository.upsert_reference_snapshot season bootstrap fixtures status m n o) _
                (reference_write season bootstrap fixtures status i at m n o e f dm dn p)
                (λ outcomes s q. q)

  persist_live-Keeps :
      (season : Season) (event_id : ℕ) (status : EventStatusResponse) (fixtures : List Fixture)
      (live : EventLiveResponse) (at : Datetime)
      → Keeps P (persist_live client repository runtime season event_id status fixtures live at)
  unfolding persist_live
  persist_live-Keeps season event_id status fixtures live at =
      with_metadata season.id _ _ _ at _ λ m dm. with_metadata season.id _ _ _ at _ λ n dn.
        with_metadata season.id _ _ _ at _ λ o p.
          Keeps-bind P (repository.upsert_live_snapshot event_id status fixtures live m n o) _
            (live_write season.id event_id status fixtures live at m n o dm dn p)
            (λ outcomes s q. q)

  with_lock-Keeps :
      {A : Type 0} (body : Exec S A)
      → Keeps P body
      → Keeps P (with_lock client repository runtime body)
  unfolding with_lock
  with_lock-Keeps body k =
      Keeps-bind P repository.acquire_lock _ lock (λ u s p. unlock (body s).1 (k s p))

  require_some-Keeps : {A : Type 0} (e : Error) (o : Option A) → Keeps P (require_some e o)
  require_some-Keeps e none s p = p
  require_some-Keeps e (some a) s p = p

  live_payload-Keeps :
      (season_id : String) (event_id : ℕ) (status : EventStatusResponse) (fixtures : List Fixture)
      (live : EventLiveResponse) (at : Datetime)
      → Keeps P (
          live_payload_unlocked client repository runtime season_id event_id status fixtures live
            at)
  unfolding live_payload_unlocked
  live_payload-Keeps season_id event_id status fixtures live at =
      Keeps-bind P repository.get_current_season _ season_read λ current.
        Keeps-bind P (require_some _ current) _ (require_some-Keeps _ current) λ season.
          Keeps-bind P (raise_when _ _) _ (Keeps-raise_when P _ _) λ _.
            Keeps-bind P (repository.get_event season_id event_id) _ (event_read season_id event_id)
              λ event.
                Keeps-bind P (raise_when _ _) _ (Keeps-raise_when P _ _)
                  λ _. persist_live-Keeps season event_id status fixtures live at

  -- Whatever the ports answer, the persistence of a collected payload keeps every invariant that
  -- consistent writes keep: a reference write has the derived season and metadata of that season
  -- and of one fetch, a live write has metadata of its event, and each hash has 64 characters.
  pub payloads-Keeps :
      ((bootstrap : BootstrapStatic) (fixtures : List Fixture) (status : EventStatusResponse)
          (at : Datetime)
        → Keeps P (ingest_reference_payload client repository runtime bootstrap fixtures status at))
      × ((season_id : String) (event_id : ℕ) (status : EventStatusResponse)
            (fixtures : List Fixture) (live : EventLiveResponse) (at : Datetime)
          → Keeps P (
              ingest_live_payload client repository runtime season_id event_id status fixtures live
                at))
  unfolding ingest_reference_payload ingest_live_payload
  payloads-Keeps = (
    λ bootstrap fixtures status at.
        with_lock-Keeps _ (persist_reference-Keeps bootstrap fixtures status at),
    λ season_id event_id status fixtures live at.
        with_lock-Keeps _ (live_payload-Keeps season_id event_id status fixtures live at),
  )

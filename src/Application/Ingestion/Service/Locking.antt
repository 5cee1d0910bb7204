-- ===== src/Application/Ingestion/Service/Locking.antt =====
-- The ingestion lock around every cycle of the service.
use fpl_data_relay.Prelude.{ℕ, ◌≡◌, refl, ◌∙◌, ap, String, Bool, false, Option, List}
use fpl_data_relay.Result.{Error, Result, ok, err}
use fpl_data_relay.Exec.{Exec, proceed, return, ◌>>=◌}
use fpl_data_relay.Domain.Time.{Datetime}
use fpl_data_relay.Domain.Reference.{Fixture}
use fpl_data_relay.Domain.Bootstrap.{BootstrapStatic}
use fpl_data_relay.Domain.Live.{EventStatusResponse, EventLiveResponse}
use fpl_data_relay.Application.Ingestion.Ports.{FplGateway, IngestionRepository, Runtime}
use fpl_data_relay.Application.Ingestion.Service.{
  with_lock, unlocked, ingest_reference_payload, ingest_live_payload, ingest_reference_once,
  ingest_live_once, ingest_all_once, all_unlocked,
}

-- What the advisory lock of the database does: a refused request changes nothing, and the lock is
-- free after its release.
pub record LockLaws {S : Type 0} (repository : IngestionRepository S) : Type 0 where
  pub is_locked : S → Bool
  pub refused : (s s' : S) (e : Error) → repository.acquire_lock s ≡ (err e, s') → s' ≡ s
  pub released : (s : S) → is_locked (repository.release_lock s) ≡ false

module _ {S : Type 0} (client : FplGateway S) (repository : IngestionRepository S)
    (runtime : Runtime S) (laws : LockLaws repository) where
  open laws use {is_locked, refused, released}

  abbrev pub EndsFree : {A : Type 0} → Exec S A → Type 0
  EndsFree m = (s : S) → is_locked s ≡ false → is_locked (m s).1 ≡ false

  with_lock-EndsFree :
      {A : Type 0} (body : Exec S A) → EndsFree (with_lock client repository runtime body)
  unfolding with_lock
  with_lock-EndsFree body s free =
      after (repository.acquire_lock s).0 (repository.acquire_lock s).1 refl
    where
      after :
          (r : Result (Unit {0})) (s' : S)
          → repository.acquire_lock s ≡ (r, s')
          → is_locked (proceed r (λ _ t. unlocked client repository runtime (body t)) s').1 ≡ false
      after (err e) s' h = ap is_locked (refused s s' e h) ∙ free
      after (ok u) s' h = released (body s').1

  -- Computing with the result of a cycle leaves the lock alone.
  then-EndsFree :
      {A B : Type 0} (m : Exec S A) (f : A → B) → EndsFree m → EndsFree (m >>= λ a. return (f a))
  then-EndsFree {A} m f h s free = after (m s).0 (m s).1 (h s free)
    where
      after :
          (r : Result A) (s' : S)
          → is_locked s' ≡ false
          → is_locked (proceed r (λ a. return (f a)) s').1 ≡ false
      after (err e) s' h = h
      after (ok a) s' h = h

  -- Every cycle that begins with a free lock ends with a free lock, also when it raises.
  pub ingestion-EndsFree :
      EndsFree (ingest_all_once client repository runtime)
      × EndsFree (ingest_reference_once client repository runtime)
      × ((event_id fixture_id : Option ℕ)
          → EndsFree (ingest_live_once client repository runtime event_id fixture_id))
      × ((bootstrap : BootstrapStatic) (fixtures : List Fixture) (status : EventStatusResponse)
            (at : Datetime)
          → EndsFree
              (ingest_reference_payload client repository runtime bootstrap fixtures status at))
      × ((season_id : String) (event_id : ℕ) (status : EventStatusResponse)
            (fixtures : List Fixture) (live : EventLiveResponse) (at : Datetime)
          → EndsFree (
              ingest_live_payload client repository runtime season_id event_id status fixtures live
                at))
  unfolding ingest_all_once ingest_reference_once ingest_live_once ingest_reference_payload
      ingest_live_payload
  ingestion-EndsFree = (
    then-EndsFree (with_lock client repository runtime (all_unlocked client repository runtime)) _
        (with_lock-EndsFree _),
    with_lock-EndsFree _,
    λ event_id fixture_id. with_lock-EndsFree _,
    λ bootstrap fixtures status at. with_lock-EndsFree _,
    λ season_id event_id status fixtures live at. with_lock-EndsFree _,
  )

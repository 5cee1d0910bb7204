-- ===== src/Application/Ingestion/Service/Examples.antt =====
-- A world of a lock and the stored hashes, and the theorems on the service in it.
use Prim.Native.String
use fpl_data_relay.Prelude.{
  ℕ, ◌≡◌, refl, String, Bool, true, false, ◌==◌, Bool-cases, inl, inr, none, some, List, [], ◌∷◌,
  arith, All, if◌then◌else◌,
}
use fpl_data_relay.Result.{ok, err, ingestion_lock_error, runtime_error}
use fpl_data_relay.Exec.{Exec, return, Keeps}
use fpl_data_relay.Domain.Time.{Datetime, utc, seconds}
use fpl_data_relay.Domain.Changes.{IngestionMetadata, UpsertOutcome, payload_hash_must_be_sha256}
use fpl_data_relay.Domain.Reference.{Season, Event}
use fpl_data_relay.Domain.Bootstrap.{BootstrapStatic}
use fpl_data_relay.Domain.Live.{EventStatusResponse, EventLiveResponse}
use fpl_data_relay.Domain.Rules.{has_active_fixture}
use fpl_data_relay.Application.Ingestion.{result_from_outcomes}
use fpl_data_relay.Application.Ingestion.Ports.{FplGateway, IngestionRepository, Runtime}
use fpl_data_relay.Application.Ingestion.Service.{
  ingest_reference_payload, ingest_live_payload, ingest_all_once, with_lock, persist_live,
  metadata_for_payload,
}
use fpl_data_relay.Application.Ingestion.Service.Locking.{LockLaws, ingestion-EndsFree}
use fpl_data_relay.Application.Ingestion.Service.Writes.{Invariant, payloads-Keeps}

record World : Type 0 where
  is_locked : Bool
  hashes : List String

-- 2025-08-15T17:30Z and 2026-05-24T13:30Z
abbrev opening : Datetime
opening = utc (seconds 63890875800)

abbrev closing : Datetime
closing = utc (seconds 63915226200)

abbrev event : ℕ → Datetime → Event
event id deadline = record {
  id = id;
  name = "Gameweek";
  deadline_time = some deadline;
  average_entry_score = none;
  finished = none;
  data_checked = none;
  highest_scoring_entry = none;
  deadline_time_epoch = none;
  deadline_time_game_offset = none;
  highest_score = none;
  is_previous = false;
  is_current = id == 1;
  is_next = false;
}

abbrev bootstrap : BootstrapStatic
bootstrap = record {
  events = event 1 opening ∷ event 38 closing ∷ [];
  phases = [];
  teams = [];
  elements = [];
  element_stats = [];
  element_types = [];
}

abbrev empty_status : EventStatusResponse
empty_status = record { status = []; leagues = none }

abbrev season : Season
season = record {
  id = "2025-26";
  start_year = 2025;
  end_year = 2026;
  first_deadline_time = opening;
  last_deadline_time = closing;
  is_current = true;
}

abbrev client : FplGateway World
client = record {
  fetch_bootstrap_static = return bootstrap;
  fetch_fixtures = return [];
  fetch_current_fixtures = λ i. return [];
  fetch_event_status = return empty_status;
  fetch_event_live = λ i. return (record { elements = [] });
}

abbrev store : IngestionMetadata → Exec World (List UpsertOutcome)
store m s = (ok [], record s { hashes = m.payload_hash ∷ s.hashes })

abbrev acquire : Exec World (Unit {0})
acquire s =
    if s.is_locked then (err ingestion_lock_error, s) else (ok tt, record s { is_locked = true })

abbrev repository : IngestionRepository World
repository = record {
  acquire_lock = acquire;
  release_lock = λ s. record s { is_locked = false };
  upsert_reference_snapshot = λ season bootstrap fixtures status m n o. store m;
  upsert_live_snapshot = λ event_id status fixtures live m n o. store o;
  get_current_season = return (some season);
  get_current_event = λ season_id. return (some (event 1 opening));
  get_event = λ season_id i. return (some (event 1 opening));
  get_fixture = λ season_id i. return none;
  maintenance_active = return false;
}

abbrev sha256 : String
sha256 = "0123456789abcdef0123456789abcdef0123456789abcdef0123456789abcdef"

abbrev runtime : Runtime World
runtime = record {
  hash_bootstrap = λ b. sha256;
  hash_fixtures = λ f. sha256;
  hash_event_status = λ s. sha256;
  hash_event_live = λ l. sha256;
  utc_now = return (utc 5);
}

abbrev start : World
start = record { is_locked = false; hashes = [] }

lock_laws : LockLaws repository
lock_laws = record {
  is_locked = λ s. s.is_locked;
  refused = λ s s' e h. ground (arith);
  released = λ s. refl;
}

abbrev IsHash : String → Type 0
IsHash h = String.count h ≡ 64

abbrev AllHashes : World → Type 0
AllHashes s = All IsHash s.hashes

acquire-Keeps : Keeps AllHashes acquire
acquire-Keeps s p = elim (Bool-cases s.is_locked) [
  | inl locked ↦ rw locked p
  | inr free ↦ rw free p
]

hashes_invariant : Invariant repository runtime AllHashes
hashes_invariant = record {
  clock = λ s p. p;
  lock = acquire-Keeps;
  unlock = λ s p. p;
  season_read = λ s p. p;
  event_read = λ season_id i s p. p;
  reference_write = λ season b f st i at m n o d e dm dn p s q. (dm.hashed, q);
  live_write = λ season_id i st f live at m n o dm dn p s q. (p.hashed, q);
}

abbrev live : EventLiveResponse
live = record { elements = [] }

live_runs :
    ingest_live_payload client repository runtime "2025-26" 1 empty_status [] live (utc 1) start ≡ (
      ok (record {
        changed_count = 0;
        unchanged_count = 0;
        season_id = some "2025-26";
        current_event_id = some 1;
        has_active_fixture = false;
        entity_change_counts = [];
      }),
      record { is_locked = false; hashes = sha256 ∷ [] },
    )
unfolding ingest_live_payload with_lock persist_live metadata_for_payload result_from_outcomes
    payload_hash_must_be_sha256 has_active_fixture
live_runs = refl

stale_season_runs :
    ingest_live_payload client repository runtime "2024-25" 1 empty_status [] live (utc 1) start
    ≡ (err (runtime_error "Live payload season does not match current season."), start)
unfolding ingest_live_payload with_lock
stale_season_runs = refl

ingestion-EndsFree_example : (ingest_all_once client repository runtime start).1.is_locked ≡ false
unfolding lock_laws
ingestion-EndsFree_example = (ingestion-EndsFree client repository runtime lock_laws).0 start refl

payloads-Keeps_example :
    AllHashes
      (ingest_reference_payload client repository runtime bootstrap [] empty_status (utc 1) start).1
payloads-Keeps_example =
    (payloads-Keeps client repository runtime AllHashes hashes_invariant).0 bootstrap []
      empty_status (utc 1) start tt

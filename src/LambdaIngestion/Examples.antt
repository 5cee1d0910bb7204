-- ===== src/LambdaIngestion/Examples.antt =====
-- The theorems on payloads, pages and maintenance in the sample world.
use fpl_data_relay.Prelude.{◌≡◌, refl, true, none, some, [], ◌∷◌, arith, string_key}
use fpl_data_relay.Result.{ok}
use fpl_data_relay.Exec.{return}
use fpl_data_relay.Domain.Time.{utc}
use fpl_data_relay.Application.Bundles.{matches, fetched_at_must_be_timezone_aware}
use fpl_data_relay.Application.Ingestion.Ports.{IngestionRepository, Runtime}
use fpl_data_relay.Application.Ingestion.Service.Writes.{Invariant}
use fpl_data_relay.LambdaIngestion.Payload.{
  load_payload_bundle, Trusted, load_payload_bundle-Trusted,
}
use fpl_data_relay.LambdaIngestion.Pages.{read_all_fixtures}
use fpl_data_relay.LambdaIngestion.Pages.Complete.{FixtureTable, read_all_fixtures_complete}
use fpl_data_relay.LambdaIngestion.Process.{handler}
use fpl_data_relay.LambdaIngestion.Process.Maintenance.{InMaintenance, handler-Keeps_in_maintenance}
use fpl_data_relay.LambdaIngestion.Sample.{
  World, settings, fixture, services, sha256, bundle, message, libraries, start,
}

load_runs : load_payload_bundle settings services libraries message start ≡ (ok bundle, start)
unfolding load_payload_bundle matches fetched_at_must_be_timezone_aware
load_runs = refl

load_payload_bundle-Trusted_example : Trusted settings services libraries message start start bundle
load_payload_bundle-Trusted_example =
    load_payload_bundle-Trusted settings services libraries message start start bundle load_runs

abbrev table : FixtureTable services
table = record {
  rows = λ season_id s. fixture ∷ [];
  ascending = λ season_id s. (omega arith, tt);
  page = λ season_id after_id limit s. refl;
}

read_all_fixtures_complete_example :
    read_all_fixtures services 1 "2025-26" start ≡ (ok (some (fixture ∷ [])), start)
read_all_fixtures_complete_example =
    read_all_fixtures_complete services table 1 "2025-26" start (omega arith)

-- A repository in maintenance, which accepts every write.
abbrev repository : IngestionRepository World
repository = record {
  acquire_lock = return tt;
  release_lock = λ s. s;
  upsert_reference_snapshot = λ season bootstrap fixtures status m n o. return [];
  upsert_live_snapshot = λ event_id status fixtures live m n o. return [];
  get_current_season = return none;
  get_current_event = λ season_id. return none;
  get_event = λ season_id i. return none;
  get_fixture = λ season_id i. return none;
  maintenance_active = return true;
}

abbrev runtime : Runtime World
runtime = record {
  hash_bootstrap = λ b. sha256;
  hash_fixtures = λ f. sha256;
  hash_event_status = λ s. sha256;
  hash_event_live = λ l. sha256;
  utc_now = return (utc 5);
}

abbrev IsSilent : World → Type 0
IsSilent s = s.sent ≡ []

quiet_writes : Invariant repository runtime IsSilent
quiet_writes = record {
  clock = λ s p. p;
  lock = λ s p. p;
  unlock = λ s p. p;
  season_read = λ s p. p;
  event_read = λ season_id i s p. p;
  reference_write = λ season b f st i at m n o d e dm dn p s q. q;
  live_write = λ season_id i st f live at m n o dm dn p s q. q;
}

quiet_laws : InMaintenance services repository runtime IsSilent
quiet_laws = record {
  writes = quiet_writes;
  object_read = λ bucket key s p. p;
  sleeps = λ n s p. p;
  active = λ s p. refl;
}

handler-Keeps_in_maintenance_example :
    (handler settings services libraries repository runtime 1 ("{}" ∷ []) start).1.sent ≡ []
handler-Keeps_in_maintenance_example =
    handler-Keeps_in_maintenance settings services libraries repository runtime IsSilent quiet_laws
      1 ("{}" ∷ []) start refl

-- ===== src/Lib.antt =====
-- FPL Data Relay: a relay that collects the public data of Fantasy Premier League, stores it in
-- normalized form with a feed of its changes, and serves it. The paths below start at
-- src/fpl_data_relay.
--
-- The program: a schedule queues jobs; a collector on a private machine fetches the payloads of a
-- job and uploads them as one bundle; a Lambda checks and persists the bundle under the ingestion
-- lock of the database, and then plans the live schedules of the coming matches (reference jobs) or
-- queues the next poll of the match window (live jobs). The persistence compares every entity with
-- its stored snapshot, writes what differs and records the change. Administrators pause all of it
-- for maintenance. Beside that, a community service reads what posts, videos and blogs say, lets a
-- language model extract topics and propose stories, checks what the model returns, ranks the
-- stories and stores one report for each strategy and date.
--
-- The parts and their modules:
--   domain/types.py, domain/reference.py, domain/fixtures.py, domain/live.py
--     Domain.Json (JsonValue and Python's ==), Domain.Reference, Domain.Bootstrap, Domain.Live
--   domain/rules.py
--     Domain.Rules: select_current_event_id, derive_season, has_active_fixture,
--     live_fixture_ownership_active; Rules.CurrentEvent and Rules.SeasonBounds prove them
--   domain/changes.py
--     Domain.Changes: changed_fields, diff_entity_snapshots, entity_keys_to_upsert, the records in
--     Changes.Records; Changes.Fields, Index, Diff, Replay and Upserts prove them
--   application/jobs.py
--     Application.Jobs: the jobs, build_match_windows, next_live_delay; Jobs.Sorted, Merge, Coverage
--     and Delays prove them
--   application/bundles.py
--     Application.Bundles: bundles, messages and their validators
--   application/ingestion/service.py
--     Application.Ingestion: the summary of a cycle; Ingestion.Service: each method of
--     IngestionService over the ports of Ingestion.Ports; Service.Locking and Service.Writes prove it
--   lambda_ingestion.py
--     LambdaIngestion.Payload (load_payload_bundle), Pages (read_all_fixtures), Definitions and
--     Schedules (reconcile_schedules), Process (handler)
--   application/administration.py, application/ports/administration.py
--     Application.Administration.Ports, Drain (drain_queues_with_progress), Maintenance
--     (pause_schedules, activate_maintenance) and Begin (begin_production_maintenance); Drain.Ends and
--     the modules under Begin prove them
--   application/schedule_bootstrap.py
--     Application.ScheduleBootstrap: the pause of the schedules; ScheduleBootstrap.Paused proves it
--   collector.py
--     Collector: CollectorWorker.process_message and what it calls; Collector.Loop: run;
--     Collector.Acknowledged and Collector.Trusted, which composes it with load_payload_bundle, prove it
--   domain/community.py
--     Domain.Community: the records, each with its validators as a function `validate_...`
--   application/community_ranking.py
--     Application.CommunityRanking: rank and score_candidate; CommunityRanking.Percentiles, Bounds,
--     Score and Ranked prove them
--   application/community_strategies.py, application/community_jobs.py
--     Application.CommunityStrategies: prompts and the registry; Application.CommunityJobs:
--     build_strategy_jobs
--   application/community_service.py, application/ports/community.py
--     Application.CommunityService: run and its phases over the ports of CommunityService.Ports, with
--     the checks of CommunityService.Stages, Documents (deduplication, cache, materialization), Catalog, Entities (the
--     candidates of the model), Collection (the sources) and Report; Deduplicated, CacheHits, Linked,
--     Dispatched, Accounted, Phases and Published prove them
--
-- How the code is read:
--   * A method that acts on the outside is an `Exec S A`: a function of an abstract world `S` that
--     returns a value or an error together with the new world, so that what was done before an error
--     stays done. The database, the upstream client, S3, SQS, the scheduler, the clock, hashes and
--     the readers of JSON are records of operations on that world, which the definitions take as
--     arguments; the laws that a theorem needs of them are records of hypotheses, and each has an
--     instance among the examples.
--   * An error keeps its class and the fixed part of its message. Log lines are left out. Coroutines
--     run to their end, and gathered fetches run in turn.
--   * An aware time is its instant in microseconds since the year 1 with its offset; instants before
--     that are left out. Ids are natural numbers, other numbers integers, floats binary fractions.
--   * The floats of the ranking are a type behind the interface Double of Domain.Community.Double: its
--     laws are those of rounded arithmetic, exact on integers up to 2 ^ 25, and Domain.Community.Micros
--     is an instance.
--   * The timezone database, Python's Unicode tables (strip, lower, casefold), the hash of a contract
--     and the formatting of numbers are arguments. A URL is its canonical text.
--   * Dicts are association lists in insertion order, sets are lists of which only the members count.
--   * Loops over lists are structural. The loops over pages and the drain of the queues run
--     on fuel, one unit for each round, and return none without fuel. Theorems give the fuel that the
--     fixtures of a season, the pages of a listing and the timeout of a drain need. The loop of the
--     collector, which ends with its process, runs for so many turns.
--   * A reading of the monotonic clock is a natural number of microseconds, not a float.
--
-- Not modelled: the SQL of the repositories, the end of a maintenance and the rebaseline, the restore
-- of the schedules from their file, the HTTP, CLI and TUI front ends, the upstream HTTP client with
-- its pacing of requests, the adapters of the community sources and of the language model, the
-- Lambda of the community queue, the local scheduler, the configuration and the deployment scripts.
pub mod Prelude
pub mod Result
pub mod Exec
pub mod Domain
pub mod Application
pub mod LambdaIngestion
pub mod Collector

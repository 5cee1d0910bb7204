-- ===== src/Application/CommunityService/Examples.antt =====
-- The theorems on the community service, applied to the sample.
use fpl_data_relay.Prelude.{
  ◌≡◌, ◌↔◌, refl, true, false, String, List, [], ◌∷◌, length, All, Pairwise, string_key, nat_key,
}
use fpl_data_relay.Prelude.Dict.{Dict, get, put, HasUniqueKeys}
use fpl_data_relay.Prelude.Sorting.{IsSorted, sort_by}
use fpl_data_relay.Result.{ok, community_source_error}
use fpl_data_relay.Exec.{Exec, return, raise, Leads}
use fpl_data_relay.Domain.Json.{pos}
use fpl_data_relay.Domain.Time.{utc}
use fpl_data_relay.Domain.Community.Kinds.{SourceType, EntityType, EntityConfidence}
use fpl_data_relay.Domain.Community.Distinct.{has_duplicates}
use fpl_data_relay.Domain.Community.Micros.{micros}
use fpl_data_relay.Domain.Community.Documents.{
  SourceDocumentMetadata, about, SourceDiscoveryResult, SourceFailure,
}
use fpl_data_relay.Domain.Community.Sources.{
  CommunitySource, x_source, youtube_source, blog_source, source_key, source_type,
}
use fpl_data_relay.Application.CommunityService.Ports.{CommunitySourceGateway}
use fpl_data_relay.Application.CommunityService.Collection.{
  discover_source, discover_sources, check_discovery, check_discovered,
}
use fpl_data_relay.Application.CommunityService.Accounted.{Accounts, discover_sources_exact}
use fpl_data_relay.Domain.Community.Topics.{CandidateStory}
use fpl_data_relay.Domain.Community.Cache.{ExtractionCacheEntry}
use fpl_data_relay.Application.CommunityStrategies.{new_registry, list_active}
use fpl_data_relay.Application.CommunityJobs.{build_strategy_jobs, days, validate_strategy_job}
use fpl_data_relay.Application.CommunityService.{run}
use fpl_data_relay.Application.CommunityService.Documents.{
  CacheQuery, deduplicate_discovered, see_document, see_documents, see_results, published_before,
  validated_cache_hits, cache_hits_from, Discovered,
}
use fpl_data_relay.Application.CommunityService.Entities.{validated_candidates, valid_entity_ids}
use fpl_data_relay.Application.CommunityService.Phases.{OthersKeep}
use fpl_data_relay.Application.CommunityService.Published.{Outcome, run-Leads}
use fpl_data_relay.Application.CommunityService.Unique.{AreApart, IsRepresented}
use fpl_data_relay.Application.CommunityService.Deduplicated.{
  all_documents, deduplicate_discovered_once,
}
use fpl_data_relay.Application.CommunityService.CacheHits.{IsHit, validated_cache_hits-IsHit}
use fpl_data_relay.Application.CommunityService.Linked.{
  IsWhole, IsAccepted, validated_candidates-IsAccepted,
}
use fpl_data_relay.Application.CommunityService.Dispatched.{
  IsRunnable, build_strategy_jobs-IsRunnable,
}
use fpl_data_relay.Application.CommunityService.Sample.{
  World, service, libraries, job, post, metadata, sha, story, bundle, registry, strategy,
}

-- Nothing has been published.
abbrev IsEmpty : World → Type 0
IsEmpty s = s.reports ≡ []

others : OthersKeep libraries service IsEmpty
others = record {
  in_gateway = record { discover = λ source a b s p. p; materialize = λ source documents s p. p };
  in_references = record {
    season = λ s p. p;
    event = λ id s p. p;
    events = λ id s p. p;
    teams = λ id s p. p;
    types = λ id s p. p;
    elements = λ id after_id limit s p. p;
    fixtures = λ id event after_id limit s p. p;
  };
  extracts = λ request s p. p;
  synthesizes = λ request s p. p;
  stored = λ key date s p. p;
  prunes = λ as_of s p. p;
  entries = λ key version hash lookups as_of s p. p;
  inserts = λ drafts s p. p;
  reads_clock = λ s p. p;
  refuses = λ r s e p h. cc;
}

run-Leads_example :
    Leads IsEmpty IsEmpty (Outcome libraries service IsEmpty job) (run libraries service 1 job)
run-Leads_example = run-Leads libraries service IsEmpty others 1 job

abbrev results : List SourceDiscoveryResult
results =
    record {
      source_key = "x1";
      documents = post ∷ post ∷ [];
      excluded_document_count = 0;
      exclusions = [];
    }
    ∷ []

abbrev found : Discovered
found = ("a", post) ∷ []

deduplicate_discovered_once_example :
    Pairwise AreApart found
    × All (λ item. (about item.1).document_id ≡ item.0) found
    × IsSorted published_before found
    × All (IsRepresented found) (all_documents results)
unfolding deduplicate_discovered see_document see_documents see_results get put sort_by
deduplicate_discovered_once_example = deduplicate_discovered_once results found refl

abbrev query : CacheQuery
query = record {
  strategy_key = "daily";
  strategy_version = 1;
  extraction_contract_hash = sha;
  as_of = utc (days 10);
}

abbrev entry : ExtractionCacheEntry
entry = record {
  draft = record {
    strategy_key = "daily";
    strategy_version = 1;
    source_key = "x1";
    source_type = SourceType.x;
    document_id = "a";
    external_id = "a";
    content_revision = sha;
    extraction_contract_hash = sha;
    document = metadata "a";
    topics = [];
    published_at = utc (days 9);
    expires_at = utc (days 12);
  };
  id = 1;
  created_at = utc (days 9);
}

abbrev hits : Dict String ExtractionCacheEntry
hits = ("a", entry) ∷ []

validated_cache_hits-IsHit_example :
    All (IsHit query found) hits × HasUniqueKeys hits × (length hits ≡ length (entry ∷ []))
unfolding validated_cache_hits cache_hits_from get put
validated_cache_hits-IsHit_example = validated_cache_hits-IsHit query found (entry ∷ []) hits refl

whole : IsWhole bundle
unfolding get
whole = record {
  player_teams = λ k p h. cc;
  positions = λ k p h. cc;
  homes = λ k f h. cc;
  aways = λ k f h. cc;
  deadlines = λ k e h. cc;
  kickoffs = λ k f h. cc;
}

abbrev documents : Dict String SourceDocumentMetadata
documents = ("a", metadata "a") ∷ []

abbrev accepted : List CandidateStory
accepted =
    record story {
      entity_links =
          record {
            entity_type = EntityType.team;
            entity_id = 1;
            confidence = EntityConfidence.high;
          }
          ∷ [];
    }
    ∷ []

validated_candidates-IsAccepted_example : All (IsAccepted bundle documents) accepted
unfolding validated_candidates valid_entity_ids get
validated_candidates-IsAccepted_example =
    validated_candidates-IsAccepted bundle whole (story ∷ []) accepted documents refl

build_strategy_jobs-IsRunnable_example :
    All (IsRunnable libraries.local_date registry) (job ∷ [])
    × (length (job ∷ []) ≡ length (list_active registry))
unfolding new_registry has_duplicates put build_strategy_jobs validate_strategy_job list_active
build_strategy_jobs-IsRunnable_example =
    build_strategy_jobs-IsRunnable libraries.local_date (strategy ∷ []) registry (utc (days 10))
      (job ∷ []) refl refl

-- A gateway that has posts, and no transcripts.
abbrev some_discovery : CommunitySource → Exec World SourceDiscoveryResult
some_discovery (x_source s) = return record {
  source_key = "x1";
  documents = post ∷ [];
  excluded_document_count = 0;
  exclusions = [];
}
some_discovery (youtube_source s) = raise (community_source_error "rate_limited" false)
some_discovery (blog_source s) = raise (community_source_error "forbidden" true)

abbrev partial_gateway : CommunitySourceGateway World
partial_gateway = record {
  discover = λ source a b. some_discovery source;
  materialize = λ source documents. service.source_gateway.materialize source documents;
}

abbrev youtube : CommunitySource
youtube = youtube_source record {
  key = "y1";
  label = "Y";
  channel_id = "UC";
  max_videos = 1;
  timeout_seconds = (pos 1, 0);
  transcript_language = "en";
  transcript_poll_seconds = (pos 1, 0);
  transcript_timeout_seconds = (pos 1, 0);
}

abbrev two_sources : List CommunitySource
two_sources = youtube ∷ strategy.definition.sources

abbrev empty_world : World
empty_world = record { reports = [] }

abbrev one_result : List SourceDiscoveryResult
one_result =
    record {
      source_key = "x1";
      documents = post ∷ [];
      excluded_document_count = 0;
      exclusions = [];
    }
    ∷ []

abbrev one_failure : List SourceFailure
one_failure =
    record { source_key = "y1"; source_type = SourceType.youtube; code = "rate_limited" } ∷ []

discover_runs :
    discover_sources partial_gateway job.window_start job.window_end two_sources empty_world
    ≡ (ok (one_result, one_failure), empty_world)
unfolding discover_sources discover_source check_discovery check_discovered source_key source_type
discover_runs = refl

discover_sources_exact_example :
    (discover_sources partial_gateway job.window_start job.window_end two_sources empty_world
      ≡ (ok (one_result, one_failure), empty_world))
    ↔ Accounts job.window_start job.window_end partial_gateway empty_world two_sources one_result
        one_failure empty_world
discover_sources_exact_example =
    discover_sources_exact job.window_start job.window_end partial_gateway two_sources empty_world
      empty_world one_result one_failure

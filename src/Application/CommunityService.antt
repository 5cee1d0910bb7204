-- ===== src/Application/CommunityService.antt =====
-- application/community_service.py: one run of a strategy, from its job to the report. The methods
-- are cut at the calls between their stages.
pub mod Ports
pub mod Documents
pub mod Catalog
pub mod Entities
pub mod Collection
pub mod Accounted
pub mod Report
pub mod Stages
pub mod Sound
pub mod Calls
pub mod Phases
pub mod Published
pub mod Unique
pub mod Deduplicated
pub mod CacheHits
pub mod Linked
pub mod Dispatched
mod Sample
mod Runs
mod Examples
use fpl_data_relay.Prelude.{
  ℕ, zero, suc, ◌+◌, ◌-◌, ◌≡◌, String, Bool, true, false, not, ◌&&◌, ◌||◌, ◌==◌, Option, none, some,
  List, [], ◌∷◌, ◌++◌, map, any, filter, contains, length, nat_key, string_key, ◌=?◌, if◌then◌else◌,
  ltb,
}
use fpl_data_relay.Prelude.Dict.{Dict, keys, put, get, is_some}
use fpl_data_relay.Result.{
  Result, ok, err, ◌>>=◌ as ◌then◌, raise_if, value_error, key_error, community_model_error,
  community_publication_error,
}
use fpl_data_relay.Exec.{Exec, return, raise, lift, raise_when, ◌>>=◌, ◌>>◌}
use fpl_data_relay.Domain.Time.{Datetime, utc, minus, plus}
use fpl_data_relay.Domain.Community.Double.{Double}
use fpl_data_relay.Domain.Community.Sources.{CommunityStrategyDefinition}
use fpl_data_relay.Domain.Community.Documents.{
  SourceDocumentMetadata, DiscoveredDocument, about, revision, SourceDocument,
  SourceDiscoveryResult, SourceMaterializationResult, SourceFailure,
}
use fpl_data_relay.Domain.Community.Topics.{
  TopicMention, DocumentExtraction, ModelUsage, CandidateStory, validate_extraction_request,
  validate_synthesis_request,
}
use fpl_data_relay.Domain.Community.Cache.{
  ExtractionCacheEntry, ExtractionCacheEntryDraft, ExtractionCacheLookup, validate_lookup,
  validate_entry_draft,
}
use fpl_data_relay.Domain.Community.Reports.{CommunityReport, ScoredCandidate}
use fpl_data_relay.Application.CommunityStrategies.{
  ConfiguredCommunityStrategy, CommunityStrategyRegistry, require, extraction_instructions,
  synthesis_instructions,
}
use fpl_data_relay.Application.CommunityJobs.{CommunityStrategyJob, days}
use fpl_data_relay.Application.CommunityService.Ports.{
  CommunitySourceGateway, AgentAnalyzer, CommunityReportRepository,
  CommunityExtractionCacheRepository, ReferenceRepository, ReferenceBundle, Libraries,
  CommunityService,
}
use fpl_data_relay.Application.CommunityService.Documents.{
  Discovered, CacheQuery, deduplicate_discovered, validated_cache_hits,
  validated_materialized_documents, validated_extractions, metadata_of, cache_hit_metadata,
}
use fpl_data_relay.Application.CommunityService.Catalog.{catalog, each, or_key_error}
use fpl_data_relay.Application.CommunityService.Entities.{validated_candidates}
use fpl_data_relay.Application.CommunityService.Collection.{
  discover_sources, materialize_sources, load_references,
}
use fpl_data_relay.Application.CommunityService.Report.{
  empty_usage, Gathered, Extraction, report_parts, report_draft,
}
use fpl_data_relay.Application.CommunityService.Stages.{
  values, has_failed, lookup_of, cached_documents, add_materialized, all_topics, gathered_from,
  entry_draft, check_job,
}

module _ {S W : Type 0} ⦃d : Double W⦄ (libraries : Libraries) (self : CommunityService S W) where
  unfoldable pub gather :
      CommunityStrategyDefinition
      → CommunityStrategyJob
      → String
      → Datetime
      → ReferenceBundle
      → Exec S Gathered
  unfolding gathered_from
  gather definition job hash as_of bundle = do
    found ← discover_sources self.source_gateway job.window_start job.window_end definition.sources
    let results = found.0
    discovered ← lift (deduplicate_discovered results)
    raise_when (length discovered == 0)
        (community_publication_error "No source documents were available for community analysis.")
    lookups ← lift (each lookup_of (values discovered))
    entries ← self.extraction_cache.get_entries definition.key definition.version hash lookups as_of
    hits ← lift (
        validated_cache_hits
          (record {
            strategy_key = definition.key;
            strategy_version = definition.version;
            extraction_contract_hash = hash;
            as_of = as_of;
          })
          discovered entries)
    materialization ←
        materialize_sources self.source_gateway
          (filter (λ d. not (is_some (get (about d).document_id hits))) (values discovered))
          definition.sources
    lift (
        gathered_from bundle results (found.1 ++ materialization.1) discovered hits
          materialization.0)

  unfoldable pub extract_documents :
      ConfiguredCommunityStrategy → String → Gathered → List SourceDocument → Exec S Extraction
  extract_documents strategy hash g [] = return record {
    topics = [];
    usage = empty_usage strategy.definition.model strategy.definition.reasoning_effort;
    write_count = 0;
  }
  extract_documents strategy hash g (m ∷ ms) = do
    let definition = strategy.definition
    request ← lift (
        validate_extraction_request record {
          documents = m ∷ ms;
          extraction_instructions = extraction_instructions strategy;
          model = definition.model;
          reasoning_effort = definition.reasoning_effort;
          extraction_concurrency = definition.extraction_concurrency;
          chunk_characters = definition.chunk_characters;
        })
    extraction ← self.analyzer.extract request
    topics ← lift (validated_extractions extraction.documents g.materialized)
    drafts ← lift (each (entry_draft definition hash g extraction.documents) (m ∷ ms))
    write_count ← self.extraction_cache.insert_entries drafts
    return record { topics = topics; usage = extraction.usage; write_count = write_count }

  -- The stories that are ranked, with the usage of the synthesis.
  unfoldable pub synthesize_stories :
      ConfiguredCommunityStrategy
      → CommunityStrategyJob
      → Gathered
      → Extraction
      → Exec S (List (ScoredCandidate W) × ModelUsage)
  unfolding all_topics
  synthesize_stories strategy job g extraction = do
    let definition = strategy.definition
    topics ← lift (all_topics (keys g.documents) g.cache_hits extraction.topics)
    raise_when (length topics == 0)
        (community_publication_error "Community extraction produced no topics for synthesis.")
    entity_catalog ← lift (catalog libraries.formats g.bundle)
    request ← lift (
        validate_synthesis_request record {
          topics = topics;
          entity_catalog = entity_catalog;
          synthesis_instructions = synthesis_instructions strategy;
          model = definition.model;
          reasoning_effort = definition.reasoning_effort;
          maximum_candidate_stories = definition.maximum_candidate_stories;
        })
    synthesis ← self.analyzer.synthesize request
    candidates ← lift (validated_candidates synthesis.candidates g.documents g.bundle)
    ranked ← lift (
        self.ranking_policy candidates g.documents job.window_start job.window_end
          definition.target_story_count)
    raise_when (ltb (length ranked) definition.minimum_story_count) (
        community_publication_error "Community analysis produced no publishable canonical stories.")
    return (ranked, synthesis.usage)

  unfoldable pub publish :
      ConfiguredCommunityStrategy
      → CommunityStrategyJob
      → ℕ
      → Gathered
      → Extraction
      → List (ScoredCandidate W) × ModelUsage
      → Exec S (CommunityReport W)
  publish strategy job expired_entry_count g extraction synthesis = do
    parts ←
        lift (report_parts strategy.definition.sources g extraction expired_entry_count synthesis.0)
    generated_at ← self.clock
    draft ← lift (
        report_draft strategy.definition job g.bundle parts extraction.usage synthesis.1
          generated_at)
    self.reports.insert_report draft

  unfoldable pub analyze :
      ConfiguredCommunityStrategy
      → CommunityStrategyJob
      → ℕ
      → Datetime
      → ReferenceBundle
      → Exec S (CommunityReport W)
  unfolding gather extract_documents synthesize_stories publish
  analyze strategy job expired_entry_count as_of bundle = do
    let definition = strategy.definition
    let hash =
        libraries.contract_hash (extraction_instructions strategy) definition.model
          definition.reasoning_effort definition.chunk_characters
    g ← gather definition job hash as_of bundle
    extraction ← extract_documents strategy hash g (values g.materialized)
    synthesis ← synthesize_stories strategy job g extraction
    publish strategy job expired_entry_count g extraction synthesis

  abbrev pub with_bundle :
      Option ReferenceBundle
      → (ReferenceBundle → Exec S (CommunityReport W))
      → Exec S (Option (CommunityReport W))
  with_bundle none rest = return none
  with_bundle (some bundle) rest = rest bundle >>= λ report. return (some report)

  unfoldable pub generate :
      ℕ → ConfiguredCommunityStrategy → CommunityStrategyJob → Exec S (Option (CommunityReport W))
  unfolding analyze
  generate fuel strategy job = do
    now ← self.clock
    let as_of = utc now.moment
    expired_entry_count ← self.extraction_cache.prune_expired as_of
    bundle ← load_references self.references fuel
    with_bundle bundle (analyze strategy job expired_entry_count as_of)

  abbrev pub unless_stored :
      Option (CommunityReport W)
      → Exec S (Option (CommunityReport W))
      → Exec S (Option (CommunityReport W))
  unless_stored none rest = rest
  unless_stored (some report) rest = return (some report)

  -- `run`; none when the fuel of a list of pages is spent.
  unfoldable pub run : ℕ → CommunityStrategyJob → Exec S (Option (CommunityReport W))
  unfolding generate
  run fuel job = do
    strategy ← lift (require self.registry job.strategy_key)
    lift (check_job libraries.local_date strategy.definition job)
    stored ← self.reports.get_report_for_date job.strategy_key job.report_date
    unless_stored stored (generate fuel strategy job)

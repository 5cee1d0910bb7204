-- ===== src/Application/CommunityService/Phases.antt =====
-- application/community_service.py: what the phases of a run up to the report keep.
use fpl_data_relay.Prelude.{
  ℕ, ◌≡◌, String, not, List, [], ◌∷◌, ◌++◌, length, ltb, ◌==◌, filter, string_key,
}
use fpl_data_relay.Prelude.Dict.{keys, get, is_some}
use fpl_data_relay.Result.{err, Error}
use fpl_data_relay.Exec.{
  raise_when, Keeps, Keeps-bind, Keeps-lift, Keeps-lift_bind, Keeps-raise_when,
}
use fpl_data_relay.Domain.Time.{Datetime}
use fpl_data_relay.Domain.Community.Double.{Double}
use fpl_data_relay.Domain.Community.Sources.{CommunityStrategyDefinition}
use fpl_data_relay.Domain.Community.Documents.{SourceDocument, about}
use fpl_data_relay.Domain.Community.Topics.{
  AgentExtractionRequest, AgentSynthesisRequest, validate_extraction_request,
  validate_synthesis_request,
}
use fpl_data_relay.Domain.Community.Cache.{ExtractionCacheLookup, ExtractionCacheEntryDraft}
use fpl_data_relay.Domain.Community.Reports.{CommunityReportDraft}
use fpl_data_relay.Application.CommunityStrategies.{ConfiguredCommunityStrategy}
use fpl_data_relay.Application.CommunityJobs.{CommunityStrategyJob}
use fpl_data_relay.Application.CommunityService.Ports.{ReferenceBundle, Libraries, CommunityService}
use fpl_data_relay.Application.CommunityService.Documents.{
  deduplicate_discovered, validated_cache_hits, validated_extractions,
}
use fpl_data_relay.Application.CommunityService.Catalog.{catalog, each}
use fpl_data_relay.Application.CommunityService.Entities.{validated_candidates}
use fpl_data_relay.Application.CommunityService.Collection.{discover_sources, materialize_sources}
use fpl_data_relay.Application.CommunityService.Report.{Gathered, Extraction}
use fpl_data_relay.Application.CommunityService.Calls.{
  GatewayKeeps, ReferencesKeep, discover_sources-Keeps, materialize_sources-Keeps,
}
use fpl_data_relay.Application.CommunityService.Stages.{
  lookup_of, entry_draft, gathered_from, all_topics, values,
}
use fpl_data_relay.Application.CommunityService.{gather, extract_documents, synthesize_stories}

module _ {S W : Type 0} ⦃d : Double W⦄ (libraries : Libraries) (self : CommunityService S W)
    (P : S → Type 0) where
  -- Every operation keeps `P`, but for an insertion that returns.
  pub record OthersKeep : Type 0 where
    pub in_gateway : GatewayKeeps P self.source_gateway
    pub in_references : ReferencesKeep P self.references
    pub extracts : (request : AgentExtractionRequest) → Keeps P (self.analyzer.extract request)
    pub synthesizes : (request : AgentSynthesisRequest) → Keeps P (self.analyzer.synthesize request)
    pub stored : (key : String) (date : ℕ) → Keeps P (self.reports.get_report_for_date key date)
    pub prunes : (as_of : Datetime) → Keeps P (self.extraction_cache.prune_expired as_of)
    pub entries :
        (key : String) (version : ℕ) (hash : String) (lookups : List ExtractionCacheLookup)
        (as_of : Datetime)
        → Keeps P (self.extraction_cache.get_entries key version hash lookups as_of)
    pub inserts :
        (drafts : List ExtractionCacheEntryDraft)
        → Keeps P (self.extraction_cache.insert_entries drafts)
    pub reads_clock : Keeps P self.clock
    pub refuses :
        (r : CommunityReportDraft W) (s : S) (e : Error)
        → P s
        → (self.reports.insert_report r s).0 ≡ err e
        → P (self.reports.insert_report r s).1

  module _ (k : OthersKeep) where
    pub gather-Keeps :
        (definition : CommunityStrategyDefinition) (job : CommunityStrategyJob) (hash : String)
        (as_of : Datetime) (bundle : ReferenceBundle)
        → Keeps P (gather libraries self definition job hash as_of bundle)
    unfolding gather
    gather-Keeps definition job hash as_of bundle =
        Keeps-bind P
          (discover_sources self.source_gateway job.window_start job.window_end definition.sources)
          _
          (discover_sources-Keeps P self.source_gateway k.in_gateway job.window_start job.window_end
            definition.sources)
          λ found. Keeps-lift_bind P (deduplicate_discovered found.0) _ λ discovered.
            Keeps-bind P (raise_when (length discovered == 0) _) _
              (Keeps-raise_when P (length discovered == 0) _)
              λ u. Keeps-lift_bind P (each lookup_of (values discovered)) _ λ lookups.
                Keeps-bind P
                  (self.extraction_cache.get_entries definition.key definition.version hash lookups
                    as_of)
                  _ (k.entries definition.key definition.version hash lookups as_of)
                  λ entries.
                    Keeps-lift_bind P
                      (validated_cache_hits
                        (record {
                          strategy_key = definition.key;
                          strategy_version = definition.version;
                          extraction_contract_hash = hash;
                          as_of = as_of;
                        })
                        discovered entries)
                      _
                      λ hits.
                        Keeps-bind P
                          (materialize_sources self.source_gateway
                            (filter (λ d. not (is_some (get (about d).document_id hits)))
                              (values discovered))
                            definition.sources)
                          _
                          (materialize_sources-Keeps P self.source_gateway k.in_gateway
                            (filter (λ d. not (is_some (get (about d).document_id hits)))
                              (values discovered))
                            definition.sources)
                          λ materialization. Keeps-lift P (
                            gathered_from bundle found.0 (found.1 ++ materialization.1) discovered
                              hits materialization.0)

    pub extract_documents-Keeps :
        (strategy : ConfiguredCommunityStrategy) (hash : String) (g : Gathered)
        (ms : List SourceDocument)
        → Keeps P (extract_documents libraries self strategy hash g ms)
    unfolding extract_documents
    extract_documents-Keeps strategy hash g [] = λ s p. p
    extract_documents-Keeps strategy hash g (m ∷ ms) =
        Keeps-lift_bind P (validate_extraction_request _) _ λ request.
          Keeps-bind P (self.analyzer.extract request) _ (k.extracts request) λ extraction.
            Keeps-lift_bind P (validated_extractions extraction.documents g.materialized) _
              λ topics.
                Keeps-lift_bind P
                  (each (entry_draft strategy.definition hash g extraction.documents) (m ∷ ms)) _
                  λ drafts.
                    Keeps-bind P (self.extraction_cache.insert_entries drafts) _ (k.inserts drafts)
                      λ write_count s p. p

    pub synthesize_stories-Keeps :
        (strategy : ConfiguredCommunityStrategy) (job : CommunityStrategyJob) (g : Gathered)
        (extraction : Extraction)
        → Keeps P (synthesize_stories libraries self strategy job g extraction)
    unfolding synthesize_stories
    synthesize_stories-Keeps strategy job g extraction =
        Keeps-lift_bind P (all_topics (keys g.documents) g.cache_hits extraction.topics) _ λ topics.
          Keeps-bind P (raise_when (length topics == 0) _) _
            (Keeps-raise_when P (length topics == 0) _)
            λ u. Keeps-lift_bind P (catalog libraries.formats g.bundle) _ λ entity_catalog.
              Keeps-lift_bind P (validate_synthesis_request _) _ λ request.
                Keeps-bind P (self.analyzer.synthesize request) _ (k.synthesizes request)
                  λ synthesis.
                    Keeps-lift_bind P
                      (validated_candidates synthesis.candidates g.documents g.bundle) _
                      λ candidates.
                        Keeps-lift_bind P
                          (self.ranking_policy candidates g.documents job.window_start
                            job.window_end strategy.definition.target_story_count)
                          _
                          λ ranked.
                            Keeps-bind P
                              (raise_when
                                (ltb (length ranked) strategy.definition.minimum_story_count) _)
                              _
                              (Keeps-raise_when P
                                (ltb (length ranked) strategy.definition.minimum_story_count) _)
                              λ v s p. p

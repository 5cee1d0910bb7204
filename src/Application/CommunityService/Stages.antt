-- ===== src/Application/CommunityService/Stages.antt =====
-- application/community_service.py: what a run computes between its calls, from the check of the job to the
-- entries for the cache.
use fpl_data_relay.Prelude.{
  ℕ, String, Bool, not, ◌==◌, Option, none, some, List, [], ◌∷◌, ◌++◌, any, filter, length, nat_key,
  string_key, ◌=?◌, if◌then◌else◌,
}
use fpl_data_relay.Prelude.Dict.{Dict, put, get}
use fpl_data_relay.Result.{
  Result, ok, ◌>>=◌ as ◌then◌, raise_if, value_error, community_publication_error,
}
use fpl_data_relay.Domain.Time.{minus, plus}
use fpl_data_relay.Domain.Community.Sources.{CommunityStrategyDefinition}
use fpl_data_relay.Domain.Community.Documents.{
  SourceDocumentMetadata, DiscoveredDocument, about, revision, SourceDocument,
  SourceDiscoveryResult, SourceMaterializationResult, SourceFailure,
}
use fpl_data_relay.Domain.Community.Topics.{TopicMention, DocumentExtraction}
use fpl_data_relay.Domain.Community.Cache.{
  ExtractionCacheEntry, ExtractionCacheEntryDraft, ExtractionCacheLookup, validate_lookup,
  validate_entry_draft,
}
use fpl_data_relay.Application.CommunityJobs.{CommunityStrategyJob, days}
use fpl_data_relay.Application.CommunityService.Ports.{ReferenceBundle}
use fpl_data_relay.Application.CommunityService.Documents.{
  Discovered, validated_materialized_documents, metadata_of, cache_hit_metadata,
}
use fpl_data_relay.Application.CommunityService.Catalog.{or_key_error}
use fpl_data_relay.Application.CommunityService.Report.{Gathered}

abbrev pub values : {V : Type 0} → Dict String V → List V
values [] = []
values ((k, v) ∷ d) = v ∷ values d

abbrev pub has_failed : List SourceFailure → String → Bool
has_failed failures key = any (λ (f : SourceFailure). f.source_key =? key) failures

abbrev pub lookup_of : DiscoveredDocument → Result ExtractionCacheLookup
lookup_of d = validate_lookup record {
  source_key = (about d).source_key;
  document_id = (about d).document_id;
  content_revision = revision d;
}

-- The documents of the cache, then those that were materialized.
unfoldable pub cached_documents :
    Dict String ExtractionCacheEntry
    → Discovered
    → Dict String SourceDocumentMetadata
    → Result (Dict String SourceDocumentMetadata)
cached_documents [] discovered documents = ok documents
cached_documents ((k, entry) ∷ hits) discovered documents =
    or_key_error (get k discovered) then λ d. cache_hit_metadata d entry.draft.document then λ m.
    cached_documents hits discovered (put k m documents)

unfoldable pub add_materialized :
    Dict String SourceDocument
    → Dict String SourceDocumentMetadata
    → Result (Dict String SourceDocumentMetadata)
add_materialized [] documents = ok documents
add_materialized ((k, d) ∷ ds) documents =
    metadata_of d then λ m. add_materialized ds (put k m documents)

abbrev topics_of_document : List DocumentExtraction → String → Option (List TopicMention)
topics_of_document [] k = none
topics_of_document (e ∷ es) k =
    if e.document_id =? k then some e.topics else topics_of_document es k

abbrev cached_or :
    Option ExtractionCacheEntry → Option (List TopicMention) → Result (List TopicMention)
cached_or (some entry) extracted = ok entry.draft.topics
cached_or none extracted = or_key_error extracted

unfoldable pub all_topics :
    List String
    → Dict String ExtractionCacheEntry
    → Dict String (List TopicMention)
    → Result (List TopicMention)
all_topics [] hits extracted = ok []
all_topics (k ∷ ks) hits extracted = cached_or (get k hits) (get k extracted) then λ first.
    all_topics ks hits extracted then λ rest. ok (first ++ rest)

-- From the results of the materialization to the documents to analyze.
unfoldable pub gathered_from :
    ReferenceBundle
    → List SourceDiscoveryResult
    → List SourceFailure
    → Discovered
    → Dict String ExtractionCacheEntry
    → List SourceMaterializationResult
    → Result Gathered
unfolding cached_documents add_materialized
gathered_from bundle results failures discovered hits materialization =
    let kept = filter (λ item. not (has_failed failures (about item.1).source_key)) discovered in
    let kept_hits = filter (λ item. not (has_failed failures item.1.draft.source_key)) hits in
    validated_materialized_documents kept materialization then λ materialized.
    cached_documents kept_hits kept [] then λ from_cache.
    add_materialized materialized from_cache then λ documents.
    raise_if (length documents == 0)
      (community_publication_error "No source documents were available for community analysis.")
    then λ _. ok record {
      bundle = bundle;
      discovery_results =
          filter (λ (r : SourceDiscoveryResult). not (has_failed failures r.source_key)) results;
      materialization_results = materialization;
      failures = failures;
      discovered = kept;
      cache_hits = kept_hits;
      materialized = materialized;
      documents = documents;
    }

abbrev pub entry_draft :
    CommunityStrategyDefinition
    → String
    → Gathered
    → List DocumentExtraction
    → SourceDocument
    → Result ExtractionCacheEntryDraft
entry_draft definition hash g extracted document =
    or_key_error (get document.metadata.document_id g.discovered) then λ d.
    metadata_of document then λ metadata.
    or_key_error (topics_of_document extracted document.metadata.document_id) then λ topics.
    validate_entry_draft record {
      strategy_key = definition.key;
      strategy_version = definition.version;
      source_key = document.metadata.source_key;
      source_type = document.metadata.source_type;
      document_id = document.metadata.document_id;
      external_id = document.metadata.external_id;
      content_revision = revision d;
      extraction_contract_hash = hash;
      document = metadata;
      topics = topics;
      published_at = document.metadata.published_at;
      expires_at =
          plus document.metadata.published_at (days definition.extraction_cache_retention_days);
    }

module _ (local_date : String → ℕ → ℕ) where
  -- The checks of a job against its strategy.
  unfoldable pub check_job : CommunityStrategyDefinition → CommunityStrategyJob → Result (Unit {0})
  check_job definition job =
      raise_if (not (definition.version == job.strategy_version))
        (value_error "Strategy version mismatch.")
      then λ _.
          raise_if
            (not (job.report_date == local_date definition.schedule_timezone job.window_end.moment))
            (value_error "Strategy job report_date does not match its London window end.")
          then λ _.
              raise_if
                (not (
                  job.window_start.moment
                  == (minus job.window_end (days definition.lookback_days)).moment))
                (value_error "Strategy job window does not match its configured lookback.")

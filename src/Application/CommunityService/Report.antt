-- ===== src/Application/CommunityService/Report.antt =====
-- application/community_service.py: the usage of the model, the stories, the coverage and the draft of a
-- report.
use fpl_data_relay.Prelude.{
  ℕ, ◌+◌, ◌-◌, String, not, ◌||◌, Option, none, some, List, [], ◌∷◌, ◌++◌, count, length, nat_key,
  string_key, ◌=?◌,
}
use fpl_data_relay.Prelude.Dict.{Dict, get}
use fpl_data_relay.Result.{Result, ok, ◌>>=◌, ◌>>◌, raise_if, community_model_error}
use fpl_data_relay.Domain.Time.{Datetime, utc}
use fpl_data_relay.Domain.Reference.{Event}
use fpl_data_relay.Domain.Community.Kinds.{SourceType, same_type}
use fpl_data_relay.Domain.Community.Distinct.{distinct}
use fpl_data_relay.Domain.Community.Double.{Double}
use fpl_data_relay.Domain.Community.Sources.{CommunityStrategyDefinition, CommunitySource}
use fpl_data_relay.Domain.Community.Documents.{
  SourceDocumentMetadata, DiscoveredDocument, SourceDocument, SourceExclusion,
  SourceDiscoveryResult, SourceMaterializationResult, SourceFailure, CollectionCoverage,
  validate_coverage,
}
use fpl_data_relay.Domain.Community.Topics.{TopicMention, ModelUsage, EntityLinkCandidate}
use fpl_data_relay.Domain.Community.Cache.{
  ExtractionCacheEntry, ExtractionCacheUsage, validate_cache_usage,
}
use fpl_data_relay.Domain.Community.References.{EvidenceReference, EntityReference}
use fpl_data_relay.Domain.Community.Reports.{
  ScoredCandidate, CommunityStory, CommunityReportContent, CommunityReportDraft, validate_story,
  validate_content, validate_draft,
}
use fpl_data_relay.Application.CommunityJobs.{CommunityStrategyJob}
use fpl_data_relay.Application.CommunityService.Ports.{ReferenceBundle}
use fpl_data_relay.Application.CommunityService.Catalog.{each, or_key_error}
use fpl_data_relay.Application.CommunityService.Entities.{evidence, entity_reference, high_links}

-- `_empty_usage`
unfoldable pub empty_usage : String → String → ModelUsage
empty_usage model reasoning_effort = record {
  model = model;
  reasoning_effort = reasoning_effort;
  response_ids = [];
  input_tokens = 0;
  output_tokens = 0;
}

-- `_combine_usage`
unfoldable pub combine_usage : (extraction synthesis : ModelUsage) → Result ModelUsage
combine_usage extraction synthesis = do
  raise_if
      (not (extraction.model =? synthesis.model)
        || not (extraction.reasoning_effort =? synthesis.reasoning_effort))
      (community_model_error "Extraction and synthesis usage models differ.")
  ok record {
    model = extraction.model;
    reasoning_effort = extraction.reasoning_effort;
    response_ids = extraction.response_ids ++ synthesis.response_ids;
    input_tokens = extraction.input_tokens + synthesis.input_tokens;
    output_tokens = extraction.output_tokens + synthesis.output_tokens;
  }

-- What a run has before the extraction, the documents of failed sources left out.
pub record Gathered : Type 0 where
  pub bundle : ReferenceBundle
  pub discovery_results : List SourceDiscoveryResult
  pub materialization_results : List SourceMaterializationResult
  pub failures : List SourceFailure
  pub discovered : Dict String DiscoveredDocument
  pub cache_hits : Dict String ExtractionCacheEntry
  pub materialized : Dict String SourceDocument
  pub documents : Dict String SourceDocumentMetadata

pub record Extraction : Type 0 where
  pub topics : Dict String (List TopicMention)
  pub usage : ModelUsage
  pub write_count : ℕ

abbrev of_type : SourceType → Dict String SourceDocumentMetadata → ℕ
of_type t = count λ item. same_type item.1.source_type t

abbrev discovery_counts : List SourceDiscoveryResult → ℕ
discovery_counts [] = 0
discovery_counts (r ∷ rs) = r.excluded_document_count + discovery_counts rs

abbrev materialization_counts : List SourceMaterializationResult → ℕ
materialization_counts [] = 0
materialization_counts (r ∷ rs) = r.excluded_document_count + materialization_counts rs

abbrev discovery_exclusions : List SourceDiscoveryResult → List SourceExclusion
discovery_exclusions [] = []
discovery_exclusions (r ∷ rs) = r.exclusions ++ discovery_exclusions rs

abbrev materialization_exclusions : List SourceMaterializationResult → List SourceExclusion
materialization_exclusions [] = []
materialization_exclusions (r ∷ rs) = r.exclusions ++ materialization_exclusions rs

abbrev pub new_coverage : List CommunitySource → Gathered → CollectionCoverage
new_coverage sources g = record {
  configured_source_count = length sources;
  successful_source_count = length g.discovery_results;
  failed_sources = g.failures;
  excluded_document_count =
      discovery_counts g.discovery_results + materialization_counts g.materialization_results;
  exclusions =
      discovery_exclusions g.discovery_results
      ++ materialization_exclusions g.materialization_results;
  x_document_count = of_type SourceType.x g.documents;
  youtube_document_count = of_type SourceType.youtube g.documents;
  blog_document_count = of_type SourceType.blog g.documents;
}

-- `_coverage`
unfoldable pub coverage : List CommunitySource → Gathered → Result CollectionCoverage
coverage sources g = validate_coverage (new_coverage sources g)

abbrev pub new_cache_usage : Gathered → Extraction → ℕ → ExtractionCacheUsage
new_cache_usage g extraction expired_entry_count = record {
  eligible_document_count = length g.discovered;
  hit_count = length g.cache_hits;
  miss_count = length g.discovered - length g.cache_hits;
  write_count = extraction.write_count;
  expired_entry_count = expired_entry_count;
}

unfoldable pub cache_usage : Gathered → Extraction → ℕ → Result ExtractionCacheUsage
cache_usage g extraction expired_entry_count =
    validate_cache_usage (new_cache_usage g extraction expired_entry_count)

module _ {W : Type 0} ⦃d : Double W⦄ where
  abbrev pub story_evidence : Gathered → ScoredCandidate W → Result (List EvidenceReference)
  story_evidence g scored =
      each (λ k. or_key_error (get k g.documents) >>= evidence)
        (distinct scored.candidate.evidence_document_ids)

  abbrev pub story_entities : Gathered → ScoredCandidate W → Result (List EntityReference)
  story_entities g scored =
      each
        (λ (link : EntityLinkCandidate). entity_reference g.bundle link.entity_type link.entity_id)
        (high_links scored.candidate)

  abbrev pub new_story :
      ℕ → ScoredCandidate W → List EvidenceReference → List EntityReference → CommunityStory W
  new_story index scored evidence entities = record {
    rank = index;
    headline = scored.candidate.headline;
    summary = scored.candidate.summary;
    category = scored.candidate.category;
    momentum_score = scored.score;
    momentum_components = scored.components;
    evidence = evidence;
    entities = entities;
  }

  unfoldable pub story_of : Gathered → ℕ → ScoredCandidate W → Result (CommunityStory W)
  story_of g index scored = do
    evidence ← story_evidence g scored
    entities ← story_entities g scored
    validate_story (new_story index scored evidence entities)

  unfoldable pub stories_from :
      Gathered → ℕ → List (ScoredCandidate W) → Result (List (CommunityStory W))
  unfolding story_of
  stories_from g index [] = ok []
  stories_from g index (scored ∷ ranked) = do
    story ← story_of g index scored
    rest ← stories_from g (index + 1) ranked
    ok (story ∷ rest)

-- What is computed before the clock is read for the last time.
pub record ReportParts (W : Type 0) : Type 0 where
  pub stories : List (CommunityStory W)
  pub coverage : CollectionCoverage
  pub extraction_cache : ExtractionCacheUsage

abbrev event_id : Option Event → Option ℕ
event_id none = none
event_id (some e) = some e.id

module _ {W : Type 0} ⦃d : Double W⦄ where
  unfoldable pub report_parts :
      List CommunitySource
      → Gathered
      → Extraction
      → ℕ
      → List (ScoredCandidate W)
      → Result (ReportParts W)
  unfolding stories_from coverage cache_usage
  report_parts sources g extraction expired_entry_count ranked = do
    stories ← stories_from g 1 ranked
    covered ← coverage sources g
    usage ← cache_usage g extraction expired_entry_count
    ok record { stories = stories; coverage = covered; extraction_cache = usage }

module _ {W : Type 0} where
  abbrev pub new_content :
      CommunityStrategyDefinition → ReportParts W → ModelUsage → CommunityReportContent W
  new_content definition parts usage = record {
    strategy_name = definition.name;
    strategy_description = definition.description;
    ranking_policy = definition.ranking_policy;
    extraction_prompt_version = definition.extraction_prompt_version;
    synthesis_prompt_version = definition.synthesis_prompt_version;
    target_story_count = definition.target_story_count;
    coverage = parts.coverage;
    extraction_cache = parts.extraction_cache;
    model_usage = usage;
    stories = parts.stories;
  }

  abbrev pub new_draft :
      CommunityStrategyDefinition
      → CommunityStrategyJob
      → ReferenceBundle
      → Datetime
      → CommunityReportContent W
      → CommunityReportDraft W
  new_draft definition job bundle generated_at content = record {
    strategy_key = definition.key;
    strategy_version = definition.version;
    report_date = job.report_date;
    season_id = bundle.season.id;
    as_of_event_id = event_id bundle.current_event;
    window_start = utc job.window_start.moment;
    window_end = utc job.window_end.moment;
    generated_at = utc generated_at.moment;
    content = content;
  }

  unfoldable pub report_draft :
      CommunityStrategyDefinition
      → CommunityStrategyJob
      → ReferenceBundle
      → ReportParts W
      → (extraction synthesis : ModelUsage) → Datetime
      → Result (CommunityReportDraft W)
  unfolding combine_usage
  report_draft definition job bundle parts extraction synthesis generated_at = do
    usage ← combine_usage extraction synthesis
    content ← validate_content (new_content definition parts usage)
    validate_draft (new_draft definition job bundle generated_at content)

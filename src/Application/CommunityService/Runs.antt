-- ===== src/Application/CommunityService/Runs.antt =====
-- A run of the service on the sample, evaluated.
use fpl_data_relay.Prelude.{ℕ, ◌+◌, ◌≡◌, refl, Option, none, some, [], length, string_key, nat_key}
use fpl_data_relay.Prelude.Dict.{get, put}
use fpl_data_relay.Prelude.Sorting.{sort_by}
use fpl_data_relay.Result.{Result, ok, err}
use fpl_data_relay.Domain.Community.Micros.{micros}
use fpl_data_relay.Domain.Community.Reports.{CommunityReport}
use fpl_data_relay.Application.CommunityService.Sample.{World, service, libraries, job}
use fpl_data_relay.Application.CommunityStrategies.{
  require, extraction_instructions, synthesis_instructions,
}
use fpl_data_relay.Application.CommunityService.Stages.{
  check_job, gathered_from, cached_documents, add_materialized, all_topics,
}
use fpl_data_relay.Application.CommunityService.{
  run, analyze, gather, generate, publish, synthesize_stories, extract_documents,
}
use fpl_data_relay.Application.CommunityService.Collection.{
  load_references, discover_sources, materialize_sources, all_elements, all_fixtures,
  check_discovered, check_discovery, check_materialization, check_materialized, discover_source,
  materialize_source, materialize_wanted, pages_from,
}
use fpl_data_relay.Application.CommunityService.Documents.{
  deduplicate_discovered, see_document, see_documents, see_results, validated_cache_hits,
  cache_hits_from, cache_hit_metadata, validated_materialized_documents, materialized_from,
  materialized_results, validated_extractions, by_document_id, metadata_of,
}
use fpl_data_relay.Application.CommunityService.Catalog.{
  catalog, event_item, team_item, fixture_item, player_item,
}
use fpl_data_relay.Application.CommunityService.Entities.{
  entity_reference, evidence, valid_entity_ids, validated_candidates,
}
use fpl_data_relay.Application.CommunityService.Report.{
  cache_usage, combine_usage, coverage, empty_usage, report_draft, report_parts, stories_from,
  story_of,
}
use fpl_data_relay.Application.CommunityRanking.{
  rank, score_all, score_candidate, score_evidence, find_evidence, platform_values, percentile,
  percentiles_of, engagement_percentiles, actionability_factor, clamp, mean_engagement,
}
use fpl_data_relay.Domain.Calendar.{decimal}
use fpl_data_relay.Domain.Community.Sources.{source_key, source_type}
use fpl_data_relay.Domain.Community.Cache.{
  validate_lookup, validate_cache_usage, validate_entry_draft,
}
use fpl_data_relay.Domain.Community.Distinct.{distinct, has_duplicates}
use fpl_data_relay.Domain.Community.Documents.{
  validate_coverage, validate_metadata, engagement_score, x_weighted_score,
}
use fpl_data_relay.Domain.Community.Kinds.{is_sha256, every_code, is_provider_option}
use fpl_data_relay.Domain.Community.References.{
  validate_evidence, validate_event_snapshot, validate_fixture_snapshot,
}
use fpl_data_relay.Domain.Community.Reports.{
  validate_content, validate_draft, validate_story, validate_times, validate_components,
}
use fpl_data_relay.Domain.Community.Topics.{
  validate_catalog_item, validate_extraction_request, validate_synthesis_request,
}

abbrev outcome : Result (Option (CommunityReport ℕ)) × World → ℕ × ℕ
outcome (err e, s) = (0, length s.reports)
outcome (ok none, s) = (1, length s.reports)
outcome (ok (some r), s) = (2 + length r.draft.content.stories, length s.reports)

-- One story, in one report.
published : outcome (run libraries service 1 job (record { reports = [] })) ≡ (3, 1)
unfolding require extraction_instructions synthesis_instructions run check_job analyze gather
    gathered_from generate publish synthesize_stories extract_documents cached_documents
    add_materialized all_topics load_references discover_sources materialize_sources all_elements
    all_fixtures check_discovered check_discovery check_materialization check_materialized
    discover_source materialize_source materialize_wanted pages_from deduplicate_discovered
    see_document see_documents see_results validated_cache_hits cache_hits_from cache_hit_metadata
    validated_materialized_documents materialized_from materialized_results validated_extractions
    by_document_id metadata_of catalog entity_reference event_item team_item evidence fixture_item
    player_item valid_entity_ids validated_candidates cache_usage combine_usage coverage empty_usage
    report_draft report_parts stories_from story_of rank score_all score_candidate score_evidence
    find_evidence platform_values percentile percentiles_of engagement_percentiles
    actionability_factor clamp mean_engagement decimal source_key source_type validate_lookup
    validate_cache_usage validate_entry_draft distinct has_duplicates validate_coverage
    validate_metadata engagement_score x_weighted_score is_sha256 every_code is_provider_option
    validate_evidence validate_event_snapshot validate_fixture_snapshot validate_content
    validate_draft validate_story validate_times validate_components validate_catalog_item
    validate_extraction_request validate_synthesis_request get put sort_by
published = refl

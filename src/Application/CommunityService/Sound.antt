-- ===== src/Application/CommunityService/Sound.antt =====
-- application/community_service.py: what the parts of a report have passed when they are built.
use mathlib.Core.Path.{subst}
use fpl_data_relay.Prelude.{
  ℕ, suc, ◌+◌, ◌≤◌, ◌<◌, ◌≡◌, refl, ap, arith, true, false, List, [], ◌∷◌, length, map, All,
  string_key,
}
use fpl_data_relay.Result.{ok, >>=-inv}
use fpl_data_relay.Domain.Time.{Datetime, utc}
use fpl_data_relay.Domain.Community.Distinct.{has_duplicates}
use fpl_data_relay.Domain.Community.Double.{Double}
use fpl_data_relay.Domain.Community.Sources.{CommunityStrategyDefinition, CommunitySource}
use fpl_data_relay.Domain.Community.Documents.{CollectionCoverage, validate_coverage, excluded}
use fpl_data_relay.Domain.Community.Topics.{ModelUsage}
use fpl_data_relay.Domain.Community.Cache.{ExtractionCacheUsage, validate_cache_usage}
use fpl_data_relay.Domain.Community.References.{EvidenceReference}
use fpl_data_relay.Domain.Community.Reports.{
  ScoredCandidate, CommunityStory, CommunityReportContent, CommunityReportDraft, component_list,
  repeats_entity, ranks_from, validate_story, validate_content, validate_draft, validate_times,
}
use fpl_data_relay.Application.CommunityJobs.{CommunityStrategyJob}
use fpl_data_relay.Application.CommunityService.Ports.{ReferenceBundle}
use fpl_data_relay.Application.CommunityService.Report.{
  Gathered, Extraction, ReportParts, coverage, cache_usage, story_of, story_evidence,
  story_entities, new_story, stories_from, new_content, new_draft, new_coverage, new_cache_usage,
  report_parts, combine_usage, report_draft,
}

-- A story has evidence and entities, neither twice, and a score that its components explain.
pub record IsSound {W : Type 0} ⦃d : Double W⦄ (s : CommunityStory W) : Type 0 where
  pub explained : d.differ (d.sum (component_list s.momentum_components)) s.momentum_score ≡ false
  pub has_evidence : 1 ≤ length s.evidence
  pub evidence_once :
      has_duplicates (map (λ (e : EvidenceReference). e.document_id) s.evidence) ≡ false
  pub has_entities : 1 ≤ length s.entities
  pub entities_once : repeats_entity s.entities ≡ false

pub record IsCovered (c : CollectionCoverage) : Type 0 where
  pub sources : c.successful_source_count + length c.failed_sources ≡ c.configured_source_count
  pub exclusions : excluded c.exclusions ≡ c.excluded_document_count

pub record IsCounted (u : ExtractionCacheUsage) : Type 0 where
  pub eligible : u.hit_count + u.miss_count ≡ u.eligible_document_count
  pub writes : u.write_count ≤ u.miss_count

module _ {W : Type 0} ⦃d : Double W⦄ where
  validate_story-IsSound : (s t : CommunityStory W) → validate_story s ≡ ok t → IsSound t
  unfolding validate_story
  validate_story-IsSound s t h = ground arith

validate_coverage-IsCovered : (c e : CollectionCoverage) → validate_coverage c ≡ ok e → IsCovered e
unfolding validate_coverage
validate_coverage-IsCovered c e h = ground arith

validate_cache_usage-IsCounted :
    (u v : ExtractionCacheUsage) → validate_cache_usage u ≡ ok v → IsCounted v
unfolding validate_cache_usage
validate_cache_usage-IsCounted u v h = ground arith

coverage-IsCovered :
    (sources : List CommunitySource) (g : Gathered) (c : CollectionCoverage)
    → coverage sources g ≡ ok c
    → IsCovered c
unfolding coverage
coverage-IsCovered sources g c h = validate_coverage-IsCovered (new_coverage sources g) c h

cache_usage-IsCounted :
    (g : Gathered) (extraction : Extraction) (expired_entry_count : ℕ) (u : ExtractionCacheUsage)
    → cache_usage g extraction expired_entry_count ≡ ok u
    → IsCounted u
unfolding cache_usage
cache_usage-IsCounted g extraction expired_entry_count u h =
    validate_cache_usage-IsCounted (new_cache_usage g extraction expired_entry_count) u h

module _ {W : Type 0} ⦃d : Double W⦄ (g : Gathered) where
  story_of-IsSound :
      (index : ℕ) (scored : ScoredCandidate W) (s : CommunityStory W)
      → story_of g index scored ≡ ok s
      → IsSound s
  unfolding story_of
  story_of-IsSound index scored s h =
      let (evidence, found, h1) = >>=-inv (story_evidence g scored) _ h in
      let (entities, linked, h2) = >>=-inv (story_entities g scored) _ h1 in
      validate_story-IsSound (new_story index scored evidence entities) s h2

  stories_from-IsSound :
      (index : ℕ) (ranked : List (ScoredCandidate W)) (ss : List (CommunityStory W))
      → stories_from g index ranked ≡ ok ss
      → All IsSound ss × (length ss ≡ length ranked)
  unfolding stories_from
  stories_from-IsSound index [] ss h =
      let e : [] ≡ ss = cc in
      subst (λ (l : List (CommunityStory W)). All IsSound l × (length l ≡ 0)) e (tt, refl)
  stories_from-IsSound index (scored ∷ ranked) ss h =
      let (s, first, h1) = >>=-inv (story_of g index scored) _ h in
      let (rest, others, h2) = >>=-inv (stories_from g (index + 1) ranked) _ h1 in
      let e : s ∷ rest ≡ ss = cc in
      let (sound, size) = stories_from-IsSound (index + 1) ranked rest others in
      subst (λ (l : List (CommunityStory W)). All IsSound l × (length l ≡ suc (length ranked))) e
        ((story_of-IsSound index scored s first, sound), ap suc size)

-- The parts of a report of so many ranked stories.
pub record AreSound {W : Type 0} ⦃d : Double W⦄ (ranked : List (ScoredCandidate W))
    (p : ReportParts W) : Type 0 where
  pub stories : All IsSound p.stories
  pub size : length p.stories ≡ length ranked
  pub covered : IsCovered p.coverage
  pub counted : IsCounted p.extraction_cache

module _ {W : Type 0} ⦃d : Double W⦄ where
  pub report_parts-AreSound :
      (sources : List CommunitySource) (g : Gathered) (extraction : Extraction)
      (expired_entry_count : ℕ) (ranked : List (ScoredCandidate W)) (p : ReportParts W)
      → report_parts sources g extraction expired_entry_count ranked ≡ ok p
      → AreSound ranked p
  unfolding report_parts
  report_parts-AreSound sources g extraction expired_entry_count ranked p h =
      let (stories, told, h1) = >>=-inv (stories_from g 1 ranked) _ h in
      let (covered, seen, h2) = >>=-inv (coverage sources g) _ h1 in
      let (usage, used, h3) = >>=-inv (cache_usage g extraction expired_entry_count) _ h2 in
      let e : record { stories = stories; coverage = covered; extraction_cache = usage } ≡ p = cc in
      let (sound, size) = stories_from-IsSound g 1 ranked stories told in
      subst (AreSound ranked) e (record {
        stories = sound;
        size = size;
        covered = coverage-IsCovered sources g covered seen;
        counted = cache_usage-IsCounted g extraction expired_entry_count usage used;
      })

-- A draft that may be inserted, for a strategy and a job.
pub record IsPublishable {W : Type 0} ⦃d : Double W⦄ (definition : CommunityStrategyDefinition)
    (job : CommunityStrategyJob) (r : CommunityReportDraft W) : Type 0 where
  pub strategy : r.strategy_key ≡ definition.key
  pub date : r.report_date ≡ job.report_date
  pub start : r.window_start ≡ utc job.window_start.moment
  pub end_of : r.window_end ≡ utc job.window_end.moment
  pub ordered : r.window_start.moment < r.window_end.moment
  pub not_early : r.window_end.moment ≤ r.generated_at.moment
  pub some_stories : 1 ≤ length r.content.stories
  pub at_most_target : length r.content.stories ≤ definition.target_story_count
  pub at_most_ten : length r.content.stories ≤ 10
  pub contiguous : ranks_from 1 r.content.stories ≡ true
  pub sound : All IsSound r.content.stories
  pub covered : IsCovered r.content.coverage
  pub counted : IsCounted r.content.extraction_cache

module _ {W : Type 0} ⦃d : Double W⦄ where
  content_counts :
      (c e : CommunityReportContent W)
      → validate_content c ≡ ok e
      → (e ≡ c)
        × (1 ≤ length c.stories)
        × (length c.stories ≤ 10)
        × (length c.stories ≤ c.target_story_count)
        × (ranks_from 1 c.stories ≡ true)
  unfolding validate_content
  content_counts c e h = ground arith

  draft_times :
      (r t : CommunityReportDraft W)
      → validate_draft r ≡ ok t
      → (t ≡ r)
        × (r.window_start.moment < r.window_end.moment)
        × (r.window_end.moment ≤ r.generated_at.moment)
  unfolding validate_draft validate_times
  draft_times r t h = ground arith

  -- What is drafted from sound parts may be inserted.
  pub report_draft-IsPublishable :
      (definition : CommunityStrategyDefinition) (job : CommunityStrategyJob)
      (bundle : ReferenceBundle) (ranked : List (ScoredCandidate W)) (p : ReportParts W)
      (extraction synthesis : ModelUsage) (now : Datetime) (r : CommunityReportDraft W)
      → AreSound ranked p
      → report_draft definition job bundle p extraction synthesis now ≡ ok r
      → IsPublishable definition job r
  unfolding report_draft
  report_draft-IsPublishable definition job bundle ranked p extraction synthesis now r sound h =
      let (usage, combined, h1) = >>=-inv (combine_usage extraction synthesis) _ h in
      let c : CommunityReportContent W = new_content definition p usage in
      let (content, valid, h2) = >>=-inv (validate_content c) _ h1 in
      let (same, some_stories, ten, target, contiguous) = content_counts c content valid in
      let r' : CommunityReportDraft W = new_draft definition job bundle now content in
      let (whole, ordered, late) = draft_times r' r h2 in
      rw (whole, same)
        (record {
          strategy = refl;
          date = refl;
          start = refl;
          end_of = refl;
          ordered = ordered;
          not_early = late;
          some_stories = some_stories;
          at_most_target = target;
          at_most_ten = ten;
          contiguous = contiguous;
          sound = sound.stories;
          covered = sound.covered;
          counted = sound.counted;
        })

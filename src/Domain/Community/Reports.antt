-- ===== src/Domain/Community/Reports.antt =====
-- domain/community.py: scored stories, the content of a report, and the reports themselves.

use fpl_data_relay.Prelude.{
  ℕ, String, Bool, true, false, not, ◌&&◌, ◌||◌, ◌+◌, Option, List, [], ◌∷◌, map, any, ◌==◌, ltb,
  leb, length, string_key, nat_key,
}
use fpl_data_relay.Result.{Result, ok, ◌>>=◌, ◌>>◌, raise_if, value_error}
use fpl_data_relay.Domain.Time.{Datetime, is_aware}
use fpl_data_relay.Domain.Community.Kinds.{TopicCategory, given, fields_valid, between}
use fpl_data_relay.Domain.Community.Distinct.{has_duplicates}
use fpl_data_relay.Domain.Time.{not_after, earlier}
use fpl_data_relay.Domain.Community.Kinds.{same_entity_type}
use fpl_data_relay.Domain.Community.Double.{Double, less}
use fpl_data_relay.Domain.Community.Documents.{CollectionCoverage}
use fpl_data_relay.Domain.Community.Topics.{CandidateStory, ModelUsage}
use fpl_data_relay.Domain.Community.Cache.{ExtractionCacheUsage}
use fpl_data_relay.Domain.Community.References.{
  EvidenceReference, EntityReference, reference_type, reference_id,
}

pub record MomentumComponents (W : Type 0) : Type 0 where
  pub source_breadth : W
  pub evidence_volume : W
  pub engagement : W
  pub recency : W
  pub actionability : W

pub record ScoredCandidate (W : Type 0) : Type 0 where
  pub candidate : CandidateStory
  pub score : W
  pub components : MomentumComponents W
  pub newest_evidence_at : Datetime

pub record CommunityStory (W : Type 0) : Type 0 where
  pub rank : ℕ
  pub headline : String
  pub summary : String
  pub category : TopicCategory
  pub momentum_score : W
  pub momentum_components : MomentumComponents W
  pub evidence : List EvidenceReference
  pub entities : List EntityReference

pub record CommunityReportContent (W : Type 0) : Type 0 where
  pub strategy_name : String
  pub strategy_description : String
  pub ranking_policy : String
  pub extraction_prompt_version : ℕ
  pub synthesis_prompt_version : ℕ
  pub target_story_count : ℕ
  pub coverage : CollectionCoverage
  pub extraction_cache : ExtractionCacheUsage
  pub model_usage : ModelUsage
  pub stories : List (CommunityStory W)

-- A date is a day number. The draft of a report is its fields before the database gives the id.
pub record CommunityReportDraft (W : Type 0) : Type 0 where
  pub strategy_key : String
  pub strategy_version : ℕ
  pub report_date : ℕ
  pub season_id : String
  pub as_of_event_id : Option ℕ
  pub window_start : Datetime
  pub window_end : Datetime
  pub generated_at : Datetime
  pub content : CommunityReportContent W

pub record CommunityReport (W : Type 0) : Type 0 where
  pub id : ℕ
  pub draft : CommunityReportDraft W

pub record CommunityReportSummary : Type 0 where
  pub id : ℕ
  pub strategy_key : String
  pub strategy_version : ℕ
  pub report_date : ℕ
  pub season_id : String
  pub as_of_event_id : Option ℕ
  pub window_start : Datetime
  pub window_end : Datetime
  pub generated_at : Datetime
  pub story_count : ℕ
  pub successful_source_count : ℕ
  pub failed_source_count : ℕ

abbrev pub component_list : {W : Type 0} → MomentumComponents W → List W
component_list c =
    c.source_breadth ∷ c.evidence_volume ∷ c.engagement ∷ c.recency ∷ c.actionability ∷ []

abbrev entity_in : EntityReference → List EntityReference → Bool
entity_in e = any (λ f.
    same_entity_type (reference_type e) (reference_type f) && reference_id e == reference_id f)

abbrev pub repeats_entity : List EntityReference → Bool
repeats_entity [] = false
repeats_entity (e ∷ es) = entity_in e es || repeats_entity es

-- `list(range(1, len(value) + 1))`, from any first rank
abbrev pub ranks_from : {W : Type 0} → ℕ → List (CommunityStory W) → Bool
ranks_from n [] = true
ranks_from n (s ∷ ss) = s.rank == n && ranks_from (n + 1) ss

-- The three checks that a report, its draft and its summary share.
unfoldable pub validate_times : Datetime → Datetime → Datetime → Result (Unit {0})
validate_times window_start window_end generated_at = do
  raise_if (not (is_aware window_start)) (value_error "window_start must be timezone-aware.")
  raise_if (not (is_aware window_end)) (value_error "window_end must be timezone-aware.")
  raise_if (not (is_aware generated_at)) (value_error "generated_at must be timezone-aware.")
  raise_if (not_after window_end window_start)
      (value_error "window_end must be after window_start.")
  raise_if (earlier generated_at window_end) (value_error "generated_at cannot precede window_end.")

unfoldable pub validate_summary : CommunityReportSummary → Result CommunityReportSummary
unfolding validate_times
validate_summary r = do
  fields_valid (
      leb 1 r.id
      && given r.strategy_key
      && leb 1 r.strategy_version
      && given r.season_id
      && between 1 10 r.story_count)
  validate_times r.window_start r.window_end r.generated_at
  ok r

module _ {W : Type 0} ⦃d : Double W⦄ where
  abbrev pub in_range : ℕ → W → Bool
  in_range most x = not (less x (d.of_int 0)) && not (less (d.of_int most) x)

  unfoldable pub validate_components : MomentumComponents W → Result (MomentumComponents W)
  validate_components c = do
    fields_valid (
        in_range 35 c.source_breadth
        && in_range 20 c.evidence_volume
        && in_range 20 c.engagement
        && in_range 15 c.recency
        && in_range 10 c.actionability)
    ok c

  unfoldable pub validate_story : CommunityStory W → Result (CommunityStory W)
  validate_story s = do
    fields_valid (
        between 1 10 s.rank
        && given s.headline
        && given s.summary
        && in_range 100 s.momentum_score
        && leb 1 (length s.evidence)
        && leb 1 (length s.entities))
    raise_if (d.differ (d.sum (component_list s.momentum_components)) s.momentum_score)
        (value_error "Momentum score must equal its component sum.")
    raise_if (has_duplicates (map (λ (e : EvidenceReference). e.document_id) s.evidence))
        (value_error "Story evidence document IDs must be unique.")
    raise_if (repeats_entity s.entities) (value_error "Story entity references must be unique.")
    ok s

module _ {W : Type 0} where
  unfoldable pub validate_content : CommunityReportContent W → Result (CommunityReportContent W)
  validate_content c = do
    fields_valid (
        given c.strategy_name
        && given c.strategy_description
        && given c.ranking_policy
        && leb 1 c.extraction_prompt_version
        && leb 1 c.synthesis_prompt_version
        && between 1 10 c.target_story_count
        && between 1 10 (length c.stories))
    raise_if (not (ranks_from 1 c.stories))
        (value_error "Community story ranks must be contiguous.")
    raise_if (ltb c.target_story_count (length c.stories))
        (value_error "Story count cannot exceed target_story_count.")
    ok c

  unfoldable pub validate_draft : CommunityReportDraft W → Result (CommunityReportDraft W)
  unfolding validate_times
  validate_draft r = do
    fields_valid (given r.strategy_key && leb 1 r.strategy_version && given r.season_id)
    validate_times r.window_start r.window_end r.generated_at
    ok r

  pub validate_report : CommunityReport W → Result (CommunityReport W)
  unfolding validate_draft
  validate_report r = do
    fields_valid (leb 1 r.id)
    draft ← validate_draft r.draft
    ok (record r { draft = draft })

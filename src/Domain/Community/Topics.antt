-- ===== src/Domain/Community/Topics.antt =====
-- domain/community.py: what the model extracts and synthesizes, and the cache of extractions.

use fpl_data_relay.Prelude.{
  ℕ, String, Bool, false, not, ◌&&◌, List, [], ◌∷◌, map, any, leb, length, string_key, nat_key,
  ◌=?◌,
}
use fpl_data_relay.Result.{Result, ok, ◌>>◌, raise_if, value_error}
use fpl_data_relay.Domain.Community.Kinds.{
  TopicCategory, Actionability, EntityType, EntityConfidence, given, is_provider_option,
  fields_valid,
}
use fpl_data_relay.Domain.Community.Distinct.{has_duplicates}
use fpl_data_relay.Domain.Community.Documents.{SourceDocument}

pub record TopicMention : Type 0 where
  pub claim : String
  pub category : TopicCategory
  pub actionability : Actionability
  pub mentioned_entities : List String
  pub document_ids : List String

abbrev pub TopicMentionBatch : Type 0
TopicMentionBatch = List TopicMention

pub record ExtractedTopic : Type 0 where
  pub claim : String
  pub category : TopicCategory
  pub actionability : Actionability
  pub mentioned_entities : List String

pub record DocumentTopicExtraction : Type 0 where
  pub document_id : String
  pub topics : List ExtractedTopic

pub record EntityLinkCandidate : Type 0 where
  pub entity_type : EntityType
  pub entity_id : ℕ
  pub confidence : EntityConfidence

pub record CandidateStory : Type 0 where
  pub headline : String
  pub summary : String
  pub category : TopicCategory
  pub actionability : Actionability
  pub evidence_document_ids : List String
  pub entity_links : List EntityLinkCandidate

pub validate_candidate : CandidateStory → Result CandidateStory
validate_candidate c = do
  fields_valid (given c.headline && given c.summary && leb 1 (length c.evidence_document_ids))
  ok c

pub record EntityCatalogItem : Type 0 where
  pub entity_type : EntityType
  pub entity_id : ℕ
  pub display_name : String
  pub aliases : List String
  pub context : String

unfoldable pub validate_catalog_item : EntityCatalogItem → Result EntityCatalogItem
validate_catalog_item c = do
  fields_valid
      (leb 1 c.entity_id && given c.display_name && leb 1 (length c.aliases) && given c.context)
  ok c

pub record AgentExtractionRequest : Type 0 where
  pub documents : List SourceDocument
  pub extraction_instructions : String
  pub model : String
  pub reasoning_effort : String
  pub extraction_concurrency : ℕ
  pub chunk_characters : ℕ

unfoldable pub validate_extraction_request : AgentExtractionRequest → Result AgentExtractionRequest
validate_extraction_request r = do
  fields_valid (
      leb 1 (length r.documents)
      && given r.extraction_instructions
      && is_provider_option r.model
      && is_provider_option r.reasoning_effort
      && leb 1 r.extraction_concurrency
      && leb 1 r.chunk_characters)
  ok r

pub record ModelUsage : Type 0 where
  pub model : String
  pub reasoning_effort : String
  pub response_ids : List String
  pub input_tokens : ℕ
  pub output_tokens : ℕ

pub record DocumentExtraction : Type 0 where
  pub document_id : String
  pub topics : TopicMentionBatch

-- `topic.document_ids != [self.document_id]`
abbrev pub cites_only : String → List String → Bool
cites_only document_id [] = false
cites_only document_id (k ∷ []) = k =? document_id
cites_only document_id (k ∷ j ∷ ks) = false

abbrev pub cites_others : String → TopicMentionBatch → Bool
cites_others document_id = any (λ topic. not (cites_only document_id topic.document_ids))

unfoldable pub validate_extraction : DocumentExtraction → Result DocumentExtraction
validate_extraction e = do
  fields_valid (given e.document_id)
  raise_if (cites_others e.document_id e.topics)
      (value_error "Cached topics may cite only their own document.")
  ok e

pub record AgentExtractionResult : Type 0 where
  pub documents : List DocumentExtraction
  pub usage : ModelUsage

unfoldable pub validate_extraction_result : AgentExtractionResult → Result AgentExtractionResult
validate_extraction_result r = do
  raise_if (has_duplicates (map (λ item. item.document_id) r.documents))
      (value_error "Extraction document IDs must be unique.")
  ok r

pub record AgentSynthesisRequest : Type 0 where
  pub topics : List TopicMention
  pub entity_catalog : List EntityCatalogItem
  pub synthesis_instructions : String
  pub model : String
  pub reasoning_effort : String
  pub maximum_candidate_stories : ℕ

unfoldable pub validate_synthesis_request : AgentSynthesisRequest → Result AgentSynthesisRequest
validate_synthesis_request r = do
  fields_valid (
      leb 1 (length r.topics)
      && leb 1 (length r.entity_catalog)
      && given r.synthesis_instructions
      && is_provider_option r.model
      && is_provider_option r.reasoning_effort
      && leb 1 r.maximum_candidate_stories)
  ok r

pub record AgentSynthesisResult : Type 0 where
  pub candidates : List CandidateStory
  pub usage : ModelUsage

-- ===== src/Domain/Community/Documents.antt =====
-- domain/community.py: engagement, the documents of a source, and the results of a collection.

use fpl_data_relay.Prelude.{
  ℕ, String, not, ◌&&◌, ◌+◌, ◌*◌, Option, none, some, List, [], ◌∷◌, ◌==◌, leb, length, string_key,
  nat_key,
}
use fpl_data_relay.Result.{Result, ok, ◌>>=◌, ◌>>◌, raise_if, value_error}
use fpl_data_relay.Domain.Time.{Datetime, is_aware}
use fpl_data_relay.Domain.Community.Kinds.{SourceType, given, fields_valid}

pub record XEngagement : Type 0 where
  pub likes : ℕ
  pub replies : ℕ
  pub reposts : ℕ
  pub quotes : ℕ

pub record YouTubeEngagement : Type 0 where
  pub views : ℕ
  pub likes : ℕ
  pub comments : ℕ

pub data Engagement : Type 0 where
  x_engagement : XEngagement → Engagement
  youtube_engagement : YouTubeEngagement → Engagement
  blog_engagement : Engagement

-- `weighted_score`
unfoldable pub x_weighted_score : XEngagement → ℕ
x_weighted_score e = e.likes + e.replies + 2 * (e.reposts + e.quotes)

unfoldable pub youtube_weighted_score : YouTubeEngagement → ℕ
youtube_weighted_score e = e.views + 10 * e.likes + 20 * e.comments

pub record SourceExclusion : Type 0 where
  pub source_key : String
  pub source_type : SourceType
  pub code : String
  pub count : ℕ

pub validate_exclusion : SourceExclusion → Result SourceExclusion
validate_exclusion e = do fields_valid (given e.code && leb 1 e.count); ok e

pub record SourceDocumentMetadata : Type 0 where
  pub document_id : String
  pub source_key : String
  pub source_type : SourceType
  pub external_id : String
  pub publisher : String
  pub title : String
  pub url : String
  pub published_at : Datetime
  pub engagement : Engagement

unfoldable pub validate_metadata : SourceDocumentMetadata → Result SourceDocumentMetadata
validate_metadata d = do
  fields_valid (
      given d.document_id
      && given d.source_key
      && given d.external_id
      && given d.publisher
      && given d.title)
  raise_if (not (is_aware d.published_at)) (value_error "published_at must be timezone-aware.")
  ok d

abbrev score_of : Engagement → Option ℕ
score_of (x_engagement e) = some (x_weighted_score e)
score_of (youtube_engagement e) = some (youtube_weighted_score e)
score_of blog_engagement = none

unfoldable pub engagement_score : SourceDocumentMetadata → Option ℕ
engagement_score d = score_of d.engagement

-- A subclass holds the fields that it inherits as `metadata`.
pub record XDiscoveredDocument : Type 0 where
  pub metadata : SourceDocumentMetadata
  pub content_revision : String
  pub transient_text : String

pub record YouTubeDiscoveredDocument : Type 0 where
  pub metadata : SourceDocumentMetadata
  pub content_revision : String

pub record BlogDiscoveredDocument : Type 0 where
  pub metadata : SourceDocumentMetadata
  pub content_revision : String

pub data DiscoveredDocument : Type 0 where
  x_document : XDiscoveredDocument → DiscoveredDocument
  youtube_document : YouTubeDiscoveredDocument → DiscoveredDocument
  blog_document : BlogDiscoveredDocument → DiscoveredDocument

abbrev pub about : DiscoveredDocument → SourceDocumentMetadata
about (x_document d) = d.metadata
about (youtube_document d) = d.metadata
about (blog_document d) = d.metadata

abbrev pub revision : DiscoveredDocument → String
revision (x_document d) = d.content_revision
revision (youtube_document d) = d.content_revision
revision (blog_document d) = d.content_revision

pub record SourceDocument : Type 0 where
  pub metadata : SourceDocumentMetadata
  pub text : String

pub validate_source_document : SourceDocument → Result SourceDocument
unfolding validate_metadata
validate_source_document d = do
  fields_valid (given d.text)
  metadata ← validate_metadata d.metadata
  ok (record d { metadata = metadata })

abbrev pub excluded : List SourceExclusion → ℕ
excluded [] = 0
excluded (e ∷ es) = e.count + excluded es

pub record SourceDiscoveryResult : Type 0 where
  pub source_key : String
  pub documents : List DiscoveredDocument
  pub excluded_document_count : ℕ
  pub exclusions : List SourceExclusion

unfoldable pub validate_discovery : SourceDiscoveryResult → Result SourceDiscoveryResult
validate_discovery r = do
  raise_if (not (excluded r.exclusions == r.excluded_document_count))
      (value_error "Source discovery exclusion counts are inconsistent.")
  ok r

pub record SourceMaterializationResult : Type 0 where
  pub source_key : String
  pub documents : List SourceDocument
  pub excluded_document_count : ℕ
  pub exclusions : List SourceExclusion

unfoldable pub validate_materialization :
    SourceMaterializationResult → Result SourceMaterializationResult
validate_materialization r = do
  raise_if (not (excluded r.exclusions == r.excluded_document_count))
      (value_error "Source materialization exclusion counts are inconsistent.")
  ok r

pub record SourceFailure : Type 0 where
  pub source_key : String
  pub source_type : SourceType
  pub code : String

pub record CollectionCoverage : Type 0 where
  pub configured_source_count : ℕ
  pub successful_source_count : ℕ
  pub failed_sources : List SourceFailure
  pub excluded_document_count : ℕ
  pub exclusions : List SourceExclusion
  pub x_document_count : ℕ
  pub youtube_document_count : ℕ
  pub blog_document_count : ℕ

unfoldable pub validate_coverage : CollectionCoverage → Result CollectionCoverage
validate_coverage c = do
  fields_valid (leb 1 c.configured_source_count && leb 1 c.successful_source_count)
  raise_if (not (c.successful_source_count + length c.failed_sources == c.configured_source_count))
      (value_error "Source coverage counts are inconsistent.")
  raise_if (not (excluded c.exclusions == c.excluded_document_count))
      (value_error "Coverage exclusion counts are inconsistent.")
  ok c

-- ===== src/Domain/Community/Cache.antt =====
-- domain/community.py: the cache of extractions and its usage in a report.

use fpl_data_relay.Prelude.{
  ℕ, String, Bool, not, ◌&&◌, ◌||◌, ◌+◌, ◌==◌, ltb, leb, string_key, nat_key, ◌=?◌,
}
use fpl_data_relay.Result.{Result, ok, ◌>>=◌, ◌>>◌, raise_if, value_error}
use fpl_data_relay.Domain.Time.{Datetime, is_aware}
use fpl_data_relay.Domain.Community.Kinds.{SourceType, same_type, given, is_sha256, fields_valid}
use fpl_data_relay.Domain.Time.{not_after}
use fpl_data_relay.Domain.Community.Documents.{SourceDocumentMetadata}
use fpl_data_relay.Domain.Community.Topics.{TopicMentionBatch, cites_others}

pub record ExtractionCacheLookup : Type 0 where
  pub source_key : String
  pub document_id : String
  pub content_revision : String

unfoldable pub validate_lookup : ExtractionCacheLookup → Result ExtractionCacheLookup
validate_lookup l = do
  fields_valid (given l.source_key && given l.document_id && is_sha256 l.content_revision)
  ok l

pub record ExtractionCacheEntryDraft : Type 0 where
  pub strategy_key : String
  pub strategy_version : ℕ
  pub source_key : String
  pub source_type : SourceType
  pub document_id : String
  pub external_id : String
  pub content_revision : String
  pub extraction_contract_hash : String
  pub document : SourceDocumentMetadata
  pub topics : TopicMentionBatch
  pub published_at : Datetime
  pub expires_at : Datetime

-- Aware datetimes are equal where their instants are.
abbrev pub same_moment : Datetime → Datetime → Bool
same_moment a b = a.moment == b.moment

unfoldable pub validate_entry_draft : ExtractionCacheEntryDraft → Result ExtractionCacheEntryDraft
validate_entry_draft e = do
  fields_valid (
      given e.strategy_key
      && leb 1 e.strategy_version
      && given e.source_key
      && given e.document_id
      && given e.external_id
      && is_sha256 e.content_revision
      && is_sha256 e.extraction_contract_hash)
  raise_if (not (is_aware e.published_at))
      (value_error "Cache published_at must be timezone-aware.")
  raise_if (not (is_aware e.expires_at)) (value_error "Cache expires_at must be timezone-aware.")
  raise_if (not_after e.expires_at e.published_at)
      (value_error "Cache expires_at must follow published_at.")
  raise_if
      (not (e.document.document_id =? e.document_id)
        || not (e.document.external_id =? e.external_id)
        || not (e.document.source_key =? e.source_key)
        || not (same_type e.document.source_type e.source_type)
        || not (same_moment e.document.published_at e.published_at))
      (value_error "Cache entry metadata does not match its key columns.")
  raise_if (cites_others e.document_id e.topics)
      (value_error "Cache topics may cite only their own document.")
  ok e

pub record ExtractionCacheEntry : Type 0 where
  pub draft : ExtractionCacheEntryDraft
  pub id : ℕ
  pub created_at : Datetime

pub validate_entry : ExtractionCacheEntry → Result ExtractionCacheEntry
unfolding validate_entry_draft
validate_entry e = do
  fields_valid (leb 1 e.id)
  raise_if (not (is_aware e.created_at)) (value_error "Cache created_at must be timezone-aware.")
  draft ← validate_entry_draft e.draft
  ok (record e { draft = draft })

pub record ExtractionCacheUsage : Type 0 where
  pub eligible_document_count : ℕ
  pub hit_count : ℕ
  pub miss_count : ℕ
  pub write_count : ℕ
  pub expired_entry_count : ℕ

unfoldable pub validate_cache_usage : ExtractionCacheUsage → Result ExtractionCacheUsage
validate_cache_usage u = do
  raise_if (not (u.hit_count + u.miss_count == u.eligible_document_count))
      (value_error "Cache hits and misses must equal eligible documents.")
  raise_if (ltb u.miss_count u.write_count) (value_error "Cache writes cannot exceed cache misses.")
  ok u

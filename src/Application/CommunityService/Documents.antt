-- ===== src/Application/CommunityService/Documents.antt =====
-- application/community_service.py: the documents of a run, their order and the checks of what the cache,
-- the materializer and the analyzer return.
use fpl_data_relay.Prelude.{
  ℕ, String, Bool, not, ◌&&◌, ◌||◌, ◌==◌, Option, none, some, List, [], ◌∷◌, any, length, contains,
  string_key, ◌=?◌, nat_key, if◌then◌else◌,
}
use fpl_data_relay.Prelude.Dict.{Dict, keys, get, put, is_some}
use fpl_data_relay.Prelude.Sorting.{sort_by, by_key, by_nothing}
use fpl_data_relay.Result.{Result, ok, err, ◌>>=◌, ◌>>◌, raise_if, community_model_error}
use fpl_data_relay.Domain.Time.{Datetime, not_after}
use fpl_data_relay.Domain.Community.Kinds.{SourceType, same_type}
use fpl_data_relay.Domain.Community.Documents.{
  SourceDocumentMetadata, DiscoveredDocument, blog_document, x_document, youtube_document, about,
  revision, SourceDocument, SourceDiscoveryResult, SourceMaterializationResult, validate_metadata,
}
use fpl_data_relay.Domain.Community.Topics.{TopicMention, DocumentExtraction}
use fpl_data_relay.Domain.Community.Cache.{ExtractionCacheEntry, same_moment}

abbrev pub Discovered : Type 0
Discovered = Dict String DiscoveredDocument

-- `documents`, `native_ids` and `urls`
pub record Seen : Type 0 where
  pub documents : Discovered
  pub native_ids : List (SourceType × String)
  pub urls : List String

abbrev pub native_key : DiscoveredDocument → SourceType × String
native_key d = ((about d).source_type, (about d).external_id)

abbrev pub same_native : SourceType × String → SourceType × String → Bool
same_native (t, e) (u, f) = same_type t u && e =? f

abbrev pub is_repeated : Seen → DiscoveredDocument → Bool
is_repeated seen d =
    any (same_native (native_key d)) seen.native_ids || contains (about d).url seen.urls

unfoldable pub see_document : Seen → DiscoveredDocument → Result Seen
see_document seen d =
    if is_repeated seen d
    then ok seen
    else if is_some (get (about d).document_id seen.documents)
    then err (community_model_error "Duplicate document ID.")
    else ok record {
      documents = put (about d).document_id d seen.documents;
      native_ids = native_key d ∷ seen.native_ids;
      urls = (about d).url ∷ seen.urls;
    }

unfoldable pub see_documents : List DiscoveredDocument → Seen → Result Seen
see_documents [] seen = ok seen
see_documents (d ∷ ds) seen = see_document seen d >>= see_documents ds

unfoldable pub see_results : List SourceDiscoveryResult → Seen → Result Seen
unfolding see_documents
see_results [] seen = ok seen
see_results (r ∷ rs) seen = see_documents r.documents seen >>= see_results rs

-- `key=lambda item: (item[1].published_at, item[0])`
abbrev pub published_before : String × DiscoveredDocument → String × DiscoveredDocument → Bool
published_before =
    by_key (λ item. (about item.1).published_at.moment) (by_key (λ item. item.0) by_nothing)

-- `_deduplicate_discovered`
unfoldable pub deduplicate_discovered : List SourceDiscoveryResult → Result Discovered
unfolding see_results
deduplicate_discovered results = do
  seen ← see_results results record { documents = []; native_ids = []; urls = [] }
  ok (sort_by published_before seen.documents)

-- What the cache was asked for.
pub record CacheQuery : Type 0 where
  pub strategy_key : String
  pub strategy_version : ℕ
  pub extraction_contract_hash : String
  pub as_of : Datetime

abbrev pub is_inconsistent : CacheQuery → ExtractionCacheEntry → DiscoveredDocument → Bool
is_inconsistent q entry d =
    not (entry.draft.strategy_key =? q.strategy_key)
    || not (entry.draft.strategy_version == q.strategy_version)
    || not (entry.draft.source_key =? (about d).source_key)
    || not (same_type entry.draft.source_type (about d).source_type)
    || not (entry.draft.external_id =? (about d).external_id)
    || not (entry.draft.content_revision =? revision d)
    || not (entry.draft.extraction_contract_hash =? q.extraction_contract_hash)
    || not (same_moment entry.draft.published_at (about d).published_at)
    || not_after entry.draft.expires_at q.as_of

abbrev pub or_unknown_document : Option DiscoveredDocument → Result DiscoveredDocument
or_unknown_document none = err (community_model_error "Unknown document ID.")
or_unknown_document (some d) = ok d

-- `_validated_cache_hits`, from the hits that are there already
unfoldable pub cache_hits_from :
    CacheQuery
    → Discovered
    → List ExtractionCacheEntry
    → Dict String ExtractionCacheEntry
    → Result (Dict String ExtractionCacheEntry)
cache_hits_from q discovered [] hits = ok hits
cache_hits_from q discovered (entry ∷ entries) hits = do
  d ← or_unknown_document (get entry.draft.document_id discovered)
  raise_if (is_inconsistent q entry d)
      (community_model_error "Cache returned inconsistent document.")
  raise_if (is_some (get entry.draft.document_id hits))
      (community_model_error "Cache returned duplicate document.")
  cache_hits_from q discovered entries (put entry.draft.document_id entry hits)

unfoldable pub validated_cache_hits :
    CacheQuery → Discovered → List ExtractionCacheEntry → Result (Dict String ExtractionCacheEntry)
unfolding cache_hits_from
validated_cache_hits q discovered entries = cache_hits_from q discovered entries []

abbrev pub changed_identity : SourceDocument → DiscoveredDocument → Bool
changed_identity d expected =
    not (d.metadata.source_key =? (about expected).source_key)
    || not (same_type d.metadata.source_type (about expected).source_type)
    || not (d.metadata.external_id =? (about expected).external_id)
    || not (same_moment d.metadata.published_at (about expected).published_at)

unfoldable pub materialized_from :
    Discovered
    → List SourceDocument
    → Dict String SourceDocument
    → Result (Dict String SourceDocument)
materialized_from discovered [] documents = ok documents
materialized_from discovered (d ∷ ds) documents = do
  expected ← or_unknown_document (get d.metadata.document_id discovered)
  raise_if (changed_identity d expected)
      (community_model_error "Materialized document changed identity.")
  raise_if (is_some (get d.metadata.document_id documents))
      (community_model_error "Materializer duplicated document.")
  materialized_from discovered ds (put d.metadata.document_id d documents)

unfoldable pub materialized_results :
    Discovered
    → List SourceMaterializationResult
    → Dict String SourceDocument
    → Result (Dict String SourceDocument)
unfolding materialized_from
materialized_results discovered [] documents = ok documents
materialized_results discovered (r ∷ rs) documents =
    materialized_from discovered r.documents documents >>= materialized_results discovered rs

-- `_validated_materialized_documents`
unfoldable pub validated_materialized_documents :
    Discovered → List SourceMaterializationResult → Result (Dict String SourceDocument)
unfolding materialized_results
validated_materialized_documents discovered results = materialized_results discovered results []

unfoldable pub by_document_id :
    List DocumentExtraction → Dict String (List TopicMention) → Dict String (List TopicMention)
by_document_id [] returned = returned
by_document_id (e ∷ es) returned = by_document_id es (put e.document_id e.topics returned)

abbrev pub every_in : List String → List String → Bool
every_in ks js = not (any (λ k. not (contains k js)) ks)

-- `_validated_extractions`
unfoldable pub validated_extractions :
    List DocumentExtraction → Dict String SourceDocument → Result (Dict String (List TopicMention))
unfolding by_document_id
validated_extractions extracted documents = do
  let returned = by_document_id extracted []
  raise_if
      (not (length returned == length extracted)
        || not (
            every_in (keys returned) (keys documents) && every_in (keys documents) (keys returned)))
      (community_model_error "Extraction results did not match materialized documents.")
  ok returned

-- `_metadata`
unfoldable pub metadata_of : SourceDocument → Result SourceDocumentMetadata
metadata_of d = validate_metadata d.metadata

-- `_cache_hit_metadata`: the article's own address is known only after it was read.
unfoldable pub cache_hit_metadata :
    DiscoveredDocument → SourceDocumentMetadata → Result SourceDocumentMetadata
cache_hit_metadata (x_document d) cached = validate_metadata d.metadata
cache_hit_metadata (youtube_document d) cached = validate_metadata d.metadata
cache_hit_metadata (blog_document d) cached =
    validate_metadata (record d.metadata { url = cached.url })

-- ===== src/Application/CommunityService/CacheHits.antt =====
-- application/community_service.py, `_validated_cache_hits`: which cached extractions are taken.
use mathlib.Core.Path.{subst}
use fpl_data_relay.Prelude.{
  ◌+◌, ◌<◌, ◌≡◌, refl, ◌∙◌, arith, String, false, Option, none, some, List, [], ◌∷◌, ◌++◌, All,
  All-append, length, length-append, string_key,
}
use fpl_data_relay.Prelude.Dict.{
  Dict, get, put, put-fresh, put-HasUniqueKeys, HasUniqueKeys, is_some,
}
use fpl_data_relay.Result.{ok, >>=-inv, raise_if-inv}
use fpl_data_relay.Domain.Community.Kinds.{same_type_iff}
use fpl_data_relay.Domain.Community.Documents.{DiscoveredDocument, about, revision}
use fpl_data_relay.Domain.Community.Cache.{ExtractionCacheEntry}
use fpl_data_relay.Application.CommunityService.Documents.{
  Discovered, CacheQuery, is_inconsistent, or_unknown_document, cache_hits_from,
  validated_cache_hits,
}

-- An entry of the strategy and of the extraction contract that was made from this revision of a
-- discovered document and has not expired.
pub record IsCurrent (q : CacheQuery) (entry : ExtractionCacheEntry) (d : DiscoveredDocument)
    : Type 0 where
  pub strategy : entry.draft.strategy_key ≡ q.strategy_key
  pub version : entry.draft.strategy_version ≡ q.strategy_version
  pub contract : entry.draft.extraction_contract_hash ≡ q.extraction_contract_hash
  pub source : entry.draft.source_key ≡ (about d).source_key
  pub kind : entry.draft.source_type ≡ (about d).source_type
  pub external : entry.draft.external_id ≡ (about d).external_id
  pub same_revision : entry.draft.content_revision ≡ revision d
  pub published : entry.draft.published_at.moment ≡ (about d).published_at.moment
  pub unexpired : q.as_of.moment < entry.draft.expires_at.moment

consistent-IsCurrent :
    (q : CacheQuery) (entry : ExtractionCacheEntry) (d : DiscoveredDocument)
    → is_inconsistent q entry d ≡ false
    → IsCurrent q entry d
consistent-IsCurrent q entry d h = record {
  strategy = ground (arith, string_key.beq_iff entry.draft.strategy_key q.strategy_key);
  version = ground arith;
  contract =
      ground
        (arith, string_key.beq_iff entry.draft.extraction_contract_hash q.extraction_contract_hash);
  source = ground (arith, string_key.beq_iff entry.draft.source_key (about d).source_key);
  kind = ground (arith, same_type_iff entry.draft.source_type (about d).source_type);
  external = ground (arith, string_key.beq_iff entry.draft.external_id (about d).external_id);
  same_revision = ground (arith, string_key.beq_iff entry.draft.content_revision (revision d));
  published = ground arith;
  unexpired = ground arith;
}

-- A hit under its document's id.
abbrev pub IsHit : CacheQuery → Discovered → String × ExtractionCacheEntry → Type 0
IsHit q discovered (k, entry) =
    (k ≡ entry.draft.document_id)
    × ((d : DiscoveredDocument) × (get k discovered ≡ some d) × IsCurrent q entry d)

abbrev Hits : Type 0
Hits = Dict String ExtractionCacheEntry

or_unknown-inv :
    (o : Option DiscoveredDocument) (d : DiscoveredDocument)
    → or_unknown_document o ≡ ok d
    → o ≡ some d
or_unknown-inv none d h = cc
or_unknown-inv (some e) d h = cc

absent_of : {A : Type 0} (o : Option A) → is_some o ≡ false → o ≡ none
absent_of none h = refl
absent_of (some a) h = cc

cache_hits_from-IsHit :
    (q : CacheQuery) (discovered : Discovered) (entries : List ExtractionCacheEntry)
    (hits out : Hits)
    → All (IsHit q discovered) hits
    → HasUniqueKeys hits
    → cache_hits_from q discovered entries hits ≡ ok out
    → All (IsHit q discovered) out × HasUniqueKeys out × (length out ≡ length hits + length entries)
unfolding cache_hits_from
cache_hits_from-IsHit q discovered [] hits out p u h =
    let same : hits ≡ out = cc in
    subst
      (λ (o : Hits). All (IsHit q discovered) o × HasUniqueKeys o × (length o ≡ length hits + 0))
      same (p, u, omega arith)
cache_hits_from-IsHit q discovered (entry ∷ entries) hits out p u h =
    let id : String = entry.draft.document_id in
    let (d, looked_up, h1) = >>=-inv (or_unknown_document (get id discovered)) _ h in
    let found : get id discovered ≡ some d = or_unknown-inv (get id discovered) d looked_up in
    let (current, h2) = raise_if-inv (is_inconsistent q entry d) _ _ out h1 in
    let (single, h3) = raise_if-inv (is_some (get id hits)) _ _ out h2 in
    let fresh : put id entry hits ≡ hits ++ ((id, entry) ∷ []) =
      put-fresh id entry hits (absent_of (get id hits) single) in
    let more : All (IsHit q discovered) (put id entry hits) = rw fresh (
      All-append (IsHit q discovered) hits ((id, entry) ∷ []) p
        ((refl, (d, found, consistent-IsCurrent q entry d current)), tt)) in
    let (all, unique, size) =
      cache_hits_from-IsHit q discovered entries (put id entry hits) out more
        (put-HasUniqueKeys id entry hits u) h3 in
    (all, unique, size ∙ rw fresh (omega (arith, length-append hits ((id, entry) ∷ []))))

-- Where the check of the cache's answer returns: each hit stands under its own document's id, once, and
-- is an unexpired entry of the strategy and of the extraction contract that was made from the
-- revision, source and publication of the discovered document of that id; and no entry
-- of the answer was left out.
pub validated_cache_hits-IsHit :
    (q : CacheQuery) (discovered : Discovered) (entries : List ExtractionCacheEntry) (hits : Hits)
    → validated_cache_hits q discovered entries ≡ ok hits
    → All (IsHit q discovered) hits × HasUniqueKeys hits × (length hits ≡ length entries)
unfolding validated_cache_hits
validated_cache_hits-IsHit q discovered entries hits h =
    let (all, unique, size) = cache_hits_from-IsHit q discovered entries [] hits tt tt h in
    (all, unique, omega (arith, size))

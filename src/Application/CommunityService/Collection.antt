-- ===== src/Application/CommunityService/Collection.antt =====
-- application/community_service.py: the discovery and the materialization of the sources, and the pages
-- of the canonical entities. The tasks of a gather run in the order of the sources, and the first that
-- raises ends it.
use fpl_data_relay.Prelude.{
  ℕ, zero, suc, ◌⊎◌, inl, inr, String, Bool, false, not, ◌&&◌, ◌||◌, Option, none, some, List, [],
  ◌∷◌, ◌++◌, any, filter, length, nat_key, string_key, ◌=?◌, if◌then◌else◌, ltb,
}
use fpl_data_relay.Prelude.Dict.{Dict, put}
use fpl_data_relay.Prelude.Paging.{last_id}
use fpl_data_relay.Result.{
  Result, ok, err, ◌>>=◌ as ◌then◌, raise_if, community_model_error, community_publication_error,
  community_source_error,
}
use fpl_data_relay.Exec.{Exec, return, raise, lift, ◌>>=◌}
use fpl_data_relay.Domain.Time.{Datetime, earlier, not_after}
use fpl_data_relay.Domain.Reference.{Season, Event, Fixture}
use fpl_data_relay.Domain.Bootstrap.{Team, ElementType, Element}
use fpl_data_relay.Domain.Community.Kinds.{same_type}
use fpl_data_relay.Domain.Community.Sources.{CommunitySource, source_key, source_type}
use fpl_data_relay.Domain.Community.Documents.{
  SourceDocumentMetadata, DiscoveredDocument, about, SourceDocument, SourceDiscoveryResult,
  SourceMaterializationResult, SourceFailure,
}
use fpl_data_relay.Application.CommunityService.Ports.{
  CommunitySourceGateway, ReferenceRepository, ReferenceBundle,
}

abbrev pub page_size : ℕ
page_size = 200

abbrev pub failure_of : CommunitySource → String → SourceFailure
failure_of source code = record {
  source_key = source_key source;
  source_type = source_type source;
  code = code;
}

-- `except CommunitySourceError`: a fatal one is raised again, another is the source's failure.
abbrev pub recovered :
    {S A : Type 0} → CommunitySource → Result A × S → Result (A ⊎ SourceFailure) × S
recovered source (ok a, s) = (ok (inl a), s)
recovered source (err (community_source_error code false), s) =
    (ok (inr (failure_of source code)), s)
recovered source (err e, s) = (err e, s)

abbrev pub is_foreign : CommunitySource → SourceDocumentMetadata → Bool
is_foreign source m =
    not (m.source_key =? source_key source) || not (same_type m.source_type (source_type source))

-- `not window_start <= published_at < window_end`
abbrev pub is_outside : Datetime → Datetime → SourceDocumentMetadata → Bool
is_outside window_start window_end m =
    not (not_after window_start m.published_at && earlier m.published_at window_end)

unfoldable pub check_discovered :
    CommunitySource → Datetime → Datetime → List DiscoveredDocument → Result (Unit {0})
check_discovered source window_start window_end [] = ok tt
check_discovered source window_start window_end (d ∷ ds) =
    raise_if (is_foreign source (about d))
      (community_model_error "Collector returned a document for the wrong source.")
    then λ _.
        raise_if (is_outside window_start window_end (about d))
          (community_model_error "Collector returned a document outside the requested window.")
        then λ _. check_discovered source window_start window_end ds

unfoldable pub check_discovery :
    CommunitySource
    → Datetime
    → Datetime
    → SourceDiscoveryResult ⊎ SourceFailure
    → Result (SourceDiscoveryResult ⊎ SourceFailure)
unfolding check_discovered
check_discovery source window_start window_end (inr failure) = ok (inr failure)
check_discovery source window_start window_end (inl result) =
    raise_if (not (result.source_key =? source_key source))
      (community_model_error "Collector returned the wrong source key.")
    then λ _.
        check_discovered source window_start window_end result.documents then λ _. ok (inl result)

unfoldable pub check_materialized :
    CommunitySource → List DiscoveredDocument → List SourceDocument → Result (Unit {0})
check_materialized source requested [] = ok tt
check_materialized source requested (d ∷ ds) =
    raise_if
      (is_foreign source d.metadata
        || not (any (λ r. (about r).document_id =? d.metadata.document_id) requested))
      (community_model_error "Materializer returned an unexpected source document.")
    then λ _. check_materialized source requested ds

unfoldable pub check_materialization :
    CommunitySource
    → List DiscoveredDocument
    → SourceMaterializationResult ⊎ SourceFailure
    → Result (SourceMaterializationResult ⊎ SourceFailure)
unfolding check_materialized
check_materialization source requested (inr failure) = ok (inr failure)
check_materialization source requested (inl result) =
    raise_if (not (result.source_key =? source_key source))
      (community_model_error "Materializer returned the wrong source key.")
    then λ _. check_materialized source requested result.documents then λ _. ok (inl result)

-- The results and the failures of a collection, in the order of the sources.
abbrev pub with_outcome :
    {A : Type 0} → A ⊎ SourceFailure → List A × List SourceFailure → List A × List SourceFailure
with_outcome (inl result) (results, failures) = (result ∷ results, failures)
with_outcome (inr failure) (results, failures) = (results, failure ∷ failures)

-- `by_source[source.key]`
abbrev pub documents_of : CommunitySource → List DiscoveredDocument → List DiscoveredDocument
documents_of source = filter λ d. (about d).source_key =? source_key source

module _ {S : Type 0} (gateway : CommunitySourceGateway S) where
  -- `_discover_source`
  unfoldable pub discover_source :
      Datetime → Datetime → CommunitySource → Exec S (SourceDiscoveryResult ⊎ SourceFailure)
  unfolding check_discovery
  discover_source window_start window_end source = do
    outcome ← λ s. recovered source (gateway.discover source window_start window_end s)
    lift (check_discovery source window_start window_end outcome)

  -- `_discover_sources`
  unfoldable pub discover_sources :
      Datetime
      → Datetime
      → List CommunitySource
      → Exec S (List SourceDiscoveryResult × List SourceFailure)
  unfolding discover_source
  discover_sources window_start window_end [] = return ([], [])
  discover_sources window_start window_end (source ∷ sources) = do
    outcome ← discover_source window_start window_end source
    rest ← discover_sources window_start window_end sources
    return (with_outcome outcome rest)

  -- `_materialize_source`
  unfoldable pub materialize_source :
      CommunitySource
      → List DiscoveredDocument
      → Exec S (SourceMaterializationResult ⊎ SourceFailure)
  unfolding check_materialization
  materialize_source source documents = do
    outcome ← λ s. recovered source (gateway.materialize source documents s)
    lift (check_materialization source documents outcome)

  unfoldable pub materialize_wanted :
      CommunitySource
      → List DiscoveredDocument
      → Exec S (List SourceMaterializationResult × List SourceFailure)
      → Exec S (List SourceMaterializationResult × List SourceFailure)
  unfolding materialize_source
  materialize_wanted source [] rest = rest
  materialize_wanted source (d ∷ ds) rest = do
    outcome ← materialize_source source (d ∷ ds)
    others ← rest
    return (with_outcome outcome others)

  -- `_materialize_sources`
  unfoldable pub materialize_sources :
      List DiscoveredDocument
      → List CommunitySource
      → Exec S (List SourceMaterializationResult × List SourceFailure)
  unfolding materialize_wanted
  materialize_sources documents [] = return ([], [])
  materialize_sources documents (source ∷ sources) =
      materialize_wanted source (documents_of source documents)
        (materialize_sources documents sources)

abbrev pub by_id : {V : Type 0} → (V → ℕ) → List V → Dict ℕ V → Dict ℕ V
by_id id [] d = d
by_id id (v ∷ vs) d = by_id id vs (put (id v) v d)

-- The pages on fuel, of which each turn takes one; none when it is spent. A full page is not empty.
unfoldable pub pages_from :
    {S A : Type 0} → (A → ℕ) → (ℕ → ℕ → Exec S (List A)) → ℕ → ℕ → List A → Exec S (Option (List A))
pages_from id list zero after_id results = return none
pages_from id list (suc fuel) after_id results = do
  page ← list after_id page_size
  (let rest = pages_from id list fuel (last_id id page) (results ++ page) in
      if ltb (length page) page_size then return (some (results ++ page)) else rest)

abbrev bundle_of :
    Season
    → Option Event
    → List Event
    → List Team
    → List ElementType
    → Option (List Element)
    → Option (List Fixture)
    → Option ReferenceBundle
bundle_of season current_event events teams element_types none fixtures = none
bundle_of season current_event events teams element_types (some elements) none = none
bundle_of season current_event events teams element_types (some elements) (some fixtures) =
    some record {
      season = season;
      current_event = current_event;
      events = by_id (λ e. e.id) events [];
      teams = by_id (λ t. t.id) teams [];
      element_types = by_id (λ t. t.id) element_types [];
      elements = by_id (λ e. e.id) elements [];
      fixtures = by_id (λ f. f.id) fixtures [];
    }

module _ {S : Type 0} (references : ReferenceRepository S) where
  unfoldable pub all_elements : ℕ → String → Exec S (Option (List Element))
  unfolding pages_from
  all_elements fuel season_id =
      pages_from (λ e. e.id) (references.list_elements season_id) fuel 0 []

  unfoldable pub all_fixtures : ℕ → String → Exec S (Option (List Fixture))
  unfolding pages_from
  all_fixtures fuel season_id =
      pages_from (λ f. f.id) (references.list_fixtures season_id none) fuel 0 []

  abbrev pub some_season : Option Season → Exec S Season
  some_season none = raise (community_publication_error "No current FPL season is stored.")
  some_season (some season) = return season

  -- `_load_references`; none when the fuel of a list of pages is spent.
  unfoldable pub load_references : ℕ → Exec S (Option ReferenceBundle)
  unfolding all_elements all_fixtures
  load_references fuel = do
    found ← references.get_current_season
    season ← some_season found
    current_event ← references.get_current_event season.id
    events ← references.list_events season.id
    teams ← references.list_teams season.id
    element_types ← references.list_element_types season.id
    elements ← all_elements fuel season.id
    fixtures ← all_fixtures fuel season.id
    return (bundle_of season current_event events teams element_types elements fixtures)

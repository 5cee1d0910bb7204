-- ===== src/Application/CommunityService/Calls.antt =====
-- application/community_service.py: the collection of the sources and the loading of the references keep what
-- the calls of their ports keep.
use fpl_data_relay.Prelude.{
  ℕ, zero, suc, String, Option, none, some, List, [], ◌∷◌, ◌++◌, length, ltb, arith,
}
use fpl_data_relay.Prelude.Paging.{last_id}
use fpl_data_relay.Result.{Result}
use fpl_data_relay.Exec.{Exec, return, Keeps, Keeps-bind, Keeps-lift, Keeps-if}
use fpl_data_relay.Exec.Calls.{Keeps-return}
use fpl_data_relay.Domain.Time.{Datetime}
use fpl_data_relay.Domain.Reference.{Season}
use fpl_data_relay.Domain.Community.Sources.{CommunitySource}
use fpl_data_relay.Domain.Community.Documents.{
  DiscoveredDocument, SourceMaterializationResult, SourceFailure,
}
use fpl_data_relay.Application.CommunityService.Ports.{CommunitySourceGateway, ReferenceRepository}
use fpl_data_relay.Application.CommunityService.Collection.{
  recovered, discover_source, discover_sources, check_discovery, materialize_source,
  check_materialization, materialize_wanted, materialize_sources, documents_of, pages_from,
  page_size, all_elements, all_fixtures, some_season, load_references,
}

module _ {S : Type 0} (P : S → Type 0) where
  recovered-keeps :
      {A : Type 0} (source : CommunitySource) (r : Result A) (s : S)
      → P s
      → P (recovered source (r, s)).1
  recovered-keeps source r s p = ground arith

  Keeps-pages_from :
      {A : Type 0} (id : A → ℕ) (list : ℕ → ℕ → Exec S (List A)) (fuel after_id : ℕ)
      (results : List A)
      → ((after_id limit : ℕ) → Keeps P (list after_id limit))
      → Keeps P (pages_from id list fuel after_id results)
  unfolding pages_from
  Keeps-pages_from id list zero after_id results k = λ s p. p
  Keeps-pages_from id list (suc fuel) after_id results k =
      Keeps-bind P (list after_id page_size) _ (k after_id page_size) λ page.
        Keeps-if P (ltb (length page) page_size) (return (some (results ++ page)))
          (pages_from id list fuel (last_id id page) (results ++ page))
          (Keeps-return P (some (results ++ page)))
          (Keeps-pages_from id list fuel (last_id id page) (results ++ page) k)

module _ {S : Type 0} (P : S → Type 0) (gateway : CommunitySourceGateway S) where
  pub record GatewayKeeps : Type 0 where
    pub discover :
        (source : CommunitySource) (a b : Datetime) → Keeps P (gateway.discover source a b)
    pub materialize :
        (source : CommunitySource) (documents : List DiscoveredDocument)
        → Keeps P (gateway.materialize source documents)

  module _ (k : GatewayKeeps) where
    discover_source-Keeps :
        (a b : Datetime) (source : CommunitySource) → Keeps P (discover_source gateway a b source)
    unfolding discover_source
    discover_source-Keeps a b source =
        Keeps-bind P (λ s. recovered source (gateway.discover source a b s)) _
          (λ s p.
            recovered-keeps P source (gateway.discover source a b s).0
              (gateway.discover source a b s).1 (k.discover source a b s p))
          λ outcome. Keeps-lift P (check_discovery source a b outcome)

    pub discover_sources-Keeps :
        (a b : Datetime) (sources : List CommunitySource)
        → Keeps P (discover_sources gateway a b sources)
    unfolding discover_sources
    discover_sources-Keeps a b [] = λ s p. p
    discover_sources-Keeps a b (source ∷ sources) =
        Keeps-bind P (discover_source gateway a b source) _ (discover_source-Keeps a b source)
          λ outcome.
            Keeps-bind P (discover_sources gateway a b sources) _
              (discover_sources-Keeps a b sources) λ rest s p. p

    materialize_source-Keeps :
        (source : CommunitySource) (ds : List DiscoveredDocument)
        → Keeps P (materialize_source gateway source ds)
    unfolding materialize_source
    materialize_source-Keeps source ds =
        Keeps-bind P (λ s. recovered source (gateway.materialize source ds s)) _
          (λ s p.
            recovered-keeps P source (gateway.materialize source ds s).0
              (gateway.materialize source ds s).1 (k.materialize source ds s p))
          λ outcome. Keeps-lift P (check_materialization source ds outcome)

    materialize_wanted-Keeps :
        (source : CommunitySource) (ds : List DiscoveredDocument)
        (rest : Exec S (List SourceMaterializationResult × List SourceFailure))
        → Keeps P rest
        → Keeps P (materialize_wanted gateway source ds rest)
    unfolding materialize_wanted
    materialize_wanted-Keeps source [] rest h = h
    materialize_wanted-Keeps source (d ∷ ds) rest h =
        Keeps-bind P (materialize_source gateway source (d ∷ ds)) _
          (materialize_source-Keeps source (d ∷ ds))
          λ outcome. Keeps-bind P rest _ h λ others s p. p

    pub materialize_sources-Keeps :
        (ds : List DiscoveredDocument) (sources : List CommunitySource)
        → Keeps P (materialize_sources gateway ds sources)
    unfolding materialize_sources
    materialize_sources-Keeps ds [] = λ s p. p
    materialize_sources-Keeps ds (source ∷ sources) =
        materialize_wanted-Keeps source (documents_of source ds)
          (materialize_sources gateway ds sources) (materialize_sources-Keeps ds sources)

module _ {S : Type 0} (P : S → Type 0) (references : ReferenceRepository S) where
  pub record ReferencesKeep : Type 0 where
    pub season : Keeps P references.get_current_season
    pub event : (id : String) → Keeps P (references.get_current_event id)
    pub events : (id : String) → Keeps P (references.list_events id)
    pub teams : (id : String) → Keeps P (references.list_teams id)
    pub types : (id : String) → Keeps P (references.list_element_types id)
    pub elements :
        (id : String) (after_id limit : ℕ) → Keeps P (references.list_elements id after_id limit)
    pub fixtures :
        (id : String) (event_id : Option ℕ) (after_id limit : ℕ)
        → Keeps P (references.list_fixtures id event_id after_id limit)

  some_season-Keeps : (found : Option Season) → Keeps P (some_season references found)
  some_season-Keeps none s p = p
  some_season-Keeps (some season) s p = p

  pub load_references-Keeps :
      (fuel : ℕ) → ReferencesKeep → Keeps P (load_references references fuel)
  unfolding load_references all_elements all_fixtures
  load_references-Keeps fuel k = Keeps-bind P references.get_current_season _ k.season λ found.
      Keeps-bind P (some_season references found) _ (some_season-Keeps found) λ season.
        Keeps-bind P (references.get_current_event season.id) _ (k.event season.id) λ event.
          Keeps-bind P (references.list_events season.id) _ (k.events season.id) λ events.
            Keeps-bind P (references.list_teams season.id) _ (k.teams season.id) λ teams.
              Keeps-bind P (references.list_element_types season.id) _ (k.types season.id) λ types.
                Keeps-bind P (all_elements references fuel season.id) _
                  (Keeps-pages_from P (λ e. e.id) (references.list_elements season.id) fuel 0 []
                    (k.elements season.id))
                  λ elements.
                    Keeps-bind P (all_fixtures references fuel season.id) _
                      (Keeps-pages_from P (λ f. f.id) (references.list_fixtures season.id none) fuel
                        0 [] (k.fixtures season.id none))
                      λ fixtures s p. p

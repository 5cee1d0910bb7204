-- ===== src/Application/CommunityService/Accounted.antt =====
-- application/community_service.py: what the discovery of the sources returns for each of them.
use mathlib.Core.Path.{subst}
use fpl_data_relay.Prelude.{
  not, ◌≡◌, ◌↔◌, refl, ap, sym, ◌∙◌, arith, ◌⊎◌, inl, inr, String, true, false, List, [], ◌∷◌, All,
  string_key, ◌=?◌,
}
use fpl_data_relay.Result.{Result, ok, err, community_source_error, raise_if-inv, >>=-inv}
use fpl_data_relay.Exec.{bind-inv}
use fpl_data_relay.Domain.Time.{Datetime, earlier, not_after}
use fpl_data_relay.Domain.Community.Kinds.{same_type_iff}
use fpl_data_relay.Domain.Community.Sources.{CommunitySource, source_key, source_type}
use fpl_data_relay.Domain.Community.Documents.{
  DiscoveredDocument, about, SourceDiscoveryResult, SourceFailure,
}
use fpl_data_relay.Application.CommunityService.Ports.{CommunitySourceGateway}
use fpl_data_relay.Application.CommunityService.Collection.{
  failure_of, recovered, is_foreign, is_outside, check_discovered, check_discovery, with_outcome,
  discover_source, discover_sources,
}

module _ (window_start window_end : Datetime) where
  -- A document of the source, published in the window, whose end is left out.
  pub record IsFrom (source : CommunitySource) (d : DiscoveredDocument) : Type 0 where
    pub key : (about d).source_key ≡ source_key source
    pub type : (about d).source_type ≡ source_type source
    pub begun : not_after window_start (about d).published_at ≡ true
    pub ended : earlier (about d).published_at window_end ≡ true

  IsFrom-checks :
      (source : CommunitySource) (d : DiscoveredDocument)
      → is_foreign source (about d) ≡ false
      → is_outside window_start window_end (about d) ≡ false
      → IsFrom source d
  IsFrom-checks source d own inside = record {
    key = ground (arith, own, string_key.beq_iff (about d).source_key (source_key source));
    type = ground (arith, own, same_type_iff (about d).source_type (source_type source));
    begun = ground (arith, inside);
    ended = ground (arith, inside);
  }

  check_discovered-inv :
      (source : CommunitySource) (ds : List DiscoveredDocument)
      → check_discovered source window_start window_end ds ≡ ok tt
      → All (IsFrom source) ds
  unfolding check_discovered
  check_discovered-inv source [] h = tt
  check_discovered-inv source (d ∷ ds) h =
      let (own, h1) = raise_if-inv (is_foreign source (about d)) _ _ tt h in
      let (inside, h2) = raise_if-inv (is_outside window_start window_end (about d)) _ _ tt h1 in
      (IsFrom-checks source d own inside, check_discovered-inv source ds h2)

  check_discovered-IsFrom :
      (source : CommunitySource) (ds : List DiscoveredDocument)
      → All (IsFrom source) ds
      → check_discovered source window_start window_end ds ≡ ok tt
  unfolding check_discovered
  check_discovered-IsFrom source [] h = refl
  check_discovered-IsFrom source (d ∷ ds) (from, h) =
      let own : is_foreign source (about d) ≡ false = ground (
        arith,
        from.key,
        from.type,
        string_key.beq_iff (about d).source_key (source_key source),
        same_type_iff (about d).source_type (source_type source),
      ) in
      let inside : is_outside window_start window_end (about d) ≡ false =
        ground (arith, from.begun, from.ended) in
      rw (own, inside, check_discovered-IsFrom source ds h) refl

  module _ {S : Type 0} (gateway : CommunitySourceGateway S) where
    -- From one world to another: each source, in its order, has the result that the gateway
    -- returned for it, or the failure that it raised.
    pub data Accounts
        : S
          → List CommunitySource
          → List SourceDiscoveryResult
          → List SourceFailure
          → S
          → Type 0 where
      nothing : {s : S} → Accounts s [] [] [] s
      found :
          {s m t : S} {source : CommunitySource} {sources : List CommunitySource}
          {result : SourceDiscoveryResult} {results : List SourceDiscoveryResult}
          {failures : List SourceFailure}
          → gateway.discover source window_start window_end s ≡ (ok result, m)
          → result.source_key ≡ source_key source
          → All (IsFrom source) result.documents
          → Accounts m sources results failures t
          → Accounts s (source ∷ sources) (result ∷ results) failures t
      failed :
          {s m t : S} {source : CommunitySource} {sources : List CommunitySource} {code : String}
          {results : List SourceDiscoveryResult} {failures : List SourceFailure}
          → gateway.discover source window_start window_end s
            ≡ (err (community_source_error code false), m)
          → Accounts m sources results failures t
          → Accounts s (source ∷ sources) results (failure_of source code ∷ failures) t

    recovered-inv :
        (source : CommunitySource) (r : Result SourceDiscoveryResult) (s t : S)
        (outcome : SourceDiscoveryResult ⊎ SourceFailure)
        → recovered source (r, s) ≡ (ok outcome, t)
        → ((result : SourceDiscoveryResult) × (r ≡ ok result) × (outcome ≡ inl result) × (s ≡ t))
          ⊎ ((code : String) × (r ≡ err (community_source_error code false))
              × (outcome ≡ inr (failure_of source code))
              × (s ≡ t))
    recovered-inv source (ok result) s t outcome h =
        inl (result, refl, ground arith, ap (λ p. p.1) h)
    recovered-inv source (err (community_source_error code false)) s t outcome h =
        inr (code, refl, ground arith, ap (λ p. p.1) h)
    recovered-inv source (err e) s t outcome h = cc

    abbrev discover : CommunitySource → S → Result SourceDiscoveryResult × S
    discover source = gateway.discover source window_start window_end

    -- What one source gives.
    abbrev Answer : S → CommunitySource → SourceDiscoveryResult ⊎ SourceFailure → S → Type 0
    Answer s source (inl result) m =
        (discover source s ≡ (ok result, m))
        × (result.source_key ≡ source_key source)
        × All (IsFrom source) result.documents
    Answer s source (inr failure) m =
        (code : String) × (discover source s ≡ (err (community_source_error code false), m))
        × (failure ≡ failure_of source code)

    result-Answer :
        (source : CommunitySource) (s m : S) (result : SourceDiscoveryResult)
        (outcome : SourceDiscoveryResult ⊎ SourceFailure)
        → discover source s ≡ (ok result, m)
        → check_discovery source window_start window_end (inl result) ≡ ok outcome
        → Answer s source outcome m
    unfolding check_discovery
    result-Answer source s m result outcome asked h =
        let (own, h1) = raise_if-inv (not (result.source_key =? source_key source)) _ _ outcome h in
        let (u, checked, h2) =
          >>=-inv (check_discovered source window_start window_end result.documents) _ h1 in
        let same : inl result ≡ outcome = ground (arith, h2) in
        subst (λ o. Answer s source o m) same
          (
            asked,
            ground (arith, own, string_key.beq_iff result.source_key (source_key source)),
            check_discovered-inv source result.documents checked,
          )

    failure-Answer :
        (source : CommunitySource) (s m : S) (code : String)
        (outcome : SourceDiscoveryResult ⊎ SourceFailure)
        → discover source s ≡ (err (community_source_error code false), m)
        → check_discovery source window_start window_end (inr (failure_of source code)) ≡ ok outcome
        → Answer s source outcome m
    unfolding check_discovery
    failure-Answer source s m code outcome asked h =
        let same : inr (failure_of source code) ≡ outcome = ground (arith, h) in
        subst (λ o. Answer s source o m) same (code, asked, refl)

    discover_source-Answer :
        (source : CommunitySource) (s m : S) (outcome : SourceDiscoveryResult ⊎ SourceFailure)
        → discover_source gateway window_start window_end source s ≡ (ok outcome, m)
        → Answer s source outcome m
    unfolding discover_source
    discover_source-Answer source s m outcome h =
        let (first, u, recovery, h1) =
          bind-inv (λ w. recovered source (discover source w)) _ s m h in
        let checked : check_discovery source window_start window_end first ≡ ok outcome =
          ap (λ p. p.0) h1 in
        let same_world : u ≡ m = ap (λ p. p.1) h1 in
        elim (recovered-inv source (discover source s).0 (discover source s).1 u first recovery) [
          | inl (result, returned, e, w) ↦
              result-Answer source s m result outcome (cc (returned, w, same_world))
                (ap (check_discovery source window_start window_end) (sym e) ∙ checked)
          | inr (code, raised, e, w) ↦
              failure-Answer source s m code outcome (cc (raised, w, same_world))
                (ap (check_discovery source window_start window_end) (sym e) ∙ checked)
        ]

    with_outcome-Accounts :
        (source : CommunitySource) (sources : List CommunitySource) (s m t : S)
        (outcome : SourceDiscoveryResult ⊎ SourceFailure)
        (others : List SourceDiscoveryResult × List SourceFailure)
        → Answer s source outcome m
        → Accounts m sources others.0 others.1 t
        → Accounts s
            (source ∷ sources)
            (with_outcome outcome others).0
            (with_outcome outcome others).1
            t
    with_outcome-Accounts source sources s m t (inl result) (results, failures)
          (asked, own, documents) rest =
        found asked own documents rest
    with_outcome-Accounts source sources s m t (inr failure) (results, failures) (code, asked, e)
          rest =
        subst (λ f. Accounts s (source ∷ sources) results (f ∷ failures) t) (sym e)
          (failed asked rest)

    discover_sources-Accounts :
        (sources : List CommunitySource) (s t : S) (results : List SourceDiscoveryResult)
        (failures : List SourceFailure)
        → discover_sources gateway window_start window_end sources s ≡ (ok (results, failures), t)
        → Accounts s sources results failures t
    unfolding discover_sources
    discover_sources-Accounts [] s t results failures h =
        let none_left : List SourceDiscoveryResult × List SourceFailure = ([], []) in
        let same : none_left ≡ (results, failures) = ground (arith, h) in
        let world : s ≡ t = ap (λ p. p.1) h in
        subst (λ q. Accounts s [] q.0 q.1 t) same (subst (λ w. Accounts s [] [] [] w) world nothing)
    discover_sources-Accounts (source ∷ sources) s t results failures h =
        let (outcome, m, asked, h1) =
          bind-inv (discover_source gateway window_start window_end source) _ s t h in
        let (others, u, rest, h2) =
          bind-inv (discover_sources gateway window_start window_end sources) _ m t h1 in
        let same : with_outcome outcome others ≡ (results, failures) = ground (arith, h2) in
        let world : u ≡ t = ap (λ p. p.1) h2 in
        subst (λ q. Accounts s (source ∷ sources) q.0 q.1 t) same
          (with_outcome-Accounts source sources s m t outcome others
            (discover_source-Answer source s m outcome asked)
            (subst (λ w. Accounts m sources others.0 others.1 w) world
              (discover_sources-Accounts sources m u others.0 others.1 rest)))

    Accounts-discover_sources :
        (sources : List CommunitySource) (s t : S) (results : List SourceDiscoveryResult)
        (failures : List SourceFailure)
        → Accounts s sources results failures t
        → discover_sources gateway window_start window_end sources s ≡ (ok (results, failures), t)
    unfolding discover_sources discover_source check_discovery
    Accounts-discover_sources _ s t _ _ nothing = refl
    Accounts-discover_sources _ s t _ _
          (found {m} {source} {sources} {result} {results} {failures} asked own documents rest) =
        let key : (result.source_key =? source_key source) ≡ true =
          ground (arith, own, string_key.beq_iff result.source_key (source_key source)) in
        rw
          (
            asked,
            key,
            check_discovered-IsFrom source result.documents documents,
            Accounts-discover_sources sources m t results failures rest,
          )
          refl
    Accounts-discover_sources _ s t _ _ (failed {m} {sources} {results} {failures} asked rest) =
        rw (asked, Accounts-discover_sources sources m t results failures rest) refl

    -- A discovery returns its results and its failures exactly when the gateway, asked for each source in their
    -- order, returns a result with the source's key and only documents of the source from the
    -- window, or raises an error that is not fatal; they are those results, and the
    -- failures of the other sources with the codes of their errors, each in the order of the sources.
    pub discover_sources_exact :
        (sources : List CommunitySource) (s t : S) (results : List SourceDiscoveryResult)
        (failures : List SourceFailure)
        → (discover_sources gateway window_start window_end sources s ≡ (ok (results, failures), t))
          ↔ Accounts s sources results failures t
    discover_sources_exact sources s t results failures = (
      discover_sources-Accounts sources s t results failures,
      Accounts-discover_sources sources s t results failures,
    )

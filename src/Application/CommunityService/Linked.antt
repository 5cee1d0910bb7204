-- ===== src/Application/CommunityService/Linked.antt =====
-- application/community_service.py: the entities of accepted candidates are found.
use mathlib.Core.Path.{subst}
use fpl_data_relay.Prelude.{
  ℕ, ◌≤◌, ◌≡◌, refl, arith, String, true, false, not, Option, none, some, List, [], ◌∷◌, All, any,
  filter, length, leb, contains, nat_key, string_key, Bool-cases, inl, inr,
}
use fpl_data_relay.Prelude.Dict.{Dict, get, keys, is_some, contains-keys}
use fpl_data_relay.Result.{Result, ok, err, >>=-inv, raise_if-inv}
use fpl_data_relay.Domain.Reference.{Event, Fixture}
use fpl_data_relay.Domain.Bootstrap.{Element}
use fpl_data_relay.Domain.Community.Kinds.{EntityType, EntityConfidence, is_high}
use fpl_data_relay.Domain.Community.Documents.{SourceDocumentMetadata}
use fpl_data_relay.Domain.Community.Topics.{CandidateStory, EntityLinkCandidate}
use fpl_data_relay.Domain.Community.References.{
  EntityReference, reference_type, reference_id, validate_event_snapshot, validate_fixture_snapshot,
  is_aware_or_none,
}
use fpl_data_relay.Application.CommunityService.Ports.{ReferenceBundle}
use fpl_data_relay.Application.CommunityService.Entities.{
  valid_entity_ids, cites_unknown, links_invalid, high_links, accept, validated_candidates,
  entity_reference,
}

-- The rows of the bundle name teams and positions that are in it, and its times have a timezone.
pub record IsWhole (b : ReferenceBundle) : Type 0 where
  pub player_teams :
      (k : ℕ) (p : Element) → get k b.elements ≡ some p → is_some (get p.team b.teams) ≡ true
  pub positions :
      (k : ℕ) (p : Element)
      → get k b.elements ≡ some p
      → is_some (get p.element_type b.element_types) ≡ true
  pub homes :
      (k : ℕ) (f : Fixture) → get k b.fixtures ≡ some f → is_some (get f.team_h b.teams) ≡ true
  pub aways :
      (k : ℕ) (f : Fixture) → get k b.fixtures ≡ some f → is_some (get f.team_a b.teams) ≡ true
  pub deadlines :
      (k : ℕ) (e : Event) → get k b.events ≡ some e → is_aware_or_none e.deadline_time ≡ true
  pub kickoffs :
      (k : ℕ) (f : Fixture) → get k b.fixtures ≡ some f → is_aware_or_none f.kickoff_time ≡ true

-- A reference to that entity, of that type, is made.
abbrev pub Refers : EntityType → ℕ → Result EntityReference → Type 0
Refers t id (err e) = ⊥
Refers t id (ok r) = (reference_type r ≡ t) × (reference_id r ≡ id)

abbrev pub IsLinked : ReferenceBundle → EntityLinkCandidate → Type 0
IsLinked b link =
    Refers link.entity_type link.entity_id (entity_reference b link.entity_type link.entity_id)

present : {V : Type 0} (o : Option V) → is_some o ≡ true → (v : V) × (o ≡ some v)
present none h = cc
present (some v) h = (v, refl)

in_dict :
    {V : Type 0} (k : ℕ) (d : Dict ℕ V) → contains k (keys d) ≡ true → (v : V) × (get k d ≡ some v)
in_dict k d h = present (get k d) (ground (arith, contains-keys k d))

pub record IsAccepted (b : ReferenceBundle) (documents : Dict String SourceDocumentMetadata)
    (c : CandidateStory) : Type 0 where
  pub cites : cites_unknown documents c ≡ false
  pub some_link : 1 ≤ length c.entity_links
  pub all_high :
      All (λ (link : EntityLinkCandidate). link.confidence ≡ EntityConfidence.high) c.entity_links
  pub links : All (IsLinked b) c.entity_links

high_of : (c : EntityConfidence) → is_high c ≡ true → c ≡ EntityConfidence.high
high_of EntityConfidence.low h = cc
high_of EntityConfidence.medium h = cc
high_of EntityConfidence.high h = refl

high_only :
    (links : List EntityLinkCandidate)
    → All
        (λ (link : EntityLinkCandidate). link.confidence ≡ EntityConfidence.high)
        (filter (λ (link : EntityLinkCandidate). is_high link.confidence) links)
high_only [] = tt
high_only (link ∷ links) = elim (Bool-cases (is_high link.confidence)) [
  | inl e ↦ rw e (high_of link.confidence e, high_only links)
  | inr e ↦ rw e (high_only links)
]

module _ (b : ReferenceBundle) (whole : IsWhole b) where
  open whole use {player_teams, positions, homes, aways, deadlines, kickoffs}

  reference-IsLinked :
      (t : EntityType) (id : ℕ) (confidence : EntityConfidence)
      → contains id (valid_entity_ids b t) ≡ true
      → IsLinked b (record { entity_type = t; entity_id = id; confidence = confidence })
  unfolding entity_reference valid_entity_ids validate_event_snapshot validate_fixture_snapshot
  reference-IsLinked EntityType.player id confidence h =
      let (player, found) = in_dict id b.elements h in
      let (team, played) = present (get player.team b.teams) (player_teams id player found) in
      let (position, placed) =
        present (get player.element_type b.element_types) (positions id player found) in
      rw (found, played, placed) (refl, refl)
  reference-IsLinked EntityType.team id confidence h =
      let (team, found) = in_dict id b.teams h in rw found (refl, refl)
  reference-IsLinked EntityType.event id confidence h =
      let (event, found) = in_dict id b.events h in
      rw (found, deadlines id event found) (refl, refl)
  reference-IsLinked EntityType.fixture id confidence h =
      let (fixture, found) = in_dict id b.fixtures h in
      let (home, first) = present (get fixture.team_h b.teams) (homes id fixture found) in
      let (away, second) = present (get fixture.team_a b.teams) (aways id fixture found) in
      rw (found, first, second, kickoffs id fixture found) (refl, refl)

  links-IsLinked :
      (links : List EntityLinkCandidate)
      → any
          (λ (link : EntityLinkCandidate).
            not (contains link.entity_id (valid_entity_ids b link.entity_type)))
          links
        ≡ false
      → All (IsLinked b) (filter (λ (link : EntityLinkCandidate). is_high link.confidence) links)
  links-IsLinked [] h = tt
  links-IsLinked (link ∷ links) h =
      let rest = links-IsLinked links (ground arith) in
      let this =
        reference-IsLinked link.entity_type link.entity_id link.confidence (ground arith) in
      elim (Bool-cases (is_high link.confidence)) [ inl e ↦ rw e (this, rest) | inr e ↦ rw e rest ]

  accept-IsAccepted :
      (documents : Dict String SourceDocumentMetadata) (c : CandidateStory)
      (rest : List CandidateStory)
      → cites_unknown documents c ≡ false
      → links_invalid b c ≡ false
      → All (IsAccepted b documents) rest
      → All (IsAccepted b documents) (accept c rest)
  accept-IsAccepted documents c rest cited linked others =
      elim (Bool-cases (leb 1 (length (high_links c)))) [
        | inl e ↦ rw e (
          record {
            cites = cited;
            links = links-IsLinked c.entity_links linked;
            all_high = high_only c.entity_links;
            some_link = ground arith;
          },
          others,
        )
        | inr e ↦ rw e others
      ]

  -- Over a bundle whose rows name rows of the bundle, where the check of the model's candidates returns:
  -- each accepted candidate cites known documents only, has a link, has
  -- links of high confidence only, and each of them becomes a reference to an entity of its
  -- type and id.
  pub validated_candidates-IsAccepted :
      (candidates accepted : List CandidateStory) (documents : Dict String SourceDocumentMetadata)
      → validated_candidates candidates documents b ≡ ok accepted
      → All (IsAccepted b documents) accepted
  unfolding validated_candidates
  validated_candidates-IsAccepted [] accepted documents h =
      let same : [] ≡ accepted = cc in subst (All (IsAccepted b documents)) same tt
  validated_candidates-IsAccepted (c ∷ cs) accepted documents h =
      let (cited, h1) = raise_if-inv (cites_unknown documents c) _ _ accepted h in
      let (linked, h2) = raise_if-inv (links_invalid b c) _ _ accepted h1 in
      let (rest, checked, h3) = >>=-inv (validated_candidates cs documents b) _ h2 in
      let same : accept c rest ≡ accepted = cc in
      subst (All (IsAccepted b documents)) same (
        accept-IsAccepted documents c rest cited linked
          (validated_candidates-IsAccepted cs rest documents checked))

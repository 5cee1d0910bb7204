-- ===== src/Application/CommunityService/Entities.antt =====
-- application/community_service.py: the check of the model's candidates, and the references that a story
-- keeps. A missing key raises.
use Prim.Native.String.{◌++◌ as ◌&◌}
use fpl_data_relay.Prelude.{
  ℕ, String, Bool, not, List, [], ◌∷◌, any, filter, contains, length, nat_key, string_key,
  if◌then◌else◌, leb,
}
use fpl_data_relay.Prelude.Dict.{Dict, keys, get, is_some}
use fpl_data_relay.Result.{Result, ok, ◌>>=◌, ◌>>◌, raise_if, community_model_error}
use fpl_data_relay.Domain.Community.Kinds.{EntityType, is_high}
use fpl_data_relay.Domain.Community.Documents.{SourceDocumentMetadata}
use fpl_data_relay.Domain.Community.Topics.{CandidateStory, EntityLinkCandidate}
use fpl_data_relay.Domain.Community.References.{
  EvidenceReference, validate_evidence, EntityReference, player_reference, team_reference,
  event_reference, fixture_reference, validate_event_snapshot, validate_fixture_snapshot,
}
use fpl_data_relay.Application.CommunityService.Ports.{ReferenceBundle}
use fpl_data_relay.Application.CommunityService.Catalog.{or_key_error}

-- `valid_entity_ids[entity_type]`
unfoldable pub valid_entity_ids : ReferenceBundle → EntityType → List ℕ
valid_entity_ids bundle EntityType.player = keys bundle.elements
valid_entity_ids bundle EntityType.team = keys bundle.teams
valid_entity_ids bundle EntityType.event = keys bundle.events
valid_entity_ids bundle EntityType.fixture = keys bundle.fixtures

abbrev pub cites_unknown : Dict String SourceDocumentMetadata → CandidateStory → Bool
cites_unknown documents c = any (λ k. not (is_some (get k documents))) c.evidence_document_ids

abbrev pub links_invalid : ReferenceBundle → CandidateStory → Bool
links_invalid bundle c =
    any
      (λ (link : EntityLinkCandidate).
        not (contains link.entity_id (valid_entity_ids bundle link.entity_type)))
      c.entity_links

abbrev pub high_links : CandidateStory → List EntityLinkCandidate
high_links c = filter (λ (link : EntityLinkCandidate). is_high link.confidence) c.entity_links

abbrev pub accept : CandidateStory → List CandidateStory → List CandidateStory
accept c accepted =
    if leb 1 (length (high_links c))
    then record c { entity_links = high_links c } ∷ accepted
    else accepted

-- `_validated_candidates`
unfoldable pub validated_candidates :
    List CandidateStory
    → Dict String SourceDocumentMetadata
    → ReferenceBundle
    → Result (List CandidateStory)
unfolding valid_entity_ids
validated_candidates [] documents bundle = ok []
validated_candidates (c ∷ cs) documents bundle = do
  raise_if (cites_unknown documents c) (community_model_error "Model cited unknown document ID.")
  raise_if (links_invalid bundle c) (community_model_error "Model selected invalid ID.")
  accepted ← validated_candidates cs documents bundle
  ok (accept c accepted)

-- `_evidence`
unfoldable pub evidence : SourceDocumentMetadata → Result EvidenceReference
evidence document = validate_evidence record {
  document_id = document.document_id;
  source_key = document.source_key;
  source_type = document.source_type;
  publisher = document.publisher;
  title = document.title;
  url = document.url;
  published_at = document.published_at;
  engagement = document.engagement;
}

-- `_entity_reference`
unfoldable pub entity_reference : ReferenceBundle → EntityType → ℕ → Result EntityReference
entity_reference bundle EntityType.player entity_id = do
  player ← or_key_error (get entity_id bundle.elements)
  team ← or_key_error (get player.team bundle.teams)
  position ← or_key_error (get player.element_type bundle.element_types)
  ok (
      player_reference record {
        season_id = bundle.season.id;
        entity_id = entity_id;
        display_name = player.web_name;
        snapshot = record {
          web_name = player.web_name;
          first_name = player.first_name;
          second_name = player.second_name;
          team_id = team.id;
          team_name = team.name;
          element_type_id = position.id;
          element_type_name = position.singular_name;
          now_cost = player.now_cost;
          selected_by_percent = player.selected_by_percent;
          total_points = player.total_points;
          form = player.form;
          minutes = player.minutes;
          goals_scored = player.goals_scored;
          assists = player.assists;
          clean_sheets = player.clean_sheets;
          status = player.status;
          news = player.news;
          chance_of_playing_next_round = player.chance_of_playing_next_round;
          chance_of_playing_this_round = player.chance_of_playing_this_round;
        };
      })
entity_reference bundle EntityType.team entity_id = do
  team ← or_key_error (get entity_id bundle.teams)
  ok (
      team_reference record {
        season_id = bundle.season.id;
        entity_id = entity_id;
        display_name = team.name;
        snapshot = record {
          name = team.name;
          short_name = team.short_name;
          strength = team.strength;
          strength_overall_home = team.strength_overall_home;
          strength_overall_away = team.strength_overall_away;
          strength_attack_home = team.strength_attack_home;
          strength_attack_away = team.strength_attack_away;
          strength_defence_home = team.strength_defence_home;
          strength_defence_away = team.strength_defence_away;
        };
      })
entity_reference bundle EntityType.event entity_id = do
  event ← or_key_error (get entity_id bundle.events)
  snapshot ← validate_event_snapshot record {
    name = event.name;
    deadline_time = event.deadline_time;
    average_entry_score = event.average_entry_score;
    highest_score = event.highest_score;
    highest_scoring_entry = event.highest_scoring_entry;
    finished = event.finished;
    data_checked = event.data_checked;
    is_previous = event.is_previous;
    is_current = event.is_current;
    is_next = event.is_next;
  }
  ok (
      event_reference record {
        season_id = bundle.season.id;
        entity_id = entity_id;
        display_name = event.name;
        snapshot = snapshot;
      })
entity_reference bundle EntityType.fixture entity_id = do
  fixture ← or_key_error (get entity_id bundle.fixtures)
  home ← or_key_error (get fixture.team_h bundle.teams)
  away ← or_key_error (get fixture.team_a bundle.teams)
  snapshot ← validate_fixture_snapshot record {
    event_id = fixture.event;
    kickoff_time = fixture.kickoff_time;
    home_team_id = home.id;
    home_team_name = home.name;
    away_team_id = away.id;
    away_team_name = away.name;
    home_score = fixture.team_h_score;
    away_score = fixture.team_a_score;
    started = fixture.started;
    finished = fixture.finished;
  }
  ok (
      fixture_reference record {
        season_id = bundle.season.id;
        entity_id = entity_id;
        display_name = home.short_name & " v " & away.short_name;
        snapshot = snapshot;
      })

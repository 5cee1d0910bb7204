-- ===== src/Application/CommunityService/Catalog.antt =====
-- application/community_service.py: the catalog of canonical entities. A missing key raises. The texts of
-- optional and date values are Python's own formatting, the parameters of `Formats`.
use Prim.Native.String.{◌++◌ as ◌&◌}
use fpl_data_relay.Prelude.{ℕ, Option, none, some, List, [], ◌∷◌, ◌++◌, nat_key, string_key}
use fpl_data_relay.Prelude.Dict.{Dict, get}
use fpl_data_relay.Result.{Result, ok, err, ◌>>=◌, key_error}
use fpl_data_relay.Domain.Calendar.{decimal}
use fpl_data_relay.Domain.Reference.{Event, Fixture}
use fpl_data_relay.Domain.Bootstrap.{Team, Element}
use fpl_data_relay.Domain.Community.Kinds.{EntityType}
use fpl_data_relay.Domain.Community.Distinct.{distinct}
use fpl_data_relay.Domain.Community.Topics.{EntityCatalogItem, validate_catalog_item}
use fpl_data_relay.Application.CommunityService.Ports.{ReferenceBundle, Formats}

-- `mapping[key]`
abbrev pub or_key_error {ℓ} : {A : Type ℓ} → Option A → Result A
or_key_error none = err (key_error "KeyError")
or_key_error (some a) = ok a

abbrev values {ℓ} : {V : Type ℓ} → Dict ℕ V → List V
values [] = []
values ((k, v) ∷ d) = v ∷ values d

module _ (formats : Formats) (bundle : ReferenceBundle) where
  unfoldable pub player_item : Element → Result EntityCatalogItem
  player_item player = do
    team ← or_key_error (get player.team bundle.teams)
    position ← or_key_error (get player.element_type bundle.element_types)
    validate_catalog_item record {
      entity_type = EntityType.player;
      entity_id = player.id;
      display_name = player.web_name;
      aliases = distinct (
          player.web_name
          ∷ player.first_name
          ∷ player.second_name
          ∷ (player.first_name & " " & player.second_name)
          ∷ []);
      context =
          team.name
          & "; "
          & position.singular_name
          & "; price="
          & formats.of_cost player.now_cost
          & "; status="
          & formats.of_status player.status;
    }

  unfoldable pub team_item : Team → Result EntityCatalogItem
  team_item team = validate_catalog_item record {
    entity_type = EntityType.team;
    entity_id = team.id;
    display_name = team.name;
    aliases = distinct (team.name ∷ team.short_name ∷ []);
    context = "Premier League team";
  }

  unfoldable pub event_item : Event → Result EntityCatalogItem
  event_item event = validate_catalog_item record {
    entity_type = EntityType.event;
    entity_id = event.id;
    display_name = event.name;
    aliases = event.name ∷ ("GW" & decimal event.id) ∷ ("Gameweek " & decimal event.id) ∷ [];
    context =
        "deadline="
        & formats.of_time event.deadline_time
        & "; current="
        & formats.of_flag event.is_current
        & "; next="
        & formats.of_flag event.is_next;
  }

  unfoldable pub fixture_item : Fixture → Result EntityCatalogItem
  fixture_item fixture = do
    home ← or_key_error (get fixture.team_h bundle.teams)
    away ← or_key_error (get fixture.team_a bundle.teams)
    let display_name = home.short_name & " v " & away.short_name
    validate_catalog_item record {
      entity_type = EntityType.fixture;
      entity_id = fixture.id;
      display_name = display_name;
      aliases = display_name ∷ (home.name & " v " & away.name) ∷ [];
      context =
          "gameweek="
          & formats.of_event fixture.event
          & "; kickoff="
          & formats.of_time fixture.kickoff_time;
    }

abbrev pub each {ℓ} : {A : Type ℓ} {B : Type 0} → (A → Result B) → List A → Result (List B)
each f [] = ok []
each f (x ∷ xs) = f x >>= λ y. each f xs >>= λ ys. ok (y ∷ ys)

-- `_catalog`
unfoldable pub catalog : Formats → ReferenceBundle → Result (List EntityCatalogItem)
unfolding player_item team_item event_item fixture_item
catalog formats bundle = do
  players ← each (player_item formats bundle) (values bundle.elements)
  teams ← each (team_item formats bundle) (values bundle.teams)
  events ← each (event_item formats bundle) (values bundle.events)
  fixtures ← each (fixture_item formats bundle) (values bundle.fixtures)
  ok (players ++ (teams ++ (events ++ fixtures)))

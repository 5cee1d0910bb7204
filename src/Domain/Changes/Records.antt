-- ===== src/Domain/Changes/Records.antt =====
-- domain/changes.py: the enums and the records of snapshots, field changes and change events.
use Prim.Native.String
use fpl_data_relay.Prelude.{ℕ, String, Bool, true, false, not, Option, List, ◌==◌, if◌then◌else◌}
use fpl_data_relay.Prelude
use fpl_data_relay.Prelude.Dict.{Dict}
use fpl_data_relay.Result.{Result, ok, err, value_error}
use fpl_data_relay.Domain.Json.{Json}
use fpl_data_relay.Domain.Time.{Datetime}

pub data IngestionSourceKey : Type 0 where
  bootstrap fixtures current_fixtures event_status event_live : IngestionSourceKey

pub data EntityFamily : Type 0 where
  events phases teams element_types element_stats elements fixtures event_status event_live :
      EntityFamily

pub data ChangeKind : Type 0 where
  created updated deleted : ChangeKind

-- `EVENT_NAMES`
pub event_name : EntityFamily → String
event_name EntityFamily.events = "events.updated"
event_name EntityFamily.phases = "phases.updated"
event_name EntityFamily.teams = "teams.updated"
event_name EntityFamily.element_types = "element_types.updated"
event_name EntityFamily.element_stats = "element_stats.updated"
event_name EntityFamily.elements = "elements.updated"
event_name EntityFamily.fixtures = "fixtures.updated"
event_name EntityFamily.event_status = "event_status.updated"
event_name EntityFamily.event_live = "event_live.updated"

pub record IngestionMetadata : Type 0 where
  pub season_id : String
  pub source_key : IngestionSourceKey
  pub event_id : Option ℕ
  pub payload_hash : String
  pub fetched_at : Datetime
  pub checked_at : Datetime

unfoldable pub payload_hash_must_be_sha256 : String → Result String
payload_hash_must_be_sha256 value =
    if not (String.count value == 64)
    then err (value_error "payload_hash must be a SHA-256 hex digest.")
    else ok value

pub record ChangeValue : Type 0 where
  pub present : Bool
  pub value : Json

pub record FieldChange : Type 0 where
  pub name : String
  pub before : ChangeValue
  pub after : ChangeValue

pub record EntitySnapshot : Type 0 where
  pub entity_key : String
  pub entity_label : String
  pub values : Dict String Json

pub record EntityChangeDraft : Type 0 where
  pub entity_key : String
  pub entity_label : String
  pub kind : ChangeKind
  pub fields : List FieldChange

pub record EntityFamilyDiff : Type 0 where
  pub baseline : Bool
  pub changes : List EntityChangeDraft

abbrev pub is_kind : ChangeKind → ChangeKind → Bool
is_kind created created = true
is_kind updated updated = true
is_kind deleted deleted = true
is_kind _ _ = false

abbrev pub count_kind : ChangeKind → EntityFamilyDiff → ℕ
count_kind k d = Prelude.count (λ change. is_kind k change.kind) d.changes

pub created_count : EntityFamilyDiff → ℕ
created_count = count_kind created

pub updated_count : EntityFamilyDiff → ℕ
updated_count = count_kind updated

pub deleted_count : EntityFamilyDiff → ℕ
deleted_count = count_kind deleted

pub record ChangeEvent : Type 0 where
  pub id : ℕ
  pub season_id : String
  pub entity_family : EntityFamily
  pub event_name : String
  pub source_key : IngestionSourceKey
  pub source_event_id : Option ℕ
  pub payload_hash : String
  pub created_count : ℕ
  pub updated_count : ℕ
  pub deleted_count : ℕ
  pub fetched_at : Datetime
  pub created_at : Datetime

pub record UpsertOutcome : Type 0 where
  pub changed : Bool
  pub change_events : List ChangeEvent

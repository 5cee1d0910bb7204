-- ===== src/Domain/Changes.antt =====
-- domain/changes.py: entity snapshots and the pure diff between them. The theorems are in the
-- modules below.
mod Records
pub mod Families
pub mod Fields
pub mod Index
pub mod Diff
pub mod Replay
pub mod Upserts
mod Examples
unfoldable pub use Records.*
use mathlib.Core.Option
use fpl_data_relay.Prelude.{
  ℕ, String, Bool, true, false, not, ◌&&◌, ◌||◌, Option, none, some, List, [], ◌∷◌, ◌++◌, ◌==◌,
  ◌=?◌, string_key, if◌then◌else◌, filter, contains, any,
}
use fpl_data_relay.Prelude
use fpl_data_relay.Prelude.Dict.{Dict, get, put, keys, is_some, sorted_set}
use fpl_data_relay.Prelude.Collect.{collect, keep}
use fpl_data_relay.Result.{Result, ok, err, value_error, runtime_error, raise_if, ◌>>=◌, ◌>>◌}
use fpl_data_relay.Domain.Json.{Json, py_eq}
use fpl_data_relay.Domain.Time.{Datetime}

abbrev pub not_empty {ℓ} : {A : Type ℓ} → List A → Bool
not_empty [] = false
not_empty (x ∷ xs) = true

-- `d.get(k)` with None for a missing key
abbrev pub or_null : Option Json → Json
or_null none = Json.null
or_null (some v) = v

abbrev pub same_bool : Bool → Bool → Bool
same_bool true b = b
same_bool false b = not b

abbrev pub side : Option Json → ChangeValue
side o = record { present = is_some o; value = or_null o }

-- One round of the loop of `changed_fields`, on the two values of the field: `none` is its
-- `continue`.
pub compare_field : String → Option Json → Option Json → Option FieldChange
compare_field name old new =
    if same_bool (is_some old) (is_some new) && py_eq (or_null old) (or_null new)
    then none
    else some (record { name = name; before = side old; after = side new })

abbrev pub field_change : Dict String Json → Dict String Json → String → Option FieldChange
field_change before after name = compare_field name (get name before) (get name after)

pub changed_fields : Dict String Json → Dict String Json → List FieldChange
changed_fields before after =
    collect (field_change before after) (sorted_set (keys before ++ keys after))

-- One item of `sorted(snapshot.data.items())`, read by its key.
pub create_field : Dict String Json → String → Option FieldChange
create_field d name =
    Option.map (λ v. record { name = name; before = side none; after = side (some v) }) (get name d)

pub entity_change_for_create : EntitySnapshot → EntityChangeDraft
entity_change_for_create snapshot = record {
  entity_key = snapshot.entity_key;
  entity_label = snapshot.entity_label;
  kind = created;
  fields = collect (create_field snapshot.values) (sorted_set (keys snapshot.values));
}

pub delete_field : Dict String Json → String → Option FieldChange
delete_field d name =
    Option.map (λ v. record { name = name; before = side (some v); after = side none }) (get name d)

pub entity_change_for_delete : EntitySnapshot → EntityChangeDraft
entity_change_for_delete snapshot = record {
  entity_key = snapshot.entity_key;
  entity_label = snapshot.entity_label;
  kind = deleted;
  fields = collect (delete_field snapshot.values) (sorted_set (keys snapshot.values));
}

-- The loop of `snapshots_by_key`.
index_from : Dict String EntitySnapshot → List EntitySnapshot → Result (Dict String EntitySnapshot)
index_from indexed [] = ok indexed
index_from indexed (s ∷ rest) =
    let next = index_from (put s.entity_key s indexed) rest in
    if is_some (get s.entity_key indexed) then err (value_error "Duplicate entity key.") else next

pub snapshots_by_key : List EntitySnapshot → Result (Dict String EntitySnapshot)
unfolding index_from
snapshots_by_key snapshots = index_from [] snapshots

-- The end of a round, where both snapshots exist.
update_change : Bool → String → EntitySnapshot → EntitySnapshot → Option EntityChangeDraft
update_change baseline entity_key before after =
    let fields = changed_fields before.values after.values in
    if not_empty fields && not baseline
    then some (record {
      entity_key = entity_key;
      entity_label = after.entity_label;
      kind = updated;
      fields = fields;
    })
    else none

-- One round of the loop of `diff_entity_snapshots`: the change that it appends, if any.
entity_change :
    (authoritative baseline : Bool) (entity_key : String) (before after : Option EntitySnapshot)
    → Result (Option EntityChangeDraft)
unfolding update_change
entity_change authoritative baseline entity_key none (some after) =
    ok (if not baseline then some (entity_change_for_create after) else none)
entity_change authoritative baseline entity_key (some before) none =
    ok (if authoritative && not baseline then some (entity_change_for_delete before) else none)
entity_change authoritative baseline entity_key none none =
    err (runtime_error "Entity diff reached an impossible snapshot state.")
entity_change authoritative baseline entity_key (some before) (some after) =
    ok (update_change baseline entity_key before after)

diff_keys :
    (authoritative baseline : Bool) (previous current : Dict String EntitySnapshot)
    → List String
    → Result (List EntityChangeDraft)
diff_keys authoritative baseline previous current [] = ok []
diff_keys authoritative baseline previous current (k ∷ ks) = do
  change ← entity_change authoritative baseline k (get k previous) (get k current)
  changes ← diff_keys authoritative baseline previous current ks
  ok (keep change changes)

pub diff_entity_snapshots :
    (previous current : List EntitySnapshot) (authoritative baseline : Bool)
    → Result EntityFamilyDiff
diff_entity_snapshots previous current authoritative baseline = do
  previous_by_key ← snapshots_by_key previous
  current_by_key ← snapshots_by_key current
  changes ←
      diff_keys authoritative baseline previous_by_key current_by_key
        (sorted_set (keys previous_by_key ++ keys current_by_key))
  ok (record { baseline = baseline; changes = changes })

-- `change.kind in {CREATED, UPDATED}`
abbrev pub is_write : ChangeKind → Bool
is_write created = true
is_write updated = true
is_write deleted = false

abbrev pub chosen_key : EntityChangeDraft → Option String
chosen_key change = if is_write change.kind then some change.entity_key else none

-- The comprehension over `diff.changes`, and the check of its keys.
selected_keys : EntityFamilyDiff → Dict String EntitySnapshot → Result (List String)
selected_keys diff current_by_key =
    let chosen = collect chosen_key diff.changes in
    if any (λ k. not (is_some (get k current_by_key))) chosen
    then err (runtime_error "Entity diff selected keys absent from the current snapshot.")
    else ok chosen

-- The returned set is a list; its order means nothing.
pub entity_keys_to_upsert : EntityFamilyDiff → List EntitySnapshot → Result (List String)
unfolding selected_keys
entity_keys_to_upsert diff current = do
  current_by_key ← snapshots_by_key current
  if diff.baseline then ok (keys current_by_key) else selected_keys diff current_by_key

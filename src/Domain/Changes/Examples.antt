-- ===== src/Domain/Changes/Examples.antt =====
-- Two snapshots of three teams, the diff between them, and the theorems at these inputs.
use fpl_data_relay.Prelude.{
  String, ◌≡◌, ◌⊎◌, ◌&&◌, refl, true, false, none, some, List, [], ◌∷◌, map, string_key, str_before,
  contains,
}
use fpl_data_relay.Prelude.Dict.{Dict, get, put, sorted_set, IsAscending}
use fpl_data_relay.Result.{ok, err}
use fpl_data_relay.Domain.Json.{Json, int, null, pos, py_eq}
use fpl_data_relay.Domain.Changes.{
  EntitySnapshot, EntityChangeDraft, EntityFamilyDiff, FieldChange, created, updated, deleted,
  changed_fields, diff_entity_snapshots, entity_keys_to_upsert, side, entity_change_for_create,
  entity_change_for_delete, snapshots_by_key, compare_field, create_field, delete_field, diff_keys,
  entity_change,
}
use fpl_data_relay.Domain.Changes.Fields.{
  reported, field_difference, changed_fields_exact, changed_fields-IsAscending,
}
use fpl_data_relay.Domain.Changes.Index.{snapshot_at, duplicate_key, has_distinct_keys}
use fpl_data_relay.Domain.Changes.Diff.{
  diff_total, change_at, expected_change, diff_exact, diff-IsAscending,
}
use fpl_data_relay.Domain.Changes.Replay.{SameValue, replay, field_of, diff_replay}
use fpl_data_relay.Domain.Changes.Upserts.{needs_write, upserts_exact}

abbrev team : String → String → Dict String Json → EntitySnapshot
team key label values = record { entity_key = key; entity_label = label; values = values }

abbrev empty : Dict String Json
empty = []

abbrev coded : Dict String Json
coded = ("code", null) ∷ []

abbrev old_teams : List EntitySnapshot
old_teams =
    team "2" "Villa" (("strength", int (pos 3)) ∷ [])
    ∷ team "1" "Arsenal" (("strength", int (pos 4)) ∷ [])
    ∷ []

abbrev new_teams : List EntitySnapshot
new_teams =
    team "1" "Arsenal" (("strength", int (pos 5)) ∷ ("code", null) ∷ []) ∷ team "3" "Leeds" [] ∷ []

abbrev found : EntityFamilyDiff
found = record {
  baseline = false;
  changes =
      record {
        entity_key = "1";
        entity_label = "Arsenal";
        kind = updated;
        fields =
            record { name = "code"; before = side none; after = side (some null) }
            ∷ record {
              name = "strength";
              before = side (some (int (pos 4)));
              after = side (some (int (pos 5)));
            }
            ∷ [];
      }
      ∷ record {
        entity_key = "2";
        entity_label = "Villa";
        kind = deleted;
        fields =
            record { name = "strength"; before = side (some (int (pos 3))); after = side none }
            ∷ [];
      }
      ∷ record { entity_key = "3"; entity_label = "Leeds"; kind = created; fields = [] }
      ∷ [];
}

program : Unit {0}
unfolding str_before diff_entity_snapshots snapshots_by_key diff_keys entity_change changed_fields
    compare_field create_field delete_field entity_change_for_create entity_change_for_delete get
    put sorted_set py_eq entity_keys_to_upsert
program = tt

diff_runs : diff_entity_snapshots old_teams new_teams true false ≡ ok found
unfolding program
diff_runs = refl

duplicate_refused :
    diff_entity_snapshots old_teams (team "1" "a" [] ∷ team "1" "b" [] ∷ []) true false
    ≡ err duplicate_key
unfolding program
duplicate_refused = refl

changed_fields_exact_example :
    reported "code" (changed_fields empty coded)
    ≡ field_difference (get "code" empty) (get "code" coded)
changed_fields_exact_example = changed_fields_exact empty coded "code"

changed_fields-IsAscending_example :
    IsAscending (map (λ (c : FieldChange). c.name) (changed_fields empty coded))
changed_fields-IsAscending_example = changed_fields-IsAscending empty coded

diff_total_example :
    (has_distinct_keys old_teams && has_distinct_keys new_teams ≡ true)
      × ((d : EntityFamilyDiff) × (diff_entity_snapshots old_teams new_teams true false ≡ ok d))
    ⊎ (has_distinct_keys old_teams && has_distinct_keys new_teams ≡ false)
      × (diff_entity_snapshots old_teams new_teams true false ≡ err duplicate_key)
diff_total_example = diff_total old_teams new_teams true false

diff_exact_example :
    change_at "1" found
    ≡ expected_change true false (snapshot_at "1" old_teams) (snapshot_at "1" new_teams)
diff_exact_example = diff_exact old_teams new_teams true false diff_runs "1"

diff-IsAscending_example : IsAscending (map (λ (c : EntityChangeDraft). c.entity_key) found.changes)
diff-IsAscending_example = diff-IsAscending old_teams new_teams true false diff_runs

diff_replay_example :
    SameValue
      (replay (change_at "1" found) (snapshot_at "1" old_teams) "strength")
      (field_of "strength" (snapshot_at "1" new_teams))
diff_replay_example = diff_replay old_teams new_teams diff_runs "1" "strength"

upserts_exact_example :
    (ks : List String) × (entity_keys_to_upsert found new_teams ≡ ok ks)
    × ((k : String)
        → contains k ks ≡ needs_write false (snapshot_at k old_teams) (snapshot_at k new_teams))
upserts_exact_example = upserts_exact old_teams new_teams true false diff_runs

-- ===== src/Domain/Changes/Replay.antt =====
-- The changes of an authoritative diff carry the previous snapshots to the current ones.
use mathlib.Core.Path.{subst}
use fpl_data_relay.Prelude.{
  String, ◌≡◌, ◌⊎◌, inl, inr, refl, true, false, Option, none, some, List, [], ◌∷◌, if◌then◌else◌,
  string_key, Bool-cases,
}
use fpl_data_relay.Prelude.Dict.{Dict, get, get-nil}
use fpl_data_relay.Prelude.Collect.{find}
use fpl_data_relay.Result.{ok}
use fpl_data_relay.Domain.Json.{Json, py_eq}
use fpl_data_relay.Domain.Changes.{
  ChangeValue, updated, deleted, FieldChange, EntitySnapshot, EntityChangeDraft, EntityFamilyDiff,
  not_empty, changed_fields, compare_field, entity_change_for_create, entity_change_for_delete,
  diff_entity_snapshots,
}
use fpl_data_relay.Domain.Changes.Fields.{find-changed_fields, create_as_difference}
use fpl_data_relay.Domain.Changes.Index.{snapshot_at}
use fpl_data_relay.Domain.Changes.Diff.{change_at, expected_change, diff_exact}

-- The same value, or values that Python's `==` does not tell apart.
abbrev pub SameValue : Option Json → Option Json → Type 0
SameValue none none = Unit
SameValue (some v) (some w) = (v ≡ w) ⊎ (py_eq v w ≡ true)
SameValue _ _ = ⊥

abbrev pub restore : ChangeValue → Option Json
restore v = if v.present then some v.value else none

-- A field after the changes of its entity.
abbrev pub patch : Option FieldChange → Option Json → Option Json
patch none old = old
patch (some c) old = restore c.after

abbrev pub field_of : String → Option EntitySnapshot → Option Json
field_of name none = none
field_of name (some s) = get name s.values

-- A field of an entity after its change: only a deletion takes it away.
abbrev pub replay : Option EntityChangeDraft → Option EntitySnapshot → String → Option Json
replay none old name = field_of name old
replay (some c) old name = elim c.kind [
  | deleted ↦ none
  | _ ↦ patch (find (λ (f : FieldChange). f.name) name c.fields) (field_of name old)
]

SameValue-refl : (o : Option Json) → SameValue o o
SameValue-refl none = tt
SameValue-refl (some v) = inl refl

patch-compare_field :
    (name : String) (old new : Option Json) → SameValue (patch (compare_field name old new) old) new
unfolding compare_field py_eq
patch-compare_field name none none = tt
patch-compare_field name none (some new) = inl refl
patch-compare_field name (some old) none = tt
patch-compare_field name (some old) (some new) = elim (Bool-cases (py_eq old new)) [
  | inl same ↦ rw same (inr same)
  | inr differ ↦ rw differ (inl refl)
]

patch-changed_fields :
    (name : String) (before after : Dict String Json)
    → SameValue
        (patch
          (find (λ (f : FieldChange). f.name) name (changed_fields before after))
          (get name before))
        (get name after)
patch-changed_fields name before after =
    rw (find-changed_fields before after name) (patch-compare_field name _ _)

abbrev update_with : EntitySnapshot → List FieldChange → Option EntityChangeDraft
update_with new fields =
    if not_empty fields
    then some (record {
      entity_key = new.entity_key;
      entity_label = new.entity_label;
      kind = updated;
      fields = fields;
    })
    else none

replay-update_with :
    (name : String) (old new : EntitySnapshot) (fields : List FieldChange)
    → replay (update_with new fields) (some old) name
      ≡ patch (find (λ (f : FieldChange). f.name) name fields) (get name old.values)
replay-update_with name old new [] = refl
replay-update_with name old new (f ∷ fields) = refl

replay-create :
    (name : String) (new : EntitySnapshot)
    → SameValue
        (patch (find (λ (f : FieldChange). f.name) name (entity_change_for_create new).fields) none)
        (get name new.values)
replay-create name new = rw create_as_difference (
    subst
      (λ o.
        SameValue (patch (find (λ (f : FieldChange). f.name) name (changed_fields [] new.values)) o)
          (get name new.values))
      (get-nil {V = Json} name) (patch-changed_fields name [] new.values))

replay-expected_change :
    (name : String) (old new : Option EntitySnapshot)
    → SameValue (replay (expected_change true false old new) old name) (field_of name new)
replay-expected_change name none none = tt
replay-expected_change name none (some new) =
    unfold entity_change_for_create in replay-create name new
replay-expected_change name (some old) none = unfold entity_change_for_delete in tt
replay-expected_change name (some old) (some new) =
    rw (replay-update_with name old new (changed_fields old.values new.values))
      (patch-changed_fields name old.values new.values)

-- After the changes of a diff of an authoritative source, outside a baseline, every field of every
-- entity has its current value, up to Python's `==`, and what is no longer there has none.
pub diff_replay :
    (previous current : List EntitySnapshot) {d : EntityFamilyDiff}
    → diff_entity_snapshots previous current true false ≡ ok d
    → (k name : String)
    → SameValue
        (replay (change_at k d) (snapshot_at k previous) name)
        (field_of name (snapshot_at k current))
diff_replay previous current h k name =
    rw (diff_exact previous current true false h k)
      (replay-expected_change name (snapshot_at k previous) (snapshot_at k current))

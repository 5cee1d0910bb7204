-- ===== src/Domain/Changes/Fields.antt =====
-- `changed_fields`, and the field lists of created and deleted entities.
use mathlib.Core.Path.{fun_ext}
use mathlib.Core.Option
use mathlib.Core.List.{append-nil}
use fpl_data_relay.Prelude.{
  String, ◌≡◌, refl, sym, ap, ◌||◌, Option, none, some, List, [], map, arith, string_key,
  if◌then◌else◌, contains-append,
}
use fpl_data_relay.Prelude.Dict.{
  Dict, get, get-nil, keys, is_some, contains-keys, sorted_set, IsAscending, sorted_set-IsAscending,
  contains-sorted_set,
}
use fpl_data_relay.Prelude.Collect.{collect, find, find-collect, IsAscending-collect}
use fpl_data_relay.Domain.Json.{Json, py_eq}
use fpl_data_relay.Domain.Changes.{
  ChangeValue, FieldChange, EntitySnapshot, side, compare_field, field_change, changed_fields,
  create_field, delete_field, entity_change_for_create, entity_change_for_delete,
}

-- What should be reported of one field, from its old and its new value.
abbrev pub field_difference : Option Json → Option Json → Option (ChangeValue × ChangeValue)
field_difference none none = none
field_difference none (some new) = some (side none, side (some new))
field_difference (some old) none = some (side (some old), side none)
field_difference (some old) (some new) =
    if py_eq old new then none else some (side (some old), side (some new))

abbrev pub reported : String → List FieldChange → Option (ChangeValue × ChangeValue)
reported name changes =
    Option.map (λ c. (c.before, c.after)) (find (λ (c : FieldChange). c.name) name changes)

compare_field-name :
    (name : String) (old new : Option Json) (c : FieldChange)
    → compare_field name old new ≡ some c
    → c.name ≡ name
unfolding compare_field
compare_field-name name old new c h = ground arith

compare_field_exact :
    (name : String) (old new : Option Json)
    → Option.map (λ c. (c.before, c.after)) (compare_field name old new) ≡ field_difference old new
unfolding compare_field py_eq
compare_field_exact name none none = refl
compare_field_exact name none (some new) = refl
compare_field_exact name (some old) none = refl
compare_field_exact name (some old) (some new) = ground arith

-- A key of neither dict gives no change.
union_covers :
    (name : String) (old new : Option Json)
    → (if is_some old || is_some new then compare_field name old new else none)
      ≡ compare_field name old new
unfolding compare_field py_eq
union_covers name none none = refl
union_covers name none (some new) = refl
union_covers name (some old) new = refl

module _ (before after : Dict String Json) where
  pub find-changed_fields :
      (name : String)
      → find (λ (c : FieldChange). c.name) name (changed_fields before after)
        ≡ field_change before after name
  unfolding changed_fields
  find-changed_fields name =
      rw
        (find-collect (λ (c : FieldChange). c.name) (field_change before after)
          (λ k. compare_field-name k _ _))
        (simp (contains-sorted_set, contains-append, contains-keys) (union_covers name _ _))

  -- A field is reported exactly when its presence or its value differs, and then with both sides;
  -- a missing field differs from one that holds null.
  pub changed_fields_exact :
      (name : String)
      → reported name (changed_fields before after)
        ≡ field_difference (get name before) (get name after)
  changed_fields_exact name = rw find-changed_fields (compare_field_exact name _ _)

  -- The changes are sorted by field name, and no field is reported twice.
  pub changed_fields-IsAscending : IsAscending (map (λ c. c.name) (changed_fields before after))
  unfolding changed_fields
  changed_fields-IsAscending =
      IsAscending-collect (λ (c : FieldChange). c.name) (field_change before after)
        (λ k. compare_field-name k _ _) _ (sorted_set-IsAscending _)

create_row :
    (name : String) (o : Option Json)
    → Option.map (λ v. record { name = name; before = side none; after = side (some v) }) o
      ≡ compare_field name none o
unfolding compare_field py_eq
create_row name none = refl
create_row name (some v) = refl

delete_row :
    (name : String) (o : Option Json)
    → Option.map (λ v. record { name = name; before = side (some v); after = side none }) o
      ≡ compare_field name o none
unfolding compare_field py_eq
delete_row name none = refl
delete_row name (some v) = refl

create_field_lem :
    (d : Dict String Json) (name : String) → create_field d name ≡ field_change [] d name
unfolding create_field
create_field_lem d name = rw get-nil (create_row name (get name d))

delete_field_lem :
    (d : Dict String Json) (name : String) → delete_field d name ≡ field_change d [] name
unfolding delete_field
delete_field_lem d name = rw get-nil (delete_row name (get name d))

module _ (s : EntitySnapshot) where
  -- A created entity reports its fields as a change from an empty one does.
  pub create_as_difference : (entity_change_for_create s).fields ≡ changed_fields [] s.values
  unfolding entity_change_for_create changed_fields
  create_as_difference =
      ap (λ f. collect f (sorted_set (keys s.values))) (fun_ext (create_field_lem s.values))

  -- A deleted entity reports its fields as a change to an empty one does.
  pub delete_as_difference : (entity_change_for_delete s).fields ≡ changed_fields s.values []
  unfolding entity_change_for_delete changed_fields
  delete_as_difference = rw (fun_ext (delete_field_lem s.values)) (
      ap (λ ks. collect (field_change s.values []) (sorted_set ks))
        (sym (append-nil (keys s.values))))

-- ===== src/Domain/Changes/Diff.antt =====
-- `diff_entity_snapshots` against a description of the change that each key should have.
use fpl_data_relay.Prelude.{
  String, ◌≡◌, ◌⊎◌, inl, inr, refl, Bool, true, false, ◌&&◌, ◌||◌, Option, none, some, List, [],
  ◌∷◌, ◌++◌, map, arith, string_key, if◌then◌else◌, contains, contains-append, Bool-cases, All,
  All-contains, ◌=?◌,
}
use fpl_data_relay.Prelude.Dict.{
  Dict, get, is_some, keys, contains-keys, sorted_set, IsAscending, sorted_set-IsAscending,
  contains-sorted_set,
}
use fpl_data_relay.Prelude.Collect.{collect, find, find-collect, IsAscending-collect}
use fpl_data_relay.Result.{Result, ok, err, >>=-inv}
use fpl_data_relay.Domain.Changes.{
  EntitySnapshot, EntityChangeDraft, EntityFamilyDiff, updated, not_empty, changed_fields,
  entity_change_for_create, entity_change_for_delete, entity_change, diff_keys,
  diff_entity_snapshots, snapshots_by_key,
}
use fpl_data_relay.Domain.Changes.Index.{
  snapshot_at, has_distinct_keys, duplicate_key, snapshots_by_key-get, snapshots_by_key_cases,
}

-- The change that an entity should have, from its old and its new snapshot: none on a baseline, a
-- deletion only of an authoritative source, an update only with a changed field.
abbrev pub expected_change :
    (authoritative baseline : Bool) (old new : Option EntitySnapshot) → Option EntityChangeDraft
expected_change authoritative true old new = none
expected_change authoritative false none none = none
expected_change authoritative false none (some new) = some (entity_change_for_create new)
expected_change true false (some old) none = some (entity_change_for_delete old)
expected_change false false (some old) none = none
expected_change authoritative false (some old) (some new) =
    if not_empty (changed_fields old.values new.values)
    then some (record {
      entity_key = new.entity_key;
      entity_label = new.entity_label;
      kind = updated;
      fields = changed_fields old.values new.values;
    })
    else none

abbrev pub change_at : String → EntityFamilyDiff → Option EntityChangeDraft
change_at k d = find (λ (c : EntityChangeDraft). c.entity_key) k d.changes

abbrev IsNamed : String → Option EntitySnapshot → Type 0
IsNamed k none = Unit
IsNamed k (some s) = s.entity_key ≡ k

snapshot_at-IsNamed :
    (k : String) (snapshots : List EntitySnapshot) → IsNamed k (snapshot_at k snapshots)
snapshot_at-IsNamed k [] = tt
snapshot_at-IsNamed k (t ∷ rest) = elim (Bool-cases (t.entity_key =? k)) [
  | inl same ↦ rw same ((string_key.beq_iff t.entity_key k).0 same)
  | inr other ↦ rw other (snapshot_at-IsNamed k rest)
]

module _ (authoritative baseline : Bool) where
  expected_change-key :
      (k : String) (old new : Option EntitySnapshot) (c : EntityChangeDraft)
      → IsNamed k old
      → IsNamed k new
      → expected_change authoritative baseline old new ≡ some c
      → c.entity_key ≡ k
  unfolding entity_change_for_create entity_change_for_delete
  expected_change-key k none none c p q h = ground arith
  expected_change-key k none (some new) c p q h = ground arith
  expected_change-key k (some old) none c p q h = ground arith
  expected_change-key k (some old) (some new) c p q h = ground arith

  entity_change_lem :
      (k : String) (old new : Option EntitySnapshot)
      → is_some old || is_some new ≡ true
      → IsNamed k new
      → entity_change authoritative baseline k old new
        ≡ ok (expected_change authoritative baseline old new)
  unfolding entity_change
  entity_change_lem k none none p q = cc
  entity_change_lem k none (some new) p q = ground arith
  entity_change_lem k (some old) none p q = ground arith
  entity_change_lem k (some old) (some new) p q = ground arith

  module _ (previous current : Dict String EntitySnapshot) where
    abbrev pub expected_at : String → Option EntityChangeDraft
    expected_at k = expected_change authoritative baseline (get k previous) (get k current)

    abbrev IsKnown : String → Type 0
    IsKnown k = is_some (get k previous) || is_some (get k current) ≡ true

    diff_keys_lem :
        (ks : List String)
        → ((k : String) → IsNamed k (get k current))
        → All IsKnown ks
        → diff_keys authoritative baseline previous current ks ≡ ok (collect expected_at ks)
    unfolding diff_keys
    diff_keys_lem [] named known = refl
    diff_keys_lem (k ∷ ks) named known =
        rw (entity_change_lem k _ _ known.0 (named k)) (rw (diff_keys_lem ks named known.1))

    abbrev pub all_keys : List String
    all_keys = sorted_set (keys previous ++ keys current)

    all_keys-IsKnown : All IsKnown all_keys
    all_keys-IsKnown =
        All-contains IsKnown all_keys
          λ k m. simp (contains-sorted_set, contains-append, contains-keys) at m

    -- A key of neither dict has no change.
    pub expected_at-all_keys :
        (k : String) → (if contains k all_keys then expected_at k else none) ≡ expected_at k
    expected_at-all_keys k =
        simp (contains-sorted_set, contains-append, contains-keys)
          (unknown (get k previous) (get k current))
      where
        unknown :
            (old new : Option EntitySnapshot)
            → (if is_some old || is_some new
                then expected_change authoritative baseline old new
                else none)
              ≡ expected_change authoritative baseline old new
        unknown none none = ground arith
        unknown none (some new) = refl
        unknown (some old) new = refl

module _ (previous current : List EntitySnapshot) (authoritative baseline : Bool) where
  abbrev pub run : Result EntityFamilyDiff
  run = diff_entity_snapshots previous current authoritative baseline

  abbrev pub diff_of : (p c : Dict String EntitySnapshot) → EntityFamilyDiff
  diff_of p c = record {
    baseline = baseline;
    changes =
        collect (expected_at authoritative baseline p c) (all_keys authoritative baseline p c);
  }

  run-ok :
      (p c : Dict String EntitySnapshot)
      → snapshots_by_key previous ≡ ok p
      → snapshots_by_key current ≡ ok c
      → run ≡ ok (diff_of p c)
  unfolding diff_entity_snapshots
  run-ok p c hp hc =
      rw (hp, hc)
        (rw (
          diff_keys_lem authoritative baseline p c (all_keys authoritative baseline p c)
            (λ k. rw (snapshots_by_key-get current c k hc) (snapshot_at-IsNamed k current))
            (all_keys-IsKnown authoritative baseline p c)))

  -- Whether the diff succeeds: exactly when both lists have distinct keys; and its only error
  -- then is that of a duplicate key, never the one for an impossible state.
  pub diff_total :
      (has_distinct_keys previous && has_distinct_keys current ≡ true)
        × ((d : EntityFamilyDiff) × (run ≡ ok d))
      ⊎ (has_distinct_keys previous && has_distinct_keys current ≡ false)
        × (run ≡ err duplicate_key)
  unfolding diff_entity_snapshots
  diff_total = elim (snapshots_by_key_cases previous) [
    | inl (p, (dp, hp)) ↦ elim (snapshots_by_key_cases current) [
      | inl (c, (dc, hc)) ↦ inl (rw (p, c), (diff_of dp dc, run-ok dp dc hp hc))
      | inr (c, hc) ↦ inr (rw (p, c), rw (hp, hc))
    ]
    | inr (p, hp) ↦ inr (rw p, rw hp)
  ]

  pub indexed_key :
      (p c : Dict String EntitySnapshot)
      → snapshots_by_key previous ≡ ok p
      → snapshots_by_key current ≡ ok c
      → (j : String) (x : EntityChangeDraft) → expected_at authoritative baseline p c j ≡ some x
      → x.entity_key ≡ j
  indexed_key p c hp hc j x =
      expected_change-key authoritative baseline j _ _ x
        (rw (snapshots_by_key-get previous p j hp) (snapshot_at-IsNamed j previous))
        (rw (snapshots_by_key-get current c j hc) (snapshot_at-IsNamed j current))

  module _ {d : EntityFamilyDiff} (h : run ≡ ok d) where
    pub run-inv :
        (p : Dict String EntitySnapshot) × (c : Dict String EntitySnapshot) × (snapshots_by_key
            previous
          ≡ ok p)
        × (snapshots_by_key current ≡ ok c)
        × (d ≡ diff_of p c)
    unfolding diff_entity_snapshots
    run-inv =
        let (p, hp, h') = >>=-inv (snapshots_by_key previous) _ h in
        let (c, hc, _) = >>=-inv (snapshots_by_key current) _ h' in
        (p, c, hp, hc, cc (h, run-ok p c hp hc))

    -- A successful diff has at each key the change that the two snapshots of the key call for.
    pub diff_exact :
        (k : String)
        → change_at k d
          ≡ expected_change authoritative baseline (snapshot_at k previous) (snapshot_at k current)
    diff_exact k =
        let (p, c, hp, hc, e) = run-inv in
        rw e (
          rw
            (find-collect (λ (x : EntityChangeDraft). x.entity_key)
              (expected_at authoritative baseline p c) (indexed_key p c hp hc))
            (rw (expected_at-all_keys authoritative baseline p c k)
              (rw (snapshots_by_key-get previous p k hp, snapshots_by_key-get current c k hc))))

    -- The changes are sorted by entity key, and no entity has two.
    pub diff-IsAscending : IsAscending (map (λ c. c.entity_key) d.changes)
    diff-IsAscending =
        let (p, c, hp, hc, e) = run-inv in
        rw e (
          IsAscending-collect (λ (x : EntityChangeDraft). x.entity_key)
            (expected_at authoritative baseline p c) (indexed_key p c hp hc)
            (all_keys authoritative baseline p c) (sorted_set-IsAscending _))

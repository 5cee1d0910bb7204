-- ===== src/Domain/Changes/Upserts.antt =====
-- `entity_keys_to_upsert`, for the diff that it is called with.
use fpl_data_relay.Prelude.{
  String, ◌≡◌, refl, Bool, true, false, not, ◌&&◌, Option, none, some, List, [], ◌∷◌, arith,
  string_key, if◌then◌else◌, contains, any, Option-cases, inl, inr, ap, sym, ◌∙◌,
}
use fpl_data_relay.Prelude.Dict.{Dict, get, is_some, keys, contains-keys}
use fpl_data_relay.Prelude.Collect.{collect}
use fpl_data_relay.Result.{ok}
use fpl_data_relay.Domain.Changes.{
  EntitySnapshot, EntityChangeDraft, EntityFamilyDiff, not_empty, changed_fields, is_write,
  chosen_key, entity_keys_to_upsert, entity_change_for_create, entity_change_for_delete,
  diff_entity_snapshots, snapshots_by_key,
}
use fpl_data_relay.Domain.Changes.Index.{snapshot_at, snapshots_by_key-get}
use fpl_data_relay.Domain.Changes.Diff.{
  expected_change, expected_at, expected_at-all_keys, all_keys, run-inv, indexed_key, diff_of,
}

-- Which entities need a write: all current ones on a baseline, else the new and the changed ones.
abbrev pub needs_write : (baseline : Bool) (old new : Option EntitySnapshot) → Bool
needs_write baseline old none = false
needs_write true old (some new) = true
needs_write false none (some new) = true
needs_write false (some old) (some new) = not_empty (changed_fields old.values new.values)

abbrev writes : Option EntityChangeDraft → Bool
writes none = false
writes (some c) = is_write c.kind

writes-expected_change :
    (authoritative : Bool) (old new : Option EntitySnapshot)
    → writes (expected_change authoritative false old new) ≡ needs_write false old new
unfolding entity_change_for_create entity_change_for_delete
writes-expected_change authoritative none none = refl
writes-expected_change authoritative none (some new) = refl
writes-expected_change true (some old) none = refl
writes-expected_change false (some old) none = refl
writes-expected_change authoritative (some old) (some new) = ground arith

needs_write-current :
    (baseline : Bool) (old new : Option EntitySnapshot)
    → needs_write baseline old new ≡ true
    → is_some new ≡ true
needs_write-current baseline old none h = cc
needs_write-current baseline old (some new) h = refl

any-false :
    (test : String → Bool) (ks : List String)
    → ((k : String) → contains k ks ≡ true → test k ≡ false)
    → any test ks ≡ false
any-false test [] h = refl
any-false test (k ∷ ks) h =
    rw (h k (ground (arith, string_key.beq_iff k k)))
      (any-false test ks (λ j m. h j (ground arith)))

module _ (f : String → Option EntityChangeDraft)
    (named : (k : String) (c : EntityChangeDraft) → f k ≡ some c → c.entity_key ≡ k) where
  contains-chosen :
      (k : String) (ks : List String)
      → contains k (collect chosen_key (collect f ks)) ≡ (contains k ks && writes (f k))
  contains-chosen k [] = refl
  contains-chosen k (j ∷ ks) = elim (Option-cases (f j)) [
    | inl e ↦ rw e (ground (arith, contains-chosen k ks, string_key.beq_iff j k))
    | inr (c, e) ↦ rw e (ground (arith, contains-chosen k ks, string_key.beq_iff j k, named j c e))
  ]

module _ (previous current : List EntitySnapshot) (authoritative : Bool) where
  module _ (p c : Dict String EntitySnapshot) (hp : snapshots_by_key previous ≡ ok p)
      (hc : snapshots_by_key current ≡ ok c) where
    abbrev chosen : List String
    chosen =
        collect chosen_key
          (collect (expected_at authoritative false p c) (all_keys authoritative false p c))

    contains-all_chosen :
        (k : String)
        → contains k chosen ≡ needs_write false (snapshot_at k previous) (snapshot_at k current)
    contains-all_chosen k =
        contains-chosen (expected_at authoritative false p c)
          (indexed_key previous current authoritative false p c hp hc) k
          (all_keys authoritative false p c)
        ∙ covered _ _ (expected_at-all_keys authoritative false p c k)
        ∙ writes-expected_change authoritative (get k p) (get k c)
        ∙ rw (snapshots_by_key-get previous p k hp, snapshots_by_key-get current c k hc)
      where
        covered :
            (b : Bool) (o : Option EntityChangeDraft)
            → (if b then o else none) ≡ o
            → (b && writes o) ≡ writes o
        covered b o e = ground arith

    chosen-known : any (λ k. not (is_some (get k c))) chosen ≡ false
    chosen-known =
        any-false (λ k. not (is_some (get k c))) chosen
          λ k m. rw (snapshots_by_key-get current c k hc) (
            ap not (
              needs_write-current false (snapshot_at k previous) (snapshot_at k current)
                (sym (contains-all_chosen k) ∙ m)))

    abbrev written : Bool → List String
    written baseline = if baseline then keys c else chosen

    written-ok :
        (baseline : Bool)
        → entity_keys_to_upsert (diff_of previous current authoritative baseline p c) current
          ≡ ok (written baseline)
    unfolding entity_keys_to_upsert
    written-ok true = rw hc
    written-ok false = rw hc (rw chosen-known)

    contains-written :
        (baseline : Bool) (k : String)
        → contains k (written baseline)
          ≡ needs_write baseline (snapshot_at k previous) (snapshot_at k current)
    contains-written false k = contains-all_chosen k
    contains-written true k =
        rw (contains-keys k c, snapshots_by_key-get current c k hc) (here (snapshot_at k current))
      where
        here :
            (new : Option EntitySnapshot)
            → is_some new ≡ needs_write true (snapshot_at k previous) new
        here none = refl
        here (some s) = refl

  -- The keys to write for the diff of two snapshot lists never fail, and are those of the entities
  -- that need a write.
  pub upserts_exact :
      (baseline : Bool) {d : EntityFamilyDiff}
      → diff_entity_snapshots previous current authoritative baseline ≡ ok d
      → (ks : List String) × (entity_keys_to_upsert d current ≡ ok ks)
        × ((k : String)
            → contains k ks ≡ needs_write baseline (snapshot_at k previous) (snapshot_at k current))
  upserts_exact baseline h =
      let (p, c, hp, hc, e) = run-inv previous current authoritative baseline h in
      (
        written p c hp hc baseline,
        ap (λ x. entity_keys_to_upsert x current) e ∙ written-ok p c hp hc baseline,
        contains-written p c hp hc baseline,
      )

-- ===== src/Domain/Changes/Index.antt =====
-- `snapshots_by_key`: what it indexes, and when it raises.
use fpl_data_relay.Prelude.{
  String, ◌≡◌, ◌⊎◌, inl, inr, refl, Bool, true, false, not, ◌&&◌, Option, none, some, List, [], ◌∷◌,
  arith, string_key, Bool-cases,
}
use fpl_data_relay.Prelude.Dict.{Dict, get, get-nil, get-put, put, is_some}
use fpl_data_relay.Prelude.Collect.{find}
use fpl_data_relay.Result.{Error, ok, err, value_error}
use fpl_data_relay.Domain.Changes.{EntitySnapshot, index_from, snapshots_by_key}

-- The first snapshot of a key.
abbrev pub snapshot_at : String → List EntitySnapshot → Option EntitySnapshot
snapshot_at = find (λ s. s.entity_key)

abbrev pub has_distinct_keys : List EntitySnapshot → Bool
has_distinct_keys [] = true
has_distinct_keys (s ∷ rest) =
    not (is_some (snapshot_at s.entity_key rest)) && has_distinct_keys rest

abbrev pub or_else {ℓ} : {A : Type ℓ} → Option A → Option A → Option A
or_else none p = p
or_else (some a) p = some a

index_from-get :
    (snapshots : List EntitySnapshot) (indexed d : Dict String EntitySnapshot) (k : String)
    → index_from indexed snapshots ≡ ok d
    → get k d ≡ or_else (get k indexed) (snapshot_at k snapshots)
unfolding index_from
index_from-get [] indexed d k h = ground arith
index_from-get (s ∷ rest) indexed d k h = ground (
  arith,
  string_key.beq_iff s.entity_key k,
  get-put k s.entity_key s indexed,
  index_from-get rest (put s.entity_key s indexed) d k,
)

-- An index of distinct snapshots finds for each key the snapshot of that key.
pub snapshots_by_key-get :
    (snapshots : List EntitySnapshot) (d : Dict String EntitySnapshot) (k : String)
    → snapshots_by_key snapshots ≡ ok d
    → get k d ≡ snapshot_at k snapshots
unfolding snapshots_by_key
snapshots_by_key-get snapshots d k h =
    ground (arith, index_from-get snapshots [] d k, get-nil {V = EntitySnapshot} k)

-- No snapshot of the list has a key of the index.
abbrev is_disjoint : Dict String EntitySnapshot → List EntitySnapshot → Bool
is_disjoint indexed [] = true
is_disjoint indexed (s ∷ rest) =
    not (is_some (get s.entity_key indexed)) && is_disjoint indexed rest

is_disjoint-put :
    (s : EntitySnapshot) (indexed : Dict String EntitySnapshot) (rest : List EntitySnapshot)
    → is_disjoint (put s.entity_key s indexed) rest
      ≡ (is_disjoint indexed rest && not (is_some (snapshot_at s.entity_key rest)))
is_disjoint-put s indexed [] = refl
is_disjoint-put s indexed (t ∷ rest) = ground (
  arith,
  string_key.beq_iff s.entity_key t.entity_key,
  string_key.beq_iff t.entity_key s.entity_key,
  get-put t.entity_key s.entity_key s indexed,
  is_disjoint-put s indexed rest,
)

abbrev pub duplicate_key : Error
duplicate_key = value_error "Duplicate entity key."

index_from_cases :
    (snapshots : List EntitySnapshot) (indexed : Dict String EntitySnapshot)
    → (is_disjoint indexed snapshots && has_distinct_keys snapshots ≡ true)
        × ((d : Dict String EntitySnapshot) × (index_from indexed snapshots ≡ ok d))
      ⊎ (is_disjoint indexed snapshots && has_distinct_keys snapshots ≡ false)
        × (index_from indexed snapshots ≡ err duplicate_key)
unfolding index_from
index_from_cases [] indexed = inl (refl, (indexed, refl))
index_from_cases (s ∷ rest) indexed = elim (Bool-cases (is_some (get s.entity_key indexed))) [
  | inl old ↦ inr (ground arith, ground arith)
  | inr new ↦ elim (index_from_cases rest (put s.entity_key s indexed)) [
    | inl (p, (d, e)) ↦ inl (ground (arith, is_disjoint-put s indexed rest), (d, ground arith))
    | inr (p, e) ↦ inr (ground (arith, is_disjoint-put s indexed rest), ground arith)
  ]
]

is_disjoint-nil : (snapshots : List EntitySnapshot) → is_disjoint [] snapshots ≡ true
is_disjoint-nil [] = refl
is_disjoint-nil (s ∷ rest) =
    ground (arith, get-nil {V = EntitySnapshot} s.entity_key, is_disjoint-nil rest)

-- Snapshots are indexed if their keys are distinct, and refused if two share a key.
pub snapshots_by_key_cases :
    (snapshots : List EntitySnapshot)
    → (has_distinct_keys snapshots ≡ true)
        × ((d : Dict String EntitySnapshot) × (snapshots_by_key snapshots ≡ ok d))
      ⊎ (has_distinct_keys snapshots ≡ false) × (snapshots_by_key snapshots ≡ err duplicate_key)
unfolding snapshots_by_key
snapshots_by_key_cases snapshots = elim (index_from_cases snapshots []) [
  | inl (p, q) ↦ inl (ground (arith, is_disjoint-nil snapshots), q)
  | inr (p, e) ↦ inr (ground (arith, is_disjoint-nil snapshots), e)
]

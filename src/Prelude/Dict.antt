-- ===== src/Prelude/Dict.antt =====
-- Python's dicts in insertion order, and sorted sets of keys.
use mathlib.Core.Path.{◌≡◌, refl}
use mathlib.Core.Bool.{Bool, true, false, ◌||◌}
use mathlib.Core.List.{List, [], ◌∷◌, ◌++◌}
use mathlib.Core.Option.{Option, none, some}
use native.Mathlib.Omega.{arith}
use fpl_data_relay.Prelude.Tests.{if◌then◌else◌}
use fpl_data_relay.Prelude.Keys.{Key, ◌=?◌}
use fpl_data_relay.Prelude.Lists.{contains}

abbrev pub Dict {ℓ κ} : Type ℓ → Type κ → Type (ℓ ⊔ κ)
Dict K V = List (K × V)

abbrev pub keys {ℓ κ} : {K : Type ℓ} {V : Type κ} → Dict K V → List K
keys [] = []
keys ((k, v) ∷ d) = k ∷ keys d

abbrev pub is_some {ℓ} : {A : Type ℓ} → Option A → Bool
is_some none = false
is_some (some a) = true

module _ {ℓ κ} {K : Type ℓ} {V : Type κ} ⦃key : Key K⦄ where
  -- `d.get(k)`
  unfoldable pub get : K → Dict K V → Option V
  get k [] = none
  get k ((j, v) ∷ d) = if j =? k then some v else get k d

  -- `d[k] = v`: an old key keeps its place, a new one comes last.
  unfoldable pub put : K → V → Dict K V → Dict K V
  put k v [] = (k, v) ∷ []
  put k v ((j, w) ∷ d) = if j =? k then (j, v) ∷ d else (j, w) ∷ put k v d

  pub get-nil : (k : K) → get k [] ≡ none
  unfolding get
  get-nil k = refl

  pub get-put :
      (j k : K) (v : V) (d : Dict K V) → get j (put k v d) ≡ (if k =? j then some v else get j d)
  unfolding get put
  get-put j k v [] = refl
  get-put j k v ((i, w) ∷ d) =
      ground (arith, key.beq_iff i k, key.beq_iff i j, key.beq_iff k j, get-put j k v d)

  pub contains-keys : (k : K) (d : Dict K V) → contains k (keys d) ≡ is_some (get k d)
  unfolding get
  contains-keys k [] = refl
  contains-keys k ((j, v) ∷ d) = ground (arith, contains-keys k d)

  pub put-fresh : (k : K) (v : V) (d : Dict K V) → get k d ≡ none → put k v d ≡ d ++ ((k, v) ∷ [])
  unfolding get put
  put-fresh k v [] h = refl
  put-fresh k v ((j, w) ∷ d) h = ground (arith, put-fresh k v d)

  -- A dict built by `put` has each key once.
  abbrev pub HasUniqueKeys : Dict K V → Type κ
  HasUniqueKeys [] = Unit
  HasUniqueKeys ((k, v) ∷ d) = (get k d ≡ none) × HasUniqueKeys d

  pub put-HasUniqueKeys :
      (k : K) (v : V) (d : Dict K V) → HasUniqueKeys d → HasUniqueKeys (put k v d)
  unfolding put
  put-HasUniqueKeys k v [] u = (get-nil k, tt)
  put-HasUniqueKeys k v ((j, w) ∷ d) u =
      ground (arith, put-HasUniqueKeys k v d u.1, get-put j k v d, key.beq_iff j k, key.beq_iff k j)

module _ {ℓ} {K : Type ℓ} ⦃key : Key K⦄ where
  -- Ascending, so that each key stands once.
  abbrev pub AllAfter : K → List K → Type 0
  AllAfter k [] = Unit
  AllAfter k (j ∷ js) = (key.before k j ≡ true) × AllAfter k js

  abbrev pub IsAscending : List K → Type 0
  IsAscending [] = Unit
  IsAscending (k ∷ ks) = AllAfter k ks × IsAscending ks

  insert_key : K → List K → List K
  insert_key k [] = k ∷ []
  insert_key k (j ∷ js) =
      if j =? k then j ∷ js else if key.before k j then k ∷ j ∷ js else j ∷ insert_key k js

  -- `sorted(set(ks))`
  unfoldable pub sorted_set : List K → List K
  unfolding insert_key
  sorted_set [] = []
  sorted_set (k ∷ ks) = insert_key k (sorted_set ks)

  AllAfter-trans : (j k : K) (ks : List K) → key.before j k ≡ true → AllAfter k ks → AllAfter j ks
  AllAfter-trans j k [] h a = tt
  AllAfter-trans j k (i ∷ ks) h a = (key.before_trans j k i h a.0, AllAfter-trans j k ks h a.1)

  AllAfter-insert_key :
      (j k : K) (ks : List K) → key.before j k ≡ true → AllAfter j ks → AllAfter j (insert_key k ks)
  unfolding insert_key
  AllAfter-insert_key j k [] h a = (h, tt)
  AllAfter-insert_key j k (i ∷ ks) h a = ground (arith, AllAfter-insert_key j k ks h a.1)

  insert_key-IsAscending : (k : K) (ks : List K) → IsAscending ks → IsAscending (insert_key k ks)
  unfolding insert_key
  insert_key-IsAscending k [] a = (tt, tt)
  insert_key-IsAscending k (j ∷ ks) a = ground (
    arith,
    key.beq_iff j k,
    key.before_total k j,
    key.beq_iff k j,
    AllAfter-trans k j ks,
    AllAfter-insert_key j k ks,
    insert_key-IsAscending k ks a.1,
  )

  pub sorted_set-IsAscending : (ks : List K) → IsAscending (sorted_set ks)
  unfolding sorted_set
  sorted_set-IsAscending [] = tt
  sorted_set-IsAscending (k ∷ ks) =
      insert_key-IsAscending k (sorted_set ks) (sorted_set-IsAscending ks)

  contains-insert_key :
      (a k : K) (ks : List K) → contains a (insert_key k ks) ≡ (k =? a || contains a ks)
  unfolding insert_key
  contains-insert_key a k [] = refl
  contains-insert_key a k (j ∷ ks) =
      ground (arith, key.beq_iff j k, key.beq_iff j a, key.beq_iff k a, contains-insert_key a k ks)

  pub contains-sorted_set : (a : K) (ks : List K) → contains a (sorted_set ks) ≡ contains a ks
  unfolding sorted_set
  contains-sorted_set a [] = refl
  contains-sorted_set a (k ∷ ks) =
      ground (arith, contains-insert_key a k (sorted_set ks), contains-sorted_set a ks)

  -- What comes after a key does not hold it.
  pub AllAfter-fresh : (k : K) (ks : List K) → AllAfter k ks → contains k ks ≡ false
  AllAfter-fresh k [] a = refl
  AllAfter-fresh k (j ∷ ks) a =
      ground (arith, key.beq_iff j k, key.before_irrefl k, AllAfter-fresh k ks a.1)

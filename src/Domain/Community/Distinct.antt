-- ===== src/Domain/Community/Distinct.antt =====
-- Lists of keys without their repetitions.
use fpl_data_relay.Prelude.{
  ◌≤◌, ◌≡◌, refl, arith, Bool, false, not, ◌||◌, List, [], ◌∷◌, length, filter, contains, Key, ◌=?◌,
  if◌then◌else◌,
}

module _ {ℓ} {K : Type ℓ} ⦃key : Key K⦄ where
  -- `len(keys) != len(set(keys))`: a set built from a list holds each of its keys once.
  unfoldable pub has_duplicates : List K → Bool
  has_duplicates [] = false
  has_duplicates (k ∷ ks) = contains k ks || has_duplicates ks

  abbrev pub without : K → List K → List K
  without k = filter λ j. not (j =? k)

  -- `dict.fromkeys(keys)`, also the number of keys of `set(keys)`
  unfoldable pub distinct : List K → List K
  distinct [] = []
  distinct (k ∷ ks) = k ∷ without k (distinct ks)

  length-without : (k : K) (ks : List K) → length (without k ks) ≤ length ks
  length-without k [] = omega arith
  length-without k (j ∷ ks) = ground (arith, length-without k ks)

  pub length-distinct : (ks : List K) → length (distinct ks) ≤ length ks
  unfolding distinct
  length-distinct [] = omega arith
  length-distinct (k ∷ ks) = omega (arith, length-without k (distinct ks), length-distinct ks)

  contains-without :
      (a k : K) (ks : List K)
      → contains a (without k ks) ≡ (if a =? k then false else contains a ks)
  contains-without a k [] = ground arith
  contains-without a k (j ∷ ks) =
      ground (arith, contains-without a k ks, key.beq_iff j k, key.beq_iff j a, key.beq_iff a k)

  pub contains-distinct : (a : K) (ks : List K) → contains a (distinct ks) ≡ contains a ks
  unfolding distinct
  contains-distinct a [] = refl
  contains-distinct a (k ∷ ks) = ground (
    arith,
    contains-without a k (distinct ks),
    contains-distinct a ks,
    key.beq_iff a k,
    key.beq_iff k a,
  )

  has_duplicates-without :
      (k : K) (ks : List K) → has_duplicates ks ≡ false → has_duplicates (without k ks) ≡ false
  unfolding has_duplicates
  has_duplicates-without k [] h = refl
  has_duplicates-without k (j ∷ ks) h =
      ground (arith, has_duplicates-without k ks, contains-without j k ks)

  pub has_duplicates-distinct : (ks : List K) → has_duplicates (distinct ks) ≡ false
  unfolding has_duplicates distinct
  has_duplicates-distinct [] = refl
  has_duplicates-distinct (k ∷ ks) = ground (
    arith,
    contains-without k k (distinct ks),
    key.beq_iff k k,
    has_duplicates-without k (distinct ks),
    has_duplicates-distinct ks,
  )

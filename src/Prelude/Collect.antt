-- ===== src/Prelude/Collect.antt =====
-- `[f(x) for x in xs if f(x) is not None]`, and the rows found by key in the list it builds.
use mathlib.Core.Path.{◌≡◌, refl}
use mathlib.Core.Logic.{inl, inr}
use mathlib.Core.List.{List, [], ◌∷◌, map}
use mathlib.Core.Option.{Option, none, some}
use native.Mathlib.Omega.{arith}
use fpl_data_relay.Prelude.Tests.{if◌then◌else◌, Option-cases}
use fpl_data_relay.Prelude.Keys.{Key, ◌=?◌}
use fpl_data_relay.Prelude.Lists.{contains}
use fpl_data_relay.Prelude.Dict.{AllAfter, IsAscending}

abbrev pub keep {ℓ} : {A : Type ℓ} → Option A → List A → List A
keep none xs = xs
keep (some x) xs = x ∷ xs

abbrev pub collect {ℓ κ} : {A : Type ℓ} {B : Type κ} → (A → Option B) → List A → List B
collect f [] = []
collect f (x ∷ xs) = keep (f x) (collect f xs)

module _ {ℓ κ} {K : Type ℓ} {B : Type κ} ⦃key : Key K⦄ (name : B → K) where
  -- The first row of that name.
  abbrev pub find : K → List B → Option B
  find k [] = none
  find k (b ∷ bs) = if name b =? k then some b else find k bs

  module _ (f : K → Option B) (named : (k : K) (b : B) → f k ≡ some b → name b ≡ k) where
    pub find-collect :
        (a : K) (ks : List K) → find a (collect f ks) ≡ (if contains a ks then f a else none)
    find-collect a [] = refl
    find-collect a (k ∷ ks) = elim (Option-cases (f k)) [
      | inl e ↦ rw e (ground (arith, find-collect a ks, key.beq_iff k a))
      | inr (b, e) ↦ rw e (ground (arith, find-collect a ks, key.beq_iff k a, named k b e))
    ]

    pub AllAfter-collect :
        (a : K) (ks : List K) → AllAfter a ks → AllAfter a (map name (collect f ks))
    AllAfter-collect a [] h = tt
    AllAfter-collect a (k ∷ ks) h = elim (Option-cases (f k)) [
      | inl e ↦ rw e (AllAfter-collect a ks h.1)
      | inr (b, e) ↦ rw (e, named k b e) (h.0, AllAfter-collect a ks h.1)
    ]

    pub IsAscending-collect : (ks : List K) → IsAscending ks → IsAscending (map name (collect f ks))
    IsAscending-collect [] h = tt
    IsAscending-collect (k ∷ ks) h = elim (Option-cases (f k)) [
      | inl e ↦ rw e (IsAscending-collect ks h.1)
      | inr (b, e) ↦ rw (e, named k b e) (AllAfter-collect k ks h.0, IsAscending-collect ks h.1)
    ]

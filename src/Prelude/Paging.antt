-- ===== src/Prelude/Paging.antt =====
-- Tables read in pages: the rows after an id, in the order of their ids.
use mathlib.Core.Path.{◌≡◌, refl, ap}
use mathlib.Core.Logic.{inl, inr}
use mathlib.Core.Option.{none, some}
use mathlib.Core.List.{List, [], ◌∷◌, ◌++◌}
use Prim.Native.Nat.{ℕ, zero, suc, ◌+◌, ◌≤◌, ◌<◌}
use native.Mathlib.Omega.{arith}
use fpl_data_relay.Prelude.Tests.{ltb, Bool-cases}
use fpl_data_relay.Prelude.Lists.{length, take, filter, last?}

module _ {A : Type 0} (id : A → ℕ) where
  -- `page[-1].id`; a full page is not empty.
  abbrev pub last_id : List A → ℕ
  last_id page = elim (last? page) [ none ↦ 0 | some f ↦ id f ]

  -- Ids ascend, above a bound.
  abbrev pub AscendAbove : ℕ → List A → Type 0
  AscendAbove a [] = Unit
  AscendAbove a (f ∷ fs) = (a < id f) × AscendAbove (id f) fs

  abbrev pub drop : ℕ → List A → List A
  drop zero xs = xs
  drop (suc n) [] = []
  drop (suc n) (x ∷ xs) = drop n xs

  abbrev pub after : ℕ → List A → List A
  after a fs = filter (λ f. ltb a (id f)) fs

  pub after_all : (a b : ℕ) (fs : List A) → a ≤ b → AscendAbove b fs → after a fs ≡ fs
  after_all a b [] le h = refl
  after_all a b (f ∷ fs) le h = ground (arith, after_all a (id f) fs (omega arith), h.0)

  pub take-drop : (n : ℕ) (fs : List A) → take n fs ++ drop n fs ≡ fs
  take-drop zero fs = refl
  take-drop (suc n) [] = refl
  take-drop (suc n) (f ∷ fs) = ap (λ r. f ∷ r) (take-drop n fs)

  pub length-drop : (n : ℕ) (fs : List A) → length (take n fs) + length (drop n fs) ≡ length fs
  length-drop zero fs = omega arith
  length-drop (suc n) [] = omega arith
  length-drop (suc n) (f ∷ fs) = omega (arith, length-drop n fs)

  pub after-AscendAbove : (a b : ℕ) (fs : List A) → AscendAbove b fs → AscendAbove a (after a fs)
  after-AscendAbove a b [] h = tt
  after-AscendAbove a b (f ∷ fs) h = elim (Bool-cases (ltb a (id f))) [
    | inl above ↦
        rw above
          (rw (after_all a (id f) fs (ground (arith, above)) h.1) (ground (arith, above), h.1))
    | inr below ↦ rw below (after-AscendAbove a (id f) fs h.1)
  ]

  pub after-after : (a b : ℕ) (fs : List A) → a ≤ b → after b (after a fs) ≡ after b fs
  after-after a b [] le = refl
  after-after a b (f ∷ fs) le = ground (arith, after-after a b fs le)

  pub take_all : (n : ℕ) (fs : List A) → length (take n fs) < n → take n fs ≡ fs
  take_all zero fs h = ground arith
  take_all (suc n) [] h = refl
  take_all (suc n) (f ∷ fs) h = ap (λ r. f ∷ r) (take_all n fs (omega arith))

  -- After a full page, its last id leaves what the page has not read.
  pub last_of_full :
      (n a : ℕ) (fs : List A)
      → AscendAbove a fs
      → n < length (take (suc n) fs)
      → (a < last_id (take (suc n) fs)) × (after (last_id (take (suc n) fs)) fs ≡ drop (suc n) fs)
  last_of_full n a [] h full = ground arith
  last_of_full zero a (f ∷ fs) h full =
      (h.0, ground (arith, after_all (id f) (id f) fs (omega arith) h.1))
  last_of_full (suc n) a (f ∷ []) h full = ground arith
  last_of_full (suc n) a (f ∷ g ∷ gs) h full =
      let (above, rest) = last_of_full n (id f) (g ∷ gs) h.1 (omega arith) in
      (omega arith, ground (arith, rest, above))

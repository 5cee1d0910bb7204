-- ===== src/Prelude/Sorting.antt =====
-- Python's stable sort by a key, and the orders that its keys give.
use mathlib.Core.Path.{◌≡◌, refl}
use mathlib.Core.Logic.{inl, inr}
use mathlib.Core.Bool.{Bool, true, false, ◌||◌}
use mathlib.Core.List.{List, [], ◌∷◌, Perm}
use mathlib.Core.List.Perm
use native.Mathlib.Omega.{arith}
use fpl_data_relay.Prelude.Tests.{if◌then◌else◌, Bool-cases}
use fpl_data_relay.Prelude.Keys.{Key, ◌=?◌}
use fpl_data_relay.Prelude.Lists.{All, Pairwise, any}

module _ {A : Type 0} (before : A → A → Bool) where
  insert_by : A → List A → List A
  insert_by x [] = x ∷ []
  insert_by x (y ∷ ys) = if before y x then y ∷ insert_by x ys else x ∷ y ∷ ys

  -- Equal elements keep their order.
  unfoldable pub sort_by : List A → List A
  unfolding insert_by
  sort_by [] = []
  sort_by (x ∷ xs) = insert_by x (sort_by xs)

  -- A strict weak order.
  pub record IsOrder : Type 0 where
    pub asym : (a b : A) → before a b ≡ true → before b a ≡ false
    pub not_trans : (a b c : A) → before a b ≡ false → before b c ≡ false → before a c ≡ false

  -- Nothing stands before what it precedes.
  abbrev pub IsSorted : List A → Type 0
  IsSorted [] = Unit
  IsSorted (x ∷ xs) = All (λ y. before y x ≡ false) xs × IsSorted xs

  insert_by-perm : (x : A) (ys : List A) → Perm (insert_by x ys) (x ∷ ys)
  unfolding insert_by
  insert_by-perm x [] = Perm.refl (x ∷ [])
  insert_by-perm x (y ∷ ys) = elim (Bool-cases (before y x)) [
    | inl e ↦ rw e (Perm.trans (Perm.cons y (insert_by-perm x ys)) (Perm.swap x y ys))
    | inr e ↦ rw e (Perm.refl (x ∷ y ∷ ys))
  ]

  pub sort_by-perm : (xs : List A) → Perm (sort_by xs) xs
  unfolding sort_by
  sort_by-perm [] = Perm.refl []
  sort_by-perm (x ∷ xs) = Perm.trans (insert_by-perm x (sort_by xs)) (Perm.cons x (sort_by-perm xs))

  All-insert_by : (P : A → Type 0) (x : A) (ys : List A) → P x → All P ys → All P (insert_by x ys)
  unfolding insert_by
  All-insert_by P x [] p q = (p, tt)
  All-insert_by P x (y ∷ ys) p q = elim (Bool-cases (before y x)) [
    | inl e ↦ rw e (q.0, All-insert_by P x ys p q.1)
    | inr e ↦ rw e (p, q)
  ]

  pub All-sort_by : (P : A → Type 0) (xs : List A) → All P xs → All P (sort_by xs)
  unfolding sort_by
  All-sort_by P [] p = tt
  All-sort_by P (x ∷ xs) p = All-insert_by P x (sort_by xs) p.0 (All-sort_by P xs p.1)

  any-insert_by :
      (test : A → Bool) (x : A) (ys : List A) → any test (insert_by x ys) ≡ (test x || any test ys)
  unfolding insert_by
  any-insert_by test x [] = refl
  any-insert_by test x (y ∷ ys) = ground (arith, any-insert_by test x ys)

  pub any-sort_by : (test : A → Bool) (xs : List A) → any test (sort_by xs) ≡ any test xs
  unfolding sort_by
  any-sort_by test [] = refl
  any-sort_by test (x ∷ xs) = ground (arith, any-insert_by test x (sort_by xs), any-sort_by test xs)

  insert_by-Pairwise :
      (R : A → A → Type 0) (swap : (a b : A) → R a b → R b a) (x : A) (ys : List A)
      → All (R x) ys
      → Pairwise R ys
      → Pairwise R (insert_by x ys)
  unfolding insert_by
  insert_by-Pairwise R swap x [] p q = (tt, tt)
  insert_by-Pairwise R swap x (y ∷ ys) p q = elim (Bool-cases (before y x)) [
    | inl e ↦
        rw e (All-insert_by (R y) x ys (swap x y p.0) q.0, insert_by-Pairwise R swap x ys p.1 q.1)
    | inr e ↦ rw e (p, q)
  ]

  -- What holds between any two elements holds after sorting.
  pub sort_by-Pairwise :
      (R : A → A → Type 0) (swap : (a b : A) → R a b → R b a) (xs : List A)
      → Pairwise R xs
      → Pairwise R (sort_by xs)
  unfolding sort_by
  sort_by-Pairwise R swap [] p = tt
  sort_by-Pairwise R swap (x ∷ xs) p =
      insert_by-Pairwise R swap x (sort_by xs) (All-sort_by (R x) xs p.0)
        (sort_by-Pairwise R swap xs p.1)

  module _ (order : IsOrder) where
    All-not_trans :
        (x y : A) (ys : List A)
        → before y x ≡ false
        → All (λ z. before z y ≡ false) ys
        → All (λ z. before z x ≡ false) ys
    All-not_trans x y [] h a = tt
    All-not_trans x y (z ∷ ys) h a = (order.not_trans z y x a.0 h, All-not_trans x y ys h a.1)

    insert_by-IsSorted : (x : A) (ys : List A) → IsSorted ys → IsSorted (insert_by x ys)
    unfolding insert_by
    insert_by-IsSorted x [] s = (tt, tt)
    insert_by-IsSorted x (y ∷ ys) s = elim (Bool-cases (before y x)) [
      | inl e ↦ rw e (
        All-insert_by (λ z. before z y ≡ false) x ys (order.asym y x e) s.0,
        insert_by-IsSorted x ys s.1,
      )
      | inr e ↦ rw e ((e, All-not_trans x y ys e s.0), s)
    ]

    pub sort_by-IsSorted : (xs : List A) → IsSorted (sort_by xs)
    unfolding sort_by
    sort_by-IsSorted [] = tt
    sort_by-IsSorted (x ∷ xs) = insert_by-IsSorted x (sort_by xs) (sort_by-IsSorted xs)

module _ {K : Type 0} ⦃key : Key K⦄ where
  pub before_asym : (a b : K) → key.before a b ≡ true → key.before b a ≡ false
  before_asym a b h = ground (arith, key.before_trans a b a, key.before_irrefl a)

  -- Where neither of two pairs is before, the outer one is not, or all three are one key.
  pub not_before_trans :
      (a b c : K) → key.before a b ≡ false → key.before b c ≡ false → key.before a c ≡ false
  not_before_trans a b c p q = ground (
    arith,
    key.beq_iff a b,
    key.beq_iff b c,
    key.before_total a b,
    key.before_total b c,
    key.before_trans c b a,
    before_asym c a,
    before_asym a c,
  )

  not_before_eq :
      (a b c : K) → key.before a b ≡ false → key.before b c ≡ false → a ≡ c → (a ≡ b) × (b ≡ c)
  not_before_eq a b c p q e = ground (arith, key.beq_iff a b, key.before_total a b)

-- The order of tuples `(f(x), ...)` and `(-f(x), ...)`, where `rest` orders what follows.
module _ {A K : Type 0} ⦃key : Key K⦄ (f : A → K) (rest : A → A → Bool) where
  abbrev pub by_key : A → A → Bool
  by_key x y = if f x =? f y then rest x y else key.before (f x) (f y)

  abbrev pub by_key_desc : A → A → Bool
  by_key_desc x y = if f x =? f y then rest x y else key.before (f y) (f x)

  pub by_key-IsOrder : IsOrder rest → IsOrder by_key
  by_key-IsOrder o = record {
    asym = λ x y h. ground (
      arith,
      key.beq_iff (f x) (f y),
      key.beq_iff (f y) (f x),
      before_asym (f x) (f y),
      o.asym x y,
    );
    not_trans = λ x y z p q. ground (
      arith,
      key.beq_iff (f x) (f y),
      key.beq_iff (f y) (f z),
      key.beq_iff (f x) (f z),
      key.before_irrefl (f x),
      key.before_irrefl (f y),
      not_before_trans (f x) (f y) (f z),
      not_before_eq (f x) (f y) (f z),
      o.not_trans x y z,
    );
  }

  pub by_key_desc-IsOrder : IsOrder rest → IsOrder by_key_desc
  by_key_desc-IsOrder o = record {
    asym = λ x y h. ground (
      arith,
      key.beq_iff (f x) (f y),
      key.beq_iff (f y) (f x),
      before_asym (f y) (f x),
      o.asym x y,
    );
    not_trans = λ x y z p q. ground (
      arith,
      key.beq_iff (f x) (f y),
      key.beq_iff (f y) (f z),
      key.beq_iff (f x) (f z),
      key.before_irrefl (f x),
      key.before_irrefl (f y),
      not_before_trans (f z) (f y) (f x),
      not_before_eq (f z) (f y) (f x),
      o.not_trans x y z,
    );
  }

-- The order that tells nothing apart, which ends a tuple.
abbrev pub by_nothing : {A : Type 0} → A → A → Bool
by_nothing x y = false

pub by_nothing-IsOrder : {A : Type 0} → IsOrder {A = A} by_nothing
by_nothing-IsOrder = record { asym = λ x y h. refl; not_trans = λ x y z p q. refl }

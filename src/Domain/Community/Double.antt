-- ===== src/Domain/Community/Double.antt =====
-- Python's finite floats, with 0.0 and -0.0 as one value, behind the operations that the ranking
-- of stories uses, and what IEEE 754 arithmetic with correct rounding says of them.
use fpl_data_relay.Prelude.{ℕ, ◌+◌, ◌*◌, ◌^◌, ◌≤◌, ◌<◌, ◌≡◌, Bool, false, List, [], ◌∷◌, Key}
use fpl_data_relay.Domain.Time.{Datetime}

pub record Double (W : Type 0) : Type 0 where
  pub order : Key W
  -- An integer where a float is wanted, and a decimal literal of so many places.
  pub of_int : ℕ → W
  pub literal : ℕ → ℕ → W
  -- `n * x`, `x / n`, `x / y`
  pub times : ℕ → W → W
  pub over : W → ℕ → W
  pub divide : W → W → W
  -- `sum(xs)`, which compensates the roundings, and `round(x, 4)`
  pub sum : List W → W
  pub round4 : W → W
  -- `abs(x - y) > 0.0001`
  pub differ : W → W → Bool
  -- `(a - b).total_seconds()` and `a.timestamp()`
  pub seconds_between : Datetime → Datetime → W
  pub timestamp : Datetime → W

abbrev pub equal : {W : Type 0} ⦃d : Double W⦄ → W → W → Bool
equal ⦃d⦄ = d.order.beq

abbrev pub less : {W : Type 0} ⦃d : Double W⦄ → W → W → Bool
less ⦃d⦄ = d.order.before

infix 4 ◌≼◌
abbrev pub ◌≼◌ : {W : Type 0} ⦃d : Double W⦄ → W → W → Type 0
◌≼◌ x y = less y x ≡ false

-- `0 <= x <= cap`
abbrev pub Within : {W : Type 0} ⦃d : Double W⦄ → W → ℕ → Type 0
Within ⦃d⦄ x cap = (d.of_int 0 ≼ x) × (x ≼ d.of_int cap)

-- Each value has its own cap.
abbrev pub Capped : {W : Type 0} ⦃d : Double W⦄ → List W → List ℕ → Type 0
Capped ⦃d⦄ [] caps = Unit
Capped ⦃d⦄ (x ∷ xs) [] = ⊥
Capped ⦃d⦄ (x ∷ xs) (c ∷ cs) = Within x c × Capped xs cs

abbrev pub total : List ℕ → ℕ
total [] = 0
total (c ∷ cs) = c + total cs

-- 2 ^ 25: integers and sums up to there keep clear of every rounding of an integer.
abbrev pub exact_limit : ℕ
exact_limit = 33_554_432

pub record IsRounded (W : Type 0) ⦃d : Double W⦄ : Type 0 where
  pub of_int_le : (m n : ℕ) → m ≤ n → n ≤ exact_limit → d.of_int m ≼ d.of_int n
  pub literal_le : (m k : ℕ) → m ≤ 10 ^ k → Within (d.literal m k) 1
  pub times_le : (n : ℕ) (x y : W) → x ≼ y → d.times n x ≼ d.times n y
  pub times_exact : (m n : ℕ) → m * n ≤ exact_limit → d.times m (d.of_int n) ≡ d.of_int (m * n)
  pub over_le : (n : ℕ) (x y : W) → 0 < n → x ≼ y → d.over x n ≼ d.over y n
  pub over_exact :
      (m n : ℕ) → 0 < n → m * n ≤ exact_limit → d.over (d.of_int (m * n)) n ≡ d.of_int m
  pub sum_bounds :
      (xs : List W) (caps : List ℕ)
      → Capped xs caps
      → total caps ≤ exact_limit
      → Within (d.sum xs) (total caps)
  pub round4_le : (x y : W) → x ≼ y → d.round4 x ≼ d.round4 y
  pub round4_exact : (n : ℕ) → n ≤ exact_limit → d.round4 (d.of_int n) ≡ d.of_int n
  pub round4_near : (x : W) → Within x 100 → d.differ x (d.round4 x) ≡ false
  -- A microsecond is not rounded to nothing.
  pub seconds_apart :
      (a b : Datetime) → a.moment < b.moment → equal (d.seconds_between b a) (d.of_int 0) ≡ false

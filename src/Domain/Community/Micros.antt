-- ===== src/Domain/Community/Micros.antt =====
-- Whole millionths: numbers that meet the laws of `Double`, on which the model runs in the tests.
use native.Mathlib.Nat.{
  mul-le-mul, le_refl, mul-div_cancel, le-div_iff_mul-le, div-le_of_le-mul, div-mul-le_self,
}
use fpl_data_relay.Prelude.{
  ℕ, ◌+◌, ◌-◌, ◌*◌, ◌/◌, ◌^◌, ◌≤◌, ◌<◌, ◌≡◌, refl, ap, ◌∙◌, arith, false, ◌||◌, List, [], ◌∷◌, ltb,
  nat_key,
}
use fpl_data_relay.Domain.Community.Double.{Double, IsRounded, Capped, total}

abbrev unit : ℕ
unit = 1_000_000

abbrev sum_of : List ℕ → ℕ
sum_of [] = 0
sum_of (x ∷ xs) = x + sum_of xs

instance abbrev pub micros : Double ℕ
micros = record {
  order = nat_key;
  of_int = λ n. n * unit;
  literal = λ m k. m * unit / 10 ^ k;
  times = λ n x. n * x;
  over = λ x n. x / n;
  divide = λ x y. x * unit / y;
  sum = sum_of;
  round4 = λ x. x;
  differ = λ x y. ltb (y + 100) x || ltb (x + 100) y;
  seconds_between = λ a b. a.moment - b.moment;
  timestamp = λ a. a.moment;
}

div_mono : (n x y : ℕ) → 0 < n → x ≤ y → x / n ≤ y / n
div_mono n x y h le = (le-div_iff_mul-le h).1 (omega (arith, div-mul-le_self x n, le))

sum_of-le : (xs caps : List ℕ) → Capped xs caps → sum_of xs ≤ total caps * unit
sum_of-le [] caps h = omega arith
sum_of-le (x ∷ xs) [] h = absurd h
sum_of-le (x ∷ xs) (c ∷ cs) (h, hs) = let r = sum_of-le xs cs hs in ground arith

to_le : (a b : ℕ) → ltb b a ≡ false → a ≤ b
to_le a b h = ground arith

of_le : (a b : ℕ) → a ≤ b → ltb b a ≡ false
of_le a b h = ground arith

literal_small : (m k : ℕ) → m ≤ 10 ^ k → m * unit / 10 ^ k ≤ unit
literal_small m k h = div-le_of_le-mul (10 ^ k) (omega (arith, h))

times_mono : (n x y : ℕ) → x ≤ y → n * x ≤ n * y
times_mono n x y h = mul-le-mul (le_refl n) h

over_scaled : (m n : ℕ) → 0 < n → m * n * unit / n ≡ m * unit
over_scaled m n h = ap (λ k. k / n) (grind arith) ∙ mul-div_cancel (m * unit) h

pub micros-IsRounded : IsRounded ℕ
micros-IsRounded = record {
  of_int_le = λ m n h small. ground arith;
  literal_le = λ m k h. (ground arith, of_le (m * unit / 10 ^ k) (1 * unit) (literal_small m k h));
  times_le = λ n x y h. of_le (n * x) (n * y) (times_mono n x y (to_le x y h));
  times_exact = λ m n small. ground arith;
  over_le = λ n x y h le. of_le (x / n) (y / n) (div_mono n x y h (to_le x y le));
  over_exact = λ m n h small. over_scaled m n h;
  sum_bounds = λ xs caps h small.
      (ground arith, of_le (sum_of xs) (total caps * unit) (sum_of-le xs caps h));
  round4_le = λ x y h. h;
  round4_exact = λ n small. refl;
  round4_near = λ x h. ground arith;
  seconds_apart = λ a b h. ground arith;
}

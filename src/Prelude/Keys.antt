-- ===== src/Prelude/Keys.antt =====
-- The keys of the program's dicts and sets: a decidable equality and a strict total order, for
-- texts (Python compares them by code points) and for numbers.
use Prim.Native.Nat.{ℕ, compare, Ordering}
use Prim.Native.Char.{code}
use Prim.Native.String.{String}
use mathlib.Core.Path.{◌≡◌, refl}
use mathlib.Core.Logic.{◌↔◌, ◌⊎◌, inl, inr}
use mathlib.Core.Bool.{Bool, true, false}
use native.Mathlib.Omega.{arith}
use text.Mathlib.Text.{◌==◌ as str_eq}
use text.Mathlib.TextEquality.{eq_iff, codes_equal}
use fpl_data_relay.Prelude.Tests.{ltb, ◌==◌ as nat_beq, ==_iff}

pub record Key {ℓ} (K : Type ℓ) : Type ℓ where
  pub beq : K → K → Bool
  pub beq_iff : (a b : K) → (beq a b ≡ true) ↔ (a ≡ b)
  pub before : K → K → Bool
  pub before_irrefl : (a : K) → before a a ≡ false
  pub before_trans : (a b c : K) → before a b ≡ true → before b c ≡ true → before a c ≡ true
  pub before_total : (a b : K) → beq a b ≡ false → before a b ≡ false → before b a ≡ true

infix 50 ◌=?◌
abbrev pub ◌=?◌ {ℓ} : {K : Type ℓ} ⦃key : Key K⦄ → K → K → Bool
◌=?◌ ⦃key⦄ = key.beq

unfoldable pub str_before : String → String → Bool
str_before String.[] String.[] = false
str_before String.[] (String.◌∷◌ d t) = true
str_before (String.◌∷◌ c s) String.[] = false
str_before (String.◌∷◌ c s) (String.◌∷◌ d t) = elim (compare (code c) (code d)) [
  | Ordering.lt ↦ true
  | Ordering.gt ↦ false
  | Ordering.eq ↦ str_before s t
]

pub str_before_irrefl : (s : String) → str_before s s ≡ false
unfolding str_before
str_before_irrefl String.[] = refl
str_before_irrefl (String.◌∷◌ c s) = ground (arith, str_before_irrefl s)

pub str_before_trans :
    (s t u : String) → str_before s t ≡ true → str_before t u ≡ true → str_before s u ≡ true
unfolding str_before
str_before_trans String.[] String.[] u p q = ground arith
str_before_trans String.[] (String.◌∷◌ d t) String.[] p q = ground arith
str_before_trans String.[] (String.◌∷◌ d t) (String.◌∷◌ e u) p q = refl
str_before_trans (String.◌∷◌ c s) String.[] u p q = cc
str_before_trans (String.◌∷◌ c s) (String.◌∷◌ d t) String.[] p q = cc
str_before_trans (String.◌∷◌ c s) (String.◌∷◌ d t) (String.◌∷◌ e u) p q =
    ground (arith, str_before_trans s t u)

str_connected : (s t : String) → str_before s t ≡ false → (s ≡ t) ⊎ (str_before t s ≡ true)
unfolding str_before
str_connected String.[] String.[] h = inl refl
str_connected String.[] (String.◌∷◌ d t) h = cc
str_connected (String.◌∷◌ c s) String.[] h = inr refl
str_connected (String.◌∷◌ c s) (String.◌∷◌ d t) h =
    ground (arith, codes_equal c d, str_connected s t)

pub str_before_total :
    (s t : String) → str_eq s t ≡ false → str_before s t ≡ false → str_before t s ≡ true
str_before_total s t d h = ground (arith, eq_iff s t, str_connected s t h)

instance abbrev pub string_key : Key String
string_key = record {
  beq = str_eq;
  beq_iff = eq_iff;
  before = str_before;
  before_irrefl = str_before_irrefl;
  before_trans = str_before_trans;
  before_total = str_before_total;
}

pub nat_before_irrefl : (a : ℕ) → ltb a a ≡ false
nat_before_irrefl a = ground arith

pub nat_before_trans : (a b c : ℕ) → ltb a b ≡ true → ltb b c ≡ true → ltb a c ≡ true
nat_before_trans a b c p q = ground arith

pub nat_before_total : (a b : ℕ) → nat_beq a b ≡ false → ltb a b ≡ false → ltb b a ≡ true
nat_before_total a b p q = ground arith

instance abbrev pub nat_key : Key ℕ
nat_key = record {
  beq = nat_beq;
  beq_iff = ==_iff;
  before = ltb;
  before_irrefl = nat_before_irrefl;
  before_trans = nat_before_trans;
  before_total = nat_before_total;
}

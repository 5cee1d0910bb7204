-- ===== src/Domain/Json.antt =====
-- `JsonValue` of domain/types.py with Python's `==`: numbers compare by value across bool, int and
-- float, and dicts compare without regard to order.
use fpl_data_relay.Prelude.{
  ℕ, suc, ◌*◌, ◌^◌, String, Bool, true, false, ◌&&◌, Option, none, some, ◌==◌, ◌=?◌, string_key,
  if◌then◌else◌, ◌≡◌, refl,
}

pub data ℤ : Type 0 where
  pos : ℕ → ℤ
  negsuc : ℕ → ℤ

abbrev pub pos_part : ℤ → ℕ
pos_part (pos n) = n
pos_part (negsuc n) = 0

abbrev pub neg_part : ℤ → ℕ
neg_part (pos n) = 0
neg_part (negsuc n) = suc n

mutual
  pub data Json : Type 0 where
    null : Json
    bool : Bool → Json
    int : ℤ → Json
    -- A finite binary float, mantissa / 2 ^ scale.
    float : (mantissa : ℤ) (scale : ℕ) → Json
    str : String → Json
    arr : Items → Json
    obj : Fields → Json

  pub data Items : Type 0 where
    nil : Items
    cons : Json → Items → Items

  pub data Fields : Type 0 where
    end : Fields
    field : String → Json → Fields → Fields

num_eq : (a : ℤ) (k : ℕ) (b : ℤ) (l : ℕ) → Bool
num_eq a k b l =
    pos_part a * 2 ^ l == pos_part b * 2 ^ k && neg_part a * 2 ^ l == neg_part b * 2 ^ k

-- A bool is the int 0 or 1.
abbrev truth : Bool → ℤ
truth true = pos 1
truth false = pos 0

equals_num : (a : ℤ) (k : ℕ) → Json → Bool
unfolding num_eq
equals_num a k (bool b) = num_eq a k (truth b) 0
equals_num a k (int b) = num_eq a k b 0
equals_num a k (float b l) = num_eq a k b l
equals_num a k _ = false

abbrev pub find_field : String → Fields → Option Json
find_field k end = none
find_field k (field j v fs) = if j =? k then some v else find_field k fs

abbrev size : Fields → ℕ
size end = 0
size (field k v fs) = suc (size fs)

abbrev is_null : Json → Bool
is_null null = true
is_null _ = false

abbrev is_str : String → Json → Bool
is_str s (str t) = s =? t
is_str s _ = false

unfoldable mutual
  unfolding equals_num

  -- `a == b`
  pub py_eq : Json → Json → Bool
  py_eq null b = is_null b
  py_eq (bool x) b = equals_num (truth x) 0 b
  py_eq (int x) b = equals_num x 0 b
  py_eq (float x k) b = equals_num x k b
  py_eq (str s) b = is_str s b
  py_eq (arr xs) b = elim b [ arr ys ↦ eq_items xs ys | _ ↦ false ]
  py_eq (obj fs) b = elim b [ obj gs ↦ size fs == size gs && eq_fields fs gs | _ ↦ false ]

  pub eq_items : Items → Items → Bool
  eq_items nil ys = elim ys [ nil ↦ true | cons y r ↦ false ]
  eq_items (cons x xs) ys = elim ys [ nil ↦ false | cons y r ↦ py_eq x y && eq_items xs r ]

  pub eq_fields : Fields → Fields → Bool
  eq_fields end gs = true
  eq_fields (field k v fs) gs = elim (find_field k gs) [
    | none ↦ false
    | some w ↦ py_eq v w && eq_fields fs gs
  ]

numbers_equal : py_eq (bool true) (float (pos 2) 1) ≡ true
unfolding py_eq
numbers_equal = refl

dicts_unordered :
    py_eq
      (obj (field "a" null (field "b" (int (pos 1)) end)))
      (obj (field "b" (int (pos 1)) (field "a" null end)))
    ≡ true
unfolding py_eq
dicts_unordered = refl

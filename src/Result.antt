-- ===== src/Result.antt =====
-- Python's exceptions as values. An `Error` names the exception class and the fixed part of its
-- message; the parts that the source interpolates are left out.
use fpl_data_relay.Prelude.{◌≡◌, refl, Bool, true, false, String}

pub data Error : Type 0 where
  value_error runtime_error type_error timeout_error key_error zero_division_error : String → Error
  -- CommunityModelError, CommunityPublicationError and CommunitySourceError.
  community_model_error community_publication_error : String → Error
  community_source_error : (code : String) (fatal : Bool) → Error
  -- IngestionLockError and DatabaseWakingError, which callers catch by class.
  ingestion_lock_error database_waking_error : Error

pub data Result {ℓ} (A : Type ℓ) : Type ℓ where
  err : Error → Result A
  ok : A → Result A

-- `if test: raise e`
abbrev pub raise_if : Bool → Error → Result (Unit {0})
raise_if false e = ok tt
raise_if true e = err e

module _ {ℓ} {A : Type ℓ} where
  abbrev pub is_ok : Result A → Bool
  is_ok (err e) = false
  is_ok (ok a) = true

  pub is_ok-ok : (r : Result A) → is_ok r ≡ true → (a : A) × (r ≡ ok a)
  is_ok-ok (err e) h = cc
  is_ok-ok (ok a) h = (a, refl)

module _ {ℓ κ} {A : Type ℓ} {B : Type κ} where
  infixl 5 ◌>>=◌
  abbrev pub ◌>>=◌ : Result A → (A → Result B) → Result B
  err e >>= rest = err e
  ok a >>= rest = rest a

  -- Where a chain returns, its first step has returned.
  pub >>=-inv :
      (first : Result A) (rest : A → Result B) {b : B}
      → (first >>= rest) ≡ ok b
      → (a : A) × (first ≡ ok a) × (rest a ≡ ok b)
  >>=-inv (err e) rest h = cc
  >>=-inv (ok a) rest h = (a, refl, h)

infixl 5 ◌>>◌
abbrev pub ◌>>◌ {κ} : {B : Type κ} → Result (Unit {0}) → Result B → Result B
check >> rest = check >>= λ _. rest

-- A chain that returns has passed its checks.
pub raise_if-inv {κ} :
    {B : Type κ} (test : Bool) (e : Error) (rest : Result B) (b : B)
    → (raise_if test e >>= λ _. rest) ≡ ok b
    → (test ≡ false) × (rest ≡ ok b)
raise_if-inv true e rest b h = cc
raise_if-inv false e rest b h = (refl, h)

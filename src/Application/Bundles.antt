-- ===== src/Application/Bundles.antt =====
-- application/bundles.py: the payload bundles and the messages that point at them.
use Prim.Native.Char.{code}
use Prim.Native.String
use fpl_data_relay.Prelude.{
  ℕ, zero, suc, ◌*◌, String, Bool, true, false, not, ◌&&◌, ◌||◌, List, [], ◌∷◌, ◌==◌, ltb, leb, ◌≡◌,
  Bool-cases, inl, inr, arith,
}
use fpl_data_relay.Result.{Result, ok, value_error, raise_if, ◌>>◌}
use fpl_data_relay.Domain.Json.{Json}
use fpl_data_relay.Domain.Time.{Datetime, is_aware}
use fpl_data_relay.Application.Jobs.{LiveJob, IngestionJob, reference, live}

abbrev pub max_collected_payload_bytes : ℕ
max_collected_payload_bytes = 20 * 1024 * 1024

pub record ReferencePayloadBundle : Type 0 where
  pub fetched_at : Datetime
  pub bootstrap_static : Json
  pub fixtures : Json
  pub event_status : Json

pub record LivePayloadBundle : Type 0 where
  pub fetched_at : Datetime
  pub job : LiveJob
  pub event_status : Json
  pub current_fixtures : Json
  pub event_live : Json

-- `ReferencePayloadBundle | LivePayloadBundle`; the version is the constant 2, and the job of a
-- reference bundle has no further field.
pub data PayloadBundle : Type 0 where
  of_reference : ReferencePayloadBundle → PayloadBundle
  of_live : LivePayloadBundle → PayloadBundle

abbrev pub bundle_job : PayloadBundle → IngestionJob
bundle_job (of_reference b) = reference
bundle_job (of_live b) = live b.job

abbrev pub bundle_fetched_at : PayloadBundle → Datetime
bundle_fetched_at (of_reference b) = b.fetched_at
bundle_fetched_at (of_live b) = b.fetched_at

-- The validator of `CollectedBundle`.
unfoldable pub fetched_at_must_be_timezone_aware : PayloadBundle → Result PayloadBundle
fetched_at_must_be_timezone_aware b = do
  raise_if (not (is_aware (bundle_fetched_at b))) (value_error "fetched_at must be timezone-aware.")
  ok b

pub fetched_at_aware :
    (b c : PayloadBundle)
    → fetched_at_must_be_timezone_aware b ≡ ok c
    → (b ≡ c) × (is_aware (bundle_fetched_at b) ≡ true)
unfolding fetched_at_must_be_timezone_aware
fetched_at_aware b c h = elim (Bool-cases (is_aware (bundle_fetched_at b))) [
  | inl aware ↦ (ground (arith, aware), aware)
  | inr naive ↦ ground (arith, naive)
]

pub record CollectedPayloadMessage : Type 0 where
  pub job : IngestionJob
  pub bucket : String
  pub key : String
  pub size_bytes : ℕ
  pub sha256 : String

-- A pattern without alternatives or repetition: one test for each character.
abbrev pub Pattern : Type 0
Pattern = List (ℕ → Bool)

-- `re.fullmatch`
unfoldable pub matches : Pattern → String → Bool
matches [] String.[] = true
matches [] (String.◌∷◌ c s) = false
matches (test ∷ p) String.[] = false
matches (test ∷ p) (String.◌∷◌ c s) = test (code c) && matches p s

abbrev pub repeated : ℕ → (ℕ → Bool) → Pattern → Pattern
repeated zero test rest = rest
repeated (suc n) test rest = test ∷ repeated n test rest

-- `re.escape(text)`
abbrev pub literal : String → Pattern → Pattern
literal String.[] rest = rest
literal (String.◌∷◌ c s) rest = (λ d. d == code c) ∷ literal s rest

-- `[0-9a-f]`
abbrev pub is_hex : ℕ → Bool
is_hex c = leb b'0' c && leb c b'9' || leb b'a' c && leb c b'f'

-- The constraints on the fields of `CollectedPayloadMessage`.
unfoldable pub validate_message : CollectedPayloadMessage → Result CollectedPayloadMessage
unfolding matches
validate_message m = do
  raise_if (ltb (String.count m.bucket) 3) (value_error "String should have at least 3 characters")
  raise_if (ltb (String.count m.key) 1) (value_error "String should have at least 1 character")
  raise_if (not (ltb 0 m.size_bytes)) (value_error "Input should be greater than 0")
  raise_if (ltb max_collected_payload_bytes m.size_bytes)
      (value_error "Input should be less than or equal to 20971520")
  raise_if (not (matches (repeated 64 is_hex []) m.sha256))
      (value_error "String should match pattern '^[0-9a-f]{64}$'")
  ok m

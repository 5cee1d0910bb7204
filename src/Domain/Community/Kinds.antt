-- ===== src/Domain/Community/Kinds.antt =====
-- domain/community.py: the enums, the unions' tags, and the tests of texts and numbers that the
-- field constraints use. Python's Unicode tables are the parameters of `Text`.
use Prim.Native.String
use Prim.Native.Char.{code}
use fpl_data_relay.Prelude.{
  ℕ, String, Bool, true, false, not, ◌&&◌, ◌||◌, ◌≡◌, ◌↔◌, arith, ltb, leb, ◌==◌,
}
use fpl_data_relay.Result.{value_error, Result, raise_if}
use fpl_data_relay.Domain.Json.{ℤ, pos_part}

pub data SourceType : Type 0 where
  x youtube blog : SourceType

pub data TopicCategory : Type 0 where
  transfer_in transfer_out hold sell captaincy injury fixture chip team other : TopicCategory

pub data Actionability : Type 0 where
  low medium high : Actionability

pub data EntityType : Type 0 where
  player team event fixture : EntityType

pub data EntityConfidence : Type 0 where
  low medium high : EntityConfidence

-- `a is b` on the members of an enum
abbrev pub same_type : SourceType → SourceType → Bool
same_type SourceType.x SourceType.x = true
same_type SourceType.youtube SourceType.youtube = true
same_type SourceType.blog SourceType.blog = true
same_type _ _ = false

pub same_type_iff : (a b : SourceType) → (same_type a b ≡ true) ↔ (a ≡ b)
same_type_iff SourceType.x b = ground arith
same_type_iff SourceType.youtube b = ground arith
same_type_iff SourceType.blog b = ground arith

abbrev pub same_entity_type : EntityType → EntityType → Bool
same_entity_type EntityType.player EntityType.player = true
same_entity_type EntityType.team EntityType.team = true
same_entity_type EntityType.event EntityType.event = true
same_entity_type EntityType.fixture EntityType.fixture = true
same_entity_type _ _ = false

abbrev pub is_high : EntityConfidence → Bool
is_high EntityConfidence.high = true
is_high _ = false

-- A finite float, mantissa / 2 ^ scale, and `Field(gt=0)` of it.
abbrev pub Number : Type 0
Number = ℤ × ℕ

abbrev pub above_zero : Number → Bool
above_zero (mantissa, scale) = ltb 0 (pos_part mantissa)

-- `Field(min_length=1)`
abbrev pub given : String → Bool
given s = leb 1 (String.count s)

unfoldable pub every_code : (ℕ → Bool) → String → Bool
every_code test String.[] = true
every_code test (String.◌∷◌ c s) = test (code c) && every_code test s

abbrev pub between : ℕ → ℕ → ℕ → Bool
between least most n = leb least n && leb n most

abbrev is_digit : ℕ → Bool
is_digit = between b'0' b'9'

-- `\s` of the patterns: the code points with the property White_Space
abbrev is_space : ℕ → Bool
is_space n =
    between 9 13 n
    || n == 32
    || n == 133
    || n == 160
    || n == 5760
    || between 8192 8202 n
    || between 8232 8233 n
    || n == 8239
    || n == 8287
    || n == 12288

-- `^[0-9]{1,19}$`
unfoldable pub is_user_id : String → Bool
unfolding every_code
is_user_id s = between 1 19 (String.count s) && every_code is_digit s

-- `^[0-9a-f]{64}$`
unfoldable pub is_sha256 : String → Bool
unfolding every_code
is_sha256 s = String.count s == 64 && every_code (λ n. is_digit n || between b'a' b'f' n) s

-- `^\S+$`
unfoldable pub is_provider_option : String → Bool
unfolding every_code
is_provider_option s = given s && every_code (λ n. not (is_space n)) s

abbrev is_key_start : ℕ → Bool
is_key_start n = between b'a' b'z' n || is_digit n

-- `^[a-z0-9][a-z0-9-]*$`
unfoldable pub is_strategy_key : String → Bool
unfolding every_code
is_strategy_key String.[] = false
is_strategy_key (String.◌∷◌ c s) =
    is_key_start (code c) && every_code (λ n. is_key_start n || n == b'-') s

-- `str.strip`, `str.lower` and `str.casefold`
pub record Text : Type 0 where
  pub strip : String → String
  pub lower : String → String
  pub casefold : String → String

-- The constraints on a model's fields, of which pydantic reports all that fail.
abbrev pub fields_valid : Bool → Result (Unit {0})
fields_valid test = raise_if (not test) (value_error "Input does not meet the field's constraint.")

-- ===== src/Domain/Community/Sources.antt =====
-- domain/community.py: the sources of a strategy, the definition of a strategy and their validators.
use Prim.Native.String
use fpl_data_relay.Prelude.{
  ℕ, String, Bool, not, ◌&&◌, ◌||◌, List, map, any, ◌==◌, length, leb, ltb, string_key, ◌=?◌,
}
use fpl_data_relay.Result.{Result, ok, ◌>>=◌, ◌>>◌, raise_if, value_error}
use fpl_data_relay.Domain.Community.Kinds.{
  SourceType, Text, Number, above_zero, given, is_user_id, is_provider_option, is_strategy_key,
  fields_valid, every_code, between,
}
use fpl_data_relay.Domain.Community.Distinct.{has_duplicates}

pub record XSource : Type 0 where
  pub key : String
  pub label : String
  pub user_id : String
  pub username : String
  pub include_replies : Bool
  pub include_reposts : Bool
  pub max_documents : ℕ
  pub timeout_seconds : Number

pub record YouTubeSource : Type 0 where
  pub key : String
  pub label : String
  pub channel_id : String
  pub max_videos : ℕ
  pub timeout_seconds : Number
  pub transcript_language : String
  pub transcript_poll_seconds : Number
  pub transcript_timeout_seconds : Number

pub record BlogSource : Type 0 where
  pub key : String
  pub label : String
  pub feed_url : String
  pub allowed_article_hosts : List String
  pub max_articles : ℕ
  pub timeout_seconds : Number
  pub max_response_bytes : ℕ

pub data CommunitySource : Type 0 where
  x_source : XSource → CommunitySource
  youtube_source : YouTubeSource → CommunitySource
  blog_source : BlogSource → CommunitySource

unfoldable pub source_key : CommunitySource → String
source_key (x_source s) = s.key
source_key (youtube_source s) = s.key
source_key (blog_source s) = s.key

unfoldable pub source_type : CommunitySource → SourceType
source_type (x_source s) = SourceType.x
source_type (youtube_source s) = SourceType.youtube
source_type (blog_source s) = SourceType.blog

unfoldable pub validate_x_source : XSource → Result XSource
validate_x_source s = do
  fields_valid (
      given s.key
      && given s.label
      && is_user_id s.user_id
      && given s.username
      && between 1 800 s.max_documents
      && above_zero s.timeout_seconds)
  ok s

unfoldable pub validate_youtube_source : YouTubeSource → Result YouTubeSource
validate_youtube_source s = do
  fields_valid (
      given s.key
      && given s.label
      && given s.channel_id
      && between 1 50 s.max_videos
      && above_zero s.timeout_seconds
      && leb 2 (String.count s.transcript_language)
      && above_zero s.transcript_poll_seconds
      && above_zero s.transcript_timeout_seconds)
  ok s

abbrev has_slash : String → Bool
has_slash s = not (every_code (λ n. not (n == b'/')) s)

-- `hosts_are_unique_and_normalized`
unfoldable pub normalize_hosts : Text → List String → Result (List String)
normalize_hosts t value = do
  let normalized = map (λ host. t.lower (t.strip host)) value
  raise_if (any (λ host. not (given host) || has_slash host) normalized)
      (value_error "Article hosts must be non-empty hostnames.")
  raise_if (has_duplicates normalized) (value_error "Article hosts must be unique.")
  ok normalized

unfoldable pub validate_blog_source : Text → BlogSource → Result BlogSource
validate_blog_source t s = do
  fields_valid (
      given s.key
      && given s.label
      && leb 1 (length s.allowed_article_hosts)
      && between 1 100 s.max_articles
      && above_zero s.timeout_seconds
      && leb 1 s.max_response_bytes)
  hosts ← normalize_hosts t s.allowed_article_hosts
  ok (record s { allowed_article_hosts = hosts })

pub record CommunityStrategyDefinition : Type 0 where
  pub key : String
  pub version : ℕ
  pub active : Bool
  pub name : String
  pub description : String
  pub schedule_expression : String
  pub schedule_timezone : String
  pub lookback_days : ℕ
  pub target_story_count : ℕ
  pub minimum_story_count : ℕ
  pub maximum_candidate_stories : ℕ
  pub ranking_policy : String
  pub model : String
  pub reasoning_effort : String
  pub extraction_prompt_version : ℕ
  pub synthesis_prompt_version : ℕ
  pub extraction_concurrency : ℕ
  pub chunk_characters : ℕ
  pub extraction_cache_retention_days : ℕ
  pub supadata_requests_per_second : ℕ
  pub sources : List CommunitySource

-- `ZoneInfo` knows the timezones by name.
unfoldable pub validate_strategy :
    (String → Bool) → CommunityStrategyDefinition → Result CommunityStrategyDefinition
validate_strategy known_zone d = do
  fields_valid (
      is_strategy_key d.key
      && leb 1 d.version
      && given d.name
      && given d.description
      && given d.schedule_expression
      && given d.schedule_timezone
      && leb 1 d.lookback_days
      && between 1 10 d.target_story_count
      && between 1 10 d.minimum_story_count
      && leb 1 d.maximum_candidate_stories
      && d.ranking_policy =? "community_momentum_v1"
      && is_provider_option d.model
      && is_provider_option d.reasoning_effort
      && between 1 1 d.extraction_prompt_version
      && between 1 1 d.synthesis_prompt_version
      && leb 1 d.extraction_concurrency
      && leb 1 d.chunk_characters
      && leb 1 d.extraction_cache_retention_days
      && leb 1 d.supadata_requests_per_second)
  raise_if (not (known_zone d.schedule_timezone))
      (value_error "schedule_timezone must be an IANA timezone.")
  raise_if (ltb d.target_story_count d.minimum_story_count)
      (value_error "minimum_story_count cannot exceed target_story_count.")
  raise_if (ltb d.maximum_candidate_stories d.target_story_count)
      (value_error "maximum_candidate_stories cannot be below target_story_count.")
  raise_if (leb d.extraction_cache_retention_days d.lookback_days)
      (value_error "extraction_cache_retention_days must exceed lookback_days.")
  raise_if (has_duplicates (map source_key d.sources))
      (value_error "Community source keys must be unique.")
  raise_if (d.active && length d.sources == 0)
      (value_error "An active strategy requires at least one source.")
  ok d

pub record CommunityStrategySummary : Type 0 where
  pub key : String
  pub name : String
  pub description : String
  pub cadence : String
  pub timezone : String
  pub lookback_days : ℕ
  pub target_story_count : ℕ

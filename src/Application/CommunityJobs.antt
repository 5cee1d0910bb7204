-- ===== src/Application/CommunityJobs.antt =====
-- application/community_jobs.py: the messages of the community queue and the expansion of one
-- dispatch into the jobs of the active strategies. `local_date` is the date of an instant in a
-- timezone, which the timezone database gives.
use fpl_data_relay.Prelude.{ℕ, ◌*◌, String, not, ◌&&◌, List, [], ◌∷◌, leb, string_key}
use fpl_data_relay.Result.{Result, ok, ◌>>=◌, ◌>>◌, raise_if, value_error}
use fpl_data_relay.Domain.Time.{Datetime, is_aware, utc, minus, hours, not_after}
use fpl_data_relay.Domain.Community.Kinds.{given, fields_valid}
use fpl_data_relay.Application.CommunityStrategies.{
  ConfiguredCommunityStrategy, CommunityStrategyRegistry, list_active,
}

pub record CommunityDispatchJob : Type 0 where
  pub version : ℕ
  pub scheduled_at : Datetime

unfoldable pub validate_dispatch_job : CommunityDispatchJob → Result CommunityDispatchJob
validate_dispatch_job j = do
  fields_valid (leb 1 j.version && leb j.version 1)
  raise_if (not (is_aware j.scheduled_at)) (value_error "scheduled_at must be timezone-aware.")
  ok j

-- A date is a day number.
pub record CommunityStrategyJob : Type 0 where
  pub version : ℕ
  pub strategy_key : String
  pub strategy_version : ℕ
  pub report_date : ℕ
  pub window_start : Datetime
  pub window_end : Datetime

unfoldable pub validate_strategy_job : CommunityStrategyJob → Result CommunityStrategyJob
validate_strategy_job j = do
  fields_valid
      (leb 1 j.version && leb j.version 1 && given j.strategy_key && leb 1 j.strategy_version)
  raise_if (not (is_aware j.window_start && is_aware j.window_end))
      (value_error "Community job windows must be timezone-aware.")
  raise_if (not_after j.window_end j.window_start)
      (value_error "window_end must be after window_start.")
  ok j

-- `timedelta(days=n)`
abbrev pub days : ℕ → ℕ
days n = hours (n * 24)

module _ (local_date : String → ℕ → ℕ) where
  abbrev pub new_job : ConfiguredCommunityStrategy → Datetime → CommunityStrategyJob
  new_job s scheduled_at = record {
    version = 1;
    strategy_key = s.definition.key;
    strategy_version = s.definition.version;
    report_date = local_date s.definition.schedule_timezone scheduled_at.moment;
    window_start = minus (utc scheduled_at.moment) (days s.definition.lookback_days);
    window_end = utc scheduled_at.moment;
  }

  unfoldable pub strategy_job : ConfiguredCommunityStrategy → Datetime → Result CommunityStrategyJob
  strategy_job s scheduled_at = validate_strategy_job (new_job s scheduled_at)

  unfoldable pub strategy_jobs :
      List ConfiguredCommunityStrategy → Datetime → Result (List CommunityStrategyJob)
  unfolding strategy_job
  strategy_jobs [] scheduled_at = ok []
  strategy_jobs (s ∷ ss) scheduled_at = do
    job ← strategy_job s scheduled_at
    rest ← strategy_jobs ss scheduled_at
    ok (job ∷ rest)

  unfoldable pub build_strategy_jobs :
      CommunityStrategyRegistry → Datetime → Result (List CommunityStrategyJob)
  unfolding strategy_jobs
  build_strategy_jobs registry scheduled_at = do
    raise_if (not (is_aware scheduled_at)) (value_error "scheduled_at must be timezone-aware.")
    strategy_jobs (list_active registry) scheduled_at

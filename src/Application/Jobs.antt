-- ===== src/Application/Jobs.antt =====
-- application/jobs.py: the ingestion jobs and the planning of match windows.
use Prim.Native.String.{◌++◌ as ◌<>◌}
pub mod Sorted
pub mod Merge
pub mod Coverage
pub mod Delays
mod Examples
use Prim.Native.Char.{code}
use mathlib.Core.Option
use fpl_data_relay.Prelude.{
  ℕ, ◌+◌, String, Bool, true, false, not, ◌&&◌, ◌||◌, Option, none, some, List, [], ◌∷◌, ◌==◌, ltb,
  leb, if◌then◌else◌,
}
use fpl_data_relay.Prelude.Collect.{keep}
use fpl_data_relay.Result.{Error, Result, ok, err, value_error, raise_if, ◌>>=◌, ◌>>◌}
use fpl_data_relay.Domain.Time.{
  Datetime, is_aware, earlier, not_after, later_of, minutes, plus, minus,
}
use fpl_data_relay.Domain.Calendar.{decimal, minute_stamp}
use fpl_data_relay.Domain.Reference.{Fixture}
use fpl_data_relay.Domain.Rules.{live_window_after_kickoff}

abbrev pub window_before_kickoff : ℕ
window_before_kickoff = minutes 10

abbrev pub window_catchup_delay : ℕ
window_catchup_delay = minutes 1

abbrev pub live_active_delay_seconds : ℕ
live_active_delay_seconds = 15

abbrev pub live_idle_delay_seconds : ℕ
live_idle_delay_seconds = 60

pub record LiveJob : Type 0 where
  pub season_id : String
  pub event_id : ℕ
  pub window_start : Datetime
  pub window_end : Datetime

-- `ReferenceJob | LiveJob`; the version is the constant 1.
pub data IngestionJob : Type 0 where
  reference : IngestionJob
  live : LiveJob → IngestionJob

-- The validators of `LiveJob`: the bound of `event_id`, aware timestamps, a positive duration.
unfoldable pub validate_live_job : LiveJob → Result LiveJob
validate_live_job job = do
  raise_if (ltb job.event_id 1) (value_error "Input should be greater than or equal to 1")
  raise_if (not (is_aware job.window_start && is_aware job.window_end))
      (value_error "Live job window timestamps must be timezone-aware.")
  raise_if (not_after job.window_end job.window_start)
      (value_error "Live job window_end must be after window_start.")
  ok job

pub record MatchWindow : Type 0 where
  pub season_id : String
  pub event_id : ℕ
  pub start : Datetime
  pub stop : Datetime

abbrev pub naive_now : Error
naive_now = value_error "now must be timezone-aware."

unfoldable pub schedule_at : MatchWindow → Datetime → Result Datetime
schedule_at window now = do
  raise_if (not (is_aware now)) naive_now
  ok (later_of window.start (plus now window_catchup_delay))

-- `season_id.replace("-", "")`
remove_dashes : String → String
remove_dashes String.[] = ""
remove_dashes (String.◌∷◌ c s) =
    if code c == b'-' then remove_dashes s else String.◌∷◌ c (remove_dashes s)

unfoldable pub schedule_name : MatchWindow → String
unfolding remove_dashes minute_stamp
schedule_name window =
    "fpl-live-"
    <> remove_dashes window.season_id
    <> "-"
    <> decimal window.event_id
    <> "-"
    <> minute_stamp window.start

unfoldable pub window_job : MatchWindow → Result LiveJob
window_job window = validate_live_job (record {
  season_id = window.season_id;
  event_id = window.event_id;
  window_start = window.start;
  window_end = window.stop;
})

pub next_live_delay : LiveJob → Datetime → Bool → Result (Option ℕ)
next_live_delay job now has_active_fixture = do
  raise_if (not (is_aware now)) naive_now
  ok (
      if not_after job.window_end now
      then none
      else some (if has_active_fixture then live_active_delay_seconds else live_idle_delay_seconds))

-- The kickoff of a fixture that has its schedule data, with its event.
abbrev pub planned : Fixture → Option (ℕ × Datetime)
planned f = elim f.event [ none ↦ none | some e ↦ Option.map (λ k. (e, k)) f.kickoff_time ]

abbrev pub window_for : String → ℕ → Datetime → MatchWindow
window_for season_id event kickoff = record {
  season_id = season_id;
  event_id = event;
  start = minus kickoff window_before_kickoff;
  stop = plus kickoff live_window_after_kickoff;
}

-- What the loop of `build_match_windows` collects: candidates, and ids without schedule data.
abbrev pub Collected : Type 0
Collected = List MatchWindow × List ℕ

-- What one fixture appends, or the error that ends the loop.
abbrev pub Found : Type 0
Found = Option MatchWindow × Option ℕ

collect_planned : String → Datetime → Fixture → Option (ℕ × Datetime) → Result Found
collect_planned season_id now f none = ok (none, some f.id)
collect_planned season_id now f (some (event, kickoff)) = do
  raise_if (not (is_aware kickoff)) (value_error "Fixture kickoff_time must be timezone-aware.")
  let window = window_for season_id event kickoff
  ok (if not_after window.stop now then none else some window, none)

pub collect_windows : String → Datetime → List Fixture → Result Collected
unfolding collect_planned
collect_windows season_id now [] = ok ([], [])
collect_windows season_id now (f ∷ fixtures) = do
  (window, missing) ← collect_planned season_id now f (planned f)
  (windows, missings) ← collect_windows season_id now fixtures
  ok (keep window windows, keep missing missings)

-- The sort key `(event_id, start, end)`: whether `v` may stand in front of `w`.
abbrev pub key_le : MatchWindow → MatchWindow → Bool
key_le v w =
    if v.event_id == w.event_id
    then (if v.start.moment == w.start.moment
        then not_after v.stop w.stop
        else earlier v.start w.start)
    else ltb v.event_id w.event_id

insert_window : MatchWindow → List MatchWindow → List MatchWindow
insert_window w [] = w ∷ []
insert_window w (v ∷ vs) = if key_le w v then w ∷ v ∷ vs else v ∷ insert_window w vs

-- `candidates.sort(key=…)`, which is stable.
pub sort_windows : List MatchWindow → List MatchWindow
unfolding insert_window
sort_windows [] = []
sort_windows (w ∷ ws) = insert_window w (sort_windows ws)

-- The merging loop. The last element of `merged` is held apart, as it is the one that changes.
merge_from : MatchWindow → List MatchWindow → List MatchWindow
merge_from previous [] = previous ∷ []
merge_from previous (w ∷ ws) =
    let extended = merge_from (record previous { stop = later_of previous.stop w.stop }) ws in
    let separate = previous ∷ merge_from w ws in
    if previous.event_id == w.event_id && not_after w.start previous.stop
    then extended
    else separate

pub merge_windows : List MatchWindow → List MatchWindow
unfolding merge_from
merge_windows [] = []
merge_windows (w ∷ ws) = merge_from w ws

pub build_match_windows : String → List Fixture → Datetime → Result Collected
unfolding collect_windows sort_windows merge_windows
build_match_windows season_id fixtures now = do
  raise_if (not (is_aware now)) naive_now
  (candidates, missing) ← collect_windows season_id now fixtures
  ok (merge_windows (sort_windows candidates), missing)

-- ===== src/Application/Jobs/Examples.antt =====
-- Three fixtures of two events, their windows, and the theorems at these inputs.
use fpl_data_relay.Prelude.{
  ℕ, ◌+◌, ◌*◌, ◌≤◌, ◌<◌, ◌≡◌, refl, true, false, Option, none, some, List, [], ◌∷◌, arith,
}
use fpl_data_relay.Result.{ok, is_ok}
use fpl_data_relay.Domain.Time.{Datetime, utc, hours, seconds}
use fpl_data_relay.Domain.Reference.{Fixture}
use fpl_data_relay.Application.Jobs.{
  LiveJob, MatchWindow, window_for, build_match_windows, schedule_name, next_live_delay,
}
use fpl_data_relay.Application.Jobs.Sorted.{covered}
use fpl_data_relay.Application.Jobs.Coverage.{
  wanted, unplanned, build_match_windows-covers, build_match_windows-missing,
  build_match_windows_total,
}
use fpl_data_relay.Application.Jobs.Delays.{first, again, Polls-bounded}

abbrev fixture : ℕ → Option ℕ → Option Datetime → Fixture
fixture id event kickoff = record {
  id = id;
  code = none;
  event = event;
  finished = false;
  finished_provisional = none;
  kickoff_time = kickoff;
  minutes = none;
  provisional_start_time = none;
  started = false;
  team_a = 1;
  team_a_score = none;
  team_h = 2;
  team_h_score = none;
  stats = [];
  pulse_id = none;
}

-- 2025-08-15T00:00Z
abbrev day : ℕ
day = 739477 * hours 24

abbrev at_hour : ℕ → Datetime
at_hour h = utc (day + hours h)

abbrev fixtures : List Fixture
fixtures =
    fixture 4 (some 2) (some (at_hour 40))
    ∷ fixture 1 (some 1) (some (at_hour 15))
    ∷ fixture 2 (some 1) (some (at_hour 12))
    ∷ fixture 3 (some 1) none
    ∷ []

abbrev windows : List MatchWindow
windows =
    record (window_for "2025-26" 1 (at_hour 12)) { stop = at_hour 19 }
    ∷ window_for "2025-26" 2 (at_hour 40)
    ∷ []

build_runs : build_match_windows "2025-26" fixtures (at_hour 1) ≡ ok (windows, 3 ∷ [])
unfolding build_match_windows
build_runs = refl

schedule_name_runs :
    schedule_name (window_for "2025-26" 1 (at_hour 12)) ≡ "fpl-live-202526-1-202508151150"
unfolding schedule_name
schedule_name_runs = refl

build_match_windows-covers_example :
    covered 1 (day + hours 14) windows ≡ wanted 1 (day + hours 14) (day + hours 1) fixtures
build_match_windows-covers_example =
    build_match_windows-covers "2025-26" (at_hour 1) fixtures build_runs 1 (day + hours 14)

build_match_windows-missing_example : 3 ∷ [] ≡ unplanned fixtures
build_match_windows-missing_example =
    build_match_windows-missing "2025-26" (at_hour 1) fixtures build_runs

build_match_windows_total_example :
    is_ok (build_match_windows "2025-26" fixtures (at_hour 1)) ≡ true
build_match_windows_total_example =
    build_match_windows_total "2025-26" (at_hour 1) fixtures refl (refl, (refl, (refl, (tt, tt))))

abbrev job : LiveJob
job = record {
  season_id = "2025-26";
  event_id = 1;
  window_start = at_hour 12;
  window_end = at_hour 16;
}

abbrev poll : ℕ
poll = day + hours 12

active_delay : next_live_delay job (utc poll) true ≡ ok (some 15)
unfolding next_live_delay
active_delay = refl

Polls-bounded_example :
    (poll + 0 * seconds 15 < job.window_end.moment) × (poll + 1 * seconds 15 ≤ poll + seconds 20)
Polls-bounded_example =
    Polls-bounded job {u = poll + seconds 20} (again true 15 first active_delay (omega arith))

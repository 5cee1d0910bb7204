-- ===== src/Domain/Rules.antt =====
-- domain/rules.py: the current event, the season and the live window. The JSON encoding and the
-- hash of payloads are calls of `json` and `hashlib` and are not modelled.
pub mod CurrentEvent
pub mod SeasonBounds
mod Examples
use Prim.Native.String.{◌++◌ as ◌<>◌}
use fpl_data_relay.Prelude.{
  ℕ, ◌+◌, ◌%◌, String, Bool, true, false, not, ◌&&◌, ◌||◌, Option, none, some, List, [], ◌∷◌, ◌==◌,
  ltb, if◌then◌else◌, filter, any, length,
}
use fpl_data_relay.Prelude.Dict.{is_some}
use fpl_data_relay.Prelude.Collect.{collect}
use fpl_data_relay.Result.{Error, Result, ok, err, value_error, type_error, raise_if, ◌>>=◌, ◌>>◌}
use fpl_data_relay.Domain.Time.{Datetime, is_aware, earlier, hours, plus, year}
use fpl_data_relay.Domain.Calendar.{decimal, two_digits}
use fpl_data_relay.Domain.Changes.{not_empty, same_bool}
use fpl_data_relay.Domain.Reference.{Season, Event, Fixture}

-- `LIVE_WINDOW_AFTER_KICKOFF`
abbrev pub live_window_after_kickoff : ℕ
live_window_after_kickoff = hours 4

abbrev pub current_events : List Event → List Event
current_events = filter (λ e. e.is_current)

-- The tests on `current_events`: none, more than one, the one.
select_from : List Event → Result (Option ℕ)
select_from [] = ok none
select_from (e ∷ []) = ok (some e.id)
select_from (e ∷ f ∷ rest) = err (value_error "Expected at most one current FPL event.")

pub select_current_event_id : List Event → Result (Option ℕ)
unfolding select_from
select_current_event_id events = select_from (current_events events)

-- `min` and `max` of a nonempty list compare each value with the best so far, and a naive with an
-- aware value not at all.
abbrev pub comparable : Datetime → Datetime → Bool
comparable a b = same_bool (is_aware a) (is_aware b)

abbrev mixed : Error
mixed = type_error "can't compare offset-naive and offset-aware datetimes"

min_from : Datetime → List Datetime → Result Datetime
min_from best [] = ok best
min_from best (d ∷ ds) =
    if comparable best d then min_from (if earlier d best then d else best) ds else err mixed

max_from : Datetime → List Datetime → Result Datetime
max_from best [] = ok best
max_from best (d ∷ ds) =
    if comparable best d then max_from (if earlier best d then d else best) ds else err mixed

abbrev pub deadlines : List Event → List Datetime
deadlines = collect (λ e. e.deadline_time)

abbrev pub not_adjacent : Error
not_adjacent =
    value_error
      "Cannot derive FPL season: first and last deadlines do not span exactly two adjacent years."

season_of : Datetime → Datetime → Result Season
season_of first last = do
  raise_if (not (year first + 1 == year last)) not_adjacent
  ok (record {
    id = decimal (year first) <> "-" <> two_digits (year last % 100);
    start_year = year first;
    end_year = year last;
    first_deadline_time = first;
    last_deadline_time = last;
    is_current = true;
  })

-- `deadlines` is not empty where this is reached.
season_from : List Datetime → Result Season
season_from [] = err (value_error "min() arg is an empty sequence")
season_from (d ∷ ds) = do first ← min_from d ds; last ← max_from d ds; season_of first last

pub derive_season : List Event → Result Season
unfolding season_from season_of
derive_season events = do
  raise_if (not (not_empty events)) (value_error "Cannot derive FPL season without events.")
  raise_if (any (λ e. not (is_some e.deadline_time)) events)
      (value_error "Cannot derive FPL season: event deadline_time missing for event id(s).")
  season_from (deadlines events)

-- `value is True`
abbrev pub is_true : Option Bool → Bool
is_true (some b) = b
is_true none = false

abbrev pub is_active : Fixture → Bool
is_active f = f.started && not f.finished && not (is_true f.finished_provisional)

unfoldable pub has_active_fixture : List Fixture → Bool
has_active_fixture fixtures = any is_active fixtures

owns_live : Datetime → Option Datetime → Result Bool
owns_live fetched_at none = ok false
owns_live fetched_at (some kickoff) =
    if comparable fetched_at kickoff
    then ok (earlier fetched_at (plus kickoff live_window_after_kickoff))
    else err mixed

pub live_fixture_ownership_active : Fixture → Datetime → Result Bool
unfolding owns_live
live_fixture_ownership_active fixture fetched_at =
    if fixture.started then owns_live fetched_at fixture.kickoff_time else ok false

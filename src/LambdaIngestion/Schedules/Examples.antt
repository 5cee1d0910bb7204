-- ===== src/LambdaIngestion/Schedules/Examples.antt =====
-- One window and one old schedule, reconciled in the sample world.
use fpl_data_relay.Prelude.{
  ℕ, ◌+◌, ◌*◌, ◌≡◌, refl, ap, sym, String, Option, none, some, List, [], ◌∷◌, string_key,
  str_before, arith,
}
use fpl_data_relay.Prelude.Dict.{get, put, sorted_set}
use fpl_data_relay.Result.{Result, ok}
use fpl_data_relay.Exec.{return}
use fpl_data_relay.Domain.Json.{Json, Fields, end, field, str, arr, nil, cons, obj}
use fpl_data_relay.Domain.Time.{utc, hours}
use fpl_data_relay.Domain.Calendar.{decimal, minute_stamp, second_stamp}
use fpl_data_relay.Application.Jobs.{
  MatchWindow, schedule_name, schedule_at, window_job, validate_live_job,
}
use fpl_data_relay.LambdaIngestion.Definitions.{parse_schedule_definition, schedule_parameters}
use fpl_data_relay.LambdaIngestion.Schedules.{
  list_live_schedule_names, ScheduleReconciliationResult, desired_from, reconcile_found,
}
use fpl_data_relay.LambdaIngestion.Schedules.Listing.{
  Listed, last, more, list_live_schedule_names_complete,
}
use fpl_data_relay.LambdaIngestion.Schedules.Reconciled.{ScheduleStore}
use fpl_data_relay.LambdaIngestion.Schedules.Whole.{Reconciled, reconcile_found-Reconciled}
use fpl_data_relay.LambdaIngestion.Ports.{Services}
use fpl_data_relay.LambdaIngestion.Sample.{
  World, scheduler, settings, found_or_raise, services, libraries, start,
}

found_get :
    (o : Option Fields) (s s' : World) (f : Fields)
    → found_or_raise o s ≡ (ok f, s')
    → (s'.schedules ≡ s.schedules) × (o ≡ some f)
found_get none s s' f h = cc
found_get (some g) s s' f h = (ap (λ (p : Result Fields × World). p.1.schedules) (sym h), cc h)

store_laws : ScheduleStore settings services
store_laws = record {
  stored = λ s. s.schedules;
  creates = λ f s s' h n. ap (λ (p : Result (Unit {0}) × World). p.1.schedules n) (sym h);
  updates = λ f s s' h n. ap (λ (p : Result (Unit {0}) × World). p.1.schedules n) (sym h);
  deletes = λ name s s' h n. ap (λ (p : Result (Unit {0}) × World). p.1.schedules n) (sym h);
  gets = λ name s s' f h. found_get (s.schedules name) s s' f h;
}

-- 2025-08-15T12:00Z and the window of the first event.
abbrev noon : ℕ
noon = 739477 * hours 24 + hours 12

abbrev window : MatchWindow
window = record {
  season_id = "2025-26";
  event_id = 1;
  start = utc noon;
  stop = utc (noon + hours 4);
}

abbrev existing : List String
existing = "fpl-live-old" ∷ []

abbrev result : ScheduleReconciliationResult
result = record { created_count = 1; updated_count = 0; deleted_count = 1 }

reconcile_runs :
    reconcile_found settings services libraries existing (window ∷ []) (utc 5) start ≡ (
      ok result,
      (reconcile_found settings services libraries existing (window ∷ []) (utc 5) start).1,
    )
unfolding reconcile_found schedule_parameters schedule_name parse_schedule_definition schedule_at
    window_job validate_live_job decimal get put sorted_set str_before minute_stamp second_stamp
reconcile_runs = refl

reconcile_found-Reconciled_example :
    Reconciled settings services libraries store_laws existing
      (utc 5)
      "fpl-live-old"
      (get "fpl-live-old" (desired_from [] (window ∷ [])))
      none
      ((reconcile_found settings services libraries existing
          (window ∷ [])
          (utc 5)
          start).1.schedules
        "fpl-live-old")
unfolding store_laws
reconcile_found-Reconciled_example =
    reconcile_found-Reconciled settings services libraries store_laws existing (window ∷ []) (utc 5)
      start (reconcile_found settings services libraries existing (window ∷ []) (utc 5) start).1
      reconcile_runs "fpl-live-old"

-- Two pages of one name each.
abbrev entries : String → Json
entries name = arr (cons (obj (field "Name" (str name) end)) nil)

abbrev listing : Option String → Fields
listing none = field "Schedules" (entries "fpl-live-a") (field "NextToken" (str "page-2") end)
listing (some token) = field "Schedules" (entries "fpl-live-b") end

abbrev paged : Services World
paged = record services {
  scheduler = record scheduler { list_schedules = λ group prefix token. return (listing token) };
}

two_pages : Listed settings paged libraries start none ("fpl-live-a" ∷ "fpl-live-b" ∷ []) 2
two_pages = more refl refl refl (last refl refl refl)

list_live_schedule_names_complete_example :
    list_live_schedule_names settings paged libraries 2 start
    ≡ (ok (some ("fpl-live-a" ∷ "fpl-live-b" ∷ [])), start)
list_live_schedule_names_complete_example =
    list_live_schedule_names_complete settings paged libraries 2 start two_pages (omega arith)

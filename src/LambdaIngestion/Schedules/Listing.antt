-- ===== src/LambdaIngestion/Schedules/Listing.antt =====
-- The pages of a listing together are its names, and the loop over them ends.
use fpl_data_relay.Prelude.{
  ℕ, zero, suc, ◌≡◌, ◌≤◌, refl, ap, ◌∙◌, String, Option, none, some, List, [], ◌++◌, append_assoc,
  arith,
}
use fpl_data_relay.Result.{ok}
use fpl_data_relay.Exec.{Exec}
use fpl_data_relay.Domain.Json.{Fields, find_field}
use fpl_data_relay.LambdaIngestion.Ports.{Settings, Services, Libraries}
use fpl_data_relay.LambdaIngestion.Schedules.{
  names_in, token_in, list_names, list_live_schedule_names,
}

module _ {S : Type 0} (settings : Settings) (services : Services S) (libraries : Libraries) where
  abbrev pub page_of : Option String → Exec S Fields
  page_of token = services.scheduler.list_schedules settings.schedule_group_name "fpl-live-" token

  -- The scheduler lists names, from a token on, in a number of pages, and listing changes nothing.
  pub data Listed (s : S) : Option String → List String → ℕ → Type 0 where
    last :
        {token : Option String} {response : Fields} {names : List String}
        → page_of token s ≡ (ok response, s)
        → names_in (find_field "Schedules" response) ≡ ok names
        → token_in (find_field "NextToken" response) ≡ ok none
        → Listed s token names 1
    more :
        {token : Option String} {response : Fields} {names rest : List String} {t : String} {n : ℕ}
        → page_of token s ≡ (ok response, s)
        → names_in (find_field "Schedules" response) ≡ ok names
        → token_in (find_field "NextToken" response) ≡ ok (some t)
        → Listed s (some t) rest n
        → Listed s token (names ++ rest) (suc n)

  list_names_lem :
      (fuel : ℕ) (s : S) (found : List String) (token : Option String) {names : List String} {n : ℕ}
      → Listed s token names n
      → n ≤ fuel
      → list_names settings services libraries fuel found token s ≡ (ok (some (found ++ names)), s)
  unfolding list_names
  list_names_lem zero s found token (last page read end) enough = ground arith
  list_names_lem zero s found token (more page read next listed) enough = ground arith
  list_names_lem (suc fuel) s found token (last page read end) enough = rw (page, read, end) refl
  list_names_lem (suc fuel) s found token (more {names} {rest} {t} page read next listed) enough =
      rw (page, read, next)
        (list_names_lem fuel s (found ++ names) (some t) listed (omega arith)
          ∙ ap (λ r. (ok (some r), s)) (append_assoc found names rest))

  -- With fuel for each page of a listing, all its names are returned, and nothing has changed.
  pub list_live_schedule_names_complete :
      (fuel : ℕ) (s : S) {names : List String} {n : ℕ}
      → Listed s none names n
      → n ≤ fuel
      → list_live_schedule_names settings services libraries fuel s ≡ (ok (some names), s)
  unfolding list_live_schedule_names
  list_live_schedule_names_complete fuel s listed enough =
      list_names_lem fuel s [] none listed enough

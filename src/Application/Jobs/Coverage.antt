-- ===== src/Application/Jobs/Coverage.antt =====
-- `build_match_windows`: which moments it plans to poll, for which fixtures.

use fpl_data_relay.Prelude.{
  ℕ, ◌+◌, ◌-◌, ◌≡◌, refl, ◌∙◌, Bool, true, false, not, ◌&&◌, ◌||◌, Option, none, some, List, [],
  ◌∷◌, map, arith, ◌==◌, ltb, leb, any, filter, All, if◌then◌else◌, String,
}
use fpl_data_relay.Prelude.Collect.{keep}
use fpl_data_relay.Prelude.Dict.{is_some}
use fpl_data_relay.Result.{ok, >>=-inv, raise_if, is_ok, is_ok-ok}
use fpl_data_relay.Domain.Time.{Datetime, is_aware}
use fpl_data_relay.Domain.Reference.{Fixture}
use fpl_data_relay.Domain.Rules.{live_window_after_kickoff}
use fpl_data_relay.Application.Jobs.{
  MatchWindow, window_before_kickoff, planned, Found, Collected, collect_planned, collect_windows,
  sort_windows, merge_windows, build_match_windows, naive_now,
}
use fpl_data_relay.Application.Jobs.Sorted.{covered, sort_windows-IsSorted, covered-sort_windows}
use fpl_data_relay.Application.Jobs.Merge.{covered-merge_windows}

-- Whether a fixture wants its event polled at the moment `t`: from ten minutes before kickoff to
-- four hours after it, unless that was over by `now`.
abbrev pub wants : (event t now : ℕ) → Option (ℕ × Datetime) → Bool
wants event t now none = false
wants event t now (some (e, kickoff)) =
    e == event
    && leb (kickoff.moment - window_before_kickoff) t
    && leb t (kickoff.moment + live_window_after_kickoff)
    && ltb now (kickoff.moment + live_window_after_kickoff)

abbrev pub wanted : (event t now : ℕ) → List Fixture → Bool
wanted event t now fixtures = any (λ f. wants event t now (planned f)) fixtures

abbrev pub unplanned : List Fixture → List ℕ
unplanned fixtures = map (λ f. f.id) (filter (λ f. not (is_some (planned f))) fixtures)

-- The kickoff, where there is one with an event, is aware.
abbrev pub IsTimed : Option (ℕ × Datetime) → Type 0
IsTimed none = Unit
IsTimed (some p) = is_aware p.1 ≡ true

unplanned-cons :
    (f : Fixture) (fixtures : List Fixture) (b : Bool)
    → not (is_some (planned f)) ≡ b
    → unplanned (f ∷ fixtures) ≡ (if b then f.id ∷ unplanned fixtures else unplanned fixtures)
unplanned-cons f fixtures true h = rw h
unplanned-cons f fixtures false h = rw h

module _ (season_id : String) (now : Datetime) where
  collect_planned-covers :
      (event t : ℕ) (f : Fixture) (p : Option (ℕ × Datetime)) (r : Found) (ws : List MatchWindow)
      → collect_planned season_id now f p ≡ ok r
      → covered event t (keep r.0 ws) ≡ (wants event t now.moment p || covered event t ws)
  unfolding collect_planned
  collect_planned-covers event t f none r ws h = ground arith
  collect_planned-covers event t f (some (e, kickoff)) r ws h = ground arith

  collect_planned-missing :
      (f : Fixture) (p : Option (ℕ × Datetime)) (r : Found) (ids : List ℕ)
      → collect_planned season_id now f p ≡ ok r
      → keep r.1 ids ≡ (if not (is_some p) then f.id ∷ ids else ids)
  unfolding collect_planned
  collect_planned-missing f none r ids h = ground arith
  collect_planned-missing f (some (e, kickoff)) r ids h = ground arith

  collect_windows_lem :
      (event t : ℕ) (fixtures : List Fixture) (r : Collected)
      → collect_windows season_id now fixtures ≡ ok r
      → (covered event t r.0 ≡ wanted event t now.moment fixtures) × (r.1 ≡ unplanned fixtures)
  unfolding collect_windows
  collect_windows_lem event t [] r h = ground arith
  collect_windows_lem event t (f ∷ fixtures) r h =
      let (found, hf, h') = >>=-inv (collect_planned season_id now f (planned f)) _ h in
      let (rest, hr, e) = >>=-inv (collect_windows season_id now fixtures) _ h' in
      let (same, ids) = collect_windows_lem event t fixtures rest hr in
      (
        cc (e, collect_planned-covers event t f (planned f) found rest.0 hf, same),
        cc (
          e,
          collect_planned-missing f (planned f) found rest.1 hf,
          ids,
          unplanned-cons f fixtures (not (is_some (planned f))) refl,
        ),
      )

  collect_planned_total :
      (f : Fixture) (p : Option (ℕ × Datetime))
      → IsTimed p
      → is_ok (collect_planned season_id now f p) ≡ true
  unfolding collect_planned
  collect_planned_total f none h = refl
  collect_planned_total f (some (e, kickoff)) h = rw h

  collect_windows_total :
      (fixtures : List Fixture)
      → All (λ f. IsTimed (planned f)) fixtures
      → is_ok (collect_windows season_id now fixtures) ≡ true
  unfolding collect_windows
  collect_windows_total [] h = refl
  collect_windows_total (f ∷ fixtures) h =
      let (found, hf) = is_ok-ok _ (collect_planned_total f (planned f) h.0) in
      let (rest, hr) = is_ok-ok _ (collect_windows_total fixtures h.1) in rw hf (rw hr)

  module _ (fixtures : List Fixture) where
    -- The planner succeeds at an aware `now`, if every fixture that has an event and a kickoff has
    -- an aware one.
    pub build_match_windows_total :
        is_aware now ≡ true
        → All (λ f. IsTimed (planned f)) fixtures
        → is_ok (build_match_windows season_id fixtures now) ≡ true
    unfolding build_match_windows
    build_match_windows_total a h =
        let (r, e) = is_ok-ok _ (collect_windows_total fixtures h) in rw a (rw e)

    module _ {r : Collected} (h : build_match_windows season_id fixtures now ≡ ok r) where
      built :
          (c : Collected) × (collect_windows season_id now fixtures ≡ ok c)
          × (r.0 ≡ merge_windows (sort_windows c.0))
          × (r.1 ≡ c.1)
      unfolding build_match_windows
      built =
          let (_, _, h') = >>=-inv (raise_if (not (is_aware now)) naive_now) _ h in
          let (c, e, h'') = >>=-inv (collect_windows season_id now fixtures) _ h' in (c, e, cc, cc)

      -- The planned windows of an event hold exactly the moments at which one of its fixtures wants
      -- to be polled.
      pub build_match_windows-covers :
          (event t : ℕ) → covered event t r.0 ≡ wanted event t now.moment fixtures
      build_match_windows-covers event t =
          let (c, e, windows, _) = built in
          let (same, _) = collect_windows_lem event t fixtures c e in
          rw windows (
            covered-merge_windows event t (sort_windows c.0) (sort_windows-IsSorted c.0)
            ∙ covered-sort_windows event t c.0
            ∙ same)

      -- The reported ids are those of the fixtures without an event or a kickoff, in their order.
      pub build_match_windows-missing : r.1 ≡ unplanned fixtures
      build_match_windows-missing =
          let (c, e, _, ids) = built in ids ∙ (collect_windows_lem 0 0 fixtures c e).1

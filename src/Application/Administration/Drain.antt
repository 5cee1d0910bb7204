-- ===== src/Application/Administration/Drain.antt =====
-- application/administration.py, `drain_queues_with_progress`: waiting for stably empty queues.
pub mod Ends
mod Examples
use fpl_data_relay.Prelude.{
  ℕ, zero, suc, ◌+◌, ◌-◌, ◌*◌, ◌≡◌, ◌≤◌, ◌<◌, refl, Bool, true, false, not, ◌&&◌, ◌||◌, Option,
  none, some, List, [], ◌∷◌, arith, ◌==◌, leb, ltb, if◌then◌else◌, any,
}
use fpl_data_relay.Prelude.Dict.{is_some}
use fpl_data_relay.Result.{Result, ok, err, value_error, timeout_error}
use fpl_data_relay.Exec.{Exec, return, raise, raise_when, ◌>>=◌, ◌>>◌}
use fpl_data_relay.Domain.Time.{Datetime, is_aware, seconds}
use fpl_data_relay.Application.Administration.Ports.{
  QueueDepth, total, QueueDrainStage, QueueDrainProgress, AdministrationProgress, of_drain,
  Reporter, AwsAdministration, AdministrationRuntime,
}

abbrev is_nonempty : List QueueDepth → Bool
is_nonempty [] = false
is_nonempty (d ∷ depths) = true

-- `any(depth.total != 0 for depth in depths)`
abbrev pub any_message : List QueueDepth → Bool
any_message depths = any (λ d. not (total d == 0)) depths

-- `depths and all(depth.total == 0 for depth in depths)`
abbrev pub all_empty : List QueueDepth → Bool
all_empty depths = is_nonempty depths && not (any_message depths)

-- `zero_since` after a sample at `now`.
abbrev pub next_zero_since : List QueueDepth → ℕ → Option ℕ → Option ℕ
next_zero_since depths now zero_since =
    if all_empty depths then some (elim zero_since [ none ↦ now | some z ↦ z ]) else none

-- `stable_for`
abbrev pub stable_time : ℕ → Option ℕ → ℕ
stable_time now none = 0
stable_time now (some z) = now - z

module _ {S : Type 0} (aws : AwsAdministration S) (runtime : AdministrationRuntime S) where
  open aws use {queue_depths}
  open runtime use {
    drain_timeout_seconds, drain_poll_seconds, drain_stable_seconds, monotonic_clock, sleeper,
    clock,
  }

  -- `_aware_now`
  unfoldable pub aware_now : Exec S Datetime
  aware_now = do
    now ← clock
    raise_when (not (is_aware now)) (value_error "Administration clock must be timezone-aware.")
    return now

  -- The loop, with the time of its start and of the first sample of the present empty run. None is
  -- a loop that the fuel has not seen end.
  unfoldable pub drain_loop :
      (fuel : ℕ)
      → QueueDrainStage
      → Reporter S
      → (started_at : ℕ) → Option ℕ
      → Exec S (Option (List QueueDepth))
  unfolding aware_now
  drain_loop zero stage progress started_at zero_since = return none
  drain_loop (suc fuel) stage progress started_at zero_since = do
    depths ← queue_depths false
    now ← monotonic_clock
    sampled_at ← aware_now
    progress (
        of_drain (record {
          stage = stage;
          queues = depths;
          elapsed = now - started_at;
          stable_for = stable_time now (next_zero_since depths now zero_since);
          required_stable_seconds = drain_stable_seconds;
          sampled_at = sampled_at;
        }))
    (let rest = drain_loop fuel stage progress started_at (next_zero_since depths now zero_since) in
        if is_some (next_zero_since depths now zero_since)
          && leb (seconds drain_stable_seconds)
              (stable_time now (next_zero_since depths now zero_since))
        then return (some depths)
        else if leb (seconds drain_timeout_seconds) (now - started_at)
        then raise (timeout_error "Queues did not drain before timeout.")
        else sleeper drain_poll_seconds >> rest)

  unfoldable pub drain_queues_with_progress :
      (fuel : ℕ) → QueueDrainStage → Reporter S → Exec S (Option (List QueueDepth))
  unfolding drain_loop
  drain_queues_with_progress fuel stage progress = do
    started_at ← monotonic_clock
    drain_loop fuel stage progress started_at none

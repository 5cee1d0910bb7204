-- ===== src/Application/Administration/Drain/Ends.antt =====
-- The drain loop ends, with queues that stayed empty or with its timeout.
use fpl_data_relay.Prelude.{
  ℕ, suc, ◌+◌, ◌-◌, ◌*◌, ◌≡◌, ◌≤◌, ◌<◌, ◌⊎◌, true, false, Option, none, some, List, leb,
  if◌then◌else◌,
}
use fpl_data_relay.Result.{Error, Result, ok, err, timeout_error}
use fpl_data_relay.Exec.{Exec, raise, ◌>>◌}
use fpl_data_relay.Domain.Time.{Datetime, is_aware, seconds}
use fpl_data_relay.Application.Administration.Ports.{
  QueueDepth, QueueDrainStage, AdministrationProgress, Reporter, AwsAdministration,
  AdministrationRuntime,
}
use fpl_data_relay.Application.Administration.Drain.{all_empty, drain_loop}

-- The samples from one time to another, a poll apart, are all of empty queues.
pub data EmptyRun (depths_at : ℕ → List QueueDepth) (poll : ℕ) : ℕ → ℕ → Type 0 where
  first : {z : ℕ} → all_empty (depths_at z) ≡ true → EmptyRun depths_at poll z z
  next :
      {z t : ℕ}
      → EmptyRun depths_at poll z t
      → all_empty (depths_at (t + poll)) ≡ true
      → EmptyRun depths_at poll z (t + poll)

-- A world whose time passes in the pauses only, with queues that have their depths at each time.
pub record DrainWorld {S : Type 0} (aws : AwsAdministration S) (runtime : AdministrationRuntime S)
    (progress : Reporter S) : Type 0 where
  pub time : S → ℕ
  pub depths_at : ℕ → List QueueDepth
  pub samples : (s : S) → aws.queue_depths false s ≡ (ok (depths_at (time s)), s)
  pub reads : (s : S) → runtime.monotonic_clock s ≡ (ok (time s), s)
  pub today : (s : S) → (d : Datetime) × (runtime.clock s ≡ (ok d, s)) × (is_aware d ≡ true)
  pub reports :
      (p : AdministrationProgress) (s : S)
      → (t : S) × (progress p s ≡ (ok tt, t)) × (time t ≡ time s)
  pub sleeps :
      (n : ℕ) (s : S) → (t : S) × (runtime.sleeper n s ≡ (ok tt, t)) × (time t ≡ time s + seconds n)

abbrev pub drain_timeout : Error
drain_timeout = timeout_error "Queues did not drain before timeout."

module _ {S : Type 0} (aws : AwsAdministration S) (runtime : AdministrationRuntime S)
    (progress : Reporter S) (world : DrainWorld aws runtime progress) where
  open world use {time, depths_at, samples, reads, today, reports, sleeps}
  open runtime use {drain_timeout_seconds, drain_poll_seconds, drain_stable_seconds}

  abbrev poll : ℕ
  poll = seconds drain_poll_seconds

  -- How a drain that began at a time ends.
  abbrev pub Ends : ℕ → Result (Option (List QueueDepth)) × S → Type 0
  Ends started_at (r, s) =
      (r ≡ err drain_timeout) × (started_at + seconds drain_timeout_seconds ≤ time s)
      ⊎ (depths : List QueueDepth) × (z : ℕ) × (r ≡ ok (some depths))
        × EmptyRun depths_at poll z (time s)
        × (z + seconds drain_stable_seconds ≤ time s)

  -- The run that `zero_since` stands for, after a sample and before the next.
  abbrev Run : Option ℕ → ℕ → Type 0
  Run none t = Unit
  Run (some z) t = EmptyRun depths_at poll z t

  abbrev Entry : Option ℕ → ℕ → Type 0
  Entry none t = Unit
  Entry (some z) t = (u : ℕ) × EmptyRun depths_at poll z u × (t ≡ u + poll)

  -- The fuel that the timeout needs, from a time.
  abbrev pub Enough : (fuel started_at t : ℕ) → Type 0
  Enough fuel started_at t =
      (0 < fuel) × (started_at + seconds drain_timeout_seconds + poll ≤ t + fuel * poll)

  module _ (fuel : ℕ) (stage : QueueDrainStage) (started_at t : ℕ) (zero_since : Option ℕ) (s : S)
      (now : time s ≡ t) (later : started_at ≤ t) (enough : Enough (suc fuel) started_at t)
      (run : Run zero_since t)
      (again : (u : S)
        → started_at ≤ time u
        → Enough fuel started_at (time u)
        → Entry zero_since (time u)
        → Ends started_at
            (drain_loop aws runtime fuel stage progress started_at zero_since u)) where
    -- The pause before the next round, if the timeout allows it.
    abbrev pause : Exec S (Option (List QueueDepth))
    pause =
        if leb (seconds drain_timeout_seconds) (t - started_at)
        then raise drain_timeout
        else runtime.sleeper drain_poll_seconds
          >> drain_loop aws runtime fuel stage progress started_at zero_since

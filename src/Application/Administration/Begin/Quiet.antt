-- ===== src/Application/Administration/Begin/Quiet.antt =====
-- When a maintenance window is activated: the collector is stopped and the queues are empty.
use fpl_data_relay.Prelude.{
  ℕ, zero, suc, String, Bool, true, false, not, ◌&&◌, ◌-◌, leb, ◌=?◌, string_key, Option, none,
  some, List, if◌then◌else◌,
}
use fpl_data_relay.Prelude.Dict.{is_some}
use fpl_data_relay.Domain.Time.{seconds}
use fpl_data_relay.Exec.{
  return, raise, raise_when, for_each, Keeps, Keeps-bind, Keeps-raise_when, Keeps-if,
  Keeps-for_each, Keeps-lift_bind, ◌>>◌,
}
use fpl_data_relay.Application.Administration.Ports.{
  MaintenancePhase, of_drain, ScheduleSnapshot, ScheduleState, disabled, QueueDepth,
  QueueDrainStage, AdministrationWorkflow, AdministrationWorkflowStep,
  AdministrationWorkflowStepState, AdministrationProgress, of_step, MaintenanceWindow, Reporter,
  AwsAdministration, NasAdministration, AdministrationDatabase, AdministrationRuntime,
}
use fpl_data_relay.Application.Administration.Drain.{
  next_zero_since, stable_time, drain_loop, drain_queues_with_progress, aware_now,
}
use fpl_data_relay.Application.Administration.Maintenance.{
  ensure_dead_letters_empty, pause_schedules, same_phase, open_or_reopen, open_new, reopen,
  normalize_reason,
}
use fpl_data_relay.Application.Administration.Drain.Ends.{drain_timeout}
use fpl_data_relay.Application.Administration.Begin.{emit_progress_step}

module _ {S : Type 0} (aws : AwsAdministration S) (nas : NasAdministration S)
    (database : AdministrationDatabase S) (runtime : AdministrationRuntime S)
    (progress : Reporter S) where
  -- The operations that neither stop the collector nor activate the window keep a predicate.
  pub record Calm (Q : S → Type 0) : Type 0 where
    pub depths : (dead : Bool) → Keeps Q (aws.queue_depths dead)
    pub identity : Keeps Q aws.identity
    pub snapshots : Keeps Q aws.schedule_snapshots
    pub sets :
        (schedule : ScheduleSnapshot) (state : ScheduleState) (expression : String)
        → Keeps Q (aws.set_schedule_state schedule state expression)
    pub monotonic : Keeps Q runtime.monotonic_clock
    pub clock : Keeps Q runtime.clock
    pub sleeps : (n : ℕ) → Keeps Q (runtime.sleeper n)
    pub reports : (p : AdministrationProgress) → Keeps Q (progress p)
    pub reads_window : Keeps Q database.get_open_maintenance
    pub opens :
        (reason arn : String) (schedules : List ScheduleSnapshot) (queues : List QueueDepth)
        (was : Option Bool)
        → Keeps Q (database.open_maintenance reason arn schedules queues was)
    pub status : Keeps Q nas.status

  module _ (Q : S → Type 0) (calm : Calm Q) where
    aware_now-Keeps : Keeps Q (aware_now aws runtime)
    unfolding aware_now
    aware_now-Keeps =
        Keeps-bind Q runtime.clock _ calm.clock
          λ now. Keeps-bind Q (raise_when _ _) _ (Keeps-raise_when Q _ _) (λ _ s q. q)

    pub emit-Keeps :
        (workflow : AdministrationWorkflow) (which : AdministrationWorkflowStep)
        (state : AdministrationWorkflowStepState)
        → Keeps Q (emit_progress_step aws nas database runtime progress workflow which state)
    unfolding emit_progress_step
    emit-Keeps workflow which state =
        Keeps-bind Q (aware_now aws runtime) _ aware_now-Keeps
          (λ at. calm.reports (of_step workflow which state at))

    drain_loop-Keeps :
        (fuel : ℕ) (stage : QueueDrainStage) (started_at : ℕ) (zero_since : Option ℕ)
        → Keeps Q (drain_loop aws runtime fuel stage progress started_at zero_since)
    unfolding drain_loop
    drain_loop-Keeps zero stage started_at zero_since = λ s q. q
    drain_loop-Keeps (suc fuel) stage started_at zero_since =
        Keeps-bind Q (aws.queue_depths false) _ (calm.depths false) λ depths.
          Keeps-bind Q runtime.monotonic_clock _ calm.monotonic λ now.
            Keeps-bind Q (aware_now aws runtime) _ aware_now-Keeps λ at.
              let zero_now = next_zero_since depths now zero_since in
              let report = of_drain (record {
                stage = stage;
                queues = depths;
                elapsed = now - started_at;
                stable_for = stable_time now zero_now;
                required_stable_seconds = runtime.drain_stable_seconds;
                sampled_at = at;
              }) in
              let is_stable =
                is_some zero_now
                && leb (seconds runtime.drain_stable_seconds) (stable_time now zero_now) in
              let is_over = leb (seconds runtime.drain_timeout_seconds) (now - started_at) in
              let rest = drain_loop aws runtime fuel stage progress started_at zero_now in
              let pause = runtime.sleeper runtime.drain_poll_seconds >> rest in
              Keeps-bind Q (progress report) _ (calm.reports report) λ _.
                Keeps-if Q is_stable (return (some depths))
                  (if is_over then raise drain_timeout else pause) (λ s q. q)
                  (Keeps-if Q is_over (raise drain_timeout) pause (λ s q. q)
                    (Keeps-bind Q (runtime.sleeper runtime.drain_poll_seconds) (λ _. rest)
                      (calm.sleeps runtime.drain_poll_seconds)
                      (λ _. drain_loop-Keeps fuel stage started_at zero_now)))

    pub drain-Keeps :
        (fuel : ℕ) (stage : QueueDrainStage)
        → Keeps Q (drain_queues_with_progress aws runtime fuel stage progress)
    unfolding drain_queues_with_progress
    drain-Keeps fuel stage =
        Keeps-bind Q runtime.monotonic_clock _ calm.monotonic
          (λ at. drain_loop-Keeps fuel stage at none)

    pub ensure-Keeps : Keeps Q (ensure_dead_letters_empty aws nas database)
    unfolding ensure_dead_letters_empty
    ensure-Keeps =
        Keeps-bind Q (aws.queue_depths true) _ (calm.depths true) (λ d. Keeps-raise_when Q _ _)

    reopen-Keeps :
        (reason : String) (existing : MaintenanceWindow)
        → Keeps Q (reopen aws nas database reason existing)
    unfolding reopen
    reopen-Keeps reason existing =
        Keeps-bind Q (raise_when (not (same_phase existing.phase MaintenancePhase.entering)) _) _
          (Keeps-raise_when Q _ _)
          λ _.
            Keeps-bind Q (raise_when (not (existing.reason =? reason)) _) (λ _. return existing)
              (Keeps-raise_when Q _ _) (λ _ s q. q)

    open_new-Keeps :
        (reason : String) (was : Option Bool) → Keeps Q (open_new aws nas database reason was)
    unfolding open_new
    open_new-Keeps reason was = Keeps-bind Q aws.identity _ calm.identity λ who.
        Keeps-bind Q aws.schedule_snapshots _ calm.snapshots λ schedules.
          Keeps-bind Q (aws.queue_depths false) _ (calm.depths false)
            λ queues. calm.opens reason who.arn schedules queues was

    open_or_reopen-Keeps :
        (reason : String) (was : Option Bool) (existing : Option MaintenanceWindow)
        → Keeps Q (open_or_reopen aws nas database reason was existing)
    unfolding open_or_reopen
    open_or_reopen-Keeps reason was none = open_new-Keeps reason was
    open_or_reopen-Keeps reason was (some existing) = reopen-Keeps reason existing

    pub pause-Keeps :
        (reason : String) (was : Option Bool)
        → Keeps Q (pause_schedules aws nas database reason was)
    unfolding pause_schedules
    pause-Keeps reason was = Keeps-lift_bind Q (normalize_reason reason) _ λ normal.
        Keeps-bind Q database.get_open_maintenance _ calm.reads_window λ existing.
          Keeps-bind Q (open_or_reopen aws nas database normal was existing) _
            (open_or_reopen-Keeps normal was existing)
            λ window.
              Keeps-bind Q
                (for_each (λ s. aws.set_schedule_state s disabled s.schedule_expression)
                  window.schedules)
                _
                (Keeps-for_each Q _ window.schedules
                  (λ s. calm.sets s disabled s.schedule_expression))
                (λ _ s q. q)

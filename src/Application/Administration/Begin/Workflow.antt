-- ===== src/Application/Administration/Begin/Workflow.antt =====
-- The whole workflow that begins a maintenance.
use fpl_data_relay.Prelude.{ℕ, String, Bool, Option, none, some, List}
use fpl_data_relay.Exec.{Exec, return, Keeps, Leads, Leads-bind, Keeps-Lands, ◌>>=◌}
use fpl_data_relay.Application.Administration.Ports.{
  QueueDrainStage, QueueDepth, AdministrationWorkflowStep, MaintenanceWindow, NasCollectorStatus,
  Reporter, AwsAdministration, NasAdministration, AdministrationDatabase, AdministrationRuntime,
  before_collector_stop, after_collector_stop,
}
use fpl_data_relay.Application.Administration.Drain.{drain_queues_with_progress}
use fpl_data_relay.Application.Administration.Maintenance.{
  ensure_dead_letters_empty, pause_schedules, activate_maintenance,
}
use fpl_data_relay.Application.Administration.Begin.{
  step, stop_step, begin_drained, begin_production_maintenance_with_progress, recorded_or,
}
use fpl_data_relay.Application.Administration.Begin.Quiet.{drain-Keeps, ensure-Keeps, pause-Keeps}
use fpl_data_relay.Application.Administration.Begin.Activation.{
  Quiescing, Stopped, Known, Known-P, Known-Calm, status-Leads, stop_step-Leads, activate-Leads,
  kept_step, step-Leads,
}

module _ {S : Type 0} (aws : AwsAdministration S) (nas : NasAdministration S)
    (database : AdministrationDatabase S) (runtime : AdministrationRuntime S)
    (progress : Reporter S) (P : S → Type 0)
    (laws : Quiescing aws nas database runtime progress P) where
  open laws use {calm, calm_stopped}

  abbrev Still : S → Type 0
  Still = Stopped aws nas database runtime progress P laws

  abbrev Seen : Bool → S → Type 0
  Seen = Known aws nas database runtime progress P laws

  abbrev activate_step : Bool → Exec S MaintenanceWindow
  activate_step was =
      step aws nas database runtime progress AdministrationWorkflowStep.activate_maintenance
        (activate_maintenance aws nas database was)

  abbrev drain_step :
      AdministrationWorkflowStep → ℕ → QueueDrainStage → Exec S (Option (List QueueDepth))
  drain_step which fuel stage =
      step aws nas database runtime progress which
        (drain_queues_with_progress aws runtime fuel stage progress)

  abbrev pause_step : String → NasCollectorStatus → Exec S MaintenanceWindow
  pause_step reason c =
      step aws nas database runtime progress AdministrationWorkflowStep.pause_schedules
        (pause_schedules aws nas database reason (some c.running))

  abbrev status_step : Exec S NasCollectorStatus
  status_step =
      step aws nas database runtime progress AdministrationWorkflowStep.read_collector nas.status

  abbrev check_step : Exec S (Unit {0})
  check_step =
      step aws nas database runtime progress AdministrationWorkflowStep.check_dead_letters
        (ensure_dead_letters_empty aws nas database)

  activated-Leads :
      (was : Bool) (drained : Option (List QueueDepth))
      → Leads {A = Option MaintenanceWindow} P Still
          (λ _. P)
          (elim drained [
            | none ↦ return none
            | some depths ↦ activate_step was >>= λ activated. return (some activated)
          ])
  activated-Leads was none = λ s q. q.0
  activated-Leads was (some depths) =
      Leads-bind P Still (λ _. P) (λ _. P) (activate_step was)
        (λ activated. return (some activated))
        (step-Leads aws nas database runtime progress P Still (λ _. P) calm calm_stopped (λ _. calm)
          (λ s q. q.0) (λ _ s p. p) AdministrationWorkflowStep.activate_maintenance
          (activate_maintenance aws nas database was)
          (activate-Leads aws nas database runtime progress P laws was))
        (λ _ s p. p)

  drained-Leads :
      (fuel : ℕ) (c : NasCollectorStatus) (w : MaintenanceWindow)
      → Leads P (Seen c.running) (λ _. P) (begin_drained aws nas database runtime progress fuel c w)
  unfolding begin_drained
  drained-Leads fuel c w =
      Leads-bind P (Seen c.running) (λ _. Still) (λ _. P)
        (stop_step aws nas database runtime progress c) _
        (stop_step-Leads aws nas database runtime progress P laws c)
        λ _.
          Leads-bind P Still (λ _. Still) (λ _. P)
            (drain_step AdministrationWorkflowStep.drain_after_collector_stop fuel
              after_collector_stop)
            _
            (kept_step aws nas database runtime progress P laws Still
              AdministrationWorkflowStep.drain_after_collector_stop
              (drain_queues_with_progress aws runtime fuel after_collector_stop progress)
              calm_stopped (λ s q. q.0)
              (drain-Keeps aws nas database runtime progress Still calm_stopped fuel
                after_collector_stop))
            (λ drained. activated-Leads (recorded_or c.running w.collector_was_running) drained)

  rest-Leads :
      (fuel : ℕ) (c : NasCollectorStatus) (w : MaintenanceWindow)
      (drained : Option (List QueueDepth))
      → Leads {A = Option MaintenanceWindow} P
          (Seen c.running)
          (λ _. P)
          (elim drained [
            | none ↦ return none
            | some depths ↦ begin_drained aws nas database runtime progress fuel c w
          ])
  rest-Leads fuel c w none = Known-P aws nas database runtime progress P laws c.running
  rest-Leads fuel c w (some depths) = drained-Leads fuel c w

  -- However far the beginning of a maintenance comes, an invariant of the world holds at its end
  -- that the activation of the window keeps only where the collector does not run and only for
  -- depths of empty queues, and that every other operation keeps.
  pub begin-Keeps :
      (fuel : ℕ) (reason : String)
      → Keeps P
          (begin_production_maintenance_with_progress aws nas database runtime progress fuel reason)
  unfolding begin_production_maintenance_with_progress
  begin-Keeps fuel reason s p = Keeps-Lands P _ _ (
      Leads-bind P P (λ _. P) (λ _. P) check_step _
        (kept_step aws nas database runtime progress P laws P
          AdministrationWorkflowStep.check_dead_letters (ensure_dead_letters_empty aws nas database)
          calm (λ s p. p) (ensure-Keeps aws nas database runtime progress P calm))
        (λ _.
          Leads-bind P P (λ (c : NasCollectorStatus). Seen c.running) (λ _. P) status_step _
            (step-Leads aws nas database runtime progress P P
              (λ (c : NasCollectorStatus). Seen c.running) calm calm
              (λ c. Known-Calm aws nas database runtime progress P laws c.running) (λ s p. p)
              (λ c. Known-P aws nas database runtime progress P laws c.running)
              AdministrationWorkflowStep.read_collector nas.status
              (status-Leads aws nas database runtime progress P laws))
            (λ c. noted c))
        s p)
    where
      noted :
          (c : NasCollectorStatus)
          → Leads {A = Option MaintenanceWindow} P
              (Seen c.running)
              (λ _. P)
              (pause_step reason c >>= λ window.
                drain_step AdministrationWorkflowStep.drain_before_collector_stop fuel
                  before_collector_stop
                >>= λ drained. elim drained [
                  | none ↦ return none
                  | some depths ↦ begin_drained aws nas database runtime progress fuel c window
                ])
      noted c =
          let calm_seen = Known-Calm aws nas database runtime progress P laws c.running in
          let weaken = Known-P aws nas database runtime progress P laws c.running in
          Leads-bind P (Seen c.running) (λ _. Seen c.running) (λ _. P) (pause_step reason c) _
            (kept_step aws nas database runtime progress P laws (Seen c.running)
              AdministrationWorkflowStep.pause_schedules
              (pause_schedules aws nas database reason (some c.running)) calm_seen weaken
              (pause-Keeps aws nas database runtime progress (Seen c.running) calm_seen reason
                (some c.running)))
            λ w.
              Leads-bind P (Seen c.running) (λ _. Seen c.running) (λ _. P)
                (drain_step AdministrationWorkflowStep.drain_before_collector_stop fuel
                  before_collector_stop)
                _
                (kept_step aws nas database runtime progress P laws (Seen c.running)
                  AdministrationWorkflowStep.drain_before_collector_stop
                  (drain_queues_with_progress aws runtime fuel before_collector_stop progress)
                  calm_seen weaken
                  (drain-Keeps aws nas database runtime progress (Seen c.running) calm_seen fuel
                    before_collector_stop))
                (rest-Leads fuel c w)

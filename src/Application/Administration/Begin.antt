-- ===== src/Application/Administration/Begin.antt =====
-- application/administration.py, `begin_production_maintenance_with_progress`: quiescing the writers
-- step by step, with reports of each step.
pub mod Quiet
pub mod Activation
pub mod Workflow
mod Examples
use fpl_data_relay.Prelude.{ℕ, String, Bool, true, false, Option, none, some, List, if◌then◌else◌}
use fpl_data_relay.Result.{Result, ok, err}
use fpl_data_relay.Exec.{Exec, return, raise, ◌>>=◌, ◌>>◌}
use fpl_data_relay.Application.Administration.Ports.{
  AdministrationWorkflow, begin_maintenance, AdministrationWorkflowStep,
  AdministrationWorkflowStepState, started, completed, skipped, failed, of_step,
  before_collector_stop, after_collector_stop, QueueDrainStage, MaintenanceWindow,
  NasCollectorStatus, Reporter, AwsAdministration, NasAdministration, AdministrationDatabase,
  AdministrationRuntime,
}
use fpl_data_relay.Application.Administration.Drain.{aware_now, drain_queues_with_progress}
use fpl_data_relay.Application.Administration.Maintenance.{
  ensure_dead_letters_empty, stop_collector, pause_schedules, activate_maintenance,
}

-- `running if recorded is None else recorded`
abbrev pub recorded_or : Bool → Option Bool → Bool
recorded_or running none = running
recorded_or running (some recorded) = recorded

module _ {S : Type 0} (aws : AwsAdministration S) (nas : NasAdministration S)
    (database : AdministrationDatabase S) (runtime : AdministrationRuntime S)
    (progress : Reporter S) where
  -- `_emit_progress_step`, and `_skip_progress_step`
  pub emit_progress_step :
      AdministrationWorkflow
      → AdministrationWorkflowStep
      → AdministrationWorkflowStepState
      → Exec S (Unit {0})
  emit_progress_step workflow step state = do
    occurred_at ← aware_now aws runtime
    progress (of_step workflow step state occurred_at)

  abbrev step_result :
      {A : Type 0}
      → AdministrationWorkflow
      → AdministrationWorkflowStep
      → Result A × S
      → Result A × S
  unfolding emit_progress_step
  step_result workflow step (err e, s) = (emit_progress_step workflow step failed >> raise e) s
  step_result workflow step (ok a, s) = (emit_progress_step workflow step completed >> return a) s

  -- `_run_progress_step` and `_run_async_progress_step`
  pub run_progress_step :
      {A : Type 0} → AdministrationWorkflow → AdministrationWorkflowStep → Exec S A → Exec S A
  unfolding step_result emit_progress_step
  run_progress_step workflow step operation =
      emit_progress_step workflow step started >> λ s. step_result workflow step (operation s)

  abbrev pub step : {A : Type 0} → AdministrationWorkflowStep → Exec S A → Exec S A
  unfolding run_progress_step
  step which operation = run_progress_step begin_maintenance which operation

  -- The stop of the collector, or its skip.
  pub stop_step : NasCollectorStatus → Exec S (Unit {0})
  unfolding step
  stop_step collector =
      if collector.running
      then (step AdministrationWorkflowStep.stop_collector (stop_collector aws nas database)
          >>= λ stopped. return tt)
      else emit_progress_step begin_maintenance AdministrationWorkflowStep.stop_collector skipped

  -- The steps after the first drain.
  pub begin_drained :
      (fuel : ℕ) → NasCollectorStatus → MaintenanceWindow → Exec S (Option MaintenanceWindow)
  unfolding stop_step
  begin_drained fuel collector window =
      stop_step collector
      >> (step AdministrationWorkflowStep.drain_after_collector_stop
            (drain_queues_with_progress aws runtime fuel after_collector_stop progress)
          >>= λ drained. elim drained [
            | none ↦ return none
            | some depths ↦
                step AdministrationWorkflowStep.activate_maintenance (
                  activate_maintenance aws nas database
                    (recorded_or collector.running window.collector_was_running))
                >>= λ activated. return (some activated)
          ])

  -- None is a drain that the fuel has not seen end.
  pub begin_production_maintenance_with_progress :
      (fuel : ℕ) → String → Exec S (Option MaintenanceWindow)
  unfolding begin_drained
  begin_production_maintenance_with_progress fuel reason = do
    _ ←
        step AdministrationWorkflowStep.check_dead_letters
          (ensure_dead_letters_empty aws nas database)
    collector ← step AdministrationWorkflowStep.read_collector nas.status
    window ←
        step AdministrationWorkflowStep.pause_schedules
          (pause_schedules aws nas database reason (some collector.running))
    drained ←
        step AdministrationWorkflowStep.drain_before_collector_stop
          (drain_queues_with_progress aws runtime fuel before_collector_stop progress)
    elim drained [ none ↦ return none | some depths ↦ begin_drained fuel collector window ]

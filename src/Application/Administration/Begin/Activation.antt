-- ===== src/Application/Administration/Begin/Activation.antt =====
-- The collector is stopped and the queues are empty when a maintenance window is activated.
use fpl_data_relay.Prelude.{
  ℕ, ◌≡◌, refl, Bool, true, false, not, Option, none, some, List, [], ◌∷◌, any, if◌then◌else◌,
}
use fpl_data_relay.Result.{Error, Result, ok, err, runtime_error}
use fpl_data_relay.Exec.{
  Exec, proceed, return, raise, raise_when, Keeps, Keeps-bind, Keeps-raise_when, Lands, Leads,
  Leads-bind, Leads-check, Leads-keep, ◌>>=◌, ◌>>◌,
}
use fpl_data_relay.Application.Administration.Ports.{
  QueueDepth, MaintenancePhase, AdministrationWorkflowStep, MaintenanceWindow, NasCollectorStatus,
  Reporter, AwsAdministration, NasAdministration, AdministrationDatabase, AdministrationRuntime,
  begin_maintenance, started, completed, failed, skipped,
}
use fpl_data_relay.Application.Administration.Drain.{any_message}
use fpl_data_relay.Application.Administration.Maintenance.{
  stop_collector, activate_maintenance, require_open_phase, require_window, same_phase,
  differs_from_recorded,
}
use fpl_data_relay.Application.Administration.Begin.{
  emit_progress_step, step_result, run_progress_step, step, stop_step,
}
use fpl_data_relay.Application.Administration.Begin.Quiet.{Calm, emit-Keeps}

module _ {S : Type 0} (aws : AwsAdministration S) (nas : NasAdministration S)
    (database : AdministrationDatabase S) (runtime : AdministrationRuntime S)
    (progress : Reporter S) where
  -- An invariant of the world that every operation keeps, the activation of the window only where
  -- the collector does not run and only with depths of empty queues. Status and stop of the
  -- collector report whether it runs, and nothing else starts it.
  pub record Quiescing (P : S → Type 0) : Type 0 where
    pub is_running : S → Bool
    pub calm : Calm aws nas database runtime progress P
    pub calm_stopped : Calm aws nas database runtime progress (λ s. P s × (is_running s ≡ false))
    pub told :
        (s s' : S) (c : NasCollectorStatus) → nas.status s ≡ (ok c, s') → is_running s' ≡ c.running
    pub stops : Keeps P nas.stop
    pub stop_told :
        (s s' : S) (c : NasCollectorStatus) → nas.stop s ≡ (ok c, s') → is_running s' ≡ c.running
    pub activates :
        (id : ℕ) (was : Bool) (depths : List QueueDepth) (s : S)
        → any_message depths ≡ false
        → P s
        → is_running s ≡ false
        → P (database.activate id was depths s).1

  module _ (E P : S → Type 0) {A : Type 0} (Q : A → S → Type 0)
      (calm_err : Calm aws nas database runtime progress E)
      (calm_before : Calm aws nas database runtime progress P)
      (calm_after : (a : A) → Calm aws nas database runtime progress (Q a))
      (weaken : (s : S) → P s → E s) (weaken_after : (a : A) (s : S) → Q a s → E s)
      (which : AdministrationWorkflowStep) where
    result-Lands :
        (r : Result A) (s : S)
        → Lands E Q (r, s)
        → Lands E Q (step_result aws nas database runtime progress begin_maintenance which (r, s))
    unfolding step_result
    result-Lands (err e) s h =
        Leads-bind E E (λ _. E) Q
          (emit_progress_step aws nas database runtime progress begin_maintenance which failed)
          (λ _. raise e)
          (Leads-keep E E _ (λ s e. e)
            (emit-Keeps aws nas database runtime progress E calm_err begin_maintenance which
              failed))
          (λ _ s e. e) s h
    result-Lands (ok a) s h =
        Leads-bind E (Q a) (λ _. Q a) Q
          (emit_progress_step aws nas database runtime progress begin_maintenance which completed)
          (λ _. return a)
          (Leads-keep E (Q a) _ (weaken_after a) (
            emit-Keeps aws nas database runtime progress (Q a) (calm_after a) begin_maintenance
              which completed))
          (λ _ s q. q) s h

    pub step-Leads :
        (operation : Exec S A)
        → Leads E P Q operation
        → Leads E P Q (step aws nas database runtime progress which operation)
    unfolding step run_progress_step
    step-Leads operation h =
        Leads-bind E P (λ _. P) Q
          (emit_progress_step aws nas database runtime progress begin_maintenance which started)
          (λ _ s.
            step_result aws nas database runtime progress begin_maintenance which (operation s))
          (Leads-keep E P _ weaken (
            emit-Keeps aws nas database runtime progress P calm_before begin_maintenance which
              started))
          (λ _ s p. result-Lands (operation s).0 (operation s).1 (h s p))

  module _ (P : S → Type 0) (laws : Quiescing P) where
    open laws use {is_running, calm, calm_stopped, told, stops, stop_told, activates}

    abbrev pub Stopped : S → Type 0
    Stopped s = P s × (is_running s ≡ false)

    -- What a status tells of the worlds after it.
    abbrev pub Known : Bool → S → Type 0
    Known true = P
    Known false = Stopped

    pub Known-P : (b : Bool) (s : S) → Known b s → P s
    Known-P true s p = p
    Known-P false s p = p.0

    pub Known-Calm : (b : Bool) → Calm aws nas database runtime progress (Known b)
    Known-Calm true = calm
    Known-Calm false = calm_stopped

    known : (b : Bool) (s : S) → P s → is_running s ≡ b → Known b s
    known true s p e = p
    known false s p e = (p, e)

    pub status-Leads : Leads P P (λ (c : NasCollectorStatus). Known c.running) nas.status
    status-Leads s p = reported (nas.status s).0 (nas.status s).1 refl (calm.status s p)
      where
        reported :
            (r : Result NasCollectorStatus) (t : S)
            → nas.status s ≡ (r, t)
            → P t
            → Lands P (λ (c : NasCollectorStatus). Known c.running) (r, t)
        reported (err e) t h p = p
        reported (ok c) t h p = known c.running t p (told s t c h)

    -- A stop that returns has found the collector stopped.
    stop-Leads : Leads P P (λ _. Stopped) (stop_collector aws nas database)
    unfolding stop_collector
    stop-Leads s p = reported (nas.stop s).0 (nas.stop s).1 refl (stops s p)
      where
        checked :
            (b : Bool) (e : Error) (c : NasCollectorStatus) (t : S)
            → P t
            → is_running t ≡ b
            → Lands P (λ _. Stopped) ((raise_when b e >> return c) t)
        checked true e c t p h = p
        checked false e c t p h = (p, h)

        reported :
            (r : Result NasCollectorStatus) (t : S)
            → nas.stop s ≡ (r, t)
            → P t
            → Lands P
                (λ _. Stopped)
                (proceed r
                  (λ c.
                    raise_when c.running
                      (runtime_error "NAS collector remained running after stop.")
                    >> return c)
                  t)
        reported (err e) t h p = p
        reported (ok c) t h p = checked c.running _ c t p (stop_told s t c h)

    pub stop_step-Leads :
        (c : NasCollectorStatus)
        → Leads P (Known c.running) (λ _. Stopped) (stop_step aws nas database runtime progress c)
    unfolding stop_step
    stop_step-Leads c = split c.running
      where
        skip : Exec S (Unit {0})
        skip =
            emit_progress_step aws nas database runtime progress begin_maintenance
              AdministrationWorkflowStep.stop_collector skipped

        stop : Exec S NasCollectorStatus
        stop =
            step aws nas database runtime progress AdministrationWorkflowStep.stop_collector
              (stop_collector aws nas database)

        split :
            (b : Bool)
            → Leads P (Known b) (λ _. Stopped) (if b then (stop >>= λ stopped. return tt) else skip)
        split true =
            Leads-bind P P (λ _. Stopped) (λ _. Stopped) stop (λ _. return tt)
              (step-Leads P P (λ _. Stopped) calm calm (λ _. calm_stopped) (λ s p. p) (λ _ s q. q.0)
                AdministrationWorkflowStep.stop_collector (stop_collector aws nas database)
                stop-Leads)
              (λ _ s q. q)
        split false =
            Leads-keep P Stopped skip (λ s q. q.0)
              (emit-Keeps aws nas database runtime progress Stopped calm_stopped begin_maintenance
                AdministrationWorkflowStep.stop_collector skipped)

    require_window-Keeps :
        (e : Error) (o : Option MaintenanceWindow) → Keeps Stopped (require_window e o)
    require_window-Keeps e none s q = q
    require_window-Keeps e (some w) s q = q

    require_open-Keeps :
        (phases : List MaintenancePhase)
        → Keeps Stopped (require_open_phase aws nas database phases)
    unfolding require_open_phase
    require_open-Keeps phases =
        Keeps-bind Stopped database.get_open_maintenance _ calm_stopped.reads_window λ o.
          Keeps-bind Stopped (require_window _ o) _ (require_window-Keeps _ o) λ w.
            Keeps-bind Stopped (raise_when (not (any (same_phase w.phase) phases)) _)
              (λ _. return w) (Keeps-raise_when Stopped _ _) (λ _ s q. q)

    pub activate-Leads :
        (was : Bool) → Leads P Stopped (λ _. P) (activate_maintenance aws nas database was)
    unfolding activate_maintenance
    activate-Leads was =
        Leads-bind P Stopped (λ _. Stopped) (λ _. P)
          (require_open_phase aws nas database (MaintenancePhase.entering ∷ [])) _
          (Leads-keep P Stopped _ (λ s q. q.0)
            (require_open-Keeps (MaintenancePhase.entering ∷ [])))
          λ w.
            Leads-bind P Stopped (λ _. Stopped) (λ _. P) (aws.queue_depths false) _
              (Leads-keep P Stopped (aws.queue_depths false) (λ s q. q.0)
                (calm_stopped.depths false))
              λ depths.
                Leads-check P Stopped (λ _. P) (any_message depths) _
                  (raise_when (differs_from_recorded w.collector_was_running was) _
                    >> database.activate w.id was depths)
                  (λ s q. q.0)
                  λ empty.
                    Leads-check P Stopped (λ _. P)
                      (differs_from_recorded w.collector_was_running was) _
                      (database.activate w.id was depths) (λ s q. q.0)
                      λ agrees. λ s q.
                        landed (database.activate w.id was depths s).0
                          (database.activate w.id was depths s).1
                          (activates w.id was depths s empty q.0 q.1)
      where
        landed :
            (r : Result MaintenanceWindow) (s : S)
            → P s
            → Lands P (λ (_ : MaintenanceWindow). P) (r, s)
        landed (err e) s p = p
        landed (ok a) s p = p

    -- One step of the workflow whose operation keeps a predicate.
    pub kept_step :
        {A : Type 0} (Q : S → Type 0) (which : AdministrationWorkflowStep) (operation : Exec S A)
        → Calm aws nas database runtime progress Q
        → ((s : S) → Q s → P s)
        → Keeps Q operation
        → Leads P Q (λ _. Q) (step aws nas database runtime progress which operation)
    kept_step Q which operation calm_q weaken k =
        step-Leads P Q (λ _. Q) calm calm_q (λ _. calm_q) weaken (λ _. weaken) which operation
          (Leads-keep P Q operation weaken k)

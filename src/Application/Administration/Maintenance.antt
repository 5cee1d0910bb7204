-- ===== src/Application/Administration/Maintenance.antt =====
-- application/administration.py: opening and activating a maintenance window, and the checks of the
-- workflows.
use Prim.Native.Char.{code}
use fpl_data_relay.Prelude.{
  ℕ, String, Bool, true, false, not, ◌&&◌, ◌||◌, Option, none, some, List, [], ◌∷◌, ◌==◌, leb, ◌=?◌,
  string_key, any, if◌then◌else◌,
}
use fpl_data_relay.Result.{Result, ok, err, Error, value_error, runtime_error}
use fpl_data_relay.Exec.{Exec, return, raise, lift, raise_when, for_each, ◌>>=◌, ◌>>◌}
use fpl_data_relay.Application.Administration.Ports.{
  disabled, QueueDepth, total, MaintenancePhase, entering, active, exiting, closed,
  MaintenanceWindow, NasCollectorStatus, AwsAdministration, NasAdministration,
  AdministrationDatabase,
}
use fpl_data_relay.Application.Administration.Drain.{any_message}

-- `str.isspace` of one character.
abbrev is_space : ℕ → Bool
is_space c =
    leb 9 c && leb c 13
    || leb 28 c && leb c 32
    || c == 133
    || c == 160
    || c == 5760
    || leb 8192 c && leb c 8202
    || c == 8232
    || c == 8233
    || c == 8239
    || c == 8287
    || c == 12288

lstrip : String → String
lstrip String.[] = ""
lstrip (String.◌∷◌ c s) = if is_space (code c) then lstrip s else String.◌∷◌ c s

rstrip : String → String
rstrip String.[] = ""
rstrip (String.◌∷◌ c s) =
    let rest = rstrip s in if is_space (code c) && rest =? "" then "" else String.◌∷◌ c rest

-- `str.strip`
pub strip : String → String
unfolding lstrip rstrip
strip s = rstrip (lstrip s)

-- `AdministrationReason(reason=reason).reason`
unfoldable pub normalize_reason : String → Result String
unfolding strip
normalize_reason value =
    if value =? ""
    then err (value_error "String should have at least 1 character")
    else if strip value =? ""
    then err (value_error "Administration reason must not be blank.")
    else ok (strip value)

unfoldable pub starts_with : String → String → Bool
starts_with String.[] s = true
starts_with (String.◌∷◌ c p) String.[] = false
starts_with (String.◌∷◌ c p) (String.◌∷◌ d s) = code c == code d && starts_with p s

-- `part in s`
pub has_part : String → String → Bool
unfolding starts_with
has_part part String.[] = starts_with part ""
has_part part (String.◌∷◌ c s) = starts_with part (String.◌∷◌ c s) || has_part part s

abbrev pub same_phase : MaintenancePhase → MaintenancePhase → Bool
same_phase entering entering = true
same_phase active active = true
same_phase exiting exiting = true
same_phase closed closed = true
same_phase entering _ = false
same_phase active _ = false
same_phase exiting _ = false
same_phase closed _ = false

abbrev pub same_truth : Bool → Bool → Bool
same_truth true b = b
same_truth false b = not b

-- `recorded is not None and recorded != running`
abbrev pub differs_from_recorded : Option Bool → Bool → Bool
differs_from_recorded none running = false
differs_from_recorded (some recorded) running = not (same_truth recorded running)

abbrev pub require_window : {S A : Type 0} → Error → Option A → Exec S A
require_window e none = raise e
require_window e (some a) = return a

module _ {S : Type 0} (aws : AwsAdministration S) (nas : NasAdministration S)
    (database : AdministrationDatabase S) where
  -- `_require_open_phase`
  unfoldable pub require_open_phase : List MaintenancePhase → Exec S MaintenanceWindow
  require_open_phase phases = do
    open_window ← database.get_open_maintenance
    window ← require_window (runtime_error "No maintenance window is open.") open_window
    raise_when (not (any (same_phase window.phase) phases))
        (runtime_error "Maintenance window has another phase.")
    return window

  -- `_require_send_allowed`
  pub require_send_allowed : (allow_maintenance : Bool) → Exec S (Unit {0})
  require_send_allowed allow_maintenance = do
    is_active ← database.maintenance_active
    raise_when (is_active && not allow_maintenance)
        (runtime_error "Queue sends are blocked during maintenance.")

  -- `_ensure_dead_letters_empty`
  unfoldable pub ensure_dead_letters_empty : Exec S (Unit {0})
  unfolding has_part
  ensure_dead_letters_empty = do
    depths ← aws.queue_depths true
    raise_when (any (λ d. has_part "dead-letter" d.name && not (total d == 0)) depths)
        (runtime_error "Dead-letter queues require review.")

  -- `_require_working_queues_empty_for_end`
  pub require_working_queues_empty_for_end : Exec S (List QueueDepth)
  require_working_queues_empty_for_end = do
    depths ← aws.queue_depths false
    raise_when (any_message depths)
        (runtime_error "Cannot end maintenance while queues are nonempty.")
    return depths

  unfoldable pub stop_collector : Exec S NasCollectorStatus
  stop_collector = do
    stopped ← nas.stop
    raise_when stopped.running (runtime_error "NAS collector remained running after stop.")
    return stopped

  pub start_collector : Exec S NasCollectorStatus
  start_collector = do
    collector ← nas.start
    raise_when (not collector.running) (runtime_error "NAS collector did not start.")
    return collector

  -- A new window, with what the systems look like before.
  unfoldable pub open_new : String → Option Bool → Exec S MaintenanceWindow
  open_new reason collector_was_running = do
    identity ← aws.identity
    schedules ← aws.schedule_snapshots
    queues_before ← aws.queue_depths false
    database.open_maintenance reason identity.arn schedules queues_before collector_was_running

  -- The retry of an opening.
  unfoldable pub reopen : String → MaintenanceWindow → Exec S MaintenanceWindow
  reopen reason existing = do
    raise_when (not (same_phase existing.phase entering))
        (runtime_error "Maintenance window has another phase.")
    raise_when (not (existing.reason =? reason))
        (runtime_error "Open maintenance reason does not match this retry.")
    return existing

  unfoldable pub open_or_reopen :
      String → Option Bool → Option MaintenanceWindow → Exec S MaintenanceWindow
  unfolding open_new reopen
  open_or_reopen reason collector_was_running none = open_new reason collector_was_running
  open_or_reopen reason collector_was_running (some existing) = reopen reason existing

  unfoldable pub pause_schedules : String → Option Bool → Exec S MaintenanceWindow
  unfolding open_or_reopen normalize_reason
  pause_schedules reason collector_was_running = do
    normalized_reason ← lift (normalize_reason reason)
    existing ← database.get_open_maintenance
    window ← open_or_reopen normalized_reason collector_was_running existing
    for_each (λ s. aws.set_schedule_state s disabled s.schedule_expression) window.schedules
    return window

  unfoldable pub activate_maintenance : (collector_was_running : Bool) → Exec S MaintenanceWindow
  unfolding require_open_phase
  activate_maintenance collector_was_running = do
    window ← require_open_phase (entering ∷ [])
    depths ← aws.queue_depths false
    raise_when (any_message depths)
        (runtime_error "Cannot activate maintenance while queues are nonempty.")
    raise_when (differs_from_recorded window.collector_was_running collector_was_running)
        (runtime_error "Collector state differs from the recorded begin state.")
    database.activate window.id collector_was_running depths

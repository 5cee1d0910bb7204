-- ===== src/Collector/Loop.antt =====
-- collector.py, `run`: a failed job is logged and leaves the worker running, with its message undeleted.
use fpl_data_relay.Prelude.{
  ℕ, zero, suc, String, Option, none, some, List, [], ◌∷◌, ◌=?◌, string_key,
}
use fpl_data_relay.Result.{ok, runtime_error}
use fpl_data_relay.Exec.{Exec, return, raise, raise_when, ◌>>=◌, ◌>>◌}
use fpl_data_relay.Collector.{
  CollectorSettings, CollectorPorts, CollectorLibraries, SqsMessage, process_message,
}

-- `except Exception`
abbrev pub isolated : {S : Type 0} → Exec S (Unit {0}) → Exec S (Unit {0})
isolated m s = (ok tt, (m s).1)

-- The check of the caller's ARN, for `arn.strip()`
abbrev pub require_arn : {S : Type 0} → (String → String) → Option String → Exec S (Unit {0})
require_arn strip none = raise (runtime_error "STS GetCallerIdentity returned no caller ARN.")
require_arn strip (some arn) =
    raise_when (strip arn =? "") (runtime_error "STS GetCallerIdentity returned no caller ARN.")

module _ {S : Type 0} (settings : CollectorSettings) (ports : CollectorPorts S)
    (libraries : CollectorLibraries) (strip : String → String) where
  unfoldable pub check_aws_access : Exec S (Unit {0})
  check_aws_access = do
    arn ← ports.get_caller_identity
    ports.get_queue_attributes
    require_arn strip arn

  unfoldable pub process_each : List SqsMessage → Exec S (Unit {0})
  process_each [] = return tt
  process_each (message ∷ messages) = do
    isolated (process_message settings ports libraries message)
    process_each messages

  -- So many turns of the loop that ends with the process.
  unfoldable pub turns : ℕ → Exec S (Unit {0})
  unfolding process_each
  turns zero = return tt
  turns (suc n) = do
    messages ← ports.receive_message
    ports.touch_heartbeat
    process_each messages
    turns n

  unfoldable pub run : ℕ → Exec S (Unit {0})
  unfolding check_aws_access turns
  run n = do check_aws_access; ports.touch_heartbeat; turns n

-- ===== src/LambdaIngestion/Definitions.antt =====
-- lambda_ingestion.py: the definitions of schedules, as requests and as what is compared.
use Prim.Native.String.{◌++◌ as ◌<>◌}
use fpl_data_relay.Prelude.{
  ℕ, String, Bool, true, false, ◌&&◌, ==_iff, none, some, ◌==◌, leb, ◌=?◌, string_key, ◌≡◌, refl,
  arith, if◌then◌else◌,
}
use fpl_data_relay.Result.{Result, ok, err, Error, runtime_error, ◌>>=◌, >>=-inv}
use fpl_data_relay.Domain.Json.{Json, Fields, end, field, str, int, obj, pos, find_field}
use fpl_data_relay.Domain.Time.{Datetime}
use fpl_data_relay.Domain.Calendar.{second_stamp}
use fpl_data_relay.Application.Jobs.{MatchWindow, schedule_at, schedule_name, window_job}
use fpl_data_relay.LambdaIngestion.Ports.{Settings, Libraries}

pub record ScheduleRetryDefinition : Type 0 where
  pub maximum_event_age_seconds : ℕ
  pub maximum_retry_attempts : ℕ

-- With the dead-letter definition, which is one name.
pub record ScheduleTargetDefinition : Type 0 where
  pub arn : String
  pub role_arn : String
  pub input : String
  pub dead_letter_arn : String
  pub retry : ScheduleRetryDefinition

-- With the flexible-window definition, which is one mode.
pub record LiveScheduleDefinition : Type 0 where
  pub name : String
  pub group_name : String
  pub schedule_expression : String
  pub schedule_expression_timezone : String
  pub flexible_mode : String
  pub action_after_completion : String
  pub state : String
  pub target : ScheduleTargetDefinition

abbrev pub invalid_definition : Error
invalid_definition = runtime_error "Scheduler returned an invalid definition."

-- `str` of at least one character, under `strict`.
abbrev as_text : Json → Result String
as_text (str s) = if s =? "" then err invalid_definition else ok s
as_text _ = err invalid_definition

abbrev as_bounded : (least most : ℕ) → Json → Result ℕ
as_bounded least most (int (pos n)) =
    if leb least n && leb n most then ok n else err invalid_definition
as_bounded least most _ = err invalid_definition

abbrev as_object : Json → Result Fields
as_object (obj fields) = ok fields
as_object _ = err invalid_definition

abbrev required : String → Fields → Result Json
required name fields = elim (find_field name fields) [
  | none ↦ err invalid_definition
  | some v ↦ ok v
]

abbrev text : String → Fields → Result String
text name fields = required name fields >>= as_text

abbrev object : String → Fields → Result Fields
object name fields = required name fields >>= as_object

abbrev number : String → (least most : ℕ) → Fields → Result ℕ
number name least most fields = required name fields >>= as_bounded least most

parse_target : Fields → Result ScheduleTargetDefinition
parse_target fields = do
  arn ← text "Arn" fields
  role_arn ← text "RoleArn" fields
  input ← text "Input" fields
  dead_letter ← object "DeadLetterConfig" fields
  dead_letter_arn ← text "Arn" dead_letter
  retry ← object "RetryPolicy" fields
  age ← number "MaximumEventAgeInSeconds" 60 86_400 retry
  attempts ← number "MaximumRetryAttempts" 0 185 retry
  ok (record {
    arn = arn;
    role_arn = role_arn;
    input = input;
    dead_letter_arn = dead_letter_arn;
    retry = record { maximum_event_age_seconds = age; maximum_retry_attempts = attempts };
  })

-- Every ValidationError becomes the one RuntimeError.
unfoldable pub parse_schedule_definition : Fields → Result LiveScheduleDefinition
unfolding parse_target
parse_schedule_definition fields = do
  name ← text "Name" fields
  group_name ← text "GroupName" fields
  schedule_expression ← text "ScheduleExpression" fields
  timezone ← text "ScheduleExpressionTimezone" fields
  flexible ← object "FlexibleTimeWindow" fields
  flexible_mode ← text "Mode" flexible
  action ← text "ActionAfterCompletion" fields
  state ← text "State" fields
  target_fields ← object "Target" fields
  target ← parse_target target_fields
  ok (record {
    name = name;
    group_name = group_name;
    schedule_expression = schedule_expression;
    schedule_expression_timezone = timezone;
    flexible_mode = flexible_mode;
    action_after_completion = action;
    state = state;
    target = target;
  })

abbrev same_target : ScheduleTargetDefinition → ScheduleTargetDefinition → Bool
same_target a b =
    a.arn =? b.arn
    && a.role_arn =? b.role_arn
    && a.input =? b.input
    && a.dead_letter_arn =? b.dead_letter_arn
    && a.retry.maximum_event_age_seconds == b.retry.maximum_event_age_seconds
    && a.retry.maximum_retry_attempts == b.retry.maximum_retry_attempts

-- `actual == desired_definition`
abbrev pub same_definition : LiveScheduleDefinition → LiveScheduleDefinition → Bool
same_definition a b =
    a.name =? b.name
    && a.group_name =? b.group_name
    && a.schedule_expression =? b.schedule_expression
    && a.schedule_expression_timezone =? b.schedule_expression_timezone
    && a.flexible_mode =? b.flexible_mode
    && a.action_after_completion =? b.action_after_completion
    && a.state =? b.state
    && same_target a.target b.target

module _ (settings : Settings) (libraries : Libraries) where
  -- The request, from the name, the start in UTC and the encoded job.
  abbrev pub request : (name expression input : String) → Fields
  request name expression input = field "Name" (str name) (
      field "GroupName" (str settings.schedule_group_name) (
        field "ScheduleExpression" (str expression) (
          field "ScheduleExpressionTimezone" (str "UTC") (
            field "FlexibleTimeWindow" (obj (field "Mode" (str "OFF") end)) (
              field "ActionAfterCompletion" (str "NONE") (
                field "State" (str "ENABLED") (
                  field "Target"
                    (obj (
                      field "Arn" (str settings.fetch_queue_arn) (
                        field "RoleArn" (str settings.schedule_target_role_arn) (
                          field "Input" (str input) (
                            field "DeadLetterConfig"
                              (obj (field "Arn" (str settings.schedule_dead_letter_queue_arn) end))
                              (field "RetryPolicy"
                                (obj (
                                  field "MaximumEventAgeInSeconds" (int (pos 900))
                                    (field "MaximumRetryAttempts" (int (pos 3)) end)))
                                end))))))
                    end)))))))

  unfoldable pub schedule_parameters : MatchWindow → Datetime → Result Fields
  unfolding schedule_name second_stamp
  schedule_parameters window now = do
    utc_start ← schedule_at window now
    job ← window_job window
    ok (
        request (schedule_name window) ("at(" <> second_stamp utc_start <> ")")
          (libraries.dump_job job))

both : (p q : Bool) → (p && q) ≡ true → (p ≡ true) × (q ≡ true)
both true q h = (refl, h)
both false q h = cc

same_target-eq : (a b : ScheduleTargetDefinition) → same_target a b ≡ true → a ≡ b
same_target-eq a b h =
    let (h1, attempts) = both _ _ h in
    let (h2, age) = both _ _ h1 in
    let (h3, letter) = both _ _ h2 in
    let (h4, input) = both _ _ h3 in
    let (arn, role) = both _ _ h4 in
    let arns : a.arn ≡ b.arn = (string_key.beq_iff a.arn b.arn).0 arn in
    let roles : a.role_arn ≡ b.role_arn = (string_key.beq_iff a.role_arn b.role_arn).0 role in
    let inputs : a.input ≡ b.input = (string_key.beq_iff a.input b.input).0 input in
    let letters : a.dead_letter_arn ≡ b.dead_letter_arn = (string_key.beq_iff _ _).0 letter in
    let ages : a.retry.maximum_event_age_seconds ≡ b.retry.maximum_event_age_seconds =
      (==_iff _ _).0 age in
    let retries : a.retry.maximum_retry_attempts ≡ b.retry.maximum_retry_attempts =
      (==_iff _ _).0 attempts in
    cc (arns, roles, inputs, letters, ages, retries)

-- Definitions that compare equal are equal.
pub same_definition-eq : (a b : LiveScheduleDefinition) → same_definition a b ≡ true → a ≡ b
same_definition-eq a b h =
    let (h1, target) = both _ _ h in
    let (h2, state) = both _ _ h1 in
    let (h3, action) = both _ _ h2 in
    let (h4, mode) = both _ _ h3 in
    let (h5, zone) = both _ _ h4 in
    let (h6, expression) = both _ _ h5 in
    let (name, group) = both _ _ h6 in
    let names : a.name ≡ b.name = (string_key.beq_iff _ _).0 name in
    let groups : a.group_name ≡ b.group_name = (string_key.beq_iff _ _).0 group in
    let expressions : a.schedule_expression ≡ b.schedule_expression =
      (string_key.beq_iff _ _).0 expression in
    let zones : a.schedule_expression_timezone ≡ b.schedule_expression_timezone =
      (string_key.beq_iff _ _).0 zone in
    let modes : a.flexible_mode ≡ b.flexible_mode = (string_key.beq_iff _ _).0 mode in
    let actions : a.action_after_completion ≡ b.action_after_completion =
      (string_key.beq_iff _ _).0 action in
    let states : a.state ≡ b.state = (string_key.beq_iff _ _).0 state in
    let targets : a.target ≡ b.target = same_target-eq a.target b.target target in
    cc (names, groups, expressions, zones, modes, actions, states, targets)

-- A request names its window, and asks for a valid job.
pub schedule_parameters-Name :
    (settings : Settings) (libraries : Libraries) (window : MatchWindow) (now : Datetime)
    (parameters : Fields)
    → schedule_parameters settings libraries window now ≡ ok parameters
    → (expression input : String) × (parameters
        ≡ request settings libraries (schedule_name window) expression input)
unfolding schedule_parameters
schedule_parameters-Name settings libraries window now parameters h =
    let (utc_start, _, h1) = >>=-inv (schedule_at window now) _ h in
    let (job, _, h2) = >>=-inv (window_job window) _ h1 in
    ("at(" <> second_stamp utc_start <> ")", libraries.dump_job job, ground (arith, h2))

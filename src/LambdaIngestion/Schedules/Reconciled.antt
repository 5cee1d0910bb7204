-- ===== src/LambdaIngestion/Schedules/Reconciled.antt =====
-- What the reconciliation leaves in the scheduler.
use fpl_data_relay.Prelude.{
  ℕ, ◌≡◌, refl, ap, sym, ◌∙◌, ◌⊎◌, inl, inr, String, Bool, true, false, ◌&&◌, Option, none, some,
  List, arith, ◌=?◌, string_key, contains, if◌then◌else◌,
}
use fpl_data_relay.Result.{Result, ok}
use fpl_data_relay.Exec.{Exec, return, lift, lift-inv, bind-inv, then_return-inv, ◌>>◌, ◌>>=◌}
use fpl_data_relay.Domain.Json.{Fields, str, find_field}
use fpl_data_relay.Domain.Time.{Datetime, not_after}
use fpl_data_relay.Application.Jobs.{MatchWindow, schedule_name}
use fpl_data_relay.LambdaIngestion.Ports.{Settings, Services, Libraries}
use fpl_data_relay.LambdaIngestion.Definitions.{
  LiveScheduleDefinition, parse_schedule_definition, same_definition, same_definition-eq,
  schedule_parameters, schedule_parameters-Name,
}
use fpl_data_relay.LambdaIngestion.Schedules.{reconcile_one, update_existing}

-- The "Name" of a request.
abbrev pub named : Fields → String
named fields = elim (find_field "Name" fields) [
  | none ↦ ""
  | some v ↦ elim v [ str s ↦ s | _ ↦ "" ]
]

abbrev pub Written : String → Option Fields → (before after : String → Option Fields) → Type 0
Written name value before after = (n : String) → after n ≡ (if name =? n then value else before n)

-- A scheduler group: its schedules by name. A create or update that returns stores its request, a
-- deletion removes one name, and a get finds what is stored.
pub record ScheduleStore {S : Type 0} (settings : Settings) (services : Services S) : Type 0 where
  pub stored : S → String → Option Fields
  pub creates :
      (parameters : Fields) (s s' : S)
      → services.scheduler.create_schedule parameters s ≡ (ok tt, s')
      → Written (named parameters) (some parameters) (stored s) (stored s')
  pub updates :
      (parameters : Fields) (s s' : S)
      → services.scheduler.update_schedule parameters s ≡ (ok tt, s')
      → Written (named parameters) (some parameters) (stored s) (stored s')
  pub deletes :
      (name : String) (s s' : S)
      → services.scheduler.delete_schedule settings.schedule_group_name name s ≡ (ok tt, s')
      → Written name none (stored s) (stored s')
  pub gets :
      (name : String) (s s' : S) (found : Fields)
      → services.scheduler.get_schedule settings.schedule_group_name name s ≡ (ok found, s')
      → (stored s' ≡ stored s) × (stored s name ≡ some found)

-- The stored schedule says what the request for the window says.
pub record IsCurrent (settings : Settings) (libraries : Libraries) (now : Datetime)
    (window : MatchWindow) (o : Option Fields) : Type 0 where
  pub found : Fields
  pub is_stored : o ≡ some found
  pub parameters : Fields
  pub requested : schedule_parameters settings libraries window now ≡ ok parameters
  pub same : parse_schedule_definition found ≡ parse_schedule_definition parameters

Written-same :
    (name : String) (value : Option Fields) (before after : String → Option Fields)
    → Written name value before after
    → after name ≡ value
Written-same name value before after w = ground (arith, w name, string_key.beq_iff name name)

Written-other :
    (name : String) (value : Option Fields) (before after : String → Option Fields)
    → Written name value before after
    → (n : String) → (name =? n) ≡ false
    → after n ≡ before n
Written-other name value before after w n other = w n ∙ rw other refl

module _ {S : Type 0} (settings : Settings) (services : Services S) (libraries : Libraries)
    (store : ScheduleStore settings services) where
  open store use {stored, creates, updates, deletes, gets}

  named_parameters :
      (window : MatchWindow) (now : Datetime) (parameters : Fields)
      → schedule_parameters settings libraries window now ≡ ok parameters
      → named parameters ≡ schedule_name window
  named_parameters window now parameters h =
      let (expression, input, e) =
        schedule_parameters-Name settings libraries window now parameters h in
      ap named e

  -- The schedule of a name after its step, and all others.
  pub record OneDone (name : String) (P : Option Fields → Type 0) (s s' : S) : Type 0 where
    pub others : (n : String) → (name =? n) ≡ false → stored s' n ≡ stored s n
    pub this : P (stored s' name)

  module _ (now : Datetime) (window : MatchWindow) (parameters : Fields)
      (asked : schedule_parameters settings libraries window now ≡ ok parameters) where
    abbrev name : String
    name = schedule_name window

    abbrev Current : Option Fields → Type 0
    Current = IsCurrent settings libraries now window

    -- Storing the request brings a schedule up to date.
    stored-OneDone :
        (s s' : S)
        → Written (named parameters) (some parameters) (stored s) (stored s')
        → OneDone name Current s s'
    stored-OneDone s s' w =
        let w' : Written name (some parameters) (stored s) (stored s') = λ n.
          w n
          ∙ ap (λ m. if m =? n then some parameters else stored s n)
              (named_parameters window now parameters asked) in
        record {
          others = Written-other name (some parameters) (stored s) (stored s') w';
          this = record {
            found = parameters;
            is_stored = Written-same name (some parameters) (stored s) (stored s') w';
            parameters = parameters;
            requested = asked;
            same = refl;
          };
        }

    -- The comparison with what a get has found, and the update where they differ.
    compared-OneDone :
        (s t s' : S) (found : Fields) (actual desired : LiveScheduleDefinition) {c : ℕ × ℕ}
        → stored t ≡ stored s
        → stored s name ≡ some found
        → parse_schedule_definition found ≡ ok actual
        → parse_schedule_definition parameters ≡ ok desired
        → (if same_definition actual desired
              then return (0, 0)
              else services.scheduler.update_schedule parameters >> return (0, 1))
            t
          ≡ (ok c, s')
        → OneDone name Current s s'
    compared-OneDone s t s' found actual desired {c} unchanged is_found a d h =
        split (same_definition actual desired) refl h
      where
        split :
            (b : Bool)
            → same_definition actual desired ≡ b
            → (if b
                  then return (0, 0)
                  else services.scheduler.update_schedule parameters >> return (0, 1))
                t
              ≡ (ok c, s')
            → OneDone name Current s s'
        split true e h =
            let end : stored s' ≡ stored s =
              ap (λ (p : Result (ℕ × ℕ) × S). stored p.1) (sym h) ∙ unchanged in
            record {
              others = λ n other. ap (λ f. f n) end;
              this = record {
                found = found;
                is_stored = ap (λ f. f name) end ∙ is_found;
                parameters = parameters;
                requested = asked;
                same = a ∙ ap ok (same_definition-eq actual desired e) ∙ sym d;
              };
            }
        split false e h =
            let done =
              then_return-inv (services.scheduler.update_schedule parameters) (0, 1) t s' h in
            let one = stored-OneDone t s' (updates parameters t s' done) in
            record {
              others = λ n other. one.others n other ∙ ap (λ f. f n) unchanged;
              this = one.this;
            }

    update_existing-OneDone :
        (s s' : S) {c : ℕ × ℕ}
        → update_existing settings services libraries name parameters s ≡ (ok c, s')
        → OneDone name Current s s'
    unfolding update_existing
    update_existing-OneDone s s' h =
        let (found, t, got, h1) =
          bind-inv (services.scheduler.get_schedule settings.schedule_group_name name) _ s s' h in
        let (actual, a, h2) = lift-inv (parse_schedule_definition found) _ t s' h1 in
        let (desired, d, h3) = lift-inv (parse_schedule_definition parameters) _ t s' h2 in
        let (unchanged, is_found) = gets name s t found got in
        compared-OneDone s t s' found actual desired unchanged is_found a d h3

  -- A window that has begun keeps its schedule; any other gets one that is current.
  abbrev pub Outcome :
      List String → Datetime → MatchWindow → (before after : Option Fields) → Type 0
  Outcome existing now window before after =
      ((contains (schedule_name window) existing && not_after window.start now) ≡ true)
        × (after ≡ before)
      ⊎ ((contains (schedule_name window) existing && not_after window.start now) ≡ false)
        × IsCurrent settings libraries now window after

  pub reconcile_one-OneDone :
      (existing : List String) (now : Datetime) (window : MatchWindow) (s s' : S) {c : ℕ × ℕ}
      → reconcile_one settings services libraries existing now (schedule_name window) window s
        ≡ (ok c, s')
      → OneDone
          (schedule_name window)
          (Outcome existing now window (stored s (schedule_name window)))
          s
          s'
  unfolding reconcile_one
  reconcile_one-OneDone existing now window s s' {c} h =
      split (contains (schedule_name window) existing && not_after window.start now) refl h
    where
      name : String
      name = schedule_name window

      write : Bool → Fields → Exec S (ℕ × ℕ)
      write is_there parameters =
          if is_there
          then update_existing settings services libraries name parameters
          else services.scheduler.create_schedule parameters >> return (1, 0)

      write-OneDone :
          (is_there : Bool) (parameters : Fields)
          → schedule_parameters settings libraries window now ≡ ok parameters
          → write is_there parameters s ≡ (ok c, s')
          → OneDone name (IsCurrent settings libraries now window) s s'
      write-OneDone true parameters asked h =
          update_existing-OneDone now window parameters asked s s' h
      write-OneDone false parameters asked h = stored-OneDone now window parameters asked s s' (
          creates parameters s s'
            (then_return-inv (services.scheduler.create_schedule parameters) (1, 0) s s' h))

      split :
          (b : Bool)
          → (contains name existing && not_after window.start now) ≡ b
          → (if b
                then return (0, 0)
                else lift (schedule_parameters settings libraries window now)
                  >>= write (contains name existing))
              s
            ≡ (ok c, s')
          → OneDone name (Outcome existing now window (stored s name)) s s'
      split true e h =
          let end : stored s' ≡ stored s = ap (λ (p : Result (ℕ × ℕ) × S). stored p.1) (sym h) in
          record { others = λ n other. ap (λ f. f n) end; this = inl (e, ap (λ f. f name) end) }
      split false e h =
          let (parameters, asked, h1) =
            lift-inv (schedule_parameters settings libraries window now)
              (write (contains name existing)) s s' h in
          let one = write-OneDone (contains name existing) parameters asked h1 in
          record { others = one.others; this = inr (e, one.this) }

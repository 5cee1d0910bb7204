-- ===== src/LambdaIngestion/Schedules/Whole.antt =====
-- What the whole reconciliation leaves in the scheduler: its loops over obsolete and desired names.
use fpl_data_relay.Prelude.{
  ℕ, ◌+◌, ◌≡◌, refl, ap, sym, ◌∙◌, inl, inr, String, Bool, true, false, not, ◌||◌, Option, none,
  some, List, [], ◌∷◌, arith, ◌=?◌, string_key, contains, filter, if◌then◌else◌, Bool-cases, All,
}
use fpl_data_relay.Prelude.Dict.{
  Dict, get, put, is_some, contains-keys, contains-sorted_set, HasUniqueKeys, put-HasUniqueKeys,
}
use fpl_data_relay.Exec.{bind-inv}
use fpl_data_relay.Result.{Result, ok}
use fpl_data_relay.Domain.Json.{Fields}
use fpl_data_relay.Domain.Time.{Datetime}
use fpl_data_relay.Application.Jobs.{MatchWindow, schedule_name}
use fpl_data_relay.LambdaIngestion.Ports.{Settings, Services, Libraries}
use fpl_data_relay.LambdaIngestion.Schedules.{
  ScheduleReconciliationResult, desired_from, obsolete_names, reconcile_one, reconcile_each,
  delete_each, reconcile_found,
}
use fpl_data_relay.LambdaIngestion.Schedules.Reconciled.{
  ScheduleStore, Outcome, reconcile_one-OneDone,
}

-- Each window stands under its own schedule name.
abbrev IsNamed : Dict String MatchWindow → Type 0
IsNamed d = All (λ (p : String × MatchWindow). p.0 ≡ schedule_name p.1) d

put-IsNamed :
    (w : MatchWindow) (d : Dict String MatchWindow)
    → IsNamed d
    → IsNamed (put (schedule_name w) w d)
unfolding put
put-IsNamed w [] h = (refl, tt)
put-IsNamed w ((j, v) ∷ d) h = elim (Bool-cases (j =? schedule_name w)) [
  | inl same ↦ rw same ((string_key.beq_iff j (schedule_name w)).0 same, h.1)
  | inr other ↦ rw other (h.0, put-IsNamed w d h.1)
]

desired-IsNamed :
    (d : Dict String MatchWindow) (windows : List MatchWindow)
    → IsNamed d
    → IsNamed (desired_from d windows)
unfolding desired_from
desired-IsNamed d [] h = h
desired-IsNamed d (w ∷ windows) h =
    desired-IsNamed (put (schedule_name w) w d) windows (put-IsNamed w d h)

desired-HasUniqueKeys :
    (d : Dict String MatchWindow) (windows : List MatchWindow)
    → HasUniqueKeys d
    → HasUniqueKeys (desired_from d windows)
unfolding desired_from
desired-HasUniqueKeys d [] h = h
desired-HasUniqueKeys d (w ∷ windows) h =
    desired-HasUniqueKeys (put (schedule_name w) w d) windows
      (put-HasUniqueKeys (schedule_name w) w d h)

contains-filter :
    (test : String → Bool) (n : String) (names : List String)
    → contains n (filter test names) ≡ (if test n then contains n names else false)
contains-filter test n [] = ground arith
contains-filter test n (m ∷ names) = elim (Bool-cases (m =? n)) [
  | inl same ↦
      rw ((string_key.beq_iff m n).0 same)
        (ground (arith, contains-filter test n names, string_key.beq_iff n n))
  | inr other ↦ ground (arith, contains-filter test n names, other)
]

-- A name is obsolete if it exists and no window wants it.
obsolete_exact :
    (existing : List String) (d : Dict String MatchWindow) (n : String)
    → contains n (obsolete_names existing d)
      ≡ (if is_some (get n d) then false else contains n existing)
obsolete_exact existing d n =
    contains-sorted_set n _
    ∙ contains-filter _ n existing
    ∙ rw (contains-keys n d) (swap (is_some (get n d)))
  where
    swap :
        (b : Bool)
        → (if not b then contains n existing else false)
          ≡ (if b then false else contains n existing)
    swap true = refl
    swap false = refl

module _ {S : Type 0} (settings : Settings) (services : Services S) (libraries : Libraries)
    (store : ScheduleStore settings services) where
  open store use {stored, deletes}

  delete_each_lem :
      (names : List String) (s s' : S)
      → delete_each settings services libraries names s ≡ (ok tt, s')
      → (n : String) → stored s' n ≡ (if contains n names then none else stored s n)
  unfolding delete_each
  delete_each_lem [] s s' h n = ap (λ (p : Result (Unit {0}) × S). stored p.1 n) (sym h)
  delete_each_lem (m ∷ names) s s' h n =
      let (u, t, one, rest) =
        bind-inv (services.scheduler.delete_schedule settings.schedule_group_name m) _ s s' h in
      delete_each_lem names t s' rest n
      ∙ ap (λ o. if contains n names then none else o) (deletes m s t one n)
      ∙ both_tests (contains n names) (m =? n) (stored s n)
    where
      both_tests :
          (a b : Bool) (o : Option Fields)
          → (if a then none else if b then none else o) ≡ (if b || a then none else o)
      both_tests true true o = refl
      both_tests true false o = refl
      both_tests false true o = refl
      both_tests false false o = refl

  -- The schedule of a name that the desired windows give, or that they do not name.
  abbrev Settled :
      List String → Datetime → Option MatchWindow → (before after : Option Fields) → Type 0
  Settled existing now none before after = after ≡ before
  Settled existing now (some window) before after =
      Outcome settings services libraries store existing now window before after

  reconcile_each_lem :
      (existing : List String) (now : Datetime) (d : Dict String MatchWindow) (created updated : ℕ)
      (s s' : S) {c : ℕ × ℕ}
      → HasUniqueKeys d
      → IsNamed d
      → reconcile_each settings services libraries existing now d created updated s ≡ (ok c, s')
      → (n : String) → Settled existing now (get n d) (stored s n) (stored s' n)
  unfolding reconcile_each get
  reconcile_each_lem existing now [] created updated s s' {c} unique names h n =
      ap (λ (p : Result (ℕ × ℕ) × S). stored p.1 n) (sym h)
  reconcile_each_lem existing now ((m, w) ∷ d) created updated s s' {c} unique names h n =
      let (counts, t, first, rest) =
        bind-inv (reconcile_one settings services libraries existing now m w) _ s s' h in
      let named_first =
        ap (λ k. reconcile_one settings services libraries existing now k w s) (sym names.0)
        ∙ first in
      let one =
        reconcile_one-OneDone settings services libraries store existing now w s t named_first in
      let later =
        reconcile_each_lem existing now d (created + counts.0) (updated + counts.1) t s' unique.1
          names.1 rest n in
      step t one.others one.this later
    where
      step :
          (t : S)
          → ((k : String) → (schedule_name w =? k) ≡ false → stored t k ≡ stored s k)
          → Outcome settings services libraries store existing now w
              (stored s (schedule_name w))
              (stored t (schedule_name w))
          → Settled existing now (get n d) (stored t n) (stored s' n)
          → Settled existing now (if m =? n then some w else get n d) (stored s n) (stored s' n)
      step t others this later = elim (Bool-cases (m =? n)) [
        | inl same ↦
            let n_is : n ≡ schedule_name w = sym ((string_key.beq_iff m n).0 same) ∙ names.0 in
            let absent : get n d ≡ none =
              ap (λ k. get k d) (sym ((string_key.beq_iff m n).0 same)) ∙ unique.0 in
            let kept : stored s' n ≡ stored t n = simp (absent) at later in
            rw (same, kept, n_is) this
        | inr other ↦ rw (other, sym (others n (ap (λ k. k =? n) (sym names.0) ∙ other))) later
      ]

  -- What becomes of a name: without a desired window its schedule is deleted if it was listed, and
  -- with one it has that window's outcome.
  abbrev pub Reconciled :
      List String → Datetime → String → Option MatchWindow → (before after : Option Fields) → Type 0
  Reconciled existing now n none before after =
      after ≡ (if contains n existing then none else before)
  Reconciled existing now n (some window) before after =
      Outcome settings services libraries store existing now window before after

  -- After a reconciliation that returns, every name is settled: a listed name that no window
  -- wants is gone, an unlisted one is untouched, a desired window whose schedule exists and that
  -- has begun keeps its schedule, and every other desired window has a schedule that says what a
  -- request for it now says.
  pub reconcile_found-Reconciled :
      (existing : List String) (windows : List MatchWindow) (now : Datetime) (s s' : S)
      {r : ScheduleReconciliationResult}
      → reconcile_found settings services libraries existing windows now s ≡ (ok r, s')
      → (n : String)
      → Reconciled existing now n (get n (desired_from [] windows)) (stored s n) (stored s' n)
  unfolding reconcile_found
  reconcile_found-Reconciled existing windows now s s' h n =
      let desired = desired_from [] windows in
      let (u, t, deleted, h1) =
        bind-inv (delete_each settings services libraries (obsolete_names existing desired)) _ s s'
          h in
      let (counts, t1, done, h2) =
        bind-inv (reconcile_each settings services libraries existing now desired 0 0) _ t s' h1 in
      let end : stored s' ≡ stored t1 =
        ap (λ (p : Result ScheduleReconciliationResult × S). stored p.1) (sym h2) in
      finish (get n desired) (stored t1 n) (ap (λ f. f n) end)
        (delete_each_lem (obsolete_names existing desired) s t deleted n
          ∙ ap (λ b. if b then none else stored s n) (obsolete_exact existing desired n))
        (reconcile_each_lem existing now desired 0 0 t t1 (desired-HasUniqueKeys [] windows tt)
          (desired-IsNamed [] windows tt) done n)
    where
      finish :
          (o : Option MatchWindow) (after : Option Fields) {t : S}
          → stored s' n ≡ after
          → stored t n
            ≡ (if (if is_some o then false else contains n existing) then none else stored s n)
          → Settled existing now o (stored t n) after
          → Reconciled existing now n o (stored s n) (stored s' n)
      finish none after e before settled = e ∙ settled ∙ before
      finish (some w) after e before settled = rw (e, sym before) settled

-- ===== src/Application/ScheduleBootstrap/Paused.antt =====
-- What a pause that returns has found.
use fpl_data_relay.Prelude.{
  ◌≡◌, refl, ap, sym, ◌∙◌, String, Bool, true, false, not, ◌||◌, Option, none, some, List, [], ◌∷◌,
  arith, any, All, if◌then◌else◌,
}
use fpl_data_relay.Result.{Result, ok, Error, raise_if, >>=-inv, ◌>>◌ as ◌also◌}
use fpl_data_relay.Exec.{return, for_each, bind-inv, lift-inv, raise_when-inv}
use fpl_data_relay.Domain.Time.{Datetime}
use fpl_data_relay.Application.Administration.Ports.{
  ScheduleState, ScheduleSnapshot, AwsAdministration,
}
use fpl_data_relay.Application.ScheduleBootstrap.{
  ScheduleBootstrapSnapshot, SnapshotFile, has_identity, find_identity, same_definition_but,
  has_drifted, has_duplicates, schedule_map, validate_schedule_set, validate_snapshot_context,
  is_enabled, capture_snapshot, pause_captured, pause_schedules_to_snapshot, aware_utc,
}

any_none-All :
    {A : Type 0} (test : A → Bool) (xs : List A)
    → any test xs ≡ false
    → All (λ x. test x ≡ false) xs
any_none-All test [] h = tt
any_none-All test (x ∷ xs) h = (ground (arith, h), any_none-All test xs (ground (arith, h)))

All-weaken :
    {A : Type 0} {P Q : A → Type 0} (xs : List A) → ((x : A) → P x → Q x) → All P xs → All Q xs
All-weaken [] f h = tt
All-weaken (x ∷ xs) f h = (f x h.0, All-weaken xs f h.1)

raise_if-inv : (test : Bool) (e : Error) {u : Unit {0}} → raise_if test e ≡ ok u → test ≡ false
raise_if-inv true e h = cc
raise_if-inv false e h = refl

-- A stored schedule has one of its identity and definition among the schedules.
abbrev pub IsKept : List ScheduleSnapshot → ScheduleSnapshot → Type 0
IsKept schedules a =
    (found : ScheduleSnapshot) × (find_identity a schedules ≡ some found)
    × (same_definition_but false a found ≡ true)

not_drifted :
    (schedules : List ScheduleSnapshot) (a : ScheduleSnapshot)
    → has_drifted false schedules a ≡ false
    → IsKept schedules a
unfolding has_drifted
not_drifted schedules a h = split (find_identity a schedules) refl h
  where
    split :
        (o : Option ScheduleSnapshot)
        → find_identity a schedules ≡ o
        → (elim o [ none ↦ true | some found ↦ not (same_definition_but false a found) ]) ≡ false
        → IsKept schedules a
    split none e h = cc
    split (some found) e h = (found, e, ground (arith, h))

-- Two sets that pass the comparison.
pub record SameSet (stored schedules : List ScheduleSnapshot) : Type 0 where
  pub kept : All (IsKept schedules) stored
  pub no_others : All (λ b. has_identity b stored ≡ true) schedules
  pub unique : has_duplicates schedules ≡ false

schedule_map-inv :
    (schedules found : List ScheduleSnapshot)
    → schedule_map schedules ≡ ok found
    → (has_duplicates schedules ≡ false) × (schedules ≡ found)
unfolding schedule_map
schedule_map-inv schedules found h =
    let (u, once, same) = >>=-inv (raise_if (has_duplicates schedules) _) (λ _. ok schedules) h in
    (raise_if-inv (has_duplicates schedules) _ once, cc same)

or_false : (p q : Bool) → (p || q) ≡ false → (p ≡ false) × (q ≡ false)
or_false true q h = cc
or_false false q h = (refl, h)

true_of_not : (b : Bool) → not b ≡ false → b ≡ true
true_of_not true h = refl
true_of_not false h = cc

compared :
    (stored schedules : List ScheduleSnapshot) (e f : Error) {u : Unit {0}}
    → has_duplicates schedules ≡ false
    → (raise_if
          (any (λ a. not (has_identity a schedules)) stored
            || any (λ a. not (has_identity a stored)) schedules)
          e
        also raise_if (any (has_drifted false schedules) stored) f)
      ≡ ok u
    → SameSet stored schedules
compared stored schedules e f once h =
    let (u, sets, drift) =
      >>=-inv
        (raise_if
          (any (λ a. not (has_identity a schedules)) stored
            || any (λ a. not (has_identity a stored)) schedules)
          e)
        (λ _. raise_if (any (has_drifted false schedules) stored) f) h in
    let (_, others) =
      or_false (any (λ a. not (has_identity a schedules)) stored)
        (any (λ a. not (has_identity a stored)) schedules) (raise_if-inv _ e sets) in
    record {
      kept = All-weaken stored (not_drifted schedules) (
          any_none-All (has_drifted false schedules) stored
            (raise_if-inv (any (has_drifted false schedules) stored) f drift));
      no_others =
          All-weaken schedules (λ b n. true_of_not (has_identity b stored) n)
            (any_none-All (λ b. not (has_identity b stored)) schedules others);
      unique = once;
    }

validate_schedule_set-SameSet :
    (stored schedules : List ScheduleSnapshot) {u : Unit {0}}
    → validate_schedule_set stored schedules false ≡ ok u
    → SameSet stored schedules
unfolding validate_schedule_set
validate_schedule_set-SameSet stored schedules h =
    let (a, first, h1) = >>=-inv (schedule_map stored) _ h in
    let (b, second, h2) = >>=-inv (schedule_map schedules) _ h1 in
    let (_, same_stored) = schedule_map-inv stored a first in
    let (once, same_schedules) = schedule_map-inv schedules b second in
    rw (same_stored, same_schedules)
      (compared a b _ _ (ap has_duplicates (sym same_schedules) ∙ once) h2)

module _ {S : Type 0} (aws : AwsAdministration S) (file : SnapshotFile S) where
  -- The last reading of the schedules.
  pub record Paused (snapshot : ScheduleBootstrapSnapshot) (s : S) : Type 0 where
    pub last : List ScheduleSnapshot
    pub before : S
    pub read : aws.schedule_snapshots before ≡ (ok last, s)
    pub same : SameSet snapshot.schedules last
    pub none_enabled : All (λ (a : ScheduleSnapshot). is_enabled a.state ≡ false) last

  pause_captured-Paused :
      (snapshot result : ScheduleBootstrapSnapshot) (account_id aws_region app_stack_name : String)
      (s s' : S)
      → pause_captured aws file snapshot account_id aws_region app_stack_name s ≡ (ok result, s')
      → Paused result s'
  unfolding pause_captured
  pause_captured-Paused snapshot result account_id aws_region app_stack_name s s' h =
      let (u, _, h1) =
        lift-inv (validate_snapshot_context snapshot account_id aws_region app_stack_name) _ s s'
          h in
      let (current, s1, _, h2) = bind-inv aws.schedule_snapshots _ s s' h1 in
      let (_, _, h3) =
        lift-inv (validate_schedule_set snapshot.schedules current false) _ s1 s' h2 in
      let (_, s2, _, h4) =
        bind-inv
          (for_each (λ x. aws.set_schedule_state x ScheduleState.disabled x.schedule_expression)
            current)
          _ s1 s' h3 in
      let (last, s3, read, h5) = bind-inv aws.schedule_snapshots _ s2 s' h4 in
      let (_, valid, h6) =
        lift-inv (validate_schedule_set snapshot.schedules last false) _ s3 s' h5 in
      let (off, h7) =
        raise_when-inv (any (λ (x : ScheduleSnapshot). is_enabled x.state) last) _ (return snapshot)
          s3 s' h6 in
      finish snapshot result last s2 s3 s' read
        (validate_schedule_set-SameSet snapshot.schedules last valid)
        (any_none-All (λ (x : ScheduleSnapshot). is_enabled x.state) last off) h7
    where
      finish :
          (snapshot result : ScheduleBootstrapSnapshot) (last : List ScheduleSnapshot)
          (s2 s3 s' : S)
          → aws.schedule_snapshots s2 ≡ (ok last, s3)
          → SameSet snapshot.schedules last
          → All (λ (a : ScheduleSnapshot). is_enabled a.state ≡ false) last
          → return snapshot s3 ≡ (ok result, s')
          → Paused result s'
      finish snapshot result last s2 s3 s' read same off h =
          let at : s3 ≡ s' = ap (λ (p : Result ScheduleBootstrapSnapshot × S). p.1) h in
          let is_result : snapshot ≡ result = cc h in
          record {
            last = last;
            before = s2;
            read = read ∙ ap (λ t. (ok last, t)) at;
            same = rw (sym is_result) same;
            none_enabled = off;
          }

  -- A pause that returns has read, at its end, schedules that are all disabled, that stand once for
  -- each identity, and that are those of the snapshot it returns, each with its definition but for
  -- the state.
  pub pause_schedules_to_snapshot-Paused :
      (aws_region app_stack_name : String) (captured_at : Datetime) (s s' : S)
      (snapshot : ScheduleBootstrapSnapshot)
      → pause_schedules_to_snapshot aws file aws_region app_stack_name captured_at s
        ≡ (ok snapshot, s')
      → Paused snapshot s'
  unfolding pause_schedules_to_snapshot
  pause_schedules_to_snapshot-Paused aws_region app_stack_name captured_at s s' snapshot h =
      let (at, _, h1) = lift-inv (aware_utc captured_at) _ s s' h in
      let (who, s1, _, h2) = bind-inv aws.identity _ s s' h1 in
      let (is_there, s2, _, h3) = bind-inv file.exists _ s1 s' h2 in
      let (taken, s3, _, h4) =
        bind-inv
          (if is_there
            then file.load_schedule_snapshot
            else capture_snapshot aws file who aws_region app_stack_name at)
          _ s2 s' h3 in
      pause_captured-Paused taken snapshot who.account_id aws_region app_stack_name s3 s' h4

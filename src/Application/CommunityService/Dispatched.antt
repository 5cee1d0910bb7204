-- ===== src/Application/CommunityService/Dispatched.antt =====
-- application/community_jobs.py with application/community_service.py: the jobs of a dispatch pass the checks
-- of a run.
use mathlib.Core.Path.{subst}
use fpl_data_relay.Prelude.{
  ℕ, suc, ◌≡◌, refl, ap, ◌∙◌, arith, String, Bool, not, none, some, List, [], ◌∷◌, All, filter, map,
  length, string_key, ◌=?◌, Bool-cases, inl, inr,
}
use fpl_data_relay.Prelude.Dict.{get, put, HasUniqueKeys, put-HasUniqueKeys}
use fpl_data_relay.Result.{ok, >>=-inv, raise_if-inv}
use fpl_data_relay.Domain.Time.{Datetime, is_aware}
use fpl_data_relay.Domain.Community.Distinct.{has_duplicates}
use fpl_data_relay.Application.CommunityStrategies.{
  ConfiguredCommunityStrategy, CommunityStrategyRegistry, strategy_key, by_strategy_key,
  new_registry, values, list_active, require,
}
use fpl_data_relay.Application.CommunityJobs.{
  CommunityStrategyJob, validate_strategy_job, new_job, strategy_job, strategy_jobs,
  build_strategy_jobs,
}
use fpl_data_relay.Application.CommunityService.Stages.{check_job}

record IsKeyed (registry : CommunityStrategyRegistry) : Type 0 where
  own : All (λ item. item.0 ≡ strategy_key item.1) registry
  unique : HasUniqueKeys registry

All-put :
    (k : String) (s : ConfiguredCommunityStrategy) (registry : CommunityStrategyRegistry)
    → k ≡ strategy_key s
    → All (λ item. item.0 ≡ strategy_key item.1) registry
    → All (λ item. item.0 ≡ strategy_key item.1) (put k s registry)
unfolding put
All-put k s [] e a = (e, tt)
All-put k s ((j, t) ∷ registry) e a = elim (Bool-cases (j =? k)) [
  | inl same ↦ rw same ((string_key.beq_iff j k).0 same ∙ e, a.1)
  | inr other ↦ rw other (a.0, All-put k s registry e a.1)
]

by_strategy_key-IsKeyed :
    (ss : List ConfiguredCommunityStrategy) (registry : CommunityStrategyRegistry)
    → IsKeyed registry
    → IsKeyed (by_strategy_key ss registry)
unfolding by_strategy_key
by_strategy_key-IsKeyed [] registry k = k
by_strategy_key-IsKeyed (s ∷ ss) registry k =
    by_strategy_key-IsKeyed ss (put (strategy_key s) s registry) (record {
      own = All-put (strategy_key s) s registry refl k.own;
      unique = put-HasUniqueKeys (strategy_key s) s registry k.unique;
    })

-- Each strategy is found by its key.
abbrev IsFound : CommunityStrategyRegistry → ConfiguredCommunityStrategy → Type 0
IsFound registry s = get (strategy_key s) registry ≡ some s

IsFound-cons :
    (j : String) (t : ConfiguredCommunityStrategy) (registry : CommunityStrategyRegistry)
    (ss : List ConfiguredCommunityStrategy)
    → get j registry ≡ none
    → All (IsFound registry) ss
    → All (IsFound ((j, t) ∷ registry)) ss
unfolding get
IsFound-cons j t registry [] fresh a = tt
IsFound-cons j t registry (s ∷ ss) fresh a = (
  ground (arith, string_key.beq_iff j (strategy_key s), a.0, fresh),
  IsFound-cons j t registry ss fresh a.1,
)

values-IsFound :
    (registry : CommunityStrategyRegistry)
    → IsKeyed registry
    → All (IsFound registry) (values registry)
unfolding get
values-IsFound [] k = tt
values-IsFound ((j, s) ∷ registry) k = (
  ground (arith, string_key.beq_iff j (strategy_key s), k.own.0),
  IsFound-cons j s registry (values registry) k.unique.0
      (values-IsFound registry (record { own = k.own.1; unique = k.unique.1 })),
)

All-filter :
    (P : ConfiguredCommunityStrategy → Type 0) (test : ConfiguredCommunityStrategy → Bool)
    (ss : List ConfiguredCommunityStrategy)
    → All P ss
    → All P (filter test ss)
All-filter P test [] a = tt
All-filter P test (s ∷ ss) a = elim (Bool-cases (test s)) [
  | inl e ↦ rw e (a.0, All-filter P test ss a.1)
  | inr e ↦ rw e (All-filter P test ss a.1)
]

validated : (job same : CommunityStrategyJob) → validate_strategy_job job ≡ ok same → job ≡ same
unfolding validate_strategy_job
validated job same h = ground arith

module _ (local_date : String → ℕ → ℕ) (registry : CommunityStrategyRegistry) where
  -- The run of the job finds its strategy, which passes the job's checks.
  abbrev pub IsRunnable : CommunityStrategyJob → Type 0
  IsRunnable job =
      (s : ConfiguredCommunityStrategy) × (require registry job.strategy_key ≡ ok s)
      × (check_job local_date s.definition job ≡ ok tt)

  job_checked :
      (s : ConfiguredCommunityStrategy) (at_time : Datetime)
      → check_job local_date s.definition (new_job local_date s at_time) ≡ ok tt
  unfolding check_job
  job_checked s at_time = ground arith

  strategy_job-IsRunnable :
      (s : ConfiguredCommunityStrategy) (at_time : Datetime) (job : CommunityStrategyJob)
      → IsFound registry s
      → strategy_job local_date s at_time ≡ ok job
      → IsRunnable job
  unfolding strategy_job require
  strategy_job-IsRunnable s at_time job found h =
      subst IsRunnable (validated (new_job local_date s at_time) job h)
        (s, rw found refl, job_checked s at_time)

  strategy_jobs-IsRunnable :
      (ss : List ConfiguredCommunityStrategy) (at_time : Datetime)
      (jobs : List CommunityStrategyJob)
      → All (IsFound registry) ss
      → strategy_jobs local_date ss at_time ≡ ok jobs
      → All IsRunnable jobs × (length jobs ≡ length ss)
  unfolding strategy_jobs
  strategy_jobs-IsRunnable [] at_time jobs a h =
      let same : [] ≡ jobs = cc in
      subst (λ (l : List CommunityStrategyJob). All IsRunnable l × (length l ≡ 0)) same (tt, refl)
  strategy_jobs-IsRunnable (s ∷ ss) at_time jobs a h =
      let (job, made, h1) = >>=-inv (strategy_job local_date s at_time) _ h in
      let (rest, others, h2) = >>=-inv (strategy_jobs local_date ss at_time) _ h1 in
      let same : job ∷ rest ≡ jobs = cc in
      let (runnable, size) = strategy_jobs-IsRunnable ss at_time rest a.1 others in
      subst (λ (l : List CommunityStrategyJob). All IsRunnable l × (length l ≡ suc (length ss)))
        same ((strategy_job-IsRunnable s at_time job a.0 made, runnable), ap suc size)

registry-IsKeyed :
    (ss : List ConfiguredCommunityStrategy) (registry : CommunityStrategyRegistry)
    → new_registry ss ≡ ok registry
    → IsKeyed registry
unfolding new_registry
registry-IsKeyed ss registry h =
    let (distinct_keys, made) =
      raise_if-inv (has_duplicates (map strategy_key ss)) _ _ registry h in
    let same : by_strategy_key ss [] ≡ registry = cc in
    subst IsKeyed same (by_strategy_key-IsKeyed ss [] (record { own = tt; unique = tt }))

-- The jobs that a dispatch is expanded into, over a registry that was built from configured strategies,
-- are as many as its active strategies, and a run of each of them finds a strategy, of the version,
-- the report date and the window that the job names.
pub build_strategy_jobs-IsRunnable :
    (local_date : String → ℕ → ℕ) (strategies : List ConfiguredCommunityStrategy)
    (registry : CommunityStrategyRegistry) (scheduled_at : Datetime)
    (jobs : List CommunityStrategyJob)
    → new_registry strategies ≡ ok registry
    → build_strategy_jobs local_date registry scheduled_at ≡ ok jobs
    → All (IsRunnable local_date registry) jobs × (length jobs ≡ length (list_active registry))
unfolding build_strategy_jobs list_active
build_strategy_jobs-IsRunnable local_date strategies registry scheduled_at jobs built h =
    let (aware, made) = raise_if-inv (not (is_aware scheduled_at)) _ _ jobs h in
    strategy_jobs-IsRunnable local_date registry (list_active registry) scheduled_at jobs
      (All-filter (IsFound registry) (λ (s : ConfiguredCommunityStrategy). s.definition.active)
        (values registry) (values-IsFound registry (registry-IsKeyed strategies registry built)))
      made

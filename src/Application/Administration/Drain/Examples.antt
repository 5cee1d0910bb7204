-- ===== src/Application/Administration/Drain/Examples.antt =====
-- A queue that is empty after ten seconds, and the theorem on its drain. The world is the time.
use fpl_data_relay.Prelude.{ℕ, ◌+◌, ◌≡◌, refl, some, List, [], ◌∷◌, ltb, if◌then◌else◌}
use fpl_data_relay.Result.{ok}
use fpl_data_relay.Exec.{return}
use fpl_data_relay.Domain.Time.{utc, seconds}
use fpl_data_relay.Application.Administration.Ports.{
  QueueDepth, standalone, AwsAdministration, AdministrationRuntime, Reporter,
}
use fpl_data_relay.Application.Administration.Drain.{drain_queues_with_progress}
use fpl_data_relay.Application.Administration.Drain.Ends.{DrainWorld, Ends}

abbrev depths_at : ℕ → List QueueDepth
depths_at t =
    record {
      name = "fetch";
      url = "https://queue";
      visible = if ltb t (seconds 10) then 1 else 0;
      in_flight = 0;
      delayed = 0;
    }
    ∷ []

abbrev aws : AwsAdministration ℕ
aws = record {
  identity = return (record { account_id = "123456789012"; arn = "arn:operator" });
  queue_depths = λ dead t. (ok (depths_at t), t);
  schedule_snapshots = return [];
  set_schedule_state = λ schedule state expression. return tt;
  send_fetch_job = λ body. return "1";
  send_community_job = λ body. return "1";
}

abbrev runtime : AdministrationRuntime ℕ
runtime = record {
  drain_timeout_seconds = 60;
  drain_poll_seconds = 5;
  drain_stable_seconds = 20;
  monotonic_clock = λ t. (ok t, t);
  sleeper = λ n t. (ok tt, t + seconds n);
  clock = return (utc 1);
}

abbrev silent : Reporter ℕ
silent p = return tt

drain_runs :
    drain_queues_with_progress aws runtime 13 standalone silent 0
    ≡ (ok (some (depths_at (seconds 30))), seconds 30)
unfolding drain_queues_with_progress
drain_runs = refl

abbrev world : DrainWorld aws runtime silent
world = record {
  time = λ t. t;
  depths_at = depths_at;
  samples = λ s. refl;
  reads = λ s. refl;
  today = λ s. (utc 1, refl, refl);
  reports = λ p s. (s, refl, refl);
  sleeps = λ n s. (s + seconds n, refl, refl);
}

-- ===== src/Application/Jobs/Delays.antt =====
-- `next_live_delay`: the chain of live jobs that re-queue themselves ends with its window.
use fpl_data_relay.Prelude.{ℕ, suc, ◌+◌, ◌*◌, ◌≡◌, ◌≤◌, ◌<◌, Bool, some, arith}
use fpl_data_relay.Result.{ok}
use fpl_data_relay.Domain.Time.{utc, seconds}
use fpl_data_relay.Application.Jobs.{LiveJob, next_live_delay}

-- A poll at the moment `t` of the window, and `n` more: each comes after the delay that the one
-- before it asked for.
pub data Polls (job : LiveJob) (t : ℕ) : ℕ → ℕ → Type 0 where
  first : Polls job t t 0
  again :
      {u v n : ℕ} (active : Bool) (delay : ℕ)
      → Polls job t u n
      → next_live_delay job (utc u) active ≡ ok (some delay)
      → u + seconds delay ≤ v
      → Polls job t v (suc n)

next_live_delay-some :
    (job : LiveJob) (u delay : ℕ) (active : Bool)
    → next_live_delay job (utc u) active ≡ ok (some delay)
    → (u < job.window_end.moment) × (15 ≤ delay)
unfolding next_live_delay
next_live_delay-some job u delay active h = ground arith

Polls-spaced : (job : LiveJob) {t u n : ℕ} → Polls job t u n → t + n * seconds 15 ≤ u
Polls-spaced job first = omega arith
Polls-spaced job (again {u = u} active delay p h later) =
    let (_, long) = next_live_delay-some job u delay active h in omega (arith, Polls-spaced job p)

-- A job polls again only before the end of its window, at least 15 seconds apart, so the number of
-- its polls is bounded by the length of the window.
pub Polls-bounded :
    (job : LiveJob) {t u n : ℕ}
    → Polls job t u (suc n)
    → (t + n * seconds 15 < job.window_end.moment) × (t + suc n * seconds 15 ≤ u)
Polls-bounded job (again {u = w} active delay p h later) =
    let (early, long) = next_live_delay-some job w delay active h in
    omega (arith, Polls-spaced job p)

-- ===== src/Jobs/Worker/Runs.antt =====
-- One round of the worker, and the delays between its rounds.
use moventra_tms.Base.{
  ℕ, ◌*◌, ◌≤◌, ◌≡◌, refl, Bool, true, false, List, [], ◌∷◌, min, max, arith, if◌then◌else◌, ◌==◌,
  length, filterb, All, Result, ok, ◌>>=◌, Bool-cases, inl, inr,
}
use moventra_tms.Jobs.Row.{Scope, Row, Table}
use moventra_tms.Jobs.Repository.{reap_expired_exhausted, claim_batch}
use moventra_tms.Jobs.Backoff.{Doubles, BackoffError}
use moventra_tms.Jobs.Registry.{Registry}
use moventra_tms.Jobs.Worker.Settings.{
  Worker, IsConfigured, SettingError, calculate_idle_poll_delay,
}
use moventra_tms.Jobs.Worker.{Verdict, success, retry, failed, Run, execute_job}

-- What `runOnce` returns.
pub record Summary : Type 0 where
  pub claimed : ℕ
  pub succeeded : ℕ
  pub retry_scheduled : ℕ
  pub failed_terminal : ℕ

abbrev is_success : Verdict → Bool
is_success success = true
is_success _ = false

abbrev is_retry : Verdict → Bool
is_retry retry = true
is_retry _ = false

abbrev is_failed : Verdict → Bool
is_failed failed = true
is_failed _ = false

unfoldable pub summary : List Verdict → Summary
summary vs = record {
  claimed = length vs;
  succeeded = length (filterb is_success vs);
  retry_scheduled = length (filterb is_retry vs);
  failed_terminal = length (filterb is_failed vs);
}

module _ (ieee : Doubles) where
  open ieee use {Double, half, of_ℕ}

  -- `Promise.all` over the claimed jobs, settled in the order of the list. `runs` gives the run of
  -- each job's handler.
  unfoldable pub execute_all :
      {H : Type 0}
      → Worker
      → (jitter random : Double) → Registry H
      → Scope
      → (Row → H → Run)
      → (lease_token now : ℕ) → List Row
      → Table
      → Result BackoffError (Table × List Verdict)
  execute_all w jitter random registry scope runs lease_token now [] t = ok (t, [])
  execute_all w jitter random registry scope runs lease_token now (job ∷ jobs) t = do
    (t₁, v) ← execute_job ieee w jitter random registry scope (runs job) job lease_token now t
    (t₂, vs) ← execute_all w jitter random registry scope runs lease_token now jobs t₁
    ok (t₂, v ∷ vs)

  -- `runOnce` of a worker whose signal is not aborted. `locked` are the rows that other transactions
  -- hold while the batch is claimed.
  unfoldable pub run_once :
      {H : Type 0}
      → Worker
      → (jitter random : Double) → Registry H
      → Scope
      → (Row → H → Run)
      → (locked : ℕ → Bool) → (lease_token now : ℕ) → Table
      → Result BackoffError (Table × Summary)
  unfolding summary
  run_once w jitter random registry scope runs locked lease_token now t = do
    let reaped = (reap_expired_exhausted now t).0
    let (t', jobs) =
        claim_batch (min w.batch_size w.concurrency) w.lease_ms lease_token locked now reaped
    (t'', verdicts) ← execute_all w jitter random registry scope runs lease_token now jobs t'
    ok (t'', summary verdicts)

-- `runForever`: the idle delay after a round that claimed `claimed` jobs.
unfoldable pub next_idle_delay : Worker → (idle_delay_ms claimed : ℕ) → Result SettingError ℕ
next_idle_delay w idle_delay_ms claimed =
    if claimed == 0
    then calculate_idle_poll_delay idle_delay_ms w.idle_poll_ms w.idle_poll_max_ms
    else ok w.idle_poll_ms

-- The times that the loop of `runForever` sleeps, over the numbers of jobs that its rounds claim.
unfoldable pub idle_delays :
    Worker → (idle_delay_ms : ℕ) → (rounds : List ℕ) → Result SettingError (List ℕ)
unfolding next_idle_delay
idle_delays w idle_delay_ms [] = ok []
idle_delays w idle_delay_ms (claimed ∷ rounds) = do
  next ← next_idle_delay w idle_delay_ms claimed
  slept ← idle_delays w next rounds
  ok (if claimed == 0 then idle_delay_ms ∷ slept else slept)

abbrev IsIdle : Worker → ℕ → Type 0
IsIdle w d = (w.idle_poll_ms ≤ d) × (d ≤ w.idle_poll_max_ms)

next_idle_delay_total :
    (w : Worker) (d claimed : ℕ)
    → IsConfigured w
    → IsIdle w d
    → (n : ℕ) × (next_idle_delay w d claimed ≡ ok n) × IsIdle w n
unfolding next_idle_delay calculate_idle_poll_delay
next_idle_delay_total w d claimed c h = (
  (if claimed == 0 then min w.idle_poll_max_ms (max w.idle_poll_ms (d * 2)) else w.idle_poll_ms),
  ground arith,
  ground arith,
)

idle_delays_from :
    (w : Worker) (d : ℕ) (rounds : List ℕ)
    → IsConfigured w
    → IsIdle w d
    → (slept : List ℕ) × (idle_delays w d rounds ≡ ok slept) × All (IsIdle w) slept
unfolding idle_delays
idle_delays_from w d [] c h = ([], refl, tt)
idle_delays_from w d (claimed ∷ rounds) c h =
    let (n, step, idle) = next_idle_delay_total w d claimed c h in
    let (slept, rest, all) = idle_delays_from w n rounds c idle in
    elim (Bool-cases (claimed == 0)) [
      | inl e ↦ (d ∷ slept, ground arith, (h, all))
      | inr e ↦ (slept, ground arith, all)
    ]

-- The loop of a constructed worker never fails on its idle delay, and sleeps between
-- `idlePollMs` and `idlePollMaxMs` each time.
pub idle_delays_bounded :
    (w : Worker) (rounds : List ℕ)
    → IsConfigured w
    → (slept : List ℕ) × (idle_delays w w.idle_poll_ms rounds ≡ ok slept) × All (IsIdle w) slept
idle_delays_bounded w rounds c = idle_delays_from w w.idle_poll_ms rounds c (omega (arith, c.poll))

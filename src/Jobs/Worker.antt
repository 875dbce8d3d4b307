-- ===== src/Jobs/Worker.antt =====
-- JobWorker (src/modules/jobs/job-worker.js). The repository's calls are those of `Jobs.Repository`
-- and are taken not to fail; the handler, the clock and the other users of the table during a run
-- are given as its `Run`.
pub mod Settings
pub mod Runs
pub mod Laws
mod Tests
use moventra_tms.Base.{
  ℕ, suc, ◌+◌, ◌≡◌, refl, Bool, true, false, not, ◌&&◌, ◌||◌, Option, none, some, List, [], ◌∷◌,
  min, max, if◌then◌else◌, ltb, leb, length, allb, is_some, Result, ok, err, ◌>>=◌, ◌>>◌, ◌==◌,
}
use moventra_tms.Base.Json.{Text, codes}
use moventra_tms.Base.Text.{trim, to_upper_case, is_upper, is_digit, text_eq}
use moventra_tms.Jobs.Row.{Status, retry_scheduled, Scope, Row, Table}
use moventra_tms.Jobs.Repository.{Failure, complete_success, complete_failure}
use moventra_tms.Base.Int.{ℤ, pos, pos_part, integer}
use moventra_tms.Jobs.Backoff.{Doubles, BackoffError, calculate_job_backoff}
use moventra_tms.Jobs.Registry.{Registry, RegistryError, registry_code, resolve}
use moventra_tms.Jobs.Worker.Settings.{Worker}

-- A thrown value: `error?.code`, if it is a string, and `error?.retryable === true`.
pub record Thrown : Type 0 where
  pub code : Option Text
  pub retryable : Bool

abbrev pub lease_lost_code : Text
lease_lost_code = codes "MVT_JOB_LEASE_LOST"

-- `leaseError()`
unfoldable pub lease_error : Thrown
lease_error = record { code = some lease_lost_code; retryable = true }

-- `timeoutError()`
unfoldable pub timeout_error : Thrown
timeout_error = record { code = some (codes "MVT_JOB_HANDLER_TIMEOUT"); retryable = true }

-- `error?.retryable === true || error?.code === 'MVT_JOB_LEASE_LOST'`
unfoldable pub is_retryable : Thrown → Bool
is_retryable e = e.retryable || elim e.code [ none ↦ false | some c ↦ text_eq c lease_lost_code ]

is_token_unit : ℕ → Bool
is_token_unit c = is_upper c || is_digit c || c == b'_'

-- `safeToken`, with `/^[A-Z0-9_]{3,80}$/`
unfoldable pub safe_token : Option Text → Text → Text
unfolding is_token_unit
safe_token none fallback = fallback
safe_token (some value) fallback =
    let token = to_upper_case (trim value) in
    if leb 3 (length token) && leb (length token) 80 && allb is_token_unit token
    then token
    else fallback

abbrev pub handler_failed_code : Text
handler_failed_code = codes "MVT_JOB_HANDLER_FAILED"

abbrev pub error_class : Bool → Text
error_class true = codes "retryable"
error_class false = codes "non_retryable"

-- What `persistFailure` reports of an error.
unfoldable pub failure : Thrown → Bool → ℕ → Failure
failure error retryable delay_ms = record {
  retryable = retryable;
  error_code = safe_token error.code handler_failed_code;
  error_class = error_class retryable;
  delay_ms = delay_ms;
}

-- What `executeJob` returns.
pub data Verdict : Type 0 where
  success retry failed : Verdict

-- What happens while the handler of a job runs: how it ends, why the signal was aborted (by the
-- timeout, or by a heartbeat that was refused), whether a heartbeat found the lease lost, what the
-- other users of the table made of it, and the time.
pub record Run : Type 0 where
  pub thrown : Option Thrown
  pub aborted : Option Thrown
  pub lease_lost : Bool
  pub during : Table → Table
  pub now : ℕ

-- `persisted?.status === 'retry_scheduled' ? 'retry' : 'failed'`
unfoldable pub verdict : Option Row → Verdict
verdict none = failed
verdict (some r) = elim r.status [ retry_scheduled ↦ retry | _ ↦ failed ]

-- The error with which the `try` block leaves before `completeSuccess`, if it does.
unfoldable pub interrupted : Run → Option Thrown
unfolding lease_error
interrupted run = elim run.thrown [
  | some e ↦ some e
  | none ↦ elim run.aborted [
    | some e ↦ some e
    | none ↦ if run.lease_lost then some lease_error else none
  ]
]

-- A registry's error: `retryable` is false.
unfoldable pub rejection : RegistryError → Thrown
rejection e = record { code = some (registry_code e); retryable = false }

module _ (ieee : Doubles) where
  open ieee use {Double}

  -- The delay of `persistFailure`.
  unfoldable pub retry_delay : Worker → Double → Double → Row → Bool → Result BackoffError ℤ
  retry_delay w jitter random job false = ok (pos 0)
  retry_delay w jitter random job true =
      calculate_job_backoff ieee (integer (pos (max 1 job.attempt_count)))
        (integer (pos w.retry_base_ms)) (integer (pos w.retry_max_ms)) jitter random

  -- A delay below zero, which the tests of jitter and random number rule out, would count as none.
  unfoldable pub persist_failure :
      Worker
      → (jitter random : Double) → Row
      → (lease_token : ℕ) → Thrown
      → (retryable : Bool) → (now : ℕ) → Table
      → Result BackoffError (Table × Option Row)
  unfolding retry_delay
  persist_failure w jitter random job lease_token error retryable now t = do
    delay_ms ← retry_delay w jitter random job retryable
    ok (complete_failure job.id lease_token (failure error retryable (pos_part delay_ms)) now t)

  -- The `catch` block of `executeJob`.
  unfoldable pub handle_failure :
      Worker
      → (jitter random : Double) → Row
      → (lease_token : ℕ) → Thrown
      → (now : ℕ) → Table
      → Result BackoffError (Table × Verdict)
  handle_failure w jitter random job lease_token error now t = do
    let retryable = is_retryable error
    (t', persisted) ← persist_failure w jitter random job lease_token error retryable now t
    ok (t', verdict persisted)

  -- The end of the `try` block: `completeSuccess` returned a row, or null.
  unfoldable pub finish :
      Worker
      → (jitter random : Double) → Row
      → (lease_token now : ℕ) → Table × Option Row
      → Result BackoffError (Table × Verdict)
  finish w jitter random job lease_token now (t, some r) = ok (t, success)
  finish w jitter random job lease_token now (t, none) =
      handle_failure w jitter random job lease_token lease_error now t

  -- What `executeJob` does once the handler is done.
  unfoldable pub settle :
      Worker
      → (jitter random : Double) → Row
      → (lease_token : ℕ) → Run
      → Table
      → Result BackoffError (Table × Verdict)
  settle w jitter random job lease_token run t = elim (interrupted run) [
    | some e ↦ handle_failure w jitter random job lease_token e run.now (run.during t)
    | none ↦
        finish w jitter random job lease_token run.now
          (complete_success job.id lease_token run.now (run.during t))
  ]

  -- `executeJob`: a job without a fitting handler fails for good; else the handler runs, and what
  -- became of it is settled. `runs` gives the run of a handler.
  unfoldable pub execute_job :
      {H : Type 0}
      → Worker
      → (jitter random : Double) → Registry H
      → Scope
      → (H → Run)
      → Row
      → (lease_token now : ℕ) → Table
      → Result BackoffError (Table × Verdict)
  execute_job w jitter random registry scope runs job lease_token now t =
      elim (resolve registry scope job) [
        | ok handler ↦ settle w jitter random job lease_token (runs handler) t
        | err e ↦ do
          (t', _) ← persist_failure w jitter random job lease_token (rejection e) false now t
          ok (t', failed)
      ]

-- ===== src/Jobs/Worker/Laws.antt =====
-- What a worker makes of one job.
use moventra_tms.Base.{
  ℕ, ◌≤◌, ◌≡◌, refl, subst, inl, inr, Bool, true, false, Option, none, some, arith, max,
  Option-cases, Result, ok, err, ◌>>=◌,
}
use moventra_tms.Base.Sql.{find, Unique}
use moventra_tms.Jobs.Row.{retry_scheduled, failed_terminal, Scope, Row, Table, row_id}
use moventra_tms.Jobs.Repository.{owns, complete_success, complete_failure}
use moventra_tms.Jobs.Repository.Leases.{complete_failure-cases, complete_success-cases}
use moventra_tms.Base.Int.{ℤ, pos, pos_part}
use moventra_tms.Jobs.Backoff.{Doubles, BackoffError, within, calculate_job_backoff_total}
use moventra_tms.Jobs.Registry.{Registry, RegistryError, resolve}
use moventra_tms.Jobs.Worker.Settings.{Worker, IsConfigured}
use moventra_tms.Jobs.Worker.{
  Thrown, Verdict, success, retry, failed, Run, is_retryable, lease_error, interrupted, retry_delay,
  persist_failure, handle_failure, finish, settle, execute_job, verdict, rejection, failure,
}

-- How a job that ran can end, from the table `t` at the end of its handler.
pub data Ends (run : Run) (job_id token : ℕ) (t t' : Table) : Verdict → Type 0 where
  succeeds :
      {v : Verdict} (r r' : Row)
      → interrupted run ≡ none
      → find row_id job_id t ≡ some r
      → owns token r ≡ true
      → find row_id job_id t' ≡ some r'
      → r'.last_completed_at ≡ some run.now
      → r'.lease_token ≡ none
      → v ≡ success
      → Ends run job_id token t t' v
  retries :
      {v : Verdict} (r' : Row)
      → find row_id job_id t' ≡ some r'
      → r'.status ≡ retry_scheduled
      → r'.lease_token ≡ none
      → v ≡ retry
      → Ends run job_id token t t' v
  fails :
      {v : Verdict} (r' : Row)
      → find row_id job_id t' ≡ some r'
      → r'.status ≡ failed_terminal
      → r'.lease_token ≡ none
      → v ≡ failed
      → Ends run job_id token t t' v
  loses :
      {v : Verdict}
      → ((r : Row) → find row_id job_id t ≡ some r → owns token r ≡ false)
      → t' ≡ t
      → v ≡ failed
      → Ends run job_id token t t' v

module _ (ieee : Doubles) (w : Worker) (jitter random : ieee.Double) where
  persist_failure-inv :
      (job : Row) (token : ℕ) (e : Thrown) (retryable : Bool) (now : ℕ) (t : Table) {t' : Table}
      {o : Option Row}
      → persist_failure ieee w jitter random job token e retryable now t ≡ ok (t', o)
      → (d : ℕ) × (complete_failure job.id token (failure e retryable d) now t ≡ (t', o))
  unfolding persist_failure
  persist_failure-inv job token e retryable now t {t'} {o} h =
      go (retry_delay ieee w jitter random job retryable) refl
    where
      go :
          (d : Result BackoffError ℤ)
          → retry_delay ieee w jitter random job retryable ≡ d
          → (d : ℕ) × (complete_failure job.id token (failure e retryable d) now t ≡ (t', o))
      go (err x) s = absurd (ground arith)
      go (ok d) s = (pos_part d, ground arith)

  handle_failure-Ends :
      (run : Run) (job : Row) (token : ℕ) (e : Thrown) (now : ℕ) (t : Table) {t' : Table}
      {v : Verdict}
      → Unique row_id t
      → handle_failure ieee w jitter random job token e now t ≡ ok (t', v)
      → Ends run job.id token t t' v
  unfolding handle_failure verdict
  handle_failure-Ends run job token e now t {t'} {v} u h =
      go (persist_failure ieee w jitter random job token e (is_retryable e) now t) refl
    where
      go :
          (p : Result BackoffError (Table × Option Row))
          → persist_failure ieee w jitter random job token e (is_retryable e) now t ≡ p
          → Ends run job.id token t t' v
      go (err x) s = absurd (ground arith)
      go (ok (t₁, o)) s =
          let (d, done) = persist_failure-inv job token e (is_retryable e) now t s in
          let f = failure e (is_retryable e) d in
          let final : (complete_failure job.id token f now t).0 ≡ t' = ground arith in
          let kept =
            λ (x : Row)
                (at : find row_id job.id (complete_failure job.id token f now t).0 ≡ some x).
              subst (λ u. find row_id job.id u ≡ some x) final at in
          elim (complete_failure-cases job.id token t u f now) [
            | inl (same, lost) ↦ loses lost (ground arith) (ground arith)
            | inr (r', returned, stored, freed, inl again) ↦
                retries r' (kept r' stored) again freed (ground arith)
            | inr (r', returned, stored, freed, inr ended) ↦
                fails r' (kept r' stored) ended freed (ground arith)
          ]

  finish-Ends :
      (run : Run) (job : Row) (token : ℕ) (t : Table) {t' : Table} {v : Verdict}
      → Unique row_id t
      → interrupted run ≡ none
      → finish ieee w jitter random job token run.now (complete_success job.id token run.now t)
        ≡ ok (t', v)
      → Ends run job.id token t t' v
  unfolding finish
  finish-Ends run job token t {t'} {v} u fine h =
      elim (complete_success-cases job.id token t u run.now) [
        | inl (missed, lost) ↦
            handle_failure-Ends run job token lease_error run.now t u
              (subst (λ p. finish ieee w jitter random job token run.now p ≡ ok (t', v)) missed h)
        | inr (r, r', found, owned, returned, stored, freed, at) ↦
            let pair : complete_success job.id token run.now t
                ≡ ((complete_success job.id token run.now t).0, some r') =
              ground (arith, returned) in
            let (same, won) =
              ended r' (
                subst (λ p. finish ieee w jitter random job token run.now p ≡ ok (t', v)) pair h) in
            succeeds r r' fine found owned (subst (λ x. find row_id job.id x ≡ some r') same stored)
              at freed won
      ]
    where
      ended :
          {t₁ : Table} (r' : Row)
          → finish ieee w jitter random job token run.now (t₁, some r') ≡ ok (t', v)
          → (t₁ ≡ t') × (v ≡ success)
      ended r' e = ground arith

  settle-Ends :
      (run : Run) (job : Row) (token : ℕ) (t : Table) {t' : Table} {v : Verdict}
      → Unique row_id (run.during t)
      → settle ieee w jitter random job token run t ≡ ok (t', v)
      → Ends run job.id token (run.during t) t' v
  unfolding settle
  settle-Ends run job token t {t'} {v} u h = elim (Option-cases (interrupted run)) [
    | inr (e, stopped) ↦
        handle_failure-Ends run job token e run.now (run.during t) u (rw (stopped, settle) at h)
    | inl fine ↦ finish-Ends run job token (run.during t) u fine (rw (fine, settle) at h)
  ]

  -- A job whose handler is found, in a table that has unique ids when the handler is done, ends in
  -- one of four ways, if `executeJob` returns: the handler came to its end in time and the row,
  -- which its token still held, is completed; or the row is scheduled again; or it has failed for
  -- good; or the lease was lost, and the table is left as it is. The verdict tells which, but for
  -- the last two.
  pub execute_job-Ends :
      {H : Type 0} (registry : Registry H) (scope : Scope) (runs : H → Run) (job : Row)
      (token now : ℕ) (t : Table) (handler : H) {t' : Table} {v : Verdict}
      → resolve registry scope job ≡ ok handler
      → Unique row_id ((runs handler).during t)
      → execute_job ieee w jitter random registry scope runs job token now t ≡ ok (t', v)
      → Ends (runs handler) job.id token ((runs handler).during t) t' v
  unfolding execute_job
  execute_job-Ends registry scope runs job token now t handler served u h =
      settle-Ends (runs handler) job token t u (rw (served, execute_job) at h)

  -- In range, the retry delay is calculated.
  module _ (configured : IsConfigured w) (ranged : within ieee jitter ieee.half ≡ true)
      (drawn : within ieee random (ieee.of_ℕ 1) ≡ true) where
    retry_delay_total :
        (job : Row) (retryable : Bool)
        → job.attempt_count ≤ 100
        → (d : ℤ) × (retry_delay ieee w jitter random job retryable ≡ ok d)
    unfolding retry_delay
    retry_delay_total job false h = (pos 0, refl)
    retry_delay_total job true h =
        calculate_job_backoff_total ieee (max 1 job.attempt_count) w.retry_base_ms w.retry_max_ms
          jitter random (omega arith)
          (configured.retry.0, configured.retry.1, configured.retry.2, configured.retry_max) ranged
          drawn

    persist_failure_total :
        (job : Row) (token : ℕ) (e : Thrown) (retryable : Bool) (now : ℕ) (t : Table)
        → job.attempt_count ≤ 100
        → (res : Table × Option Row) × (persist_failure ieee w jitter random job token e retryable
              now t
            ≡ ok res)
    unfolding persist_failure
    persist_failure_total job token e retryable now t h =
        let (d, s) = retry_delay_total job retryable h in
        (
          complete_failure job.id token (failure e retryable (pos_part d)) now t,
          rw (s, persist_failure),
        )

    handle_failure_total :
        (job : Row) (token : ℕ) (e : Thrown) (now : ℕ) (t : Table)
        → job.attempt_count ≤ 100
        → (res : Table × Verdict) × (handle_failure ieee w jitter random job token e now t ≡ ok res)
    unfolding handle_failure
    handle_failure_total job token e now t h =
        let (res, s) = persist_failure_total job token e (is_retryable e) now t h in
        ((res.0, verdict res.1), ground arith)

    finish_total :
        (job : Row) (token now : ℕ) (p : Table × Option Row)
        → job.attempt_count ≤ 100
        → (res : Table × Verdict) × (finish ieee w jitter random job token now p ≡ ok res)
    unfolding finish
    finish_total job token now (t, some r) h = ((t, success), refl)
    finish_total job token now (t, none) h = handle_failure_total job token lease_error now t h

    settle_total :
        (job : Row) (token : ℕ) (run : Run) (t : Table)
        → job.attempt_count ≤ 100
        → (res : Table × Verdict) × (settle ieee w jitter random job token run t ≡ ok res)
    unfolding settle
    settle_total job token run t h = elim (Option-cases (interrupted run)) [
      | inr (e, stopped) ↦
          rw (stopped, settle) (handle_failure_total job token e run.now (run.during t) h)
      | inl fine ↦ rw (fine, settle) (finish_total job token run.now _ h)
    ]

    -- The worker always settles a job that it took: with its settings in range and jitter and
    -- random number in theirs, `executeJob` does not throw on a job of at most 100 attempts.
    pub execute_job_total :
        {H : Type 0} (registry : Registry H) (scope : Scope) (runs : H → Run) (job : Row)
        (token now : ℕ) (t : Table)
        → job.attempt_count ≤ 100
        → (res : Table × Verdict) × (execute_job ieee w jitter random registry scope runs job token
              now t
            ≡ ok res)
    unfolding execute_job
    execute_job_total {H} registry scope runs job token now t h = go (resolve registry scope job)
      where
        go :
            (x : Result RegistryError H)
            → (res : Table × Verdict) × ((elim x [
              | ok handler ↦ settle ieee w jitter random job token (runs handler) t
              | err e ↦
                  ◌>>=◌
                    (persist_failure ieee w jitter random job token (rejection e) false now t)
                    (λ r. ok (r.0, failed))
            ])
                ≡ ok res)
        go (ok handler) = settle_total job token (runs handler) t h
        go (err e) =
            let (res, s) = persist_failure_total job token (rejection e) false now t h in
            ((res.0, failed), rw s)

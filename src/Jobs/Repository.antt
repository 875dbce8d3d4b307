-- ===== src/Jobs/Repository.antt =====
-- PostgresJobRepository (src/infrastructure/jobs/postgres-job-repository.js). Each method is the
-- SQL statement that it sends, run on the whole table; `now` is `clock_timestamp()`, read once for
-- a statement. An identifier that the database makes (`uuidv7()`) is an argument.
pub mod Constraints
pub mod Claims
pub mod Leases
pub mod Schedules
pub mod Enqueued
pub mod Runs
use Prim.Native.Nat.{compare, Ordering}
use moventra_tms.Base.{
  ℕ, suc, ◌+◌, ◌≡◌, refl, Bool, true, false, ◌&&◌, ◌||◌, not, Option, none, some, List, [], ◌∷◌,
  ◌++◌, map, ltb, leb, ◌==◌, if◌then◌else◌, col_eq, col_le, col_gt, opt_eq, is_some, length, take,
  filterb, anyb, head?, contains, Result, ok, err,
}
use moventra_tms.Base.Batch
use moventra_tms.Base.Batch.{claim}
use moventra_tms.Base.Sql.{update, returning, find}
use moventra_tms.Base.Int.{ℤ, lt_ℤ}
use moventra_tms.Base.Json.{Text, Json, codes}
use moventra_tms.Jobs.Row.{
  Status, scheduled, running, retry_scheduled, succeeded, failed_terminal, cancelled, Scope, tenant,
  system, Row, Table, row_id, is_running, is_waiting, is_active,
}

-- The errors that the repository throws.
pub data RepositoryError : Type 0 where
  scope_repository_mismatch enqueue_conflict system_cancel_forbidden : RepositoryError

-- What `normalizeJobScheduleInput` returns.
pub record Schedule : Type 0 where
  pub tenant_id : Option ℕ
  pub scope : Scope
  pub job_type : Text
  pub schema_version : ℕ
  pub payload : Json
  pub metadata : Json
  pub priority : ℤ
  pub available_at : ℕ
  pub max_attempts : ℕ
  pub schedule_key : Option ℕ
  pub recurrence_interval_ms : Option ℕ

abbrev pub scope_eq : Scope → Scope → Bool
scope_eq tenant tenant = true
scope_eq system system = true
scope_eq _ _ = false

-- The unique index ux_jobs_jobs_active_schedule_key over (tenant_id, schedule_key).
unfoldable pub same_singleton : Option ℕ → Option ℕ → Row → Bool
same_singleton tenant_id none r = false
same_singleton tenant_id (some k) r =
    is_active r.status && opt_eq r.tenant_id tenant_id && col_eq r.schedule_key k

-- The row of `INSERT INTO jobs.jobs … VALUES …`, with the columns' defaults.
unfoldable pub fresh_row : (id now : ℕ) → Schedule → Row
fresh_row id now job = record {
  id = id;
  tenant_id = job.tenant_id;
  job_type = job.job_type;
  schema_version = job.schema_version;
  payload = job.payload;
  metadata = job.metadata;
  status = scheduled;
  priority = job.priority;
  available_at = job.available_at;
  attempt_count = 0;
  max_attempts = job.max_attempts;
  lease_token = none;
  leased_at = none;
  lease_expires_at = none;
  last_heartbeat_at = none;
  last_error_code = none;
  last_error_class = none;
  schedule_key = job.schedule_key;
  recurrence_interval_ms = job.recurrence_interval_ms;
  last_completed_at = none;
  completed_at = none;
  cancelled_at = none;
  created_at = now;
  updated_at = now;
}

-- What `ON CONFLICT DO NOTHING` passes over: a taken primary key, or an active row of the singleton.
unfoldable pub insert_conflicts : ℕ → Schedule → Table → Bool
unfolding same_singleton
insert_conflicts id job t =
    is_some (find row_id id t) || anyb (same_singleton job.tenant_id job.schedule_key) t

-- The lookup of the active row behind a conflict.
unfoldable pub existing_row : Schedule → Table → Result RepositoryError (Table × Row)
unfolding same_singleton
existing_row job t = elim (head? (filterb (same_singleton job.tenant_id job.schedule_key) t)) [
  | none ↦ err enqueue_conflict
  | some r ↦ ok (t, r)
]

unfoldable pub enqueue :
    (repository : Scope) (id now : ℕ) → Schedule → Table → Result RepositoryError (Table × Row)
unfolding insert_conflicts existing_row fresh_row
enqueue repository id now job t =
    if not (scope_eq job.scope repository)
    then err scope_repository_mismatch
    else if not (insert_conflicts id job t)
    then ok (t ++ fresh_row id now job ∷ [], fresh_row id now job)
    else if not (is_some job.schedule_key)
    then err enqueue_conflict
    else existing_row job t

abbrev clear_lease : Row → Row
clear_lease r = record r {
  lease_token = none;
  leased_at = none;
  lease_expires_at = none;
  last_heartbeat_at = none;
}

abbrev pub lease_exhausted_code : Text
lease_exhausted_code = codes "MVT_JOB_LEASE_EXHAUSTED"

abbrev pub lease_expired_class : Text
lease_expired_class = codes "lease_expired"

-- The rows that `reapExpiredExhausted` ends.
unfoldable pub is_exhausted : ℕ → Row → Bool
is_exhausted now r =
    is_running r.status && col_le r.lease_expires_at now && leb r.max_attempts r.attempt_count

unfoldable pub reaped : ℕ → Row → Row
reaped now r = record (clear_lease r) {
  status = failed_terminal;
  last_error_code = some lease_exhausted_code;
  last_error_class = some lease_expired_class;
  completed_at = some now;
  updated_at = now;
}

unfoldable pub reap_expired_exhausted : ℕ → Table → Table × ℕ
unfolding is_exhausted reaped
reap_expired_exhausted now t =
    (update (is_exhausted now) (reaped now) t, length (returning (is_exhausted now) (reaped now) t))

-- The WHERE clause of `claimBatch`. `locked` are the rows that other transactions hold, which
-- `FOR UPDATE SKIP LOCKED` passes over.
unfoldable pub is_eligible : (ℕ → Bool) → ℕ → Row → Bool
is_eligible locked now r =
    ((is_waiting r.status && leb r.available_at now)
      || (is_running r.status && col_le r.lease_expires_at now))
    && ltb r.attempt_count r.max_attempts
    && not (locked r.id)

-- `ORDER BY priority DESC, available_at, created_at, id`: `a` stands before `b`.
unfoldable pub precedes : Row → Row → Bool
precedes a b =
    lt_ℤ b.priority a.priority
    || (not (lt_ℤ a.priority b.priority)
        && (ltb a.available_at b.available_at
            || (a.available_at == b.available_at
                && (ltb a.created_at b.created_at
                    || (a.created_at == b.created_at && ltb a.id b.id)))))

-- The rows of the CTE `eligible`, as a test.
abbrev pub is_selected : ℕ → (ℕ → Bool) → ℕ → Table → Row → Bool
is_selected limit locked now t = Batch.is_selected row_id precedes (is_eligible locked now) limit t

unfoldable pub leased : (lease_ms lease_token now : ℕ) → Row → Row
leased lease_ms lease_token now r = record r {
  status = running;
  lease_token = some lease_token;
  leased_at = some now;
  lease_expires_at = some (now + lease_ms);
  last_heartbeat_at = some now;
  attempt_count = r.attempt_count + 1;
  updated_at = now;
}

unfoldable pub claim_batch :
    (limit lease_ms lease_token : ℕ) (locked : ℕ → Bool) (now : ℕ) → Table → Table × Table
unfolding claim leased
claim_batch limit lease_ms lease_token locked now t =
    claim row_id precedes (is_eligible locked now) limit t (leased lease_ms lease_token now)

-- `status = 'running' AND lease_token = $2`
unfoldable pub owns : ℕ → Row → Bool
owns lease_token r = col_eq r.lease_token lease_token && is_running r.status

unfoldable pub extended : (lease_ms now : ℕ) → Row → Row
extended lease_ms now r = record r {
  lease_expires_at = some (now + lease_ms);
  last_heartbeat_at = some now;
  updated_at = now;
}

unfoldable pub heartbeat : (job_id lease_token lease_ms now : ℕ) → Table → Table × Bool
unfolding owns extended
heartbeat job_id lease_token lease_ms now t =
    let where_ =
      λ (r : Row). r.id == job_id && (owns lease_token r && col_gt r.lease_expires_at now) in
    (
      update where_ (extended lease_ms now) t,
      length (returning where_ (extended lease_ms now) t) == 1,
    )

abbrev if_recurs {ℓ} : {A : Type ℓ} → Option ℕ → A → (ℕ → A) → A
if_recurs none once again = once
if_recurs (some interval) once again = again interval

unfoldable pub completed : ℕ → Row → Row
completed now r = record (clear_lease r) {
  status = if_recurs r.recurrence_interval_ms succeeded (λ _. scheduled);
  available_at = if_recurs r.recurrence_interval_ms r.available_at (λ interval. now + interval);
  attempt_count = if_recurs r.recurrence_interval_ms r.attempt_count (λ _. 0);
  last_error_code = none;
  last_error_class = none;
  last_completed_at = some now;
  completed_at = if_recurs r.recurrence_interval_ms (some now) (λ _. none);
  updated_at = now;
}

-- `result.rowCount === 1 ? mapJob(result.rows[0]) : null`
abbrev pub one_row : Table → Option Row
one_row [] = none
one_row (r ∷ []) = some r
one_row (r ∷ s ∷ t) = none

unfoldable pub complete_success : (job_id lease_token now : ℕ) → Table → Table × Option Row
unfolding owns completed
complete_success job_id lease_token now t =
    let where_ = λ (r : Row). r.id == job_id && owns lease_token r in
    (update where_ (completed now) t, one_row (returning where_ (completed now) t))

-- The arguments of `completeFailure` but for the row's identification.
pub record Failure : Type 0 where
  pub retryable : Bool
  pub error_code : Text
  pub error_class : Text
  pub delay_ms : ℕ

unfoldable pub failed : Failure → ℕ → Row → Row
failed f now r =
    let again = f.retryable && ltb r.attempt_count r.max_attempts in
    record (clear_lease r) {
      status = if again then retry_scheduled else failed_terminal;
      available_at = if again then now + f.delay_ms else r.available_at;
      last_error_code = some f.error_code;
      last_error_class = some f.error_class;
      completed_at = if again then none else some now;
      updated_at = now;
    }

unfoldable pub complete_failure :
    (job_id lease_token : ℕ) → Failure → (now : ℕ) → Table → Table × Option Row
unfolding owns failed
complete_failure job_id lease_token f now t =
    let where_ = λ (r : Row). r.id == job_id && owns lease_token r in
    (update where_ (failed f now) t, one_row (returning where_ (failed f now) t))

unfoldable pub revoked : ℕ → Row → Row
revoked now r = record r { status = cancelled; cancelled_at = some now; updated_at = now }

unfoldable pub cancel :
    Scope → (job_id now : ℕ) → Table → Result RepositoryError (Table × Option Row)
unfolding revoked
cancel system job_id now t = err system_cancel_forbidden
cancel tenant job_id now t =
    let where_ = λ (r : Row). r.id == job_id && is_waiting r.status in
    ok (update where_ (revoked now) t, one_row (returning where_ (revoked now) t))

-- ===== src/Jobs/Row.antt =====
-- The rows of jobs.jobs and jobs.system_jobs (db/migrations/0016_jobs.sql) with their CHECK
-- constraints. Identifiers are opaque numbers, timestamps are milliseconds, and NULL is `none`.
use moventra_tms.Base.{
  ℕ, Bool, true, false, ◌&&◌, ◌||◌, not, Option, none, some, List, ltb, leb, is_some, is_none,
}
use moventra_tms.Base.Int.{ℤ}
use moventra_tms.Base.Json.{Text, Json}

pub data Status : Type 0 where
  scheduled running retry_scheduled succeeded failed_terminal cancelled : Status

pub data Scope : Type 0 where
  tenant system : Scope

pub record Row : Type 0 where
  pub id : ℕ
  pub tenant_id : Option ℕ
  pub job_type : Text
  pub schema_version : ℕ
  pub payload : Json
  pub metadata : Json
  pub status : Status
  pub priority : ℤ
  pub available_at : ℕ
  pub attempt_count : ℕ
  pub max_attempts : ℕ
  pub lease_token : Option ℕ
  pub leased_at : Option ℕ
  pub lease_expires_at : Option ℕ
  pub last_heartbeat_at : Option ℕ
  pub last_error_code : Option Text
  pub last_error_class : Option Text
  pub schedule_key : Option ℕ
  pub recurrence_interval_ms : Option ℕ
  pub last_completed_at : Option ℕ
  pub completed_at : Option ℕ
  pub cancelled_at : Option ℕ
  pub created_at : ℕ
  pub updated_at : ℕ

abbrev pub Table : Type 0
Table = List Row

abbrev pub row_id : Row → ℕ
row_id r = r.id

-- `status = 'running'`
abbrev pub is_running : Status → Bool
is_running running = true
is_running _ = false

-- `status IN ('scheduled', 'retry_scheduled')`
abbrev pub is_waiting : Status → Bool
is_waiting scheduled = true
is_waiting retry_scheduled = true
is_waiting _ = false

-- `status IN ('scheduled', 'running', 'retry_scheduled')`
abbrev pub is_active : Status → Bool
is_active scheduled = true
is_active running = true
is_active retry_scheduled = true
is_active _ = false

-- `status IN ('succeeded', 'failed_terminal')`
abbrev pub is_done : Status → Bool
is_done succeeded = true
is_done failed_terminal = true
is_done _ = false

abbrev pub is_cancelled : Status → Bool
is_cancelled cancelled = true
is_cancelled _ = false

-- ck_jobs_jobs_attempts
unfoldable pub attempts_ok : Row → Bool
attempts_ok r = leb 1 r.max_attempts && leb r.max_attempts 100

-- ck_jobs_jobs_lease_lifecycle
unfoldable pub lease_lifecycle : Row → Bool
lease_lifecycle r =
    (is_running r.status
      && is_some r.lease_token
      && is_some r.leased_at
      && is_some r.lease_expires_at
      && is_some r.last_heartbeat_at)
    || (not (is_running r.status)
        && is_none r.lease_token
        && is_none r.leased_at
        && is_none r.lease_expires_at
        && is_none r.last_heartbeat_at)

abbrev expires_after : Option ℕ → Option ℕ → Bool
expires_after none leased = true
expires_after (some e) none = true
expires_after (some e) (some l) = ltb l e

-- ck_jobs_jobs_lease_temporal
unfoldable pub lease_temporal : Row → Bool
lease_temporal r = expires_after r.lease_expires_at r.leased_at

-- ck_jobs_jobs_completion
unfoldable pub completion_ok : Row → Bool
completion_ok r =
    (is_done r.status && is_some r.completed_at)
    || (not (is_done r.status) && is_none r.completed_at)

-- ck_jobs_jobs_cancellation
unfoldable pub cancellation_ok : Row → Bool
cancellation_ok r =
    (is_cancelled r.status && is_some r.cancelled_at)
    || (not (is_cancelled r.status) && is_none r.cancelled_at)

-- ===== src/Jobs/Repository/Constraints.antt =====
-- The CHECK constraints of db/migrations/0016_jobs.sql under the statements of the repository.
use moventra_tms.Base.{
  ℕ, ◌≤◌, ◌<◌, ◌≡◌, refl, Bool, true, false, ◌&&◌, Option, none, some, arith, leb, All, All-append,
  ok, inl, inr, ◌&&◌, ◌==◌,
}
use moventra_tms.Base.Sql.{update, find, Unique, All-update, Unique-update, Unique-append}
use moventra_tms.Base.Members.{All-In, All-tabulate, All-update-In, All-returning-In}
use moventra_tms.Jobs.Repository.Schedules.{enqueue-cases}
use moventra_tms.Jobs.Repository.Claims.{is_selected-is_eligible}
use moventra_tms.Jobs.Row.{
  Scope, tenant, system, Row, Table, row_id, is_waiting, attempts_ok, lease_lifecycle,
  lease_temporal, completion_ok, cancellation_ok,
}
use moventra_tms.Jobs.Repository.{
  Schedule, fresh_row, enqueue, is_exhausted, reaped, reap_expired_exhausted, leased, claim_batch,
  extended, heartbeat, completed, complete_success, Failure, failed, complete_failure, revoked,
  cancel, is_eligible, owns, insert_conflicts,
}

-- NULL, or not after `now`.
abbrev pub not_after : Option ℕ → ℕ → Bool
not_after none now = true
not_after (some a) now = leb a now

-- A row that the table's constraints admit, with no more attempts than allowed, with one left if it
-- waits, and with no lease that begins after `now`.
pub record IsValid (now : ℕ) (r : Row) : Type 0 where
  pub attempts : attempts_ok r ≡ true
  pub lifecycle : lease_lifecycle r ≡ true
  pub temporal : lease_temporal r ≡ true
  pub completion : completion_ok r ≡ true
  pub cancellation : cancellation_ok r ≡ true
  pub within : r.attempt_count ≤ r.max_attempts
  pub startable : is_waiting r.status ≡ true → r.attempt_count < r.max_attempts
  pub begun : not_after r.leased_at now ≡ true

unfoldable pub constraints : Unit {0}
unfolding attempts_ok lease_lifecycle lease_temporal completion_ok cancellation_ok
constraints = tt

pub IsValid-later : {now later : ℕ} (r : Row) → now ≤ later → IsValid now r → IsValid later r
IsValid-later r h v = record {
  attempts = v.attempts;
  lifecycle = v.lifecycle;
  temporal = v.temporal;
  completion = v.completion;
  cancellation = v.cancellation;
  within = v.within;
  startable = v.startable;
  begun = ground arith;
}

fresh_row-IsValid :
    (id now : ℕ) (job : Schedule)
    → 1 ≤ job.max_attempts
    → job.max_attempts ≤ 100
    → IsValid now (fresh_row id now job)
unfolding constraints fresh_row
fresh_row-IsValid id now job h k = ground arith

reaped-IsValid :
    (now : ℕ) (r : Row) → is_exhausted now r ≡ true → IsValid now r → IsValid now (reaped now r)
unfolding constraints is_exhausted reaped
reaped-IsValid now r e v = ground arith

leased-IsValid :
    (lease_ms token now : ℕ) (r : Row)
    → 0 < lease_ms
    → (locked : ℕ → Bool) → is_eligible locked now r ≡ true
    → IsValid now r
    → IsValid now (leased lease_ms token now r)
unfolding constraints is_eligible leased
leased-IsValid lease_ms token now r h locked e v = ground arith

extended-IsValid :
    (lease_ms token now : ℕ) (r : Row)
    → 0 < lease_ms
    → owns token r ≡ true
    → IsValid now r
    → IsValid now (extended lease_ms now r)
unfolding constraints owns extended
extended-IsValid lease_ms token now r h e v = ground arith

completed-IsValid :
    (token now : ℕ) (r : Row) → owns token r ≡ true → IsValid now r → IsValid now (completed now r)
unfolding constraints owns completed
completed-IsValid token now r e v = ground arith

failed-IsValid :
    (f : Failure) (token now : ℕ) (r : Row)
    → owns token r ≡ true
    → IsValid now r
    → IsValid now (failed f now r)
unfolding constraints owns failed
failed-IsValid f token now r e v = ground arith

revoked-IsValid :
    (now : ℕ) (r : Row) → is_waiting r.status ≡ true → IsValid now r → IsValid now (revoked now r)
unfolding constraints revoked
revoked-IsValid now r e v = ground arith

-- A table of such rows under a primary key.
pub record IsSound (now : ℕ) (t : Table) : Type 0 where
  pub rows : All (IsValid now) t
  pub keyed : Unique row_id t

pub IsSound-later : {now later : ℕ} (t : Table) → now ≤ later → IsSound now t → IsSound later t
IsSound-later t h s = record {
  rows = All-tabulate _ t (λ r m. IsValid-later r h (All-In _ r t s.rows m));
  keyed = s.keyed;
}

pub enqueue-IsSound :
    (repository : Scope) (id now : ℕ) (job : Schedule) (t : Table) {t' : Table} {r : Row}
    → 1 ≤ job.max_attempts
    → job.max_attempts ≤ 100
    → IsSound now t
    → enqueue repository id now job t ≡ ok (t', r)
    → IsSound now t'
unfolding insert_conflicts fresh_row
enqueue-IsSound repository id now job t h k s e = elim (enqueue-cases repository id now job t e) [
  | inl (free, same, _) ↦ rw same (record {
    rows = All-append (IsValid now) t _ s.rows (fresh_row-IsValid id now job h k, tt);
    keyed = Unique-append row_id t (fresh_row id now job) s.keyed (fresh_id id job t free);
  })
  | inr (same, _, _) ↦ rw same s
]
  where
    fresh_id :
        (id : ℕ) (job : Schedule) (t : Table)
        → insert_conflicts id job t ≡ false
        → find row_id id t ≡ none
    fresh_id id job t e = ground arith

pub reap_expired_exhausted-IsSound :
    (now : ℕ) (t : Table) → IsSound now t → IsSound now (reap_expired_exhausted now t).0
unfolding reap_expired_exhausted
reap_expired_exhausted-IsSound now t s = record {
  rows = All-update (IsValid now) _ _ t (reaped-IsValid now) s.rows;
  keyed = Unique-update row_id _ _ (λ r. refl) t s.keyed;
}

pub claim_batch-IsSound :
    (limit lease_ms token : ℕ) (locked : ℕ → Bool) (now : ℕ) (t : Table)
    → 0 < lease_ms
    → IsSound now t
    → IsSound now (claim_batch limit lease_ms token locked now t).0
unfolding claim_batch
claim_batch-IsSound limit lease_ms token locked now t h s = record {
  rows =
      All-update-In (IsValid now) _ _ t
        (λ r m e v.
          leased-IsValid lease_ms token now r h locked
            (is_selected-is_eligible limit lease_ms token locked now t r s.keyed m e) v)
        s.rows;
  keyed = Unique-update row_id _ _ (λ r. refl) t s.keyed;
}

-- The rows that a claim returns have used no more attempts than allowed, which are 100 at most.
pub claim_batch-attempts :
    (limit lease_ms token : ℕ) (locked : ℕ → Bool) (now : ℕ) (t : Table)
    → IsSound now t
    → All
        (λ r. (r.attempt_count ≤ r.max_attempts) × (r.attempt_count ≤ 100))
        (claim_batch limit lease_ms token locked now t).1
unfolding claim_batch
claim_batch-attempts limit lease_ms token locked now t s = All-returning-In _ _ _ t (λ r m e.
    counted r (All-In (IsValid now) r t s.rows m)
      (is_selected-is_eligible limit lease_ms token locked now t r s.keyed m e))
  where
    counted :
        (r : Row)
        → IsValid now r
        → is_eligible locked now r ≡ true
        → ((leased lease_ms token now r).attempt_count ≤ r.max_attempts)
          × ((leased lease_ms token now r).attempt_count ≤ 100)
    counted r v e = unfold constraints is_eligible leased in ground arith

-- A statement on the row of one key, where the row fits the condition `q`.
module _ (now k : ℕ) (q : Row → Bool) (f : Row → Row) where
  by_key-IsSound :
      (t : Table)
      → ((r : Row) → q r ≡ true → IsValid now r → IsValid now (f r))
      → ((r : Row) → row_id (f r) ≡ row_id r)
      → IsSound now t
      → IsSound now (update (λ r. row_id r == k && q r) f t)
  by_key-IsSound t h keeps s = record {
    rows = All-update (IsValid now) _ f t (λ r e v. h r (ground arith) v) s.rows;
    keyed = Unique-update row_id _ f keeps t s.keyed;
  }

pub heartbeat-IsSound :
    (job_id token lease_ms now : ℕ) (t : Table)
    → 0 < lease_ms
    → IsSound now t
    → IsSound now (heartbeat job_id token lease_ms now t).0
unfolding heartbeat
heartbeat-IsSound job_id token lease_ms now t h s =
    by_key-IsSound now job_id _ (extended lease_ms now) t
      (λ r e v. extended-IsValid lease_ms token now r h (ground arith) v) (λ r. refl) s

pub complete_success-IsSound :
    (job_id token now : ℕ) (t : Table)
    → IsSound now t
    → IsSound now (complete_success job_id token now t).0
unfolding complete_success
complete_success-IsSound job_id token now t s =
    by_key-IsSound now job_id (owns token) (completed now) t (completed-IsValid token now)
      (λ r. refl) s

pub complete_failure-IsSound :
    (job_id token : ℕ) (f : Failure) (now : ℕ) (t : Table)
    → IsSound now t
    → IsSound now (complete_failure job_id token f now t).0
unfolding complete_failure
complete_failure-IsSound job_id token f now t s =
    by_key-IsSound now job_id (owns token) (failed f now) t (failed-IsValid f token now) (λ r. refl)
      s

pub cancel-IsSound :
    (scope : Scope) (job_id now : ℕ) (t : Table) {t' : Table} {r : Option Row}
    → IsSound now t
    → cancel scope job_id now t ≡ ok (t', r)
    → IsSound now t'
unfolding cancel
cancel-IsSound system job_id now t s e = cc
cancel-IsSound tenant job_id now t {t'} s e =
    let same : t' ≡ update (λ r. r.id == job_id && is_waiting r.status) (revoked now) t =
      ground arith in
    rw same (
      by_key-IsSound now job_id (λ r. is_waiting r.status) (revoked now) t (revoked-IsValid now)
        (λ r. refl) s)

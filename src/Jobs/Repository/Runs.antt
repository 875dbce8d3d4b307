-- ===== src/Jobs/Repository/Runs.antt =====
-- Any interleaving of the repository's statements, by any number of schedulers and workers.
use moventra_tms.Base.{ℕ, ◌≤◌, ◌<◌, ◌≡◌, refl, Bool, true, Option, [], arith, ok, ◌&&◌, ◌==◌}
use moventra_tms.Base.Sql.{update}
use moventra_tms.Jobs.Row.{Scope, tenant, system, Row, Table, is_active, is_waiting}
use moventra_tms.Jobs.Repository.{
  Schedule, enqueue, reap_expired_exhausted, claim_batch, heartbeat, complete_success, Failure,
  complete_failure, cancel, reaped, leased, extended, completed, failed, revoked, is_eligible,
}
use moventra_tms.Jobs.Repository.Constraints.{
  IsSound, IsSound-later, enqueue-IsSound, reap_expired_exhausted-IsSound, claim_batch-IsSound,
  heartbeat-IsSound, complete_success-IsSound, complete_failure-IsSound, cancel-IsSound,
}
use moventra_tms.Jobs.Repository.Claims.{is_selected-is_eligible}
use moventra_tms.Jobs.Repository.Schedules.{
  HasSingletons, update-HasSingletons, enqueue-HasSingletons,
}

-- The database at a time.
pub record World : Type 0 where
  pub now : ℕ
  pub table : Table

-- One statement, or the passing of time. `maxAttempts` and `leaseMs` are in the ranges that
-- `normalizeJobScheduleInput` and the constructor of `JobWorker` check.
pub data Step (w : World) (w' : World) : Type 0 where
  waits : w.now ≤ w'.now → w'.table ≡ w.table → Step w w'
  enqueues :
      (repository : Scope) (id : ℕ) (job : Schedule) (r : Row)
      → 1 ≤ job.max_attempts
      → job.max_attempts ≤ 100
      → enqueue repository id w.now job w.table ≡ ok (w'.table, r)
      → w'.now ≡ w.now
      → Step w w'
  reaps : w'.table ≡ (reap_expired_exhausted w.now w.table).0 → w'.now ≡ w.now → Step w w'
  claims :
      (limit lease_ms token : ℕ) (locked : ℕ → Bool)
      → 0 < lease_ms
      → w'.table ≡ (claim_batch limit lease_ms token locked w.now w.table).0
      → w'.now ≡ w.now
      → Step w w'
  beats :
      (job_id token lease_ms : ℕ)
      → 0 < lease_ms
      → w'.table ≡ (heartbeat job_id token lease_ms w.now w.table).0
      → w'.now ≡ w.now
      → Step w w'
  succeeds :
      (job_id token : ℕ)
      → w'.table ≡ (complete_success job_id token w.now w.table).0
      → w'.now ≡ w.now
      → Step w w'
  fails :
      (job_id token : ℕ) (f : Failure)
      → w'.table ≡ (complete_failure job_id token f w.now w.table).0
      → w'.now ≡ w.now
      → Step w w'
  cancels :
      (scope : Scope) (job_id : ℕ) (r : Option Row)
      → cancel scope job_id w.now w.table ≡ ok (w'.table, r)
      → w'.now ≡ w.now
      → Step w w'

pub data Reach (w : World) : World → Type 0 where
  here : Reach w w
  next : {u v : World} → Reach w u → Step u v → Reach w v

Step-IsSound : (w w' : World) → Step w w' → IsSound w.now w.table → IsSound w'.now w'.table
Step-IsSound w w' (waits h e) s = rw e (IsSound-later w.table h s)
Step-IsSound w w' (enqueues repository id job r h k e n) s =
    rw n (enqueue-IsSound repository id w.now job w.table h k s e)
Step-IsSound w w' (reaps e n) s = rw (n, e) (reap_expired_exhausted-IsSound w.now w.table s)
Step-IsSound w w' (claims limit lease_ms token locked h e n) s =
    rw (n, e) (claim_batch-IsSound limit lease_ms token locked w.now w.table h s)
Step-IsSound w w' (beats job_id token lease_ms h e n) s =
    rw (n, e) (heartbeat-IsSound job_id token lease_ms w.now w.table h s)
Step-IsSound w w' (succeeds job_id token e n) s =
    rw (n, e) (complete_success-IsSound job_id token w.now w.table s)
Step-IsSound w w' (fails job_id token f e n) s =
    rw (n, e) (complete_failure-IsSound job_id token f w.now w.table s)
Step-IsSound w w' (cancels scope job_id r e n) s =
    rw n (cancel-IsSound scope job_id w.now w.table s e)

module _ (now : ℕ) (t : Table) (h : HasSingletons t) where
  reap_expired_exhausted-HasSingletons : HasSingletons (reap_expired_exhausted now t).0
  unfolding reap_expired_exhausted
  reap_expired_exhausted-HasSingletons =
      update-HasSingletons _ (reaped now) t (λ r m e a. cc) (λ r. (refl, refl)) h

  claim_batch-HasSingletons :
      (limit lease_ms token : ℕ) (locked : ℕ → Bool)
      → IsSound now t
      → HasSingletons (claim_batch limit lease_ms token locked now t).0
  unfolding claim_batch leased
  claim_batch-HasSingletons limit lease_ms token locked s =
      update-HasSingletons _ (leased lease_ms token now) t
        (λ r m e a.
          was_active r (is_selected-is_eligible limit lease_ms token locked now t r s.keyed m e))
        (λ r. (refl, refl)) h
    where
      was_active : (r : Row) → is_eligible locked now r ≡ true → is_active r.status ≡ true
      was_active r e = unfold is_eligible in ground arith

  heartbeat-HasSingletons :
      (job_id token lease_ms : ℕ) → HasSingletons (heartbeat job_id token lease_ms now t).0
  unfolding heartbeat
  heartbeat-HasSingletons job_id token lease_ms =
      update-HasSingletons _ (extended lease_ms now) t (λ r m e a. a) (λ r. (refl, refl)) h

  complete_success-HasSingletons :
      (job_id token : ℕ) → HasSingletons (complete_success job_id token now t).0
  unfolding complete_success
  complete_success-HasSingletons job_id token =
      update-HasSingletons _ (completed now) t (λ r m e a. ground arith) (λ r. (refl, refl)) h

  complete_failure-HasSingletons :
      (job_id token : ℕ) (f : Failure) → HasSingletons (complete_failure job_id token f now t).0
  unfolding complete_failure
  complete_failure-HasSingletons job_id token f =
      update-HasSingletons _ (failed f now) t (λ r m e a. ground arith) (λ r. (refl, refl)) h

  cancel-HasSingletons :
      (scope : Scope) (job_id : ℕ) {t' : Table} {r : Option Row}
      → cancel scope job_id now t ≡ ok (t', r)
      → HasSingletons t'
  unfolding cancel
  cancel-HasSingletons system job_id e = cc
  cancel-HasSingletons tenant job_id {t'} e =
      let same : t' ≡ update (λ r. r.id == job_id && is_waiting r.status) (revoked now) t =
        ground arith in
      rw same (update-HasSingletons _ (revoked now) t (λ r m k a. cc) (λ r. (refl, refl)) h)

-- What every interleaving keeps: the constraints of the table, and one active row for a key.
pub record Invariant (w : World) : Type 0 where
  pub sound : IsSound w.now w.table
  pub singletons : HasSingletons w.table

Step-HasSingletons : (w w' : World) → Step w w' → Invariant w → HasSingletons w'.table
Step-HasSingletons w w' (waits h e) v = rw e v.singletons
Step-HasSingletons w w' (enqueues repository id job r h k e n) v =
    enqueue-HasSingletons repository id w.now job w.table e v.singletons
Step-HasSingletons w w' (reaps e n) v =
    rw e (reap_expired_exhausted-HasSingletons w.now w.table v.singletons)
Step-HasSingletons w w' (claims limit lease_ms token locked h e n) v =
    rw e (claim_batch-HasSingletons w.now w.table v.singletons limit lease_ms token locked v.sound)
Step-HasSingletons w w' (beats job_id token lease_ms h e n) v =
    rw e (heartbeat-HasSingletons w.now w.table v.singletons job_id token lease_ms)
Step-HasSingletons w w' (succeeds job_id token e n) v =
    rw e (complete_success-HasSingletons w.now w.table v.singletons job_id token)
Step-HasSingletons w w' (fails job_id token f e n) v =
    rw e (complete_failure-HasSingletons w.now w.table v.singletons job_id token f)
Step-HasSingletons w w' (cancels scope job_id r e n) v =
    cancel-HasSingletons w.now w.table v.singletons scope job_id e

abbrev pub empty : World
empty = record { now = 0; table = [] }

empty-Invariant : Invariant empty
empty-Invariant = record {
  sound = record { rows = tt; keyed = tt };
  singletons = λ r s m n c. absurd m;
}

Reach-keeps : {w v : World} → Reach w v → Invariant w → Invariant v
Reach-keeps here i = i
Reach-keeps (next {u} {v} r st) i =
    let before = Reach-keeps r i in
    record {
      sound = Step-IsSound u v st before.sound;
      singletons = Step-HasSingletons u v st before;
    }

-- After any sequence of the repository's statements and of waiting, from an empty table, by any
-- schedulers and workers whose maxAttempts and leaseMs are in range, each row meets the CHECK
-- constraints on attempts, leases, completion and cancellation with no more attempts than allowed,
-- ids are unique, and a schedule key has one active row in a tenant.
pub Reach-Invariant : (w : World) → Reach empty w → Invariant w
Reach-Invariant w r = Reach-keeps r empty-Invariant

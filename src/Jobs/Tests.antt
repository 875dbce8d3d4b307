-- ===== src/Jobs/Tests.antt =====
-- Jobs on concrete tables: two tenants' jobs, their worker, and its rounds.
use moventra_tms.Base.{
  ℕ, ◌+◌, ◌≤◌, ◌<◌, ◌++◌, ◌≡◌, ◌≢◌, ◌⊎◌, inl, inr, refl, Bool, true, false, none, some, [], ◌∷◌,
  arith, ok, contains,
}
use moventra_tms.Base.Sql.{find, Unique}
use moventra_tms.Base.Members.{In}
use moventra_tms.Base.Int.{pos, negsuc}
use moventra_tms.Base.Json.{null, codes}
use moventra_tms.Jobs.Row.{
  scheduled, retry_scheduled, succeeded, failed_terminal, tenant, Row, Table, row_id,
}
use moventra_tms.Jobs.Repository.{
  Schedule, fresh_row, insert_conflicts, existing_row, same_singleton, enqueue, is_eligible,
  is_exhausted, precedes, leased, claim_batch, owns, extended, heartbeat, completed,
  complete_success, Failure, failed, complete_failure,
}
use moventra_tms.Jobs.Repository.Constraints.{IsValid, constraints}
use moventra_tms.Jobs.Repository.Claims.{claimed_ids, claim_batch-precedes}
use moventra_tms.Jobs.Repository.Leases.{
  claim_batch_fences, claim_batch_excludes, complete_success_owned, complete_failure_owned,
  active_is_served,
}
use moventra_tms.Jobs.Repository.Schedules.{enqueue-enqueue}
use moventra_tms.Jobs.Repository.Enqueued.{HoldsKey, IsNew, enqueue_settles}
use moventra_tms.Jobs.Repository.Runs.{
  World, here, next, enqueues, claims, Invariant, Reach-Invariant,
}

jobs : Unit {0}
unfolding fresh_row insert_conflicts existing_row same_singleton enqueue is_eligible is_exhausted
    precedes leased claim_batch owns extended heartbeat completed complete_success failed
    complete_failure
jobs = tt

abbrev nightly : Schedule
nightly = record {
  tenant_id = some 7;
  scope = tenant;
  job_type = codes "routes.refresh";
  schema_version = 1;
  payload = null;
  metadata = null;
  priority = pos 3;
  available_at = 10;
  max_attempts = 2;
  schedule_key = some 40;
  recurrence_interval_ms = some 60000;
}

abbrev single : Schedule
single = record nightly { priority = negsuc 0; schedule_key = none; recurrence_interval_ms = none }

abbrev first : Row
first = fresh_row 1 5 nightly

abbrev second : Row
second = fresh_row 2 5 single

abbrev two : Table
two = first ∷ second ∷ []

two-Unique : Unique row_id two
unfolding jobs
two-Unique = (refl, (refl, tt))

abbrev unlocked : ℕ → Bool
unlocked _ = false

-- The table once worker 100 holds the first job.
abbrev held : Table
held = leased 1000 100 20 first ∷ second ∷ []

abbrev lost : Failure
lost = record {
  retryable = true;
  error_code = codes "MVT_X";
  error_class = codes "retryable";
  delay_ms = 500;
}

abbrev enqueued : World
enqueued = record { now = 0; table = fresh_row 1 0 nightly ∷ [] }

abbrev taken : World
taken = record { now = 0; table = (claim_batch 5 1000 100 unlocked 0 enqueued.table).0 }

Reach-Invariant_example : Invariant taken
unfolding jobs
Reach-Invariant_example = Reach-Invariant taken (
    next
      (next here
        (enqueues tenant 1 nightly (fresh_row 1 0 nightly) (omega arith) (omega arith) refl refl))
      (claims 5 1000 100 unlocked (omega arith) refl refl))

claim_batch_fences_example :
    (heartbeat 1 99 1000 30 (claim_batch 1 1000 100 unlocked 20 two).0
      ≡ ((claim_batch 1 1000 100 unlocked 20 two).0, false))
    × (complete_success 1 99 30 (claim_batch 1 1000 100 unlocked 20 two).0
        ≡ ((claim_batch 1 1000 100 unlocked 20 two).0, none))
    × (complete_failure 1 99 lost 30 (claim_batch 1 1000 100 unlocked 20 two).0
        ≡ ((claim_batch 1 1000 100 unlocked 20 two).0, none))
unfolding jobs
claim_batch_fences_example =
    claim_batch_fences 1 1000 100 unlocked 20 two two-Unique first (inl refl) 99 1000 30 lost
      (λ e. omega (arith, e)) refl

claim_batch_excludes_example :
    contains (claimed_ids 5 1000 101 unlocked 900 (claim_batch 1 1000 100 unlocked 20 two).0) 1
    ≡ false
unfolding jobs
claim_batch_excludes_example =
    claim_batch_excludes 1 1000 100 unlocked 20 two two-Unique first (inl refl) 5 1000 101 900
      unlocked refl (omega arith)

claim_batch-precedes_example : precedes second first ≡ false
unfolding jobs
claim_batch-precedes_example =
    claim_batch-precedes 1 1000 100 unlocked 20 two first second two-Unique (inl refl)
      (inr (inl refl)) refl refl refl

complete_success_owned_example :
    (r : Row) × ((complete_success 1 100 50 held).1 ≡ some r)
    × (find row_id 1 (complete_success 1 100 50 held).0 ≡ some r)
    × (r.lease_token ≡ none)
    × (r.last_completed_at ≡ some 50)
    × (first.recurrence_interval_ms ≡ none → (r.status ≡ succeeded) × (r.completed_at ≡ some 50))
    × ((interval : ℕ)
        → first.recurrence_interval_ms ≡ some interval
        → (r.status ≡ scheduled) × (r.available_at ≡ 50 + interval) × (r.attempt_count ≡ 0))
unfolding jobs
complete_success_owned_example =
    complete_success_owned 1 100 held (refl, (refl, tt)) (leased 1000 100 20 first) refl refl 50

complete_failure_owned_example :
    (r : Row) × ((complete_failure 1 100 lost 50 held).1 ≡ some r)
    × (find row_id 1 (complete_failure 1 100 lost 50 held).0 ≡ some r)
    × (r.lease_token ≡ none)
    × (r.last_error_code ≡ some lost.error_code)
    × (true ≡ true → 1 < 2 → (r.status ≡ retry_scheduled) × (r.available_at ≡ 50 + 500))
    × ((true ≡ false) ⊎ (2 ≤ 1) → (r.status ≡ failed_terminal) × (r.completed_at ≡ some 50))
unfolding jobs
complete_failure_owned_example =
    complete_failure_owned 1 100 held (refl, (refl, tt)) (leased 1000 100 20 first) refl refl lost
      50

first-IsValid : IsValid 20 first
unfolding jobs constraints
first-IsValid = record {
  attempts = refl;
  lifecycle = refl;
  temporal = refl;
  completion = refl;
  cancellation = refl;
  within = omega arith;
  startable = λ e. omega arith;
  begun = refl;
}

active_is_served_example : (is_eligible unlocked 20 first ≡ true) ⊎ (is_exhausted 20 first ≡ true)
unfolding jobs
active_is_served_example =
    active_is_served unlocked 20 first first-IsValid refl refl (omega arith) refl

enqueue-enqueue_example : enqueue tenant 9 77 nightly two ≡ ok (two, first)
unfolding jobs
enqueue-enqueue_example = enqueue-enqueue tenant 3 6 9 77 nightly two refl refl

enqueue_settles_example :
    (tenant ≡ tenant)
    × (((two ++ fresh_row 3 6 single ∷ [] ≡ two ++ fresh_row 3 6 single ∷ [])
          × IsNew 3 6 single (fresh_row 3 6 single)
          × ((s : Row) → In s two → s.id ≢ 3)
          × ((s : Row) → In s two → ¬ HoldsKey single s))
        ⊎ ((two ++ fresh_row 3 6 single ∷ [] ≡ two)
            × In (fresh_row 3 6 single) two
            × HoldsKey single (fresh_row 3 6 single)))
unfolding jobs
enqueue_settles_example = enqueue_settles tenant 3 6 single two refl

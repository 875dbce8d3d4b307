-- ===== src/Jobs/Repository/Leases.antt =====
-- Leases: who may act on a running job, and what becomes of it.
use moventra_tms.Base.{
  ℕ, ◌+◌, ◌≤◌, ◌<◌, ◌≡◌, ◌≢◌, ◌⊎◌, inl, inr, refl, sym, ap, ◌∙◌, Bool, true, false, ◌&&◌, none,
  some, arith, ◌==◌, Bool-cases, Option-cases, ltb, contains, col_gt,
}
use moventra_tms.Base.Sql.{
  update, returning, find, Unique, update, opt_map, touch, find-key, find-update, returning_by_key,
  Unique-update,
}
use moventra_tms.Base.Members.{In, In-find, find-In, update_miss, returning_miss}
use moventra_tms.Jobs.Row.{
  retry_scheduled, failed_terminal, scheduled, succeeded, Row, Table, row_id, is_active,
}
use moventra_tms.Jobs.Repository.{
  is_eligible, is_selected, leased, claim_batch, owns, extended, heartbeat, completed,
  complete_success, Failure, failed, complete_failure, is_exhausted, one_row,
}
use moventra_tms.Jobs.Repository.Constraints.{IsValid, not_after, constraints}
use moventra_tms.Jobs.Repository.Claims.{claimed_ids, is_selected-is_eligible, contains-claimed_ids}

-- A worker that does not hold the lease changes nothing, and each call tells it so.
module _ (job_id token : ℕ) (t : Table) (keyed : Unique row_id t)
    (lost : (r : Row) → find row_id job_id t ≡ some r → owns token r ≡ false) where
  complete_success_fenced : (now : ℕ) → complete_success job_id token now t ≡ (t, none)
  unfolding complete_success
  complete_success_fenced now = ground (
    arith,
    update_miss row_id job_id (owns token) (completed now) t keyed lost,
    returning_miss row_id job_id (owns token) (completed now) t keyed lost,
  )

  complete_failure_fenced :
      (f : Failure) (now : ℕ) → complete_failure job_id token f now t ≡ (t, none)
  unfolding complete_failure
  complete_failure_fenced f now = ground (
    arith,
    update_miss row_id job_id (owns token) (failed f now) t keyed lost,
    returning_miss row_id job_id (owns token) (failed f now) t keyed lost,
  )

  heartbeat_fenced : (lease_ms now : ℕ) → heartbeat job_id token lease_ms now t ≡ (t, false)
  unfolding heartbeat
  heartbeat_fenced lease_ms now =
      let q = λ (r : Row). owns token r && col_gt r.lease_expires_at now in
      let no = λ (r : Row) (e : find row_id job_id t ≡ some r).
        and_false (col_gt r.lease_expires_at now) (lost r e) in
      ground (
        arith,
        update_miss row_id job_id q (extended lease_ms now) t keyed no,
        returning_miss row_id job_id q (extended lease_ms now) t keyed no,
      )
    where
      and_false : {a : Bool} (b : Bool) → a ≡ false → (a && b) ≡ false
      and_false b e = ground arith

-- A claimed row is leased to the claim's token, and its attempt is counted.
module _ (limit lease_ms token : ℕ) (locked : ℕ → Bool) (now : ℕ) (t : Table)
    (keyed : Unique row_id t) (r : Row) (m : In r t) where
  abbrev claimed_table : Table
  claimed_table = (claim_batch limit lease_ms token locked now t).0

  claimed_table-Unique : Unique row_id claimed_table
  unfolding claim_batch leased
  claimed_table-Unique = Unique-update row_id _ _ (λ s. refl) t keyed

  find-claim_batch :
      find row_id r.id claimed_table
      ≡ some (touch (is_selected limit locked now t) (leased lease_ms token now) r)
  unfolding claim_batch leased
  find-claim_batch =
      find-update row_id _ _ (λ s. refl) r.id t ∙ ap (opt_map _) (In-find row_id r t keyed m)

  find-claim_batch_taken :
      contains (claimed_ids limit lease_ms token locked now t) r.id ≡ true
      → find row_id r.id claimed_table ≡ some (leased lease_ms token now r)
  find-claim_batch_taken taken =
      find-claim_batch
      ∙ rw (sym (contains-claimed_ids limit lease_ms token locked now t r keyed m) ∙ taken)

  -- In a table with unique ids, once a claim took a row under a token, heartbeat, completeSuccess
  -- and completeFailure for the row with another token change nothing on the table that the claim
  -- left, and report the loss.
  pub claim_batch_fences :
      (stale beat_ms later : ℕ) (f : Failure)
      → stale ≢ token
      → contains (claimed_ids limit lease_ms token locked now t) r.id ≡ true
      → (heartbeat r.id stale beat_ms later claimed_table ≡ (claimed_table, false))
        × (complete_success r.id stale later claimed_table ≡ (claimed_table, none))
        × (complete_failure r.id stale f later claimed_table ≡ (claimed_table, none))
  claim_batch_fences stale beat_ms later f other taken = (
    heartbeat_fenced r.id stale claimed_table claimed_table-Unique lost beat_ms later,
    complete_success_fenced r.id stale claimed_table claimed_table-Unique lost later,
    complete_failure_fenced r.id stale claimed_table claimed_table-Unique lost f later,
  )
    where
      not_owner : owns stale (leased lease_ms token now r) ≡ false
      not_owner = unfold owns leased in ground arith

      lost : (s : Row) → find row_id r.id claimed_table ≡ some s → owns stale s ≡ false
      lost s e = ground (arith, find-claim_batch_taken taken, not_owner)

  -- In a table with unique ids, a row that a claim leases is in no claim on the table that it left
  -- before the lease has run out.
  pub claim_batch_excludes :
      (limit' lease_ms' token' later : ℕ) (locked' : ℕ → Bool)
      → contains (claimed_ids limit lease_ms token locked now t) r.id ≡ true
      → later < now + lease_ms
      → contains (claimed_ids limit' lease_ms' token' locked' later claimed_table) r.id ≡ false
  unfolding leased
  claim_batch_excludes limit' lease_ms' token' later locked' taken h =
      let after = leased lease_ms token now r in
      let n = find-In row_id r.id claimed_table (find-claim_batch_taken taken) in
      elim (Bool-cases (is_selected limit' locked' later claimed_table after)) [
        | inl again ↦ absurd (
            busy locked' (
              is_selected-is_eligible limit' lease_ms' token' locked' later claimed_table after
                claimed_table-Unique n again))
        | inr free ↦
            contains-claimed_ids limit' lease_ms' token' locked' later claimed_table after
              claimed_table-Unique n
            ∙ free
      ]
    where
      busy :
          (locked' : ℕ → Bool) → is_eligible locked' later (leased lease_ms token now r) ≡ true → ⊥
      busy locked' e = unfold is_eligible leased in ground arith

-- The calls of the worker that holds the lease.
module _ (job_id token : ℕ) (t : Table) (keyed : Unique row_id t) (r : Row)
    (found : find row_id job_id t ≡ some r) (owned : owns token r ≡ true) where
  by_key_hit :
      (f : Row → Row)
      → ((s : Row) → row_id (f s) ≡ row_id s)
      → (one_row (returning (λ s. row_id s == job_id && owns token s) f t) ≡ some (f r))
        × (find row_id job_id (update (λ s. row_id s == job_id && owns token s) f t) ≡ some (f r))
  by_key_hit f keeps = (
    rw (returning_by_key row_id job_id (owns token) f t keyed) (rw (found, owned)),
    rw (find-update row_id _ f keeps job_id t)
        (rw found (ground (arith, find-key row_id job_id t found))),
  )

  -- In a table with unique ids, completeSuccess by the owner of a lease ends a job that does not
  -- recur, and puts one that does back for its next round with its attempts at zero; either way the
  -- lease is given up.
  pub complete_success_owned :
      (now : ℕ)
      → (r' : Row) × ((complete_success job_id token now t).1 ≡ some r')
        × (find row_id job_id (complete_success job_id token now t).0 ≡ some r')
        × (r'.lease_token ≡ none)
        × (r'.last_completed_at ≡ some now)
        × (r.recurrence_interval_ms ≡ none → (r'.status ≡ succeeded) × (r'.completed_at ≡ some now))
        × ((interval : ℕ)
            → r.recurrence_interval_ms ≡ some interval
            → (r'.status ≡ scheduled) × (r'.available_at ≡ now + interval) × (r'.attempt_count ≡ 0))
  unfolding complete_success completed
  complete_success_owned now =
      let (returned, stored) = by_key_hit (completed now) (λ s. refl) in
      (completed now r, returned, stored, refl, refl, λ e. ground arith, λ interval e. ground arith)

  -- In a table with unique ids, completeFailure by the owner of a lease schedules a retry when the
  -- failure is retryable and an attempt is left, and ends the job in all other cases; either way
  -- the error's code is stored and the lease is given up.
  pub complete_failure_owned :
      (f : Failure) (now : ℕ)
      → (r' : Row) × ((complete_failure job_id token f now t).1 ≡ some r')
        × (find row_id job_id (complete_failure job_id token f now t).0 ≡ some r')
        × (r'.lease_token ≡ none)
        × (r'.last_error_code ≡ some f.error_code)
        × (f.retryable ≡ true
            → r.attempt_count < r.max_attempts
            → (r'.status ≡ retry_scheduled) × (r'.available_at ≡ now + f.delay_ms))
        × ((f.retryable ≡ false) ⊎ (r.max_attempts ≤ r.attempt_count)
            → (r'.status ≡ failed_terminal) × (r'.completed_at ≡ some now))
  unfolding complete_failure failed
  complete_failure_owned f now =
      let (returned, stored) = by_key_hit (failed f now) (λ s. refl) in
      (failed f now r, returned, stored, refl, refl, λ e h. ground arith, λ e. ground arith)

-- No job is stuck: at a time when its available_at and its lease, if it has one, have passed, a
-- valid active job that is not locked is in reach of claimBatch or of reapExpiredExhausted.
pub active_is_served :
    (locked : ℕ → Bool) (now : ℕ) (r : Row)
    → IsValid now r
    → is_active r.status ≡ true
    → locked r.id ≡ false
    → r.available_at ≤ now
    → not_after r.lease_expires_at now ≡ true
    → (is_eligible locked now r ≡ true) ⊎ (is_exhausted now r ≡ true)
unfolding is_eligible is_exhausted constraints
active_is_served locked now r v active free due expired = ground arith

-- After `completeSuccess` or `completeFailure` under a token no row of the job is held under it.
module _ (job_id token : ℕ) (t : Table) (keyed : Unique row_id t) where
  owner-cases :
      ((r : Row) → find row_id job_id t ≡ some r → owns token r ≡ false)
      ⊎ ((r : Row) × (find row_id job_id t ≡ some r) × (owns token r ≡ true))
  owner-cases = elim (Option-cases (find row_id job_id t)) [
    | inl none_found ↦ inl (λ r e. cc)
    | inr (s, e) ↦ elim (Bool-cases (owns token s)) [
      | inl yes_owned ↦ inr (s, e, yes_owned)
      | inr not_owned ↦ inl (λ r e'. ground arith)
    ]
  ]

  -- What `completeFailure` does in any state: the owner's row is ended or scheduled again, and else
  -- nothing changes; in neither case is the row held under the token afterwards.
  pub complete_failure-cases :
      (f : Failure) (now : ℕ)
      → (complete_failure job_id token f now t ≡ (t, none))
          × ((r : Row) → find row_id job_id t ≡ some r → owns token r ≡ false)
        ⊎ ((r' : Row) × ((complete_failure job_id token f now t).1 ≡ some r')
            × (find row_id job_id (complete_failure job_id token f now t).0 ≡ some r')
            × (r'.lease_token ≡ none)
            × ((r'.status ≡ retry_scheduled) ⊎ (r'.status ≡ failed_terminal)))
  unfolding failed
  complete_failure-cases f now = elim owner-cases [
    | inl lost ↦ inl (complete_failure_fenced job_id token t keyed lost f now, lost)
    | inr (r, found, owned) ↦
        let (r', returned, stored, freed, _, again, ended) =
          complete_failure_owned job_id token t keyed r found owned f now in
        inr (
          r',
          returned,
          stored,
          freed,
          elim (Bool-cases (f.retryable && ltb r.attempt_count r.max_attempts)) [
            | inl e ↦ inl (again (ground arith) (ground arith)).0
            | inr e ↦ inr (ended (ground arith)).0
          ],
        )
  ]

  pub complete_success-cases :
      (now : ℕ)
      → (complete_success job_id token now t ≡ (t, none))
          × ((r : Row) → find row_id job_id t ≡ some r → owns token r ≡ false)
        ⊎ ((r r' : Row) × (find row_id job_id t ≡ some r)
            × (owns token r ≡ true)
            × ((complete_success job_id token now t).1 ≡ some r')
            × (find row_id job_id (complete_success job_id token now t).0 ≡ some r')
            × (r'.lease_token ≡ none)
            × (r'.last_completed_at ≡ some now))
  complete_success-cases now = elim owner-cases [
    | inl lost ↦ inl (complete_success_fenced job_id token t keyed lost now, lost)
    | inr (r, found, owned) ↦
        let (r', returned, stored, freed, at, _, _) =
          complete_success_owned job_id token t keyed r found owned now in
        inr (r, r', found, owned, returned, stored, freed, at)
  ]

-- ===== src/Jobs/Repository/Enqueued.antt =====
-- What scheduling a job leaves in the table, read off its columns.
use moventra_tms.Base.{
  ℕ, ◌≡◌, ◌≢◌, ◌⊎◌, inl, inr, refl, none, some, true, [], ◌∷◌, ◌++◌, arith, ok, ap, sym, subst, ◌∙◌,
  Option-cases,
}
use moventra_tms.Base.Sql.{find}
use moventra_tms.Base.Members.{In, anyb-In}
use moventra_tms.Jobs.Row.{
  Scope, tenant, system, Status, succeeded, failed_terminal, cancelled, scheduled, running,
  retry_scheduled, Row, Table, row_id, is_active,
}
use moventra_tms.Jobs.Repository.{
  Schedule, same_singleton, fresh_row, insert_conflicts, enqueue, scope_eq,
}
use moventra_tms.Jobs.Repository.Schedules.{enqueue-cases, enqueue-scope}

-- The row is not ended.
abbrev pub IsOpen : Row → Type 0
IsOpen r = (r.status ≡ scheduled) ⊎ (r.status ≡ running) ⊎ (r.status ≡ retry_scheduled)

-- The row is not ended and has the tenant and the schedule key of the job.
abbrev pub HoldsKey : Schedule → Row → Type 0
HoldsKey job r =
    (k : ℕ) × (job.schedule_key ≡ some k)
    × (r.schedule_key ≡ some k)
    × (r.tenant_id ≡ job.tenant_id)
    × IsOpen r

-- The row is the job as given, not begun and not leased.
abbrev pub IsNew : (id now : ℕ) → Schedule → Row → Type 0
IsNew id now job r =
    ((r.id ≡ id) × (r.tenant_id ≡ job.tenant_id) × (r.schedule_key ≡ job.schedule_key))
    × ((r.job_type ≡ job.job_type) × (r.schema_version ≡ job.schema_version))
    × ((r.payload ≡ job.payload) × (r.metadata ≡ job.metadata) × (r.priority ≡ job.priority))
    × ((r.available_at ≡ job.available_at)
        × (r.max_attempts ≡ job.max_attempts)
        × (r.recurrence_interval_ms ≡ job.recurrence_interval_ms))
    × ((r.status ≡ scheduled) × (r.attempt_count ≡ 0) × (r.created_at ≡ now))
    × ((r.lease_token ≡ none) × (r.leased_at ≡ none) × (r.lease_expires_at ≡ none))
    × ((r.completed_at ≡ none) × (r.cancelled_at ≡ none))

open_of_active :
    (s : Status) → is_active s ≡ true → (s ≡ scheduled) ⊎ (s ≡ running) ⊎ (s ≡ retry_scheduled)
open_of_active scheduled e = inl refl
open_of_active running e = inr (inl refl)
open_of_active retry_scheduled e = inr (inr refl)
open_of_active succeeded e = cc
open_of_active failed_terminal e = cc
open_of_active cancelled e = cc

active_of_open : (r : Row) → IsOpen r → is_active r.status ≡ true
active_of_open r (inl e) = rw e refl
active_of_open r (inr (inl e)) = rw e refl
active_of_open r (inr (inr e)) = rw e refl

no_member : (k : ℕ) (t : Table) (r : Row) → find row_id k t ≡ none → In r t → r.id ≢ k
no_member k [] r e m = absurd m
no_member k (x ∷ t) r e (inl same) = λ own. absurd (ground arith)
no_member k (x ∷ t) r e (inr m) = no_member k t r (ground arith) m

scope_eq_sound : (a b : Scope) → scope_eq a b ≡ true → a ≡ b
scope_eq_sound tenant tenant e = refl
scope_eq_sound system system e = refl
scope_eq_sound tenant system e = cc
scope_eq_sound system tenant e = cc

same_singleton-HoldsKey :
    (job : Schedule) (r : Row)
    → same_singleton job.tenant_id job.schedule_key r ≡ true
    → HoldsKey job r
unfolding same_singleton
same_singleton-HoldsKey job r h = elim (Option-cases job.schedule_key) [
  | inl unkeyed ↦ absurd (ground arith)
  | inr (k, keyed) ↦ (k, keyed, ground arith, ground arith, open_of_active r.status (ground arith))
]

HoldsKey-same_singleton :
    (job : Schedule) (r : Row)
    → HoldsKey job r
    → same_singleton job.tenant_id job.schedule_key r ≡ true
unfolding same_singleton
HoldsKey-same_singleton job r (k, keyed, own, tenants, open_row) =
    let active = active_of_open r open_row in ground arith

fresh_row-IsNew : (id now : ℕ) (job : Schedule) → IsNew id now job (fresh_row id now job)
unfolding fresh_row
fresh_row-IsNew id now job = (
  (refl, refl, refl),
  (refl, refl),
  (refl, refl, refl),
  (refl, refl, refl),
  (refl, refl, refl),
  (refl, refl, refl),
  (refl, refl),
)

-- A job is accepted only by the repository of its scope. It is then a new row at the table's end,
-- with the job's columns as given, scheduled, not attempted and not leased, where the table had
-- neither a row of its id nor an open row of its tenant with its schedule key; or the table is as
-- it was, and such an open row of it is returned.
pub enqueue_settles :
    (repository : Scope) (id now : ℕ) (job : Schedule) (t : Table) {t' : Table} {r : Row}
    → enqueue repository id now job t ≡ ok (t', r)
    → (job.scope ≡ repository)
      × (((t' ≡ t ++ r ∷ [])
            × IsNew id now job r
            × ((s : Row) → In s t → s.id ≢ id)
            × ((s : Row) → In s t → ¬ HoldsKey job s))
          ⊎ ((t' ≡ t) × In r t × HoldsKey job r))
enqueue_settles repository id now job t {t'} {r} e = (
  scope_eq_sound job.scope repository (enqueue-scope repository id now job t e),
  elim (enqueue-cases repository id now job t e) [
    | inl (fits, grown, new) ↦ inl (
      grown ∙ ap (λ x. t ++ x ∷ []) (sym new),
      subst (IsNew id now job) (sym new) (fresh_row-IsNew id now job),
      (λ s m. no_member id t s (unfold insert_conflicts in ground arith) m),
      (λ s m held.
          let taken =
            anyb-In (same_singleton job.tenant_id job.schedule_key) s t m
              (HoldsKey-same_singleton job s held) in
          absurd (unfold insert_conflicts in ground arith)),
    )
    | inr (same, m, held) ↦ inr (same, m, same_singleton-HoldsKey job r held)
  ],
)

-- ===== src/Jobs/Repository/Schedules.antt =====
-- Scheduling a job: the singleton schedule keys.
use moventra_tms.Base.{
  ℕ, ◌≡◌, sym, ap, ◌∙◌, ◌⊎◌, inl, inr, Bool, true, false, ◌&&◌, Option, some, [], ◌∷◌, ◌++◌, arith,
  anyb, head?, filterb, ok, Option-cases,
}
use moventra_tms.Base.Sql.{update, touch}
use moventra_tms.Base.Members.{
  In, head?-In, filterb-In, anyb-filterb, anyb-In, update-In, append-In, head?-filterb_append,
}
use moventra_tms.Jobs.Row.{Scope, Row, Table, is_active}
use moventra_tms.Jobs.Repository.{
  Schedule, same_singleton, fresh_row, insert_conflicts, existing_row, enqueue, scope_eq,
}

abbrev holder : Schedule → Table → Option Row
holder job t = head? (filterb (same_singleton job.tenant_id job.schedule_key) t)

existing_row-holder :
    (job : Schedule) (t : Table) {t' : Table} {r : Row}
    → existing_row job t ≡ ok (t', r)
    → (t' ≡ t) × (holder job t ≡ some r)
unfolding existing_row
existing_row-holder job t e = elim (Option-cases (holder job t)) [
  | inl missing ↦ absurd (ground arith)
  | inr (s, found) ↦ (ground arith, ground arith)
]

-- A job that is accepted is a new row at the table's end, or the first active row of its key.
enqueue-holder :
    (repository : Scope) (id now : ℕ) (job : Schedule) (t : Table) {t' : Table} {r : Row}
    → enqueue repository id now job t ≡ ok (t', r)
    → ((insert_conflicts id job t ≡ false)
        × (t' ≡ t ++ fresh_row id now job ∷ [])
        × (r ≡ fresh_row id now job))
      ⊎ ((t' ≡ t) × (holder job t ≡ some r))
unfolding enqueue
enqueue-holder repository id now job t {t'} {r} e =
    ground (arith, λ (h : existing_row job t ≡ ok (t', r)). existing_row-holder job t h)

-- A job that is accepted is a new row at the table's end, or an active row that holds its key.
pub enqueue-cases :
    (repository : Scope) (id now : ℕ) (job : Schedule) (t : Table) {t' : Table} {r : Row}
    → enqueue repository id now job t ≡ ok (t', r)
    → ((insert_conflicts id job t ≡ false)
        × (t' ≡ t ++ fresh_row id now job ∷ [])
        × (r ≡ fresh_row id now job))
      ⊎ ((t' ≡ t) × In r t × (same_singleton job.tenant_id job.schedule_key r ≡ true))
enqueue-cases repository id now job t {r} e = elim (enqueue-holder repository id now job t e) [
  | inl new ↦ inl new
  | inr (same, found) ↦ let (m, fits) = filterb-In _ r t (head?-In _ found) in inr (same, m, fits)
]

pub enqueue-scope :
    (repository : Scope) (id now : ℕ) (job : Schedule) (t : Table) {t' : Table} {r : Row}
    → enqueue repository id now job t ≡ ok (t', r)
    → scope_eq job.scope repository ≡ true
unfolding enqueue
enqueue-scope repository id now job t e = ground arith

fresh_row-same_singleton :
    (id now k : ℕ) (job : Schedule)
    → job.schedule_key ≡ some k
    → same_singleton job.tenant_id job.schedule_key (fresh_row id now job) ≡ true
unfolding fresh_row same_singleton
fresh_row-same_singleton id now k job keyed = ground arith

-- While the key of a job has a holder, scheduling it returns this row.
enqueue_held :
    (repository : Scope) (id now k : ℕ) (job : Schedule) (t : Table) {r : Row}
    → scope_eq job.scope repository ≡ true
    → job.schedule_key ≡ some k
    → holder job t ≡ some r
    → enqueue repository id now job t ≡ ok (t, r)
unfolding enqueue
enqueue_held repository id now k job t scoped keyed found =
    ground (arith, anyb-filterb (same_singleton job.tenant_id job.schedule_key) t)

-- Scheduling the same keyed job again, at any later time, returns the row of the first call and
-- leaves the table as it is.
pub enqueue-enqueue :
    (repository : Scope) (id now id' later : ℕ) (job : Schedule) (t : Table) {t' : Table} {r : Row}
    {k : ℕ}
    → job.schedule_key ≡ some k
    → enqueue repository id now job t ≡ ok (t', r)
    → enqueue repository id' later job t' ≡ ok (t', r)
unfolding insert_conflicts
enqueue-enqueue repository id now id' later job t {t'} {r} {k} keyed e =
    let scoped = enqueue-scope repository id now job t e in
    elim (enqueue-holder repository id now job t e) [
      | inl (free, same, made) ↦ enqueue_held repository id' later k job t' scoped keyed (
          rw (same, made)
            (head?-filterb_append _ (fresh_row id now job) t (ground arith)
              (fresh_row-same_singleton id now k job keyed)))
      | inr (same, found) ↦ enqueue_held repository id' later k job t' scoped keyed (rw same found)
    ]

-- `r` is active and `s` holds the same schedule key.
unfoldable pub clashes : Row → Row → Bool
unfolding same_singleton
clashes r s = is_active r.status && same_singleton r.tenant_id r.schedule_key s

-- The unique index ux_jobs_jobs_active_schedule_key.
abbrev pub HasSingletons : Table → Type 0
HasSingletons t = (r s : Row) → In r t → In s t → clashes r s ≡ true → r ≡ s

clashes-touch :
    (p : Row → Bool) (f : Row → Row) (r s : Row)
    → (p r ≡ true → is_active (f r).status ≡ true → is_active r.status ≡ true)
    → (p s ≡ true → is_active (f s).status ≡ true → is_active s.status ≡ true)
    → ((r : Row) → ((f r).tenant_id ≡ r.tenant_id) × ((f r).schedule_key ≡ r.schedule_key))
    → clashes (touch p f r) (touch p f s) ≡ true
    → clashes r s ≡ true
unfolding clashes
clashes-touch p f r s calms calms' keeps c = ground (arith, keeps r, keeps s)

module _ (p : Row → Bool) (f : Row → Row) (t : Table) where
  -- An update that keeps the keys and makes no inactive row active keeps the index.
  pub update-HasSingletons :
      ((r : Row) → In r t → p r ≡ true → is_active (f r).status ≡ true → is_active r.status ≡ true)
      → ((r : Row) → ((f r).tenant_id ≡ r.tenant_id) × ((f r).schedule_key ≡ r.schedule_key))
      → HasSingletons t
      → HasSingletons (update p f t)
  update-HasSingletons calms keeps h x y mx my c =
      let (r, m, ex) = update-In p f x t mx in
      let (s, n, ey) = update-In p f y t my in
      let same : r ≡ s =
        h r s m n (clashes-touch p f r s (calms r m) (calms s n) keeps (rw (← ex, ← ey) c)) in
      ex ∙ ap (touch p f) same ∙ sym ey

clashes_held : (x r : Row) → clashes x r ≡ true → same_singleton x.tenant_id x.schedule_key r ≡ true
unfolding clashes
clashes_held x r c = ground arith

clashes_holds :
    (x r : Row) → clashes r x ≡ true → same_singleton x.tenant_id x.schedule_key r ≡ true
unfolding clashes
clashes_holds x r c = ground arith

append-HasSingletons :
    (t : Table) (x : Row)
    → anyb (same_singleton x.tenant_id x.schedule_key) t ≡ false
    → HasSingletons t
    → HasSingletons (t ++ x ∷ [])
append-HasSingletons t x free h r s mr ms c = elim (append-In x r t mr) [
  | inl nr ↦ elim (append-In x s t ms) [
    | inl ns ↦ h r s nr ns c
    | inr es ↦ absurd (taken r nr (clashes_holds x r (rw es at c)))
  ]
  | inr er ↦ elim (append-In x s t ms) [
    | inl ns ↦ absurd (taken s ns (clashes_held x s (rw er at c)))
    | inr es ↦ er ∙ sym es
  ]
]
  where
    taken : (y : Row) → In y t → same_singleton x.tenant_id x.schedule_key y ≡ true → ⊥
    taken y m e = cc (anyb-In (same_singleton x.tenant_id x.schedule_key) y t m e)

pub enqueue-HasSingletons :
    (repository : Scope) (id now : ℕ) (job : Schedule) (t : Table) {t' : Table} {r : Row}
    → enqueue repository id now job t ≡ ok (t', r)
    → HasSingletons t
    → HasSingletons t'
unfolding insert_conflicts fresh_row
enqueue-HasSingletons repository id now job t e h = elim (enqueue-cases repository id now job t e) [
  | inr (same, _, _) ↦ rw same h
  | inl (free, same, _) ↦
      rw same (λ x y mx my c.
        append-HasSingletons t (fresh_row id now job) (no_holder free) h x y mx my c)
]
  where
    no_holder :
        insert_conflicts id job t ≡ false
        → anyb (same_singleton job.tenant_id job.schedule_key) t ≡ false
    no_holder e = ground arith

-- ===== src/Outbox/Dispatcher/Laws.antt =====
-- What the dispatcher publishes, and what its success means.
use moventra_tms.Base.{
  ℕ, ◌+◌, ◌≡◌, ◌⊎◌, inl, inr, refl, sym, ap, subst, ◌∙◌, Bool, true, false, ◌||◌, Option, none,
  some, List, [], ◌∷◌, arith, length, All, Bool-cases, Option-cases, is_some, Result, ok, err,
}
use moventra_tms.Base.Sql.{Unique, find}
use moventra_tms.Base.Members.{In}
use moventra_tms.Outbox
use moventra_tms.Outbox.{Event, Events, event_id, claimed}
use moventra_tms.Outbox.Claims.{claimed_table-Unique, find-claimed_table}
use moventra_tms.Outbox.Service.{OutboxError, claim_batch, normalize_limit, normalize_claim_ttl}
use moventra_tms.Outbox.Dispatcher.{
  Thrown, Attempt, service_error, try_publish, first_of_two, Progress, dispatch, Report, report,
  outbox_dispatcher,
}
use moventra_tms.Outbox.Dispatcher.Marks.{
  IsPublished, IsConfirmed, marked_table-Unique, marked_table-IsPublished, IsPublished-marked_table,
  try_publish-ok,
}

first_of_two-is_some : (f : Option Thrown) (x : Thrown) → is_some (first_of_two f x) ≡ true
unfolding first_of_two
first_of_two-is_some none x = refl
first_of_two-is_some (some f) x = refl

try_publish-Unique :
    (token : ℕ) (a : Attempt) (e : Event) (t : Events) {t' : Events}
    → Unique event_id t
    → try_publish token a e t ≡ ok t'
    → Unique event_id t'
try_publish-Unique token a e t u h =
    let (r, reply, sure, is_marked, _) = try_publish-ok token a e t u h in
    subst (Unique event_id) (sym is_marked) (marked_table-Unique e.id token a.now t u)

-- The loop came to its end, without a failure.
abbrev Clean : Progress × Option Thrown → Type 0
Clean q = (q.1 ≡ none) × (q.0.first_failure ≡ none)

module _ (token : ℕ) (attempts : Event → Attempt) where
  abbrev Turn : Event → List Event → Progress → Type 0
  Turn e events p =
      ((x : Thrown) × (dispatch token attempts (e ∷ events) p ≡ (p, some x)))
      ⊎ ((t' : Events) × (try_publish token (attempts e) e p.table ≡ ok t')
          × (dispatch token attempts (e ∷ events) p
              ≡ dispatch token attempts events
                  (record p { table = t'; published = p.published + 1 })))
      ⊎ ((x : Thrown) × (dispatch token attempts (e ∷ events) p
            ≡ dispatch token attempts events
                (record p { first_failure = first_of_two p.first_failure x })))

  dispatch-Turn : (e : Event) (events : List Event) (p : Progress) → Turn e events p
  unfolding dispatch
  dispatch-Turn e events p = elim (Bool-cases (attempts e).aborted_before) [
    | inl stop ↦ inl ((attempts e).reason, unfold dispatch in ground (arith, stop))
    | inr on ↦ go on (try_publish token (attempts e) e p.table) refl
  ]
    where
      go :
          (attempts e).aborted_before ≡ false
          → (x : Result Thrown Events) → try_publish token (attempts e) e p.table ≡ x
          → Turn e events p
      go on (ok t') s = inr (inl (t', s, unfold dispatch in ground (arith, on, s)))
      go on (err x) s =
          elim (Bool-cases ((attempts e).aborted_after || (attempts e).aborted_in_catch)) [
            | inl late ↦ inl (x, unfold dispatch in ground (arith, on, s, late))
            | inr fine ↦ inr (inr (x, unfold dispatch in ground (arith, on, s, fine)))
          ]

  -- The event is in the list and the broker confirmed it.
  abbrev pub Sent : ℕ → List Event → Type 0
  Sent id events = (e : Event) × In e events × (e.id ≡ id) × IsConfirmed attempts e

  Sent-tail : (id : ℕ) (e : Event) (events : List Event) → Sent id events → Sent id (e ∷ events)
  Sent-tail id e events (f, m, same, sure) = (f, inr m, same, sure)

  dispatch_publishes :
      (events : List Event) (p : Progress) (id : ℕ)
      → Unique event_id p.table
      → IsPublished id (dispatch token attempts events p).0.table
      → IsPublished id p.table ⊎ Sent id events
  unfolding dispatch
  dispatch_publishes [] p id u h = inl h
  dispatch_publishes (e ∷ events) p id u h = elim (dispatch-Turn e events p) [
    | inl (x, same) ↦ inl (subst (λ q. IsPublished id q.0.table) same h)
    | inr (inl (t', sent, same)) ↦
        let (r, reply, sure, is_marked, _) = try_publish-ok token (attempts e) e p.table u sent in
        let u' = try_publish-Unique token (attempts e) e p.table u sent in
        elim (dispatch_publishes events (record p { table = t'; published = p.published + 1 }) id u'
          (subst (λ q. IsPublished id q.0.table) same h)) [
            | inl before ↦
                elim (marked_table-IsPublished e.id token (attempts e).now id p.table
                  (subst (IsPublished id) is_marked before)) [
                    | inl this ↦ inr (e, inl refl, sym this, (r, reply, sure))
                    | inr old ↦ inl old
                  ]
            | inr more ↦ inr (Sent-tail id e events more)
          ]
    | inr (inr (x, same)) ↦
        elim (dispatch_publishes events
          (record p { first_failure = first_of_two p.first_failure x }) id u
          (subst (λ q. IsPublished id q.0.table) same h)) [
            | inl before ↦ inl before
            | inr more ↦ inr (Sent-tail id e events more)
          ]
  ]

  dispatch_keeps_failure :
      (events : List Event) (p : Progress)
      → is_some p.first_failure ≡ true
      → is_some (dispatch token attempts events p).0.first_failure ≡ true
  unfolding dispatch
  dispatch_keeps_failure [] p h = h
  dispatch_keeps_failure (e ∷ events) p h = elim (dispatch-Turn e events p) [
    | inl (x, same) ↦ rw (same, h)
    | inr (inl (t', _, same)) ↦
        ap (λ q. is_some q.0.first_failure) same
        ∙ dispatch_keeps_failure events (record p { table = t'; published = p.published + 1 }) h
    | inr (inr (x, same)) ↦
        ap (λ q. is_some q.0.first_failure) same
        ∙ dispatch_keeps_failure events
            (record p { first_failure = first_of_two p.first_failure x })
            (first_of_two-is_some p.first_failure x)
  ]

  dispatch_keeps :
      (events : List Event) (p : Progress) (id : ℕ)
      → Unique event_id p.table
      → IsPublished id p.table
      → IsPublished id (dispatch token attempts events p).0.table
  unfolding dispatch
  dispatch_keeps [] p id u h = h
  dispatch_keeps (e ∷ events) p id u h = elim (dispatch-Turn e events p) [
    | inl (x, same) ↦ subst (λ q. IsPublished id q.0.table) (sym same) h
    | inr (inl (t', sent, same)) ↦
        let (r, reply, sure, is_marked, _) = try_publish-ok token (attempts e) e p.table u sent in
        let u' = try_publish-Unique token (attempts e) e p.table u sent in
        subst (λ q. IsPublished id q.0.table) (sym same)
          (dispatch_keeps events (record p { table = t'; published = p.published + 1 }) id u'
            (subst (IsPublished id) (sym is_marked)
              (IsPublished-marked_table e.id token (attempts e).now id p.table h)))
    | inr (inr (x, same)) ↦
        subst (λ q. IsPublished id q.0.table) (sym same)
          (dispatch_keeps events (record p { first_failure = first_of_two p.first_failure x }) id u
            h)
  ]

  dispatch-Clean :
      (events : List Event) (p : Progress)
      → Unique event_id p.table
      → Clean (dispatch token attempts events p)
      → ((dispatch token attempts events p).0.published ≡ p.published + length events)
        × All (λ e. IsPublished e.id (dispatch token attempts events p).0.table) events
  unfolding dispatch
  dispatch-Clean [] p u c = (omega arith, tt)
  dispatch-Clean (e ∷ events) p u c = elim (dispatch-Turn e events p) [
    | inl (x, same) ↦ absurd (ground (arith, ap (λ q. q.1) same))
    | inr (inl (t', sent, same)) ↦
        let (r, reply, sure, is_marked, now_published) =
          try_publish-ok token (attempts e) e p.table u sent in
        let u' = try_publish-Unique token (attempts e) e p.table u sent in
        let p' : Progress = record p { table = t'; published = p.published + 1 } in
        let (counted, all) = dispatch-Clean events p' u' (subst Clean same c) in
        (
          ap (λ q. q.0.published) same ∙ omega (arith, counted),
          (
            subst (λ q. IsPublished e.id q.0.table) (sym same)
                (dispatch_keeps events p' e.id u' now_published),
            subst (λ q. All (λ f. IsPublished f.id q.0.table) events) (sym same) all,
          ),
        )
    | inr (inr (x, same)) ↦
        let p' : Progress = record p { first_failure = first_of_two p.first_failure x } in
        absurd (failed p' (first_of_two-is_some p.first_failure x) (subst Clean same c).1)
  ]
    where
      failed :
          (q : Progress)
          → is_some q.first_failure ≡ true
          → (dispatch token attempts events q).0.first_failure ≡ none
          → ⊥
      failed q h k = ground (arith, dispatch_keeps_failure events q h)

service_claim :
    (limit ttl_ms token : ℕ) (locked : ℕ → Bool) (now : ℕ) (t : Events) {p : Events × Events}
    → claim_batch limit ttl_ms token locked now t ≡ ok p
    → p ≡ Outbox.claim_batch limit ttl_ms token locked now t
unfolding claim_batch normalize_limit normalize_claim_ttl
service_claim limit ttl_ms token locked now t h = ground arith

claim-publishes_nothing :
    (limit ttl_ms token : ℕ) (locked : ℕ → Bool) (now : ℕ) (t : Events) (id : ℕ)
    → Unique event_id t
    → IsPublished id (Outbox.claim_batch limit ttl_ms token locked now t).0
    → IsPublished id t
claim-publishes_nothing limit ttl_ms token locked now t id u (x, found, at) =
    elim (Option-cases (find event_id id t)) [
      | inl missing ↦
          absurd (ground (arith, find-claimed_table limit ttl_ms token locked now t u id))
      | inr (e, stored) ↦ (e, stored, before e stored)
    ]
  where
    before : (e : Event) → find event_id id t ≡ some e → is_some e.published_at ≡ true
    before e stored =
        unfold claimed in ground (arith, find-claimed_table limit ttl_ms token locked now t u id)

report-table :
    (events : List Event) (q : Progress × Option Thrown) → (report events q).0 ≡ q.0.table
unfolding report
report-table events q = ground arith

abbrev Reports : List Event → Progress × Option Thrown → Events → Report → Type 0
Reports events q t r =
    Clean q × (t ≡ q.0.table) × (r.claimed ≡ length events) × (r.published ≡ q.0.published)

report-ok :
    (events : List Event) (q : Progress × Option Thrown) (t : Events) (r : Report)
    → report events q ≡ (t, ok r)
    → Reports events q t r
unfolding report
report-ok events (p, some x) t r h = absurd (ground (arith, ap (λ y. y.1) h))
report-ok events (p, none) t r h = go p.first_failure refl
  where
    go : (f : Option Thrown) → p.first_failure ≡ f → Reports events (p, none) t r
    go (some x) s = absurd (ground (arith, s, ap (λ y. y.1) h))
    go none s = (
      (refl, s),
      ground (arith, s, ap (λ y. y.0) h),
      ground (arith, s, ap (λ y. y.1) h),
      ground (arith, s, ap (λ y. y.1) h),
    )

module _ (batch_size claim_ttl_ms token : ℕ) (locked : ℕ → Bool) (now : ℕ)
    (attempts : Event → Attempt) (t : Events) (keyed : Unique event_id t) where
  abbrev claims : Result OutboxError (Events × Events)
  claims = claim_batch batch_size claim_ttl_ms token locked now t

  abbrev run : Option Thrown → Events × Result Thrown Report
  run aborted = outbox_dispatcher aborted batch_size claim_ttl_ms token locked now attempts t

  loop : Events → List Event → Progress × Option Thrown
  loop t' events =
      dispatch token attempts events (record { table = t'; published = 0; first_failure = none })

  run-loop :
      {t' : Events} {events : List Event}
      → claims ≡ ok (t', events)
      → run none ≡ report events (loop t' events)
  unfolding outbox_dispatcher loop
  run-loop s = ground (arith, s)

  run-refused : {x : OutboxError} → claims ≡ err x → run none ≡ (t, err (service_error x))
  unfolding outbox_dispatcher
  run-refused s = ground (arith, s)

  claims-Unique :
      {t' : Events} {events : List Event} → claims ≡ ok (t', events) → Unique event_id t'
  claims-Unique s =
      subst (λ q. Unique event_id q.0)
        (sym (service_claim batch_size claim_ttl_ms token locked now t s))
        (claimed_table-Unique batch_size claim_ttl_ms token locked now t keyed)

  -- In a table with unique ids, each event that is published when the handler ends, however it
  -- ends, was published before, or is an event of its claim that the broker confirmed under the
  -- event's own id.
  pub outbox_dispatcher_publishes :
      (aborted : Option Thrown) (id : ℕ)
      → IsPublished id (run aborted).0
      → IsPublished id t
        ⊎ ((t' : Events) × (events : Events) × (claims ≡ ok (t', events))
            × Sent token attempts id events)
  unfolding outbox_dispatcher loop
  outbox_dispatcher_publishes (some x) id h = inl h
  outbox_dispatcher_publishes none id h = go claims refl
    where
      go :
          (x : Result OutboxError (Events × Events))
          → claims ≡ x
          → IsPublished id t
            ⊎ ((t' : Events) × (events : Events) × (claims ≡ ok (t', events))
                × Sent token attempts id events)
      go (err x) s = inl (subst (λ q. IsPublished id q.0) (run-refused s) h)
      go (ok (t', events)) s =
          let p : Progress = record { table = t'; published = 0; first_failure = none } in
          let ended = subst (λ q. IsPublished id q.0) (run-loop s) h in
          let at_end = subst (IsPublished id) (report-table events (loop t' events)) ended in
          elim (dispatch_publishes token attempts events p id (claims-Unique s) at_end) [
            | inl before ↦ inl (
                claim-publishes_nothing batch_size claim_ttl_ms token locked now t id keyed (
                  subst (λ q. IsPublished id q.0)
                    (service_claim batch_size claim_ttl_ms token locked now t s) before))
            | inr sent ↦ inr (t', events, s, sent)
          ]

  -- In a table with unique ids, when the handler returns a report, each event of its claim is
  -- published, and the report's two counts are the number of these events.
  pub outbox_dispatcher_completes :
      (t₂ : Events) (r : Report)
      → run none ≡ (t₂, ok r)
      → (t' : Events) × (events : Events) × (claims ≡ ok (t', events))
        × (r.claimed ≡ length events)
        × (r.published ≡ length events)
        × All (λ e. IsPublished e.id t₂) events
  unfolding loop
  outbox_dispatcher_completes t₂ r h = go claims refl
    where
      go :
          (x : Result OutboxError (Events × Events))
          → claims ≡ x
          → (t' : Events) × (events : Events) × (claims ≡ ok (t', events))
            × (r.claimed ≡ length events)
            × (r.published ≡ length events)
            × All (λ e. IsPublished e.id t₂) events
      go (err x) s = absurd (ground (arith, ap (λ y. y.1) (sym (run-refused s) ∙ h)))
      go (ok (t', events)) s =
          let p : Progress = record { table = t'; published = 0; first_failure = none } in
          let (clean, at_end, claimed_all, counted) =
            report-ok events (loop t' events) t₂ r (sym (run-loop s) ∙ h) in
          let (sums, all) = dispatch-Clean token attempts events p (claims-Unique s) clean in
          (
            t',
            events,
            s,
            claimed_all,
            counted ∙ sums ∙ omega arith,
            subst (λ q. All (λ e. IsPublished e.id q) events) (sym at_end) all,
          )

-- ===== src/Outbox/Tests.antt =====
-- The outbox on two events, and a run of the dispatcher.
use moventra_tms.Base.{
  ℕ, ◌≤◌, ◌≡◌, ◌≢◌, ◌⊎◌, inl, refl, Bool, true, false, none, some, [], ◌∷◌, map, length, arith, ok,
  contains, All,
}
use moventra_tms.Base.Sql.{Unique, find}
use moventra_tms.Base.Members.{In}
use moventra_tms.Base.Json.{null, codes}
use moventra_tms.Outbox.{
  append, claim_pair, attempt_lifecycle, published_not_claimed, Event, Events, event_id, Append,
  appended, is_claimable, comes_before, claimed, claim_batch, holds_claim, published,
  mark_published,
}
use moventra_tms.Outbox.Claims.{
  claim_batch_ordered, claim_batch_holds, settled, mark_published_settles, claimed_ids,
}
use moventra_tms.Outbox.Constraints.{IsConsistent, statements_keep_constraints}
use moventra_tms.Outbox.Service
use moventra_tms.Outbox.Service.{normalize_limit, normalize_claim_ttl, marked}
use moventra_tms.Outbox.Dispatcher.{
  Attempt, not_confirmed, is_confirmed, try_publish, dispatch, outbox_dispatcher,
}
use moventra_tms.Outbox.Dispatcher.Marks.{IsPublished}
use moventra_tms.Outbox.Dispatcher.Laws.{
  Sent, outbox_dispatcher_publishes, outbox_dispatcher_completes,
}

outbox : Unit {0}
unfolding appended is_claimable comes_before claimed claim_batch holds_claim published
    mark_published normalize_limit normalize_claim_ttl Service.claim_batch Service.mark_published
    marked is_confirmed try_publish dispatch outbox_dispatcher
outbox = tt

abbrev created : Append
created = record {
  tenant_id = 7;
  aggregate_type = codes "tenant";
  aggregate_id = some 7;
  event_type = codes "tenant.created";
  schema_version = 1;
  payload = null;
  metadata = null;
  dedupe_key = none;
  available_delay_ms = 0;
}

abbrev first : Event
first = appended 1 5 created

abbrev second : Event
second = appended 2 6 created

abbrev two : Events
two = first ∷ second ∷ []

two-Unique : Unique event_id two
unfolding outbox
two-Unique = (refl, (refl, tt))

abbrev unlocked : ℕ → Bool
unlocked _ = false

-- The table once dispatcher 100 has claimed the first event.
abbrev held : Events
held = claimed 100 20 first ∷ second ∷ []

claim_batch_ordered_example :
    (length (claim_batch 1 5000 100 unlocked 20 two).1 ≤ 1)
    × ((c e : Event)
        → In c two
        → In e two
        → contains (claimed_ids 1 5000 100 unlocked 20 two two-Unique) c.id ≡ true
        → contains (claimed_ids 1 5000 100 unlocked 20 two two-Unique) e.id ≡ false
        → is_claimable 5000 unlocked 20 e ≡ true
        → comes_before e c ≡ false)
claim_batch_ordered_example = claim_batch_ordered 1 5000 100 unlocked 20 two two-Unique

claim_batch_holds_example :
    contains
      (map event_id
        (claim_batch 5 5000 101 unlocked 900 (claim_batch 1 5000 100 unlocked 20 two).0).1)
      1
    ≡ false
unfolding outbox
claim_batch_holds_example =
    claim_batch_holds 1 5000 100 unlocked 20 two two-Unique first 5 101 900 unlocked (inl refl) refl
      (omega arith)

mark_published_settles_example :
    (((e : Event) × In e held
        × (e.id ≡ 1)
        × (e.claim_token ≡ some 100)
        × (e.published_at ≡ none)
        × ((mark_published 1 100 50 held).1 ≡ some (settled 50 e))
        × (find event_id 1 (mark_published 1 100 50 held).0 ≡ some (settled 50 e)))
      ⊎ ((mark_published 1 100 50 held ≡ (held, none))
          × ((e : Event)
              → In e held
              → e.id ≡ 1
              → e.claim_token ≡ some 100
              → e.published_at ≢ none)))
    × ((k : ℕ) → k ≢ 1 → find event_id k (mark_published 1 100 50 held).0 ≡ find event_id k held)
unfolding outbox
mark_published_settles_example = mark_published_settles 1 100 50 held (refl, (refl, tt))

-- The broker confirms each event.
abbrev confirms : Event → Attempt
confirms e = record {
  aborted_before = false;
  reply = ok (record { confirmed = true; message_id = e.id });
  aborted_after = false;
  aborted_in_catch = false;
  reason = not_confirmed;
  now = 30;
}

abbrev all_published : Events
all_published = published 30 (claimed 100 20 first) ∷ published 30 (claimed 100 20 second) ∷ []

outbox_dispatcher_publishes_example :
    IsPublished 1 two
    ⊎ ((t' : Events) × (events : Events) × (Service.claim_batch 10 5000 100 unlocked 20 two
          ≡ ok (t', events))
        × Sent 100 confirms 1 events)
unfolding outbox
outbox_dispatcher_publishes_example =
    outbox_dispatcher_publishes 10 5000 100 unlocked 20 confirms two two-Unique none 1
      (published 30 (claimed 100 20 first), refl, refl)

outbox_dispatcher_completes_example :
    (t' : Events) × (events : Events) × (Service.claim_batch 10 5000 100 unlocked 20 two
      ≡ ok (t', events))
    × (2 ≡ length events)
    × (2 ≡ length events)
    × All (λ e. IsPublished e.id all_published) events
unfolding outbox
outbox_dispatcher_completes_example =
    outbox_dispatcher_completes 10 5000 100 unlocked 20 confirms two two-Unique all_published
      (record { claimed = 2; published = 2 }) refl

statements_keep_constraints_example :
    ((id now : ℕ) (a : Append) → All IsConsistent (append id now a held).0)
    × ((limit ttl_ms token : ℕ) (locked : ℕ → Bool) (now : ℕ)
        → All IsConsistent (claim_batch limit ttl_ms token locked now held).0)
    × ((id token now : ℕ) → All IsConsistent (mark_published id token now held).0)
unfolding outbox claim_pair attempt_lifecycle published_not_claimed
statements_keep_constraints_example =
    statements_keep_constraints held (refl, (refl, tt))
      ((refl, refl, refl), ((refl, refl, refl), tt))

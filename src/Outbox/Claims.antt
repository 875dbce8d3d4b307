-- ===== src/Outbox/Claims.antt =====
-- Claims on outbox events, and the marks of the dispatcher that holds one.
use moventra_tms.Base.{
  ◌==◌, ◌&&◌, ℕ, ◌+◌, ◌≤◌, ◌<◌, ◌≡◌, ◌≢◌, ◌⊎◌, inl, inr, refl, sym, ap, subst, ◌∙◌, Bool, true,
  false, none, some, List, map, arith, contains, length, Bool-cases, Option-cases,
}
use moventra_tms.Base.Sql.{
  Unique, find, touch, opt_map, find-update, find-key, Unique-update, returning_by_key,
}
use moventra_tms.Base.Members.{In, In-find, find-In, update_miss, returning_miss}
use moventra_tms.Base.Batch
use moventra_tms.Base.Batch.Laws.{
  is_selected-eligible, contains-claimed, claim-le-limit, claim-precedes,
}
use moventra_tms.Outbox.{
  Event, Events, event_id, is_claimable, comes_before, claimed, claim_batch, holds_claim, published,
  mark_published,
}

comes_before_asym : (a b : Event) → comes_before a b ≡ true → comes_before b a ≡ false
unfolding comes_before
comes_before_asym a b h = ground arith

comes_before_trans :
    (a b c : Event) → comes_before b a ≡ false → comes_before c b ≡ false → comes_before c a ≡ false
unfolding comes_before
comes_before_trans a b c h k = ground arith

module _ (limit ttl_ms token : ℕ) (locked : ℕ → Bool) (now : ℕ) (t : Events)
    (keyed : Unique event_id t) where
  abbrev pub claimed_ids : List ℕ
  claimed_ids = map event_id (claim_batch limit ttl_ms token locked now t).1

  abbrev pub claimed_table : Events
  claimed_table = (claim_batch limit ttl_ms token locked now t).0

  -- In a table with unique ids, a claim takes at most `limit` events, and an available event that
  -- it leaves comes before none that it takes, in the order by available_at, occurred_at and id.
  pub claim_batch_ordered :
      (length (claim_batch limit ttl_ms token locked now t).1 ≤ limit)
      × ((c e : Event)
          → In c t
          → In e t
          → contains claimed_ids c.id ≡ true
          → contains claimed_ids e.id ≡ false
          → is_claimable ttl_ms locked now e ≡ true
          → comes_before e c ≡ false)
  unfolding claim_batch
  claim_batch_ordered = (
    claim-le-limit event_id comes_before (is_claimable ttl_ms locked now) limit t keyed
        (claimed token now) (λ s. refl),
    claim-precedes event_id comes_before (is_claimable ttl_ms locked now) limit t keyed
        (claimed token now) (λ s. refl) comes_before_asym comes_before_trans,
  )

  pub claimed_table-Unique : Unique event_id claimed_table
  unfolding claim_batch
  claimed_table-Unique = Unique-update event_id _ _ (λ s. refl) t keyed

  contains-claimed_ids :
      (e : Event)
      → In e t
      → contains claimed_ids e.id
        ≡ Batch.is_selected event_id comes_before (is_claimable ttl_ms locked now) limit t e
  unfolding claim_batch
  contains-claimed_ids e m =
      contains-claimed event_id comes_before (is_claimable ttl_ms locked now) limit t keyed
        (claimed token now) (λ s. refl) e m

  find-claim_batch_taken :
      (e : Event)
      → In e t
      → contains claimed_ids e.id ≡ true
      → find event_id e.id claimed_table ≡ some (claimed token now e)
  find-claim_batch_taken e m taken = stored ∙ rw (sym (contains-claimed_ids e m) ∙ taken)
    where
      stored :
          find event_id e.id claimed_table
          ≡ some (
              touch
                (Batch.is_selected event_id comes_before (is_claimable ttl_ms locked now) limit t)
                (claimed token now)
                e)
      stored =
          unfold claim_batch in
          (find-update event_id _ _ (λ s. refl) e.id t
            ∙ ap (opt_map _) (In-find event_id e t keyed m))

  pub find-claimed_table :
      (k : ℕ)
      → find event_id k claimed_table
        ≡ opt_map
            (touch
              (Batch.is_selected event_id comes_before (is_claimable ttl_ms locked now) limit t)
              (claimed token now))
            (find event_id k t)
  unfolding claim_batch
  find-claimed_table k = find-update event_id _ _ (λ s. refl) k t

  -- In a table with unique ids, an event that a claim took is in no claim on the table that it
  -- left, under the same time to live, before that is over.
  pub claim_batch_holds :
      (e : Event) (limit' token' later : ℕ) (locked' : ℕ → Bool)
      → In e t
      → contains claimed_ids e.id ≡ true
      → later < now + ttl_ms
      → contains
          (map event_id (claim_batch limit' ttl_ms token' locked' later claimed_table).1)
          e.id
        ≡ false
  unfolding claimed
  claim_batch_holds e limit' token' later locked' m taken h =
      let after = claimed token now e in
      let n = find-In event_id e.id claimed_table (find-claim_batch_taken e m taken) in
      let eligible = is_claimable ttl_ms locked' later in
      elim (Bool-cases
        (Batch.is_selected event_id comes_before eligible limit' claimed_table after)) [
          | inl again ↦ absurd (
              busy
                (is_selected-eligible event_id comes_before eligible limit' claimed_table
                  claimed_table-Unique after n again).1)
          | inr free ↦
              unfold claim_batch in
              (contains-claimed event_id comes_before eligible limit' claimed_table
                  claimed_table-Unique (claimed token' later) (λ s. refl) after n
                ∙ free)
        ]
    where
      busy : is_claimable ttl_ms locked' later (claimed token now e) ≡ true → ⊥
      busy x = unfold is_claimable claimed in ground arith

-- An event with published_at set and the claim given up, column by column.
abbrev pub settled : ℕ → Event → Event
settled now e = record {
  id = e.id;
  tenant_id = e.tenant_id;
  aggregate_type = e.aggregate_type;
  aggregate_id = e.aggregate_id;
  event_type = e.event_type;
  schema_version = e.schema_version;
  payload = e.payload;
  metadata = e.metadata;
  dedupe_key = e.dedupe_key;
  occurred_at = e.occurred_at;
  available_at = e.available_at;
  published_at = some now;
  attempt_count = e.attempt_count;
  last_attempt_at = e.last_attempt_at;
  claim_token = none;
  claimed_at = none;
  created_at = e.created_at;
}

module _ (id token now : ℕ) (t : Events) (keyed : Unique event_id t) where
  -- What markPublished does to the event of its id, and what it returns.
  pub mark_published-cases :
      ((e : Event) × (find event_id id t ≡ some e)
        × (holds_claim token e ≡ true)
        × ((mark_published id token now t).1 ≡ some (published now e))
        × (find event_id id (mark_published id token now t).0 ≡ some (published now e)))
      ⊎ ((mark_published id token now t ≡ (t, none))
          × ((e : Event) → find event_id id t ≡ some e → holds_claim token e ≡ false))
  unfolding mark_published
  mark_published-cases = elim (Option-cases (find event_id id t)) [
    | inl missing ↦ inr (missed (λ e f. cc), (λ e f. cc))
    | inr (e, found) ↦ elim (Bool-cases (holds_claim token e)) [
      | inl held ↦ inl (
        e,
        found,
        held,
        rw (returning_by_key event_id id (holds_claim token) (published now) t keyed)
            (rw (found, held)),
        rw (find-update event_id _ (published now) (λ s. refl) id t)
            (rw found (ground (arith, find-key event_id id t found))),
      )
      | inr lost ↦ inr (missed (λ s f. ground arith), λ s f. ground arith)
    ]
  ]
    where
      missed :
          ((e : Event) → find event_id id t ≡ some e → holds_claim token e ≡ false)
          → mark_published id token now t ≡ (t, none)
      missed none_held = ground (
        arith,
        update_miss event_id id (holds_claim token) (published now) t keyed none_held,
        returning_miss event_id id (holds_claim token) (published now) t keyed none_held,
      )

  untouched :
      (k : ℕ)
      → k ≢ id
      → opt_map
          (touch (λ (e : Event). e.id == id && holds_claim token e) (published now))
          (find event_id k t)
        ≡ find event_id k t
  untouched k other = elim (Option-cases (find event_id k t)) [
    | inl missing ↦ rw missing refl
    | inr (e, found) ↦ ground (arith, find-key event_id k t found)
  ]

  -- In a table with unique ids, markPublished finds the event of its id unpublished under the
  -- token given and stores and returns it with published_at now and without token and claim time,
  -- all its other columns as they were; or no event of its id is so, and the table is as it was and
  -- null is returned. Events of other ids are found as before.
  pub mark_published_settles :
      (((e : Event) × In e t
          × (e.id ≡ id)
          × (e.claim_token ≡ some token)
          × (e.published_at ≡ none)
          × ((mark_published id token now t).1 ≡ some (settled now e))
          × (find event_id id (mark_published id token now t).0 ≡ some (settled now e)))
        ⊎ ((mark_published id token now t ≡ (t, none))
            × ((e : Event)
                → In e t
                → e.id ≡ id
                → e.claim_token ≡ some token
                → e.published_at ≢ none)))
      × ((k : ℕ) → k ≢ id → find event_id k (mark_published id token now t).0 ≡ find event_id k t)
  unfolding holds_claim published
  mark_published_settles = (
    elim mark_published-cases [
      | inl (e, found, held, gives, stored) ↦ inl (
        e,
        find-In event_id id t found,
        find-key event_id id t found,
        ground arith,
        ground arith,
        gives,
        stored,
      )
      | inr (same, lost) ↦ inr (
        same,
        λ e m own claim unpublished.
            let found : find event_id id t ≡ some e =
              subst (λ k. find event_id k t ≡ some e) own (In-find event_id e t keyed m) in
            let lost_e : holds_claim token e ≡ false = lost e found in ground arith,
      )
    ],
    λ k other.
        unfold mark_published in
        (find-update event_id _ (published now) (λ s. refl) k t ∙ untouched k other),
  )

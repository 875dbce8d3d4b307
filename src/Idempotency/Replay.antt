-- ===== src/Idempotency/Replay.antt =====
-- What a key does: its first request runs, and each later one replays or is rejected.
use moventra_tms.Base.{
  ℕ, ◌+◌, ◌<◌, ◌≡◌, ◌≢◌, ◌⊎◌, inl, inr, refl, sym, ap, subst, ◌∙◌, Bool, true, false, Option, some,
  [], ◌∷◌, ◌++◌, arith, anyb, filterb, ok, err, ◌>>=◌, >>=-eq-ok,
}
use moventra_tms.Base.Sql.{update, returning, touch}
use moventra_tms.Base.Json.{Json}
use moventra_tms.Base.Text.Laws.{text_eq_refl}
use moventra_tms.Idempotency.{
  Key, Entry, Entries, has_key, one_row, find_by_key, Claim, Claimed, inserted, claim, Response,
  completed, is_open, complete, request_mismatch,
}
use moventra_tms.Idempotency.Service.{
  Request, Reply, executed, replayed, Operation, normalize_stored_body, stored_response,
  replay_or_reject, claim_of, response_of, run_operation, settle, execute, is_blank,
}

-- A change that keeps the keys keeps the rows that a key has.
anyb-update :
    (k : Key) (w : Entry → Bool) (f : Entry → Entry) (t : Entries)
    → ((e : Entry) → has_key k (f e) ≡ has_key k e)
    → anyb (has_key k) (update w f t) ≡ anyb (has_key k) t
anyb-update k w f [] h = refl
anyb-update k w f (e ∷ t) h = ground (arith, h e, anyb-update k w f t h)

anyb-append :
    (k : Key) (t : Entries) (e : Entry)
    → anyb (has_key k) t ≡ true
    → anyb (has_key k) (t ++ e ∷ []) ≡ true
anyb-append k [] e h = absurd (cc)
anyb-append k (x ∷ t) e h = ground (arith, anyb-append k t e)

anyb-append_last :
    (k : Key) (t : Entries) (e : Entry) → has_key k e ≡ true → anyb (has_key k) (t ++ e ∷ []) ≡ true
anyb-append_last k [] e h = ground arith
anyb-append_last k (x ∷ t) e h = ground (arith, anyb-append_last k t e h)

filterb-update_last :
    (k : Key) (w : Entry → Bool) (f : Entry → Entry) (t : Entries) (e : Entry)
    → ((x : Entry) → has_key k (f x) ≡ has_key k x)
    → anyb (has_key k) t ≡ false
    → has_key k e ≡ true
    → filterb (has_key k) (update w f (t ++ e ∷ [])) ≡ touch w f e ∷ []
filterb-update_last k w f [] e h free own = ground (arith, h e)
filterb-update_last k w f (x ∷ t) e h free own =
    ground (arith, h x, filterb-update_last k w f t e h (ground arith) own)

returning-append :
    (w : Entry → Bool) (f : Entry → Entry) (t : Entries) (e : Entry)
    → w e ≡ true
    → returning w f (t ++ e ∷ []) ≡ returning w f t ++ f e ∷ []
returning-append w f [] e own = ground arith
returning-append w f (x ∷ t) e own = ground (arith, returning-append w f t e own)

one_row-append : (t : Entries) (e : Entry) {d : Entry} → one_row (t ++ e ∷ []) ≡ some d → d ≡ e
one_row-append [] e h = ground arith
one_row-append (x ∷ []) e h = absurd (cc)
one_row-append (x ∷ y ∷ t) e h = absurd (cc)

-- `claim` takes a free key with a new row, and else returns the row that holds the key.
claim-cases :
    (id now : ℕ) (c : Claim) (t : Entries) {t' : Entries} {got : Claimed}
    → claim id now c t ≡ ok (t', got)
    → ((anyb (has_key c.key) t ≡ false)
        × (t' ≡ t ++ inserted id now c ∷ [])
        × (got.acquired ≡ true)
        × (got.entry ≡ inserted id now c))
      ⊎ ((anyb (has_key c.key) t ≡ true)
          × (t' ≡ t)
          × (got.acquired ≡ false)
          × (find_by_key c.key t ≡ some got.entry))
unfolding claim
claim-cases id now c t h = ground arith

inserted-has_key : (id now : ℕ) (c : Claim) → has_key c.key (inserted id now c) ≡ true
unfolding has_key inserted
inserted-has_key id now c = ground (arith, text_eq_refl c.key.operation_key)

inserted-is_open : (id now : ℕ) (c : Claim) → is_open c.key.tenant_id id (inserted id now c) ≡ true
unfolding is_open inserted
inserted-is_open id now c = ground arith

-- Completing a row that was just added makes it the one row of its key.
complete-inserted :
    (id now : ℕ) (c : Claim) (r : Response) (t : Entries) {t' : Entries} {d : Entry}
    → anyb (has_key c.key) t ≡ false
    → complete c.key.tenant_id id now r (t ++ inserted id now c ∷ []) ≡ ok (t', d)
    → (d ≡ completed now r (inserted id now c)) × (find_by_key c.key t' ≡ some d)
unfolding complete
complete-inserted id now c r t {t'} {d} free h =
    let w = is_open c.key.tenant_id id in
    let f = completed now r in
    let new = inserted id now c in
    let back : one_row (returning w f (t ++ new ∷ [])) ≡ some d = ground arith in
    let table : t' ≡ update w f (t ++ new ∷ []) = ground arith in
    let last : d ≡ f new =
      one_row-append (returning w f t) (f new)
        (sym (ap one_row (returning-append w f t new (inserted-is_open id now c))) ∙ back) in
    (
      last,
      unfold find_by_key in
          (ap (λ u. one_row (filterb (has_key c.key) u)) table
            ∙ ap one_row (
                filterb-update_last c.key w f t new (λ x. unfold has_key completed in refl) free
                  (inserted-has_key id now c))
            ∙ rw (inserted-is_open id now c) (ap some (sym last))),
    )

complete-keeps :
    (k : Key) (tenant_id id now : ℕ) (r : Response) (t : Entries) {t' : Entries} {d : Entry}
    → complete tenant_id id now r t ≡ ok (t', d)
    → anyb (has_key k) t' ≡ anyb (has_key k) t
unfolding complete
complete-keeps k tenant_id id now r t {t'} {d} h =
    let table : t' ≡ update (is_open tenant_id id) (completed now r) t = ground arith in
    ap (anyb (has_key k)) table
    ∙ anyb-update k (is_open tenant_id id) (completed now r) t
        (λ x. unfold has_key completed in refl)

-- A request under a free key ran: its record is now complete, and is what it answered with.
abbrev pub Ran : (ttl_ms id now : ℕ) → Request → Entries → Entries → Reply → Type 0
Ran ttl_ms id now r t t' reply =
    (body : Json) × (anyb (has_key r.key) t ≡ false)
    × (reply.outcome ≡ executed)
    × (find_by_key r.key t'
        ≡ some (completed now (response_of r body) (inserted id now (claim_of ttl_ms now r))))
    × (reply.response ≡ response_of r body)
    × ((k : Key) → anyb (has_key k) t ≡ true → anyb (has_key k) t' ≡ true)
    × (anyb (has_key r.key) t' ≡ true)

-- A request under a taken key changes nothing and answers with the record.
abbrev pub Replays : {S : Type 0} → ℕ → Request → S → S → Entries → Entries → Reply → Type 0
Replays now r s s' t t' reply =
    (e : Entry) × (anyb (has_key r.key) t ≡ true)
    × (s' ≡ s)
    × (t' ≡ t)
    × (find_by_key r.key t ≡ some e)
    × (replay_or_reject now r e ≡ ok reply)

stored_response-completed :
    (now : ℕ) (r : Response) (e : Entry) → stored_response (completed now r e) ≡ r
unfolding stored_response completed
stored_response-completed now r e = refl

pub replay_or_reject-replayed :
    (now : ℕ) (r : Request) (e : Entry) {reply : Reply}
    → replay_or_reject now r e ≡ ok reply
    → reply.outcome ≡ replayed
unfolding replay_or_reject
replay_or_reject-replayed now r e h = ground arith

-- The record of a request that ran answers the same request until it expires.
replay_or_reject-completed :
    (ttl_ms id now later : ℕ) (r : Request) (body : Json)
    → is_blank (some r.media_type) ≡ false
    → later < now + ttl_ms
    → replay_or_reject later r
        (completed now (response_of r body) (inserted id now (claim_of ttl_ms now r)))
      ≡ ok (record { outcome = replayed; response = response_of r body })
unfolding replay_or_reject completed inserted claim_of response_of stored_response
replay_or_reject-completed ttl_ms id now later r body typed h = ground arith

replay_or_reject-mismatch :
    (ttl_ms id now later : ℕ) (r r' : Request) (body : Json)
    → r'.fingerprint ≢ r.fingerprint
    → replay_or_reject later r'
        (completed now (response_of r body) (inserted id now (claim_of ttl_ms now r)))
      ≡ err request_mismatch
unfolding replay_or_reject completed inserted claim_of
replay_or_reject-mismatch ttl_ms id now later r r' body other = ground arith

module _ {S : Type 0} (bytes : Json → ℕ) (ttl_ms : ℕ) where
  run_operation-Ran :
      (id now : ℕ) (r : Request) (operation : Operation S) (s : S) (t : Entries) {s' : S}
      {t' : Entries} {reply : Reply}
      → anyb (has_key r.key) t ≡ false
      → run_operation bytes ttl_ms now r operation
          (inserted id now (claim_of ttl_ms now r))
          s
          (t ++ inserted id now (claim_of ttl_ms now r) ∷ [])
        ≡ ok (s', t', reply)
      → Ran ttl_ms id now r t t' reply
  unfolding run_operation inserted claim_of
  run_operation-Ran id now r operation s t {s'} {t'} {reply} free h =
      let (p, ran, rest) = >>=-eq-ok {Value = S × Option Json} (operation s) _ h in
      let (body, fits, rest') = >>=-eq-ok {Value = Json} (normalize_stored_body bytes p.1) _ rest in
      let c = claim_of ttl_ms now r in
      let (q, done, rest'') =
        >>=-eq-ok {Value = Entries × Entry}
          (complete r.key.tenant_id id now (response_of r body) (t ++ inserted id now c ∷ [])) _
          rest' in
      let (last, found) = complete-inserted id now c (response_of r body) t free done in
      let keeps = λ (k : Key).
        complete-keeps k r.key.tenant_id id now (response_of r body) (t ++ inserted id now c ∷ [])
          done in
      let table : q.0 ≡ t' = ground arith in
      let answer : reply.response ≡ stored_response q.1 = ground arith in
      subst (λ u. Ran ttl_ms id now r t u reply) table
        (
          body,
          free,
          ground arith,
          found ∙ ap some last,
          answer ∙ ap stored_response last ∙ stored_response-completed now (response_of r body) _,
          λ k had. keeps k ∙ anyb-append k t (inserted id now c) had,
          keeps r.key ∙ anyb-append_last r.key t (inserted id now c) (inserted-has_key id now c),
        )

  settle-cases :
      (id now : ℕ) (r : Request) (operation : Operation S) (s : S) (t t₁ : Entries) (got : Claimed)
      {s' : S} {t' : Entries} {reply : Reply}
      → claim id now (claim_of ttl_ms now r) t ≡ ok (t₁, got)
      → settle bytes ttl_ms now r operation s (t₁, got) ≡ ok (s', t', reply)
      → Ran ttl_ms id now r t t' reply ⊎ Replays now r s s' t t' reply
  unfolding settle
  settle-cases id now r operation s t t₁ got {s'} {t'} {reply} claimed h =
      let c = claim_of ttl_ms now r in
      elim (claim-cases id now c t claimed) [
        | inl (free, same, acquired, new) ↦
            let pair : ◌≡◌ {A = Entries × Entry} (t₁, got.entry)
                (t ++ inserted id now c ∷ [], inserted id now c) =
              ground (arith, same, new) in
            inl (
              run_operation-Ran id now r operation s t (unfold claim_of in free) (
                subst
                  (λ (u : Entries × Entry).
                    run_operation bytes ttl_ms now r operation u.1 s u.0 ≡ ok (s', t', reply))
                  pair (rw acquired at h)))
        | inr (taken, same, refused, found) ↦
            let (answer, given, done) =
              >>=-eq-ok {Value = Reply} (replay_or_reject now r got.entry) _ (rw refused at h) in
            inr (
              got.entry,
              unfold claim_of in taken,
              ground (arith, done),
              ground (arith, done, same),
              unfold claim_of in found,
              ground (arith, given, done),
            )
      ]

  execute-named :
      (id now : ℕ) (r : Request) (operation : Operation S) (s : S) (t : Entries)
      {x : S × Entries × Reply}
      → execute bytes ttl_ms id now r operation s t ≡ ok x
      → r.key_missing ≡ false
  unfolding execute
  execute-named id now r operation s t h = ground arith

  -- What a request that is answered did.
  pub execute-cases :
      (id now : ℕ) (r : Request) (operation : Operation S) (s : S) (t : Entries) {s' : S}
      {t' : Entries} {reply : Reply}
      → execute bytes ttl_ms id now r operation s t ≡ ok (s', t', reply)
      → Ran ttl_ms id now r t t' reply ⊎ Replays now r s s' t t' reply
  unfolding execute
  execute-cases id now r operation s t h =
      let named = execute-named id now r operation s t h in
      let (p, got, rest) =
        >>=-eq-ok {Value = Entries × Claimed} (claim id now (claim_of ttl_ms now r) t)
          (settle bytes ttl_ms now r operation s) (rw named at h) in
      settle-cases id now r operation s t p.0 p.1 got rest

  -- A request whose key has a record is answered from it.
  execute-found :
      (id now : ℕ) (r : Request) (operation : Operation S) (s : S) (t : Entries) (e : Entry)
      → r.key_missing ≡ false
      → anyb (has_key r.key) t ≡ true
      → find_by_key r.key t ≡ some e
      → execute bytes ttl_ms id now r operation s t
        ≡ (replay_or_reject now r e >>= λ reply. ok (s, t, reply))
  unfolding execute settle claim claim_of
  execute-found id now r operation s t e named taken found = rw (named, taken, found) refl

  -- After a request ran, the same request within its time to live does not run its operation again:
  -- it leaves the state and the records as they are and answers as the first one did, if the media
  -- type of the response is not empty.
  pub execute-execute :
      (id now id' later : ℕ) (r : Request) (operation operation' : Operation S) (s s'' : S)
      (t : Entries) {s' : S} {t' : Entries} {reply : Reply}
      → execute bytes ttl_ms id now r operation s t ≡ ok (s', t', reply)
      → reply.outcome ≡ executed
      → is_blank (some r.media_type) ≡ false
      → later < now + ttl_ms
      → execute bytes ttl_ms id' later r operation' s'' t'
        ≡ ok (s'', t', record { outcome = replayed; response = reply.response })
  execute-execute id now id' later r operation operation' s s'' t {s'} {t'} {reply} h ran typed
        fresh =
      elim (execute-cases id now r operation s t h) [
        | inl (body, free, _, found, answer, keeps, taken) ↦
            execute-found id' later r operation' s'' t' _ (execute-named id now r operation s t h)
              taken found
            ∙ rw (replay_or_reject-completed ttl_ms id now later r body typed fresh, answer) refl
        | inr (e, taken, same_s, same, found, answer) ↦
            absurd (ground (arith, replay_or_reject-replayed now r e answer, ran))
      ]

  -- After a request ran, a request that has its key and another fingerprint is refused at any time
  -- on the records that it left, and nothing runs.
  pub execute_mismatch :
      (id now id' later : ℕ) (r r' : Request) (operation operation' : Operation S) (s s'' : S)
      (t : Entries) {s' : S} {t' : Entries} {reply : Reply}
      → execute bytes ttl_ms id now r operation s t ≡ ok (s', t', reply)
      → reply.outcome ≡ executed
      → r'.key ≡ r.key
      → r'.key_missing ≡ false
      → r'.fingerprint ≢ r.fingerprint
      → execute bytes ttl_ms id' later r' operation' s'' t' ≡ err request_mismatch
  execute_mismatch id now id' later r r' operation operation' s s'' t {s'} {t'} {reply} h ran
        same_key named other =
      elim (execute-cases id now r operation s t h) [
        | inl (body, free, _, found, answer, keeps, taken) ↦
            execute-found id' later r' operation' s'' t' _ named
              (ap (λ k. anyb (has_key k) t') same_key ∙ taken)
              (ap (λ k. find_by_key k t') same_key ∙ found)
            ∙ rw (replay_or_reject-mismatch ttl_ms id now later r r' body other) refl
        | inr (e, taken, same_s, same, found, answer) ↦
            absurd (ground (arith, replay_or_reject-replayed now r e answer, ran))
      ]

-- ===== src/Idempotency/Histories.antt =====
-- Histories of requests: how often a key's operation runs.
use moventra_tms.Base.{
  ℕ, ◌+◌, ◌≤◌, ◌≡◌, ◌⊎◌, inl, inr, refl, sym, ap, subst, ◌∙◌, Bool, true, false, ◌&&◌, List, [],
  ◌∷◌, arith, Bool-cases, anyb, Result, ok, err, ◌==◌, if◌then◌else◌,
}
use moventra_tms.Base.Json.{Json}
use moventra_tms.Base.Text.{text_eq}
use moventra_tms.Base.Text.Laws.{text_eq_sound}
use moventra_tms.Idempotency.{Key, Entries, has_key, IdempotencyError}
use moventra_tms.Idempotency.Service.{
  Request, Reply, Outcome, executed, replayed, Operation, execute,
}
use moventra_tms.Idempotency.Replay.{replay_or_reject-replayed, execute-cases}

-- One request of a history, with the id and the time that it is given.
pub record Call (S : Type 0) : Type 0 where
  pub id : ℕ
  pub now : ℕ
  pub request : Request
  pub operation : Operation S

abbrev is_executed : Outcome → Bool
is_executed executed = true
is_executed replayed = false

abbrev same_key : Key → Key → Bool
same_key k l =
    l.tenant_id == k.tenant_id
    && text_eq l.operation_key k.operation_key
    && l.key_hash == k.key_hash

anyb-same_key :
    (k l : Key) (t : Entries) → same_key k l ≡ true → anyb (has_key l) t ≡ anyb (has_key k) t
anyb-same_key k l t h =
    ap (λ x. anyb (has_key x) t) (ground (arith, text_eq_sound l.operation_key k.operation_key))

module _ {S : Type 0} (bytes : Json → ℕ) (ttl_ms : ℕ) (k : Key) where
  -- How often requests under the key `k` ran in a history, each in a transaction of its own: one
  -- that throws is rolled back.
  unfoldable pub runs_of_key : List (Call S) → S → Entries → ℕ
  runs_of_key [] s t = 0
  runs_of_key (c ∷ calls) s t = elim (execute bytes ttl_ms c.id c.now c.request c.operation s t) [
    | err e ↦ runs_of_key calls s t
    | ok (s', t', reply) ↦
        let rest = runs_of_key calls s' t' in
        if is_executed reply.outcome && same_key k c.request.key then 1 + rest else rest
  ]

  abbrev Turn : Call S → List (Call S) → S → Entries → Type 0
  Turn c calls s t =
      (runs_of_key (c ∷ calls) s t ≡ runs_of_key calls s t)
      ⊎ ((s' : S) × (t' : Entries) × (reply : Reply) × (execute bytes ttl_ms c.id c.now c.request
              c.operation s t
            ≡ ok (s', t', reply))
          × (runs_of_key (c ∷ calls) s t ≡ (
              if is_executed reply.outcome && same_key k c.request.key
              then 1 + runs_of_key calls s' t'
              else runs_of_key calls s' t')))

  runs_of_key-Turn : (c : Call S) (calls : List (Call S)) (s : S) (t : Entries) → Turn c calls s t
  unfolding runs_of_key
  runs_of_key-Turn c calls s t = go (execute bytes ttl_ms c.id c.now c.request c.operation s t) refl
    where
      go :
          (x : Result IdempotencyError (S × Entries × Reply))
          → execute bytes ttl_ms c.id c.now c.request c.operation s t ≡ x
          → Turn c calls s t
      go (err e) h = inl (rw (runs_of_key, h) refl)
      go (ok (s', t', reply)) h = inr (s', t', reply, h, rw (runs_of_key, h) refl)

  -- Once a key has a record, none of its requests runs.
  runs_of_key-taken :
      (calls : List (Call S)) (s : S) (t : Entries)
      → anyb (has_key k) t ≡ true
      → runs_of_key calls s t ≡ 0
  unfolding runs_of_key
  runs_of_key-taken [] s t h = refl
  runs_of_key-taken (c ∷ calls) s t h = elim (runs_of_key-Turn c calls s t) [
    | inl same ↦ same ∙ runs_of_key-taken calls s t h
    | inr (s', t', reply, ran, same) ↦
        elim (execute-cases bytes ttl_ms c.id c.now c.request c.operation s t ran) [
          | inl (body, free, outcome, _, _, keeps, _) ↦ ground (
            arith,
            same,
            outcome,
            free,
            anyb-same_key k c.request.key t,
            runs_of_key-taken calls s' t' (keeps k h),
          )
          | inr (e, taken, same_s, same_t, found, answer) ↦ ground (
            arith,
            same,
            replay_or_reject-replayed c.now c.request e answer,
            runs_of_key-taken calls s' t' (subst (λ u. anyb (has_key k) u ≡ true) (sym same_t) h),
          )
        ]
  ]

  -- In any history of requests, one after the other and each in a transaction of its own, at most
  -- one request under a key runs.
  pub runs_of_key_once : (calls : List (Call S)) (s : S) (t : Entries) → runs_of_key calls s t ≤ 1
  unfolding runs_of_key
  runs_of_key_once [] s t = omega arith
  runs_of_key_once (c ∷ calls) s t = elim (runs_of_key-Turn c calls s t) [
    | inl same ↦ omega (arith, same, runs_of_key_once calls s t)
    | inr (s', t', reply, ran, same) ↦
        elim (execute-cases bytes ttl_ms c.id c.now c.request c.operation s t ran) [
          | inl (body, free, outcome, _, _, keeps, taken) ↦
              elim (Bool-cases (same_key k c.request.key)) [
                | inl own ↦ ground (
                  arith,
                  same,
                  own,
                  runs_of_key-taken calls s' t'
                      (sym (anyb-same_key k c.request.key t' own) ∙ taken),
                )
                | inr other ↦ ground (arith, same, other, runs_of_key_once calls s' t')
              ]
          | inr (e, taken, same_s, same_t, found, answer) ↦ ground (
            arith,
            same,
            replay_or_reject-replayed c.now c.request e answer,
            runs_of_key_once calls s' t',
          )
        ]
  ]

-- ===== src/Idempotency/Service.antt =====
-- IdempotencyService.execute (src/modules/idempotency/idempotency-service.js), its telemetry left
-- out. The hash of the key and the fingerprint (fingerprint.js), and the checked response contract,
-- are given in the request; `S` is the state that the operation works on.
use moventra_tms.Base.{
  ℕ, ◌+◌, Bool, true, false, not, ◌||◌, Option, none, some, [], ◌∷◌, is_none, Result, ok, err,
  ◌>>=◌, ◌==◌, if◌then◌else◌, ltb, leb,
}
use moventra_tms.Base.Json.{Text, Json, null}
use moventra_tms.Idempotency.{
  Key, Entry, Entries, Claimed, is_processing, Claim, claim, Response, complete, IdempotencyError,
  key_required, request_mismatch, result_unavailable, body_undefined, body_too_large,
}

pub record Request : Type 0 where
  pub key : Key
  -- null, undefined or '' is `true`.
  pub key_missing : Bool
  pub key_hash_version : ℕ
  pub fingerprint : ℕ
  pub fingerprint_version : ℕ
  pub status : ℕ
  pub media_type : Text
  pub headers : Json

pub data Outcome : Type 0 where
  executed replayed : Outcome

-- `freezeResult`
pub record Reply : Type 0 where
  pub outcome : Outcome
  pub response : Response

abbrev pub max_response_body_bytes : ℕ
max_response_body_bytes = 65536

-- `normalizeStoredBody`: `none` is undefined, and `bytes` is the length of a value's JSON text.
unfoldable pub normalize_stored_body :
    (bytes : Json → ℕ) → Option Json → Result IdempotencyError Json
normalize_stored_body bytes none = err body_undefined
normalize_stored_body bytes (some v) =
    if ltb max_response_body_bytes (bytes v) then err body_too_large else ok v

-- `!mediaType`
abbrev pub is_blank : Option Text → Bool
is_blank none = true
is_blank (some []) = true
is_blank (some (c ∷ s)) = false

-- The response in a record, as `freezeResult` copies it.
unfoldable pub stored_response : Entry → Response
stored_response e = record {
  status = elim e.response_status [ none ↦ 0 | some s ↦ s ];
  media_type = elim e.response_media_type [ none ↦ [] | some m ↦ m ];
  body = elim e.response_body [ none ↦ null | some b ↦ b ];
  headers = e.response_headers;
}

-- `#replayOrReject`
unfoldable pub replay_or_reject : (now : ℕ) → Request → Entry → Result IdempotencyError Reply
unfolding stored_response
replay_or_reject now r e =
    if not (e.fingerprint == r.fingerprint) || not (e.fingerprint_version == r.fingerprint_version)
    then err request_mismatch
    else if is_processing e.state
        || leb e.expires_at now
        || is_none e.response_status
        || is_blank e.response_media_type
    then err (result_unavailable (is_processing e.state))
    else ok (record { outcome = replayed; response = stored_response e })

unfoldable pub claim_of : (ttl_ms now : ℕ) → Request → Claim
claim_of ttl_ms now r = record {
  key = r.key;
  key_hash_version = r.key_hash_version;
  fingerprint = r.fingerprint;
  fingerprint_version = r.fingerprint_version;
  expires_at = now + ttl_ms;
}

unfoldable pub response_of : Request → Json → Response
response_of r body = record {
  status = r.status;
  media_type = r.media_type;
  body = body;
  headers = r.headers;
}

-- The operation's callback: the new state and what it returns, or its error.
abbrev pub Operation : Type 0 → Type 0
Operation S = S → Result IdempotencyError (S × Option Json)

module _ {S : Type 0} (bytes : Json → ℕ) (ttl_ms : ℕ) where
  -- The part of `execute` behind an acquired key.
  unfoldable pub run_operation :
      (now : ℕ)
      → Request
      → Operation S
      → Entry
      → S
      → Entries
      → Result IdempotencyError (S × Entries × Reply)
  unfolding normalize_stored_body response_of stored_response
  run_operation now r operation e s t = do
    (s', value) ← operation s
    body ← normalize_stored_body bytes value
    (t', done) ← complete e.key.tenant_id e.id now (response_of r body) t
    ok (s', t', record { outcome = executed; response = stored_response done })

  -- What follows the claim.
  unfoldable pub settle :
      (now : ℕ)
      → Request
      → Operation S
      → S
      → Entries × Claimed
      → Result IdempotencyError (S × Entries × Reply)
  unfolding run_operation replay_or_reject
  settle now r operation s (t, c) = elim c.acquired [
    | true ↦ run_operation now r operation c.entry s t
    | false ↦ replay_or_reject now r c.entry >>= λ reply. ok (s, t, reply)
  ]

  unfoldable pub execute :
      (id now : ℕ)
      → Request
      → Operation S
      → S
      → Entries
      → Result IdempotencyError (S × Entries × Reply)
  unfolding settle claim_of
  execute id now r operation s t =
      if r.key_missing
      then err key_required
      else (claim id now (claim_of ttl_ms now r) t >>= settle now r operation s)

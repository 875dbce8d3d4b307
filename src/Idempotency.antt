-- ===== src/Idempotency.antt =====
-- Idempotency records: the rows of idempotency.records (db/migrations/0014_idempotency.sql) and the
-- statements of PostgresIdempotencyRepository (src/modules/idempotency/idempotency-repository.js).
-- Identifiers, hashes and fingerprints are opaque numbers, timestamps are milliseconds.
pub mod Service
pub mod Replay
pub mod Histories
mod Tests
use moventra_tms.Base.{
  ℕ, Bool, true, false, ◌&&◌, Option, none, some, List, [], ◌∷◌, ◌++◌, ◌==◌, if◌then◌else◌, anyb,
  filterb, Result, ok, err,
}
use moventra_tms.Base.Sql.{update, returning}
use moventra_tms.Base.Json.{Text, Json, obj, end}
use moventra_tms.Base.Text.{text_eq}

pub data State : Type 0 where
  processing is_completed : State

abbrev pub is_processing : State → Bool
is_processing processing = true
is_processing is_completed = false

-- The columns of uq_idempotency_records_tenant_operation_key.
pub record Key : Type 0 where
  pub tenant_id : ℕ
  pub operation_key : Text
  pub key_hash : ℕ

pub record Entry : Type 0 where
  pub id : ℕ
  pub key : Key
  pub key_hash_version : ℕ
  pub fingerprint : ℕ
  pub fingerprint_version : ℕ
  pub state : State
  pub response_status : Option ℕ
  pub response_media_type : Option Text
  pub response_body : Option Json
  pub response_headers : Json
  pub created_at : ℕ
  pub completed_at : Option ℕ
  pub expires_at : ℕ

abbrev pub Entries : Type 0
Entries = List Entry

pub data IdempotencyError : Type 0 where
  claim_unresolved complete_conflict key_required request_mismatch operation_failed :
      IdempotencyError
  body_undefined body_too_large : IdempotencyError
  result_unavailable : (retryable : Bool) → IdempotencyError

unfoldable pub has_key : Key → Entry → Bool
unfolding text_eq
has_key k e =
    e.key.tenant_id == k.tenant_id
    && text_eq e.key.operation_key k.operation_key
    && e.key.key_hash == k.key_hash

abbrev pub one_row : Entries → Option Entry
one_row [] = none
one_row (e ∷ []) = some e
one_row (e ∷ f ∷ t) = none

unfoldable pub find_by_key : Key → Entries → Option Entry
unfolding has_key
find_by_key k t = one_row (filterb (has_key k) t)

-- The arguments of `claim`.
pub record Claim : Type 0 where
  pub key : Key
  pub key_hash_version : ℕ
  pub fingerprint : ℕ
  pub fingerprint_version : ℕ
  pub expires_at : ℕ

-- The row of the INSERT, with the columns' defaults.
unfoldable pub inserted : (id now : ℕ) → Claim → Entry
inserted id now c = record {
  id = id;
  key = c.key;
  key_hash_version = c.key_hash_version;
  fingerprint = c.fingerprint;
  fingerprint_version = c.fingerprint_version;
  state = processing;
  response_status = none;
  response_media_type = none;
  response_body = none;
  response_headers = obj end;
  created_at = now;
  completed_at = none;
  expires_at = c.expires_at;
}

-- What `claim` resolves to: whether the key was free, and its record.
pub record Claimed : Type 0 where
  pub acquired : Bool
  pub entry : Entry

unfoldable pub claim : (id now : ℕ) → Claim → Entries → Result IdempotencyError (Entries × Claimed)
unfolding inserted find_by_key
claim id now c t =
    if anyb (has_key c.key) t
    then elim (find_by_key c.key t) [
      | none ↦ err claim_unresolved
      | some e ↦ ok (t, record { acquired = false; entry = e })
    ]
    else ok (t ++ inserted id now c ∷ [], record { acquired = true; entry = inserted id now c })

pub record Response : Type 0 where
  pub status : ℕ
  pub media_type : Text
  pub body : Json
  pub headers : Json

unfoldable pub completed : (now : ℕ) → Response → Entry → Entry
completed now r e = record e {
  state = is_completed;
  response_status = some r.status;
  response_media_type = some r.media_type;
  response_body = some r.body;
  response_headers = r.headers;
  completed_at = some now;
}

-- The WHERE clause of `complete`.
unfoldable pub is_open : (tenant_id id : ℕ) → Entry → Bool
is_open tenant_id id e = e.key.tenant_id == tenant_id && e.id == id && is_processing e.state

unfoldable pub complete :
    (tenant_id id now : ℕ) → Response → Entries → Result IdempotencyError (Entries × Entry)
unfolding is_open completed
complete tenant_id id now r t =
    elim (one_row (returning (is_open tenant_id id) (completed now r) t)) [
      | none ↦ err complete_conflict
      | some e ↦ ok (update (is_open tenant_id id) (completed now r) t, e)
    ]

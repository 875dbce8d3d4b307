-- ===== src/Outbox.antt =====
-- The transactional outbox: the rows of outbox.events (db/migrations/0015_outbox.sql) and the
-- statements of PostgresOutboxRepository (src/modules/outbox/outbox-repository.js). Identifiers are
-- opaque numbers, timestamps are milliseconds, and NULL is `none`.
pub mod Claims
pub mod Constraints
pub mod Service
pub mod Dispatcher
mod Tests
use moventra_tms.Base.{
  ℕ, ◌+◌, Bool, true, false, ◌&&◌, ◌||◌, not, Option, none, some, List, [], ◌∷◌, ◌++◌, ltb, leb,
  ◌==◌, if◌then◌else◌, is_none, is_some, col_eq, col_le,
}
use moventra_tms.Base.Batch.{claim}
use moventra_tms.Base.Sql.{update, returning}
use moventra_tms.Base.Json.{Text, Json}

pub record Event : Type 0 where
  pub id : ℕ
  pub tenant_id : ℕ
  pub aggregate_type : Text
  pub aggregate_id : Option ℕ
  pub event_type : Text
  pub schema_version : ℕ
  pub payload : Json
  pub metadata : Json
  pub dedupe_key : Option Text
  pub occurred_at : ℕ
  pub available_at : ℕ
  pub published_at : Option ℕ
  pub attempt_count : ℕ
  pub last_attempt_at : Option ℕ
  pub claim_token : Option ℕ
  pub claimed_at : Option ℕ
  pub created_at : ℕ

abbrev pub Events : Type 0
Events = List Event

abbrev pub event_id : Event → ℕ
event_id e = e.id

-- What `normalizeOutboxAppendInput` returns.
pub record Append : Type 0 where
  pub tenant_id : ℕ
  pub aggregate_type : Text
  pub aggregate_id : Option ℕ
  pub event_type : Text
  pub schema_version : ℕ
  pub payload : Json
  pub metadata : Json
  pub dedupe_key : Option Text
  pub available_delay_ms : ℕ

unfoldable pub appended : (id now : ℕ) → Append → Event
appended id now a = record {
  id = id;
  tenant_id = a.tenant_id;
  aggregate_type = a.aggregate_type;
  aggregate_id = a.aggregate_id;
  event_type = a.event_type;
  schema_version = a.schema_version;
  payload = a.payload;
  metadata = a.metadata;
  dedupe_key = a.dedupe_key;
  occurred_at = now;
  available_at = now + a.available_delay_ms;
  published_at = none;
  attempt_count = 0;
  last_attempt_at = none;
  claim_token = none;
  claimed_at = none;
  created_at = now;
}

-- `append`: `id` is the database's `uuidv7()`.
unfoldable pub append : (id now : ℕ) → Append → Events → Events × Event
unfolding appended
append id now a t = (t ++ appended id now a ∷ [], appended id now a)

abbrev claim_expired : Option ℕ → ℕ → ℕ → Bool
claim_expired none ttl_ms now = false
claim_expired (some at) ttl_ms now = leb (at + ttl_ms) now

-- The WHERE clause of `claimBatch`; `locked` are the rows that `SKIP LOCKED` passes over.
unfoldable pub is_claimable : (ttl_ms : ℕ) → (ℕ → Bool) → (now : ℕ) → Event → Bool
is_claimable ttl_ms locked now e =
    is_none e.published_at
    && leb e.available_at now
    && (is_none e.claim_token || claim_expired e.claimed_at ttl_ms now)
    && not (locked e.id)

-- `ORDER BY available_at, occurred_at, id`
unfoldable pub comes_before : Event → Event → Bool
comes_before a b =
    ltb a.available_at b.available_at
    || (a.available_at == b.available_at
        && (ltb a.occurred_at b.occurred_at || (a.occurred_at == b.occurred_at && ltb a.id b.id)))

unfoldable pub claimed : (claim_token now : ℕ) → Event → Event
claimed claim_token now e = record e {
  claim_token = some claim_token;
  claimed_at = some now;
  attempt_count = e.attempt_count + 1;
  last_attempt_at = some now;
}

unfoldable pub claim_batch :
    (limit ttl_ms claim_token : ℕ) (locked : ℕ → Bool) (now : ℕ) → Events → Events × Events
unfolding claim claimed
claim_batch limit ttl_ms claim_token locked now t =
    claim event_id comes_before (is_claimable ttl_ms locked now) limit t (claimed claim_token now)

-- `claim_token = $2 AND published_at IS NULL`
unfoldable pub holds_claim : ℕ → Event → Bool
holds_claim claim_token e = col_eq e.claim_token claim_token && is_none e.published_at

unfoldable pub published : ℕ → Event → Event
published now e = record e { published_at = some now; claim_token = none; claimed_at = none }

abbrev pub one_row : Events → Option Event
one_row [] = none
one_row (e ∷ []) = some e
one_row (e ∷ f ∷ t) = none

unfoldable pub mark_published : (id claim_token now : ℕ) → Events → Events × Option Event
unfolding holds_claim published
mark_published id claim_token now t =
    let where_ = λ (e : Event). e.id == id && holds_claim claim_token e in
    (update where_ (published now) t, one_row (returning where_ (published now) t))

-- The CHECK constraints ck_outbox_events_claim_pair, _attempt_lifecycle and _published_not_claimed.
unfoldable pub claim_pair : Event → Bool
claim_pair e =
    (is_none e.claim_token && is_none e.claimed_at)
    || (is_some e.claim_token && is_some e.claimed_at)

unfoldable pub attempt_lifecycle : Event → Bool
attempt_lifecycle e =
    (e.attempt_count == 0 && is_none e.last_attempt_at && is_none e.claim_token)
    || (ltb 0 e.attempt_count && is_some e.last_attempt_at)

unfoldable pub published_not_claimed : Event → Bool
published_not_claimed e = is_none e.published_at || (is_none e.claim_token && is_none e.claimed_at)

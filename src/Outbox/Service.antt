-- ===== src/Outbox/Service.antt =====
-- OutboxService (src/modules/outbox/outbox-service.js) over the repository, its observation left out.
-- Identifiers are opaque here: `normalizeClaimIdentifier` accepts each.
use moventra_tms.Base.{
  ℕ, Bool, ◌||◌, Option, none, some, ltb, if◌then◌else◌, Result, ok, err, ◌>>=◌,
}
use moventra_tms.Outbox.{Event, Events, event_id}
use moventra_tms.Outbox

-- `error.code`
pub data OutboxError : Type 0 where
  claim_invalid publish_conflict : OutboxError

abbrev pub max_claim_limit : ℕ
max_claim_limit = 500

abbrev pub min_claim_ttl_ms : ℕ
min_claim_ttl_ms = 1000

abbrev pub max_claim_ttl_ms : ℕ
max_claim_ttl_ms = 3600000

unfoldable pub normalize_limit : ℕ → Result OutboxError ℕ
normalize_limit value =
    if ltb value 1 || ltb max_claim_limit value then err claim_invalid else ok value

unfoldable pub normalize_claim_ttl : ℕ → Result OutboxError ℕ
normalize_claim_ttl value =
    if ltb value min_claim_ttl_ms || ltb max_claim_ttl_ms value then err claim_invalid else ok value

unfoldable pub claim_batch :
    (limit ttl_ms claim_token : ℕ) (locked : ℕ → Bool) (now : ℕ)
    → Events
    → Result OutboxError (Events × Events)
unfolding normalize_limit normalize_claim_ttl
claim_batch limit ttl_ms claim_token locked now t = do
  limit' ← normalize_limit limit
  ttl' ← normalize_claim_ttl ttl_ms
  ok (Outbox.claim_batch limit' ttl' claim_token locked now t)

-- The error when the repository returns null.
unfoldable pub marked : Events × Option Event → Result OutboxError (Events × Event)
marked (t, none) = err publish_conflict
marked (t, some e) = ok (t, e)

unfoldable pub mark_published :
    (id claim_token now : ℕ) → Events → Result OutboxError (Events × Event)
unfolding marked
mark_published id claim_token now t = marked (Outbox.mark_published id claim_token now t)

-- ===== src/Outbox/Dispatcher.antt =====
-- The job that publishes the outbox (src/modules/jobs/outbox-dispatcher-job.js). What the mapper and
-- the broker's publisher make of an event, and the state of the abort signal on the way, are given
-- as the event's `Attempt`.
pub mod Marks
pub mod Laws
use moventra_tms.Base.{
  ℕ, suc, ◌+◌, ◌≡◌, Bool, true, false, not, ◌&&◌, ◌||◌, ◌==◌, Option, none, some, List, [], ◌∷◌,
  if◌then◌else◌, length, Result, ok, err, ◌>>=◌, is_some,
}
use moventra_tms.Base.Json.{Text, codes}
use moventra_tms.Outbox.{Event, Events, event_id}
use moventra_tms.Outbox.Service.{
  OutboxError, claim_invalid, publish_conflict, claim_batch, mark_published,
}

-- A thrown value: its code, if any, and its `retryable`, if that is set.
pub record Thrown : Type 0 where
  pub code : Option Text
  pub retryable : Option Bool

-- What the publisher resolves to.
pub record Receipt : Type 0 where
  pub confirmed : Bool
  pub message_id : ℕ

pub record Attempt : Type 0 where
  -- `signal.aborted` when the event's turn comes.
  pub aborted_before : Bool
  -- `mapOutboxEventToMessage` and `publish`.
  pub reply : Result Thrown Receipt
  -- `signal.aborted` once they are done, and `signal.reason`.
  pub aborted_after : Bool
  pub reason : Thrown
  -- `signal.aborted` in the `catch` block, which an abort during `markPublished` sets too.
  pub aborted_in_catch : Bool
  -- The time of `markPublished`.
  pub now : ℕ

unfoldable pub not_confirmed : Thrown
not_confirmed = record {
  code = some (codes "MVT_OUTBOX_PUBLISH_NOT_CONFIRMED");
  retryable = some true;
}

-- An error of the outbox service, which sets no `retryable`.
unfoldable pub service_error : OutboxError → Thrown
service_error claim_invalid = record {
  code = some (codes "MVT_OUTBOX_CLAIM_INVALID");
  retryable = none;
}
service_error publish_conflict = record {
  code = some (codes "MVT_OUTBOX_PUBLISH_CONFLICT");
  retryable = none;
}

-- `result?.confirmed === true && result.messageId === event.id`
unfoldable pub is_confirmed : Event → Receipt → Bool
is_confirmed e r = r.confirmed && r.message_id == e.id

-- The body of the `try` block, from the table at its start.
mark : ℕ → Attempt → Event → Events → Result Thrown Events
mark token a e t = elim (mark_published e.id token a.now t) [
  | ok (t', _) ↦ ok t'
  | err x ↦ err (service_error x)
]

unfoldable pub try_publish : (claim_token : ℕ) → Attempt → Event → Events → Result Thrown Events
unfolding mark service_error not_confirmed is_confirmed
try_publish token a e t = elim a.reply [
  | err x ↦ err x
  | ok receipt ↦
      if a.aborted_after
      then err a.reason
      else if not (is_confirmed e receipt)
      then err not_confirmed
      else mark token a e t
]

-- `firstFailure ??= error`
unfoldable pub first_of_two : Option Thrown → Thrown → Option Thrown
first_of_two none e = some e
first_of_two (some f) e = some f

-- The loop's variables.
pub record Progress : Type 0 where
  pub table : Events
  pub published : ℕ
  pub first_failure : Option Thrown

-- The loop over the claimed events: the progress, and the error that leaves it early, if any.
unfoldable pub dispatch :
    (claim_token : ℕ) → (Event → Attempt) → List Event → Progress → Progress × Option Thrown
unfolding try_publish first_of_two
dispatch token attempts [] p = (p, none)
dispatch token attempts (e ∷ events) p =
    let a = attempts e in
    elim a.aborted_before [
      | true ↦ (p, some a.reason)
      | false ↦ elim (try_publish token a e p.table) [
        | ok t ↦
            dispatch token attempts events (record p { table = t; published = p.published + 1 })
        | err x ↦ elim (a.aborted_after || a.aborted_in_catch) [
          | true ↦ (p, some x)
          | false ↦
              dispatch token attempts events
                (record p { first_failure = first_of_two p.first_failure x })
        ]
      ]
    ]

-- `firstFailure.retryable = firstFailure.retryable !== false`
unfoldable pub as_retryable : Thrown → Thrown
as_retryable e = record e { retryable = some (elim e.retryable [ some false ↦ false | _ ↦ true ]) }

pub record Report : Type 0 where
  pub claimed : ℕ
  pub published : ℕ

report : List Event → Progress × Option Thrown → Events × Result Thrown Report
report events (p, some x) = (p.table, err x)
report events (p, none) = elim p.first_failure [
  | some x ↦ (p.table, err (as_retryable x))
  | none ↦ (p.table, ok (record { claimed = length events; published = p.published }))
]

-- The handler: `aborted` is the signal's reason, if it is aborted when the handler starts.
unfoldable pub outbox_dispatcher :
    (aborted : Option Thrown) (batch_size claim_ttl_ms claim_token : ℕ) (locked : ℕ → Bool)
    (now : ℕ)
    → (Event → Attempt)
    → Events
    → Events × Result Thrown Report
unfolding report as_retryable
outbox_dispatcher (some x) batch_size claim_ttl_ms token locked now attempts t = (t, err x)
outbox_dispatcher none batch_size claim_ttl_ms token locked now attempts t =
    elim (claim_batch batch_size claim_ttl_ms token locked now t) [
      | err x ↦ (t, err (service_error x))
      | ok (t', events) ↦ report events (
          dispatch token attempts events
            (record { table = t'; published = 0; first_failure = none }))
    ]

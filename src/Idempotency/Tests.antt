-- ===== src/Idempotency/Tests.antt =====
-- A booking that is sent twice.
use moventra_tms.Base.{ℕ, ◌+◌, ◌≤◌, ◌≡◌, refl, false, some, List, [], ◌∷◌, arith, ok, err}
use moventra_tms.Base.Json.{Json, null, obj, end, codes}
use moventra_tms.Base.Text.{text_eq}
use moventra_tms.Idempotency.{
  Key, Entry, has_key, find_by_key, inserted, claim, completed, complete, is_open, request_mismatch,
}
use moventra_tms.Idempotency.Service.{
  Request, replayed, Operation, normalize_stored_body, stored_response, claim_of, response_of,
  run_operation, settle, execute,
}
use moventra_tms.Idempotency.Replay.{execute-execute, execute_mismatch}
use moventra_tms.Idempotency.Histories.{Call, runs_of_key, runs_of_key_once}

idempotency : Unit {0}
unfolding text_eq has_key find_by_key inserted claim completed complete is_open
    normalize_stored_body stored_response claim_of response_of run_operation settle execute
idempotency = tt

abbrev booking_key : Key
booking_key = record { tenant_id = 7; operation_key = codes "booking.create"; key_hash = 11 }

abbrev booking : Request
booking = record {
  key = booking_key;
  key_missing = false;
  key_hash_version = 1;
  fingerprint = 5;
  fingerprint_version = 1;
  status = 201;
  media_type = codes "application/json";
  headers = obj end;
}

abbrev altered : Request
altered = record booking { fingerprint = 6 }

-- Adds one booking to their number.
abbrev book : Operation ℕ
book n = ok (n + 1, some null)

abbrev bytes : Json → ℕ
bytes _ = 4

abbrev booked : Entry
booked = completed 100 (response_of booking null) (inserted 1 100 (claim_of 60000 100 booking))

execute-execute_example :
    execute bytes 60000 2 500 booking book 3 (booked ∷ [])
    ≡ ok (3, booked ∷ [], record { outcome = replayed; response = response_of booking null })
unfolding idempotency
execute-execute_example =
    execute-execute bytes 60000 1 100 2 500 booking book book 0 3 [] refl refl refl (omega arith)

execute_mismatch_example :
    execute bytes 60000 2 500 altered book 3 (booked ∷ []) ≡ err request_mismatch
unfolding idempotency
execute_mismatch_example =
    execute_mismatch bytes 60000 1 100 2 500 booking altered book book 0 3 [] refl refl refl refl
      (λ e. omega (arith, e))

abbrev calls : List (Call ℕ)
calls =
    record { id = 1; now = 100; request = booking; operation = book }
    ∷ record { id = 2; now = 500; request = booking; operation = book }
    ∷ []

runs_of_key_once_example : runs_of_key bytes 60000 booking_key calls 0 [] ≤ 1
runs_of_key_once_example = runs_of_key_once bytes 60000 booking_key calls 0 []

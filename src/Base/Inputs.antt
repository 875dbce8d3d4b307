-- ===== src/Base/Inputs.antt =====
-- What callers give to the repositories: ids, versions, reasons for a change. A canonical UUID is an
-- opaque number.
use moventra_tms.Base.Tests.{ltb, leb, if◌then◌else◌}
use moventra_tms.Base.Lists.{allb, length}
use moventra_tms.Base.Json.{Text, Json, null, str, num}
use moventra_tms.Base.Text.{is_digit, trim}
use Prim.Native.Nat.{ℕ, ◌+◌, ◌-◌, ◌*◌}
use mathlib.Core.Bool.{Bool, false, ◌&&◌, ◌||◌}
use mathlib.Core.List.{[], ◌∷◌}
use mathlib.Core.Option.{Option, none, some}

-- An id as given: null, undefined or ''; a canonical UUID; or anything else.
pub data GivenId : Type 0 where
  absent malformed : GivenId
  uuid : ℕ → GivenId

-- The pattern `/^[1-9][0-9]{0,18}$/`.
unfoldable pub is_positive_decimal : Text → Bool
is_positive_decimal [] = false
is_positive_decimal (c ∷ s) = leb b'1' c && leb c b'9' && leb (length s) 18 && allb is_digit s

decimal_from : ℕ → Text → ℕ
decimal_from n [] = n
decimal_from n (c ∷ s) = decimal_from (10 * n + (c - b'0')) s

-- The number that a text of that pattern spells. It spells no other text's number.
unfoldable pub decimal : Text → ℕ
unfolding decimal_from
decimal s = decimal_from 0 s

unfoldable pub positive_text : Text → Option ℕ
unfolding is_positive_decimal decimal
positive_text s = if is_positive_decimal s then some (decimal s) else none

-- `String(value)` of a number, or the text itself, if it is of the pattern.
unfoldable pub given_version : Json → Option ℕ
unfolding positive_text
given_version (num s) = positive_text s
given_version (str s) = positive_text s
given_version _ = none

-- A reason that is given has 2 to 500 units, trimmed; `none` is a refusal.
unfoldable pub checked_reason : Text → Option (Option Text)
checked_reason reason =
    if ltb (length reason) 2 || ltb 500 (length reason) then none else some (some reason)

unfoldable pub given_reason : Json → Option (Option Text)
unfolding checked_reason trim
given_reason null = some none
given_reason (str []) = some none
given_reason (str (c ∷ s)) = checked_reason (trim (c ∷ s))
given_reason _ = none

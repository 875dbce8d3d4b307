-- ===== src/Base/Batch.antt =====
-- The claim of a batch, as the job and outbox repositories write it in SQL:
-- `WITH eligible AS (SELECT id … WHERE … ORDER BY … LIMIT n) UPDATE … FROM eligible … RETURNING …`.
pub mod Laws
use moventra_tms.Base.Tests.{if◌then◌else◌}
use moventra_tms.Base.Lists.{take, filterb, contains}
use moventra_tms.Base.Sql.{update, returning}
use Prim.Native.Nat.{ℕ}
use mathlib.Core.Bool.{Bool}
use mathlib.Core.List.{List, [], ◌∷◌, map}

-- `precedes a b`: the ORDER BY clause puts `a` before `b`.
module _ {Row : Type 0} (precedes : Row → Row → Bool) where
  unfoldable pub insert_by_order : Row → List Row → List Row
  insert_by_order a [] = a ∷ []
  insert_by_order a (b ∷ t) = if precedes b a then b ∷ insert_by_order a t else a ∷ b ∷ t

  unfoldable pub order_by : List Row → List Row
  unfolding insert_by_order
  order_by [] = []
  order_by (a ∷ t) = insert_by_order a (order_by t)

module _ {Row : Type 0} (key : Row → ℕ) (precedes : Row → Row → Bool) (eligible : Row → Bool)
    (limit : ℕ) (t : List Row) where
  -- The rows of the CTE `eligible`.
  unfoldable pub selected : List Row
  unfolding order_by
  selected = take limit (order_by precedes (filterb eligible t))

  unfoldable pub is_selected : Row → Bool
  unfolding selected
  is_selected r = contains (map key selected) (key r)

  -- The rows that the UPDATE returns come in no stated order; here it is the table's.
  unfoldable pub claim : (Row → Row) → List Row × List Row
  unfolding is_selected
  claim f = (update is_selected f t, returning is_selected f t)

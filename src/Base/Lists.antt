-- ===== src/Base/Lists.antt =====
-- Lists measured by native numbers, Boolean filters, and predicates on all items.
use Prim.Native.Nat.{ℕ, zero, suc, ◌+◌, ◌≤◌}
use mathlib.Core.Path.{◌≡◌, refl, ap}
use mathlib.Core.Bool.{Bool, true, false, ◌&&◌, ◌||◌}
use mathlib.Core.List.{List, [], ◌∷◌, ◌++◌, map}
use mathlib.Core.Option.{Option, none, some}
use native.Mathlib.Omega.{arith}
use moventra_tms.Base.Tests.{if◌then◌else◌, ◌==◌}

module _ {ℓ} {A : Type ℓ} where
  abbrev pub length : List A → ℕ
  length [] = 0
  length (x ∷ xs) = suc (length xs)

  abbrev pub take : ℕ → List A → List A
  take zero xs = []
  take (suc n) [] = []
  take (suc n) (x ∷ xs) = x ∷ take n xs

  abbrev pub filterb : (A → Bool) → List A → List A
  filterb p [] = []
  filterb p (x ∷ xs) = if p x then x ∷ filterb p xs else filterb p xs

  abbrev pub anyb : (A → Bool) → List A → Bool
  anyb p [] = false
  anyb p (x ∷ xs) = p x || anyb p xs

  abbrev pub allb : (A → Bool) → List A → Bool
  allb p [] = true
  allb p (x ∷ xs) = p x && allb p xs

  -- `xs[0]` of a list of rows.
  abbrev pub head? : List A → Option A
  head? [] = none
  head? (x ∷ xs) = some x

abbrev pub contains : List ℕ → ℕ → Bool
contains [] a = false
contains (x ∷ xs) a = x == a || contains xs a

-- Each row meets the condition.
abbrev pub All {ℓ κ} : {Row : Type ℓ} (Meets : Row → Type κ) → List Row → Type κ
All Meets [] = Unit
All Meets (row ∷ rows) = Meets row × All Meets rows

module _ {ℓ} {A : Type ℓ} where
  pub length-append : (xs ys : List A) → length (xs ++ ys) ≡ length xs + length ys
  length-append [] ys = omega arith
  length-append (x ∷ xs) ys = omega (arith, length-append xs ys)

  pub length-take-le : (n : ℕ) (xs : List A) → length (take n xs) ≤ n
  length-take-le zero xs = omega arith
  length-take-le (suc n) [] = omega arith
  length-take-le (suc n) (x ∷ xs) = omega (arith, length-take-le n xs)

  pub All-append {κ} :
      (Meets : A → Type κ) (old new : List A)
      → All Meets old
      → All Meets new
      → All Meets (old ++ new)
  All-append Meets [] new _ after = after
  All-append Meets (row ∷ old) new (head, before) after =
      (head, All-append Meets old new before after)

  pub All-weaken {κ μ} :
      (Strong : A → Type κ) (Weak : A → Type μ) (rows : List A)
      → ((row : A) → Strong row → Weak row)
      → All Strong rows
      → All Weak rows
  All-weaken Strong Weak [] h all = tt
  All-weaken Strong Weak (row ∷ rows) h (head, all) =
      (h row head, All-weaken Strong Weak rows h all)

  pub All-map_self {κ} :
      (P : A → Type κ) (f : A → A) (xs : List A)
      → ((x : A) → P x → P (f x))
      → All P xs
      → All P (map f xs)
  All-map_self P f [] h a = tt
  All-map_self P f (x ∷ xs) h a = (h x a.0, All-map_self P f xs h a.1)

module _ {ℓ κ} {A : Type ℓ} {B : Type κ} where
  pub length-map : (f : A → B) (xs : List A) → length (map f xs) ≡ length xs
  length-map f [] = refl
  length-map f (x ∷ xs) = ap suc (length-map f xs)

-- A test that holds of the kept rows only does not tell whether the others are there.
module _ {ℓ} {A : Type ℓ} (keep p : A → Bool) (within : (x : A) → p x ≡ true → keep x ≡ true) where
  pub filterb_within : (xs : List A) → filterb p (filterb keep xs) ≡ filterb p xs
  filterb_within [] = refl
  filterb_within (x ∷ xs) = ground (arith, within x, filterb_within xs)

  pub anyb_within : (xs : List A) → anyb p (filterb keep xs) ≡ anyb p xs
  anyb_within [] = refl
  anyb_within (x ∷ xs) = ground (arith, within x, anyb_within xs)

-- ===== src/Base/Sql.antt =====
-- The statements on one table that the repositories send: SELECT by key, UPDATE … WHERE … RETURNING.
-- A table is the list of its rows; each statement runs on the table as a whole.
use Prim.Native.Nat.{ℕ}
use mathlib.Core.Path.{◌≡◌, refl, subst}
use mathlib.Core.Logic.{inl, inr}
use mathlib.Core.Bool.{Bool, true, ◌&&◌}
use mathlib.Core.List.{List, [], ◌∷◌, ◌++◌}
use mathlib.Core.Option.{Option, none, some}
use native.Mathlib.Omega.{arith}
use moventra_tms.Base.Tests.{if◌then◌else◌, ◌==◌, Bool-cases}
use moventra_tms.Base.Lists.{All}

module _ {Row : Type 0} where
  -- `UPDATE … SET f WHERE p`
  abbrev pub update : (Row → Bool) → (Row → Row) → List Row → List Row
  update p f [] = []
  update p f (r ∷ t) = (if p r then f r else r) ∷ update p f t

  -- The rows that its `RETURNING` clause gives.
  abbrev pub returning : (Row → Bool) → (Row → Row) → List Row → List Row
  returning p f [] = []
  returning p f (r ∷ t) = if p r then f r ∷ returning p f t else returning p f t

  pub All-update {κ} :
      (P : Row → Type κ) (p : Row → Bool) (f : Row → Row) (t : List Row)
      → ((r : Row) → p r ≡ true → P r → P (f r))
      → All P t
      → All P (update p f t)
  All-update P p f [] h a = tt
  All-update P p f (r ∷ t) h a = elim (Bool-cases (p r)) [
    | inl e ↦ rw e (h r e a.0, All-update P p f t h a.1)
    | inr e ↦ rw e (a.0, All-update P p f t h a.1)
  ]

  pub All-returning {κ} :
      (P : Row → Type κ) (p : Row → Bool) (f : Row → Row) (t : List Row)
      → ((r : Row) → p r ≡ true → P (f r))
      → All P (returning p f t)
  All-returning P p f [] h = tt
  All-returning P p f (r ∷ t) h = elim (Bool-cases (p r)) [
    | inl e ↦ rw e (h r e, All-returning P p f t h)
    | inr e ↦ rw e (All-returning P p f t h)
  ]

-- What the statement makes of one row, and of the row that a key selects.
abbrev pub touch {ℓ} : {A : Type ℓ} → (A → Bool) → (A → A) → A → A
touch p f r = if p r then f r else r

abbrev pub opt_map {ℓ κ} : {A : Type ℓ} {B : Type κ} → (A → B) → Option A → Option B
opt_map f none = none
opt_map f (some a) = some (f a)

-- Tables with a primary key.
module _ {Row : Type 0} (key : Row → ℕ) where
  -- `SELECT * … WHERE id = k`
  abbrev pub find : ℕ → List Row → Option Row
  find k [] = none
  find k (r ∷ t) = if key r == k then some r else find k t

  abbrev pub Unique : List Row → Type 0
  Unique [] = Unit
  Unique (r ∷ t) = (find (key r) t ≡ none) × Unique t

  pub find-All {κ} :
      (P : Row → Type κ) (k : ℕ) (t : List Row) {r : Row} → All P t → find k t ≡ some r → P r
  find-All P k [] a e = cc
  find-All P k (x ∷ t) {r} a e = elim (Bool-cases (key x == k)) [
    | inl same ↦ subst P (ground arith) a.0
    | inr other ↦ find-All P k t a.1 (rw other at e)
  ]

  pub find-key : (k : ℕ) (t : List Row) {r : Row} → find k t ≡ some r → key r ≡ k
  find-key k [] e = cc
  find-key k (x ∷ t) {r} e = ground (arith, λ (h : find k t ≡ some r). find-key k t h)

  module _ (p : Row → Bool) (f : Row → Row) (keeps : (r : Row) → key (f r) ≡ key r) where
    pub find-update :
        (k : ℕ) (t : List Row) → find k (update p f t) ≡ opt_map (touch p f) (find k t)
    find-update k [] = refl
    find-update k (r ∷ t) = ground (arith, keeps r, find-update k t)

    pub Unique-update : (t : List Row) → Unique t → Unique (update p f t)
    Unique-update [] u = tt
    Unique-update (r ∷ t) u = ground (arith, keeps r, find-update (key r) t, Unique-update t)

  pub find-append :
      (k : ℕ) (t : List Row) (r : Row)
      → find k t ≡ none
      → find k (t ++ r ∷ []) ≡ (if key r == k then some r else none)
  find-append k [] r h = refl
  find-append k (x ∷ t) r h = ground (arith, find-append k t r)

  pub Unique-append :
      (t : List Row) (r : Row) → Unique t → find (key r) t ≡ none → Unique (t ++ r ∷ [])
  Unique-append [] r u h = (refl, tt)
  Unique-append (x ∷ t) r u h =
      let ih = Unique-append t r u.1 (ground arith) in (ground (arith, find-append (key x) t r), ih)

  returning_absent :
      (k : ℕ) (q : Row → Bool) (f : Row → Row) (t : List Row)
      → find k t ≡ none
      → returning (λ r. key r == k && q r) f t ≡ []
  returning_absent k q f [] h = refl
  returning_absent k q f (r ∷ t) h = ground (arith, returning_absent k q f t)

  -- By its primary key a statement reaches one row at most.
  pub returning_by_key :
      (k : ℕ) (q : Row → Bool) (f : Row → Row) (t : List Row)
      → Unique t
      → returning (λ r. key r == k && q r) f t
        ≡ elim (find k t) [ none ↦ [] | some r ↦ if q r then f r ∷ [] else [] ]
  returning_by_key k q f [] u = refl
  returning_by_key k q f (r ∷ t) u =
      ground (arith, returning_by_key k q f t u.1, returning_absent k q f t)

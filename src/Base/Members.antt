-- ===== src/Base/Members.antt =====
-- Membership in a list, by recursion, and what it gives for filters, prefixes and tables.
use Prim.Native.Nat.{ℕ, zero, suc, ◌+◌, ◌≤◌}
use mathlib.Core.Path.{◌≡◌, refl, sym, ap, subst, ◌∙◌}
use mathlib.Core.Logic.{◌⊎◌, inl, inr}
use mathlib.Core.Bool.{Bool, true, false, ◌&&◌, ◌||◌}
use mathlib.Core.List.{List, [], ◌∷◌, ◌++◌, map}
use mathlib.Core.Option.{none, some}
use native.Mathlib.Omega.{arith}
use moventra_tms.Base.Tests.{◌==◌, ==_refl, Bool-cases, Option-cases, is_some}
use moventra_tms.Base.Lists.{length, take, filterb, contains, anyb, head?, All}
use moventra_tms.Base.Sql.{update, returning, touch, find, Unique, returning_by_key}

module _ {A : Type 0} where
  abbrev pub In : A → List A → Type 0
  In a [] = ⊥
  In a (x ∷ xs) = (a ≡ x) ⊎ In a xs

  abbrev pub drop : ℕ → List A → List A
  drop zero xs = xs
  drop (suc n) [] = []
  drop (suc n) (x ∷ xs) = drop n xs

  pub All-In {κ} : (P : A → Type κ) (a : A) (xs : List A) → All P xs → In a xs → P a
  All-In P a [] h m = absurd m
  All-In P a (x ∷ xs) h (inl e) = subst P (sym e) h.0
  All-In P a (x ∷ xs) h (inr m) = All-In P a xs h.1 m

  pub All-tabulate {κ} : (P : A → Type κ) (xs : List A) → ((a : A) → In a xs → P a) → All P xs
  All-tabulate P [] h = tt
  All-tabulate P (x ∷ xs) h = (h x (inl refl), All-tabulate P xs (λ a m. h a (inr m)))

  pub In-filterb : (p : A → Bool) (a : A) (xs : List A) → p a ≡ true → In a xs → In a (filterb p xs)
  In-filterb p a [] e m = m
  In-filterb p a (x ∷ xs) e (inl s) = rw (ap p (sym s) ∙ e) (inl s)
  In-filterb p a (x ∷ xs) e (inr m) = elim (Bool-cases (p x)) [
    | inl h ↦ rw h (inr (In-filterb p a xs e m))
    | inr h ↦ rw h (In-filterb p a xs e m)
  ]

  pub filterb-In :
      (p : A → Bool) (a : A) (xs : List A) → In a (filterb p xs) → In a xs × (p a ≡ true)
  filterb-In p a [] m = absurd m
  filterb-In p a (x ∷ xs) m = elim (Bool-cases (p x)) [
    | inl h ↦ split h (rw h at m) (filterb-In p a xs)
    | inr h ↦ let (n, e) = filterb-In p a xs (rw h at m) in (inr n, e)
  ]
    where
      split :
          p x ≡ true
          → In a (x ∷ filterb p xs)
          → (In a (filterb p xs) → In a xs × (p a ≡ true))
          → In a (x ∷ xs) × (p a ≡ true)
      split h (inl e) ih = (inl e, ap p e ∙ h)
      split h (inr n) ih = let (n', e) = ih n in (inr n', e)

  pub take-In : (n : ℕ) (a : A) (xs : List A) → In a (take n xs) → In a xs
  take-In zero a xs m = absurd m
  take-In (suc n) a [] m = m
  take-In (suc n) a (x ∷ xs) (inl e) = inl e
  take-In (suc n) a (x ∷ xs) (inr m) = inr (take-In n a xs m)

  pub drop-In : (n : ℕ) (a : A) (xs : List A) → In a (drop n xs) → In a xs
  drop-In zero a xs m = m
  drop-In (suc n) a [] m = m
  drop-In (suc n) a (x ∷ xs) m = inr (drop-In n a xs m)

  pub In-take-drop : (n : ℕ) (a : A) (xs : List A) → In a xs → In a (take n xs) ⊎ In a (drop n xs)
  In-take-drop zero a xs m = inr m
  In-take-drop (suc n) a [] m = inl m
  In-take-drop (suc n) a (x ∷ xs) (inl e) = inl (inl e)
  In-take-drop (suc n) a (x ∷ xs) (inr m) = elim (In-take-drop n a xs m) [
    | inl l ↦ inl (inr l)
    | inr r ↦ inr r
  ]

pub All-update-In {κ} :
    {Row : Type 0} (P : Row → Type κ) (p : Row → Bool) (f : Row → Row) (t : List Row)
    → ((r : Row) → In r t → p r ≡ true → P r → P (f r))
    → All P t
    → All P (update p f t)
All-update-In P p f [] h a = tt
All-update-In P p f (r ∷ t) h a = elim (Bool-cases (p r)) [
  | inl e ↦ rw e (h r (inl refl) e a.0, All-update-In P p f t (λ s m. h s (inr m)) a.1)
  | inr e ↦ rw e (a.0, All-update-In P p f t (λ s m. h s (inr m)) a.1)
]

pub All-returning-In {κ} :
    {Row : Type 0} (P : Row → Type κ) (p : Row → Bool) (f : Row → Row) (t : List Row)
    → ((r : Row) → In r t → p r ≡ true → P (f r))
    → All P (returning p f t)
All-returning-In P p f [] h = tt
All-returning-In P p f (r ∷ t) h = elim (Bool-cases (p r)) [
  | inl e ↦ rw e (h r (inl refl) e, All-returning-In P p f t (λ s m. h s (inr m)))
  | inr e ↦ rw e (All-returning-In P p f t (λ s m. h s (inr m)))
]

pub contains-member : (k : ℕ) (ks : List ℕ) → contains ks k ≡ true → In k ks
contains-member k [] e = cc
contains-member k (x ∷ ks) e = elim (Bool-cases (x == k)) [
  | inl hit ↦ inl (ground arith)
  | inr other ↦ inr (contains-member k ks (ground arith))
]

pub member-contains : (k : ℕ) (ks : List ℕ) → In k ks → contains ks k ≡ true
member-contains k [] m = absurd m
member-contains k (x ∷ ks) (inl e) = ground arith
member-contains k (x ∷ ks) (inr m) = ground (arith, member-contains k ks m)

module _ {Row : Type 0} (key : Row → ℕ) where
  pub In-find : (r : Row) (t : List Row) → Unique key t → In r t → find key (key r) t ≡ some r
  In-find r [] u m = absurd m
  In-find r (x ∷ t) u (inl e) = rw (← e) (rw (==_refl (key r)))
  In-find r (x ∷ t) u (inr m) = ground (arith, In-find r t u.1 m)

  pub find-In : (k : ℕ) (t : List Row) {r : Row} → find key k t ≡ some r → In r t
  find-In k [] e = cc
  find-In k (x ∷ t) {r} e = elim (Bool-cases (key x == k)) [
    | inl same ↦ inl (ground arith)
    | inr other ↦ inr (find-In k t (rw other at e))
  ]

  pub In-contains : (r : Row) (t : List Row) → In r t → contains (map key t) (key r) ≡ true
  In-contains r [] m = absurd m
  In-contains r (x ∷ t) (inl e) = rw (← e) (rw (==_refl (key r)))
  In-contains r (x ∷ t) (inr m) = ground (arith, In-contains r t m)

  pub contains-In :
      (k : ℕ) (t : List Row) → contains (map key t) k ≡ true → (r : Row) × In r t × (key r ≡ k)
  contains-In k [] e = cc
  contains-In k (x ∷ t) e = elim (Bool-cases (key x == k)) [
    | inl same ↦ (x, inl refl, ground arith)
    | inr other ↦ let (r, m, s) = contains-In k t (ground arith) in (r, inr m, s)
  ]

  -- Two rows of a table with one key are one row.
  pub Unique-eq :
      (r s : Row) (t : List Row) → Unique key t → In r t → In s t → key r ≡ key s → r ≡ s
  Unique-eq r s t u m n e = ground (arith, In-find r t u m, In-find s t u n)

  contains-returning-find :
      (p : Row → Bool) (f : Row → Row) (k : ℕ) (t : List Row)
      → ((s : Row) → key (f s) ≡ key s)
      → Unique key t
      → contains (map key (returning p f t)) k ≡ elim (find key k t) [ none ↦ false | some r ↦ p r ]
  contains-returning-find p f k [] keeps u = refl
  contains-returning-find p f k (x ∷ t) keeps u =
      ground (arith, keeps x, contains-returning-find p f k t keeps u.1)

  -- The keys that a statement returns are those of the rows that it selects.
  pub contains-returning :
      (p : Row → Bool) (f : Row → Row) (r : Row) (t : List Row)
      → ((s : Row) → key (f s) ≡ key s)
      → Unique key t
      → In r t
      → contains (map key (returning p f t)) (key r) ≡ p r
  contains-returning p f r t keeps u m =
      rw (contains-returning-find p f (key r) t keeps u) (rw (In-find r t u m))

  length-returning_none :
      (f : Row → Row) (t : List Row) → length (returning (λ r. contains [] (key r)) f t) ≤ 0
  length-returning_none f [] = omega arith
  length-returning_none f (x ∷ t) = length-returning_none f t

  length-returning_or :
      (p q : Row → Bool) (f : Row → Row) (t : List Row)
      → length (returning (λ r. p r || q r) f t)
        ≤ length (returning p f t) + length (returning q f t)
  length-returning_or p q f [] = omega arith
  length-returning_or p q f (x ∷ t) = ground (arith, length-returning_or p q f t)

  length-returning_absent :
      (i : ℕ) (f : Row → Row) (t : List Row)
      → find key i t ≡ none
      → length (returning (λ r. i == key r) f t) ≤ 0
  length-returning_absent i f [] h = omega arith
  length-returning_absent i f (x ∷ t) h = ground (arith, length-returning_absent i f t)

  length-returning_key :
      (i : ℕ) (f : Row → Row) (t : List Row)
      → Unique key t
      → length (returning (λ r. i == key r) f t) ≤ 1
  length-returning_key i f [] u = omega arith
  length-returning_key i f (x ∷ t) u =
      ground (arith, length-returning_key i f t u.1, length-returning_absent i f t)

  -- A statement that selects by a set of keys returns one row for a key at most.
  pub length-returning-le :
      (ids : List ℕ) (f : Row → Row) (t : List Row)
      → Unique key t
      → length (returning (λ r. contains ids (key r)) f t) ≤ length ids
  length-returning-le [] f t u = length-returning_none f t
  length-returning-le (i ∷ ids) f t u = omega (
    arith,
    length-returning_or (λ r. i == key r) (λ r. contains ids (key r)) f t,
    length-returning_key i f t u,
    length-returning-le ids f t u,
  )

  -- A statement that does not fit the row of its key changes nothing and returns nothing.
  pub update_miss :
      (k : ℕ) (q : Row → Bool) (f : Row → Row) (t : List Row)
      → Unique key t
      → ((r : Row) → find key k t ≡ some r → q r ≡ false)
      → update (λ r. key r == k && q r) f t ≡ t
  update_miss k q f [] u h = refl
  update_miss k q f (x ∷ t) u h = elim (Bool-cases (key x == k)) [
    | inl same ↦
        rw (same, h x (rw same))
          (ap (λ s. x ∷ s) (update_miss k q f t u.1 (λ r e. absurd (ground (arith, u.0)))))
    | inr other ↦ rw other (ap (λ s. x ∷ s) (update_miss k q f t u.1 (λ r e. h r (rw other e))))
  ]

  pub returning_miss :
      (k : ℕ) (q : Row → Bool) (f : Row → Row) (t : List Row)
      → Unique key t
      → ((r : Row) → find key k t ≡ some r → q r ≡ false)
      → returning (λ r. key r == k && q r) f t ≡ []
  returning_miss k q f t u h =
      rw (returning_by_key key k q f t u)
        (elim (Option-cases (find key k t)) [ inl e ↦ rw e | inr (r, e) ↦ rw (e, h r e) ])

pub head?-In : {A : Type 0} (xs : List A) {a : A} → head? xs ≡ some a → In a xs
head?-In [] e = cc
head?-In (x ∷ xs) e = inl (ground arith)

pub anyb-filterb :
    {A : Type 0} (p : A → Bool) (xs : List A) → anyb p xs ≡ is_some (head? (filterb p xs))
anyb-filterb p [] = refl
anyb-filterb p (x ∷ xs) = ground (arith, anyb-filterb p xs)

pub anyb-In :
    {A : Type 0} (p : A → Bool) (a : A) (xs : List A) → In a xs → p a ≡ true → anyb p xs ≡ true
anyb-In p a [] m e = absurd m
anyb-In p a (x ∷ xs) (inl s) e = rw (ap p (sym s) ∙ e)
anyb-In p a (x ∷ xs) (inr m) e = ground (arith, anyb-In p a xs m e)

pub update-In :
    {Row : Type 0} (p : Row → Bool) (f : Row → Row) (x : Row) (t : List Row)
    → In x (update p f t)
    → (r : Row) × In r t × (x ≡ touch p f r)
update-In p f x [] m = absurd m
update-In p f x (r ∷ t) (inl e) = (r, inl refl, e)
update-In p f x (r ∷ t) (inr m) = let (s, n, e) = update-In p f x t m in (s, inr n, e)

pub append-In : {A : Type 0} (x a : A) (xs : List A) → In a (xs ++ x ∷ []) → In a xs ⊎ (a ≡ x)
append-In x a [] (inl e) = inr e
append-In x a [] (inr m) = absurd m
append-In x a (y ∷ xs) (inl e) = inl (inl e)
append-In x a (y ∷ xs) (inr m) = elim (append-In x a xs m) [ inl n ↦ inl (inr n) | inr e ↦ inr e ]

pub head?-filterb_append :
    {A : Type 0} (p : A → Bool) (x : A) (xs : List A)
    → anyb p xs ≡ false
    → p x ≡ true
    → head? (filterb p (xs ++ x ∷ [])) ≡ some x
head?-filterb_append p x [] h e = rw e
head?-filterb_append p x (y ∷ xs) h e = ground (arith, head?-filterb_append p x xs)

-- No item passes the test.
pub never :
    {A : Type 0} (p : A → Bool) (xs : List A)
    → ((a : A) → In a xs → p a ≡ false)
    → anyb p xs ≡ false
never p [] h = refl
never p (x ∷ xs) h = rw (h x (inl refl)) (never p xs (λ a m. h a (inr m)))

pub never-In :
    {A : Type 0} (p : A → Bool) (a : A) (xs : List A) → anyb p xs ≡ false → In a xs → p a ≡ false
never-In p a xs h m = elim (Bool-cases (p a)) [ inl e ↦ cc (anyb-In p a xs m e) | inr e ↦ e ]

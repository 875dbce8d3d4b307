-- ===== src/Base/Batch/Laws.antt =====
-- What a claimed batch holds, how many rows, and in which order.
use moventra_tms.Base.Tests.{Bool-cases}
use moventra_tms.Base.Lists.{length, take, filterb, contains, All, length-map, length-take-le}
use moventra_tms.Base.Sql.{Unique}
use moventra_tms.Base.Members.{
  In, drop, drop-In, All-In, All-tabulate, In-filterb, filterb-In, take-In, In-take-drop,
  In-contains, contains-In, Unique-eq, contains-returning, length-returning-le,
}
use moventra_tms.Base.Batch.{insert_by_order, order_by, selected, is_selected, claim}
use Prim.Native.Nat.{ℕ, zero, suc, ◌≤◌}
use mathlib.Core.Path.{◌≡◌, sym, ap, subst, ◌∙◌}
use mathlib.Core.Logic.{◌⊎◌, inl, inr}
use mathlib.Core.Bool.{Bool, true, false}
use mathlib.Core.List.{List, [], ◌∷◌, map}
use native.Mathlib.Omega.{arith}

module _ {Row : Type 0} (precedes : Row → Row → Bool) where
  In-insert_by_order :
      (r a : Row) (t : List Row) → (r ≡ a) ⊎ In r t → In r (insert_by_order precedes a t)
  unfolding insert_by_order
  In-insert_by_order r a [] m = m
  In-insert_by_order r a (b ∷ t) m = elim (Bool-cases (precedes b a)) [
    | inl e ↦ rw e (swap m (In-insert_by_order r a t))
    | inr e ↦ rw e m
  ]
    where
      swap :
          (r ≡ a) ⊎ ((r ≡ b) ⊎ In r t)
          → ((r ≡ a) ⊎ In r t → In r (insert_by_order precedes a t))
          → (r ≡ b) ⊎ In r (insert_by_order precedes a t)
      swap (inl e) ih = inr (ih (inl e))
      swap (inr (inl e)) ih = inl e
      swap (inr (inr n)) ih = inr (ih (inr n))

  insert_by_order-In :
      (r a : Row) (t : List Row) → In r (insert_by_order precedes a t) → (r ≡ a) ⊎ In r t
  unfolding insert_by_order
  insert_by_order-In r a [] m = m
  insert_by_order-In r a (b ∷ t) m = elim (Bool-cases (precedes b a)) [
    | inl e ↦ swap (rw e at m) (insert_by_order-In r a t)
    | inr e ↦ rw e at m
  ]
    where
      swap :
          (r ≡ b) ⊎ In r (insert_by_order precedes a t)
          → (In r (insert_by_order precedes a t) → (r ≡ a) ⊎ In r t)
          → (r ≡ a) ⊎ ((r ≡ b) ⊎ In r t)
      swap (inl e) ih = inr (inl e)
      swap (inr n) ih = elim (ih n) [ inl e ↦ inl e | inr k ↦ inr (inr k) ]

  pub In-order_by : (r : Row) (t : List Row) → In r t → In r (order_by precedes t)
  unfolding order_by
  In-order_by r [] m = m
  In-order_by r (a ∷ t) (inl e) = In-insert_by_order r a (order_by precedes t) (inl e)
  In-order_by r (a ∷ t) (inr m) =
      In-insert_by_order r a (order_by precedes t) (inr (In-order_by r t m))

  pub order_by-In : (r : Row) (t : List Row) → In r (order_by precedes t) → In r t
  unfolding order_by
  order_by-In r [] m = m
  order_by-In r (a ∷ t) m = elim (insert_by_order-In r a (order_by precedes t) m) [
    | inl e ↦ inl e
    | inr n ↦ inr (order_by-In r t n)
  ]

  -- No row stands behind one that it precedes.
  abbrev pub IsOrdered : List Row → Type 0
  IsOrdered [] = Unit
  IsOrdered (a ∷ t) = All (λ b. precedes b a ≡ false) t × IsOrdered t

  -- In an ordered table no row behind the first `n` precedes one of these.
  pub IsOrdered-split :
      (n : ℕ) (c e : Row) (t : List Row)
      → IsOrdered t
      → In c (take n t)
      → In e (drop n t)
      → precedes e c ≡ false
  IsOrdered-split zero c e t o m k = absurd m
  IsOrdered-split (suc n) c e [] o m k = absurd m
  IsOrdered-split (suc n) c e (x ∷ t) o (inl s) k = rw s (All-In _ e t o.0 (drop-In n e t k))
  IsOrdered-split (suc n) c e (x ∷ t) o (inr m) k = IsOrdered-split n c e t o.1 m k

-- For an order that is asymmetric and negatively transitive.
module _ {Row : Type 0} (precedes : Row → Row → Bool)
    (asym : (a b : Row) → precedes a b ≡ true → precedes b a ≡ false)
    (trans : (a b c : Row)
      → precedes b a ≡ false
      → precedes c b ≡ false
      → precedes c a ≡ false) where
  insert_by_order-IsOrdered :
      (a : Row) (t : List Row)
      → IsOrdered precedes t
      → IsOrdered precedes (insert_by_order precedes a t)
  unfolding insert_by_order
  insert_by_order-IsOrdered a [] o = (tt, tt)
  insert_by_order-IsOrdered a (b ∷ t) o = elim (Bool-cases (precedes b a)) [
    | inl e ↦ rw e (
      All-tabulate _ (insert_by_order precedes a t)
          (λ c m. behind e c (insert_by_order-In precedes c a t m)),
      insert_by_order-IsOrdered a t o.1,
    )
    | inr e ↦ rw e ((e, All-tabulate _ t (λ c m. trans a b c e (All-In _ c t o.0 m))), o)
  ]
    where
      behind : precedes b a ≡ true → (c : Row) → (c ≡ a) ⊎ In c t → precedes c b ≡ false
      behind e c (inl s) = rw s (asym b a e)
      behind e c (inr m) = All-In _ c t o.0 m

  pub order_by-IsOrdered : (t : List Row) → IsOrdered precedes (order_by precedes t)
  unfolding order_by
  order_by-IsOrdered [] = tt
  order_by-IsOrdered (a ∷ t) =
      insert_by_order-IsOrdered a (order_by precedes t) (order_by-IsOrdered t)

module _ {Row : Type 0} (key : Row → ℕ) (precedes : Row → Row → Bool) (eligible : Row → Bool)
    (limit : ℕ) (t : List Row) (keyed : Unique key t) where
  selected-In :
      (r : Row) → In r (selected key precedes eligible limit t) → In r t × (eligible r ≡ true)
  unfolding selected
  selected-In r m =
      filterb-In eligible r t (order_by-In precedes r (filterb eligible t) (take-In limit r _ m))

  -- A row of the table is taken only if it is eligible.
  pub is_selected-eligible :
      (r : Row)
      → In r t
      → is_selected key precedes eligible limit t r ≡ true
      → In r (selected key precedes eligible limit t) × (eligible r ≡ true)
  unfolding is_selected
  is_selected-eligible r m e =
      let (s, n, same) = contains-In key (key r) (selected key precedes eligible limit t) e in
      let (k, fits) = selected-In s n in
      let eq = Unique-eq key s r t keyed k m same in
      (subst (λ x. In x (selected key precedes eligible limit t)) eq n, ap eligible (sym eq) ∙ fits)

  module _ (f : Row → Row) (keeps : (r : Row) → key (f r) ≡ key r) where
    abbrev pub claimed : List ℕ
    claimed = map key (claim key precedes eligible limit t f).1

    pub contains-claimed :
        (r : Row) → In r t → contains claimed (key r) ≡ is_selected key precedes eligible limit t r
    unfolding claim
    contains-claimed r m = contains-returning key _ f r t keeps keyed m

    -- A claim takes no more rows than asked for.
    pub claim-le-limit : length (claim key precedes eligible limit t f).1 ≤ limit
    unfolding claim
    claim-le-limit = omega (
      arith,
      length-returning-le key (map key (selected key precedes eligible limit t)) f t keyed,
      length-map key (selected key precedes eligible limit t),
      length-take-le limit (order_by precedes (filterb eligible t)),
    )

    -- An eligible row that a claim leaves precedes none that it takes.
    pub claim-precedes :
        (asym : (a b : Row) → precedes a b ≡ true → precedes b a ≡ false)
        (trans : (a b c : Row) → precedes b a ≡ false → precedes c b ≡ false → precedes c a ≡ false)
        (c e : Row)
        → In c t
        → In e t
        → contains claimed (key c) ≡ true
        → contains claimed (key e) ≡ false
        → eligible e ≡ true
        → precedes e c ≡ false
    unfolding selected is_selected
    claim-precedes asym trans c e m n taken left fits =
        let ordered = order_by precedes (filterb eligible t) in
        let c_in = (is_selected-eligible c m (sym (contains-claimed c m) ∙ taken)).0 in
        let e_in = In-order_by precedes e _ (In-filterb eligible e t fits n) in
        elim (In-take-drop limit e ordered e_in) [
          | inl front ↦ absurd (cc (In-contains key e _ front, contains-claimed e n))
          | inr back ↦
              IsOrdered-split precedes limit c e ordered
                (order_by-IsOrdered precedes asym trans (filterb eligible t)) c_in back
        ]

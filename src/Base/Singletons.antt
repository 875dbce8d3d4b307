-- ===== src/Base/Singletons.antt =====
-- A partial unique index: no two rows of different keys clash.
use moventra_tms.Base.{
  ℕ, ◌≡◌, ◌⊎◌, inl, inr, refl, sym, ap, subst, ◌∙◌, Bool, true, false, not, ◌&&◌, some, List, [],
  ◌∷◌, ◌++◌, arith, ◌==◌, Bool-cases, anyb,
}
use moventra_tms.Base.Sql.{update, find, Unique}
use moventra_tms.Base.Members.{In, append-In, update-In, anyb-In, In-find}

module _ {Row : Type 0} (key : Row → ℕ) (clash : Row → Row → Bool) where
  -- Whether another row of the table clashes with a row that is to be written.
  abbrev pub violates : Row → List Row → Bool
  violates r t = anyb (λ s. not (key s == key r) && clash r s) t

  abbrev pub HasSingletons : List Row → Type 0
  HasSingletons t = (r s : Row) → In r t → In s t → clash r s ≡ true → key r ≡ key s

module _ {Row : Type 0} (key : Row → ℕ) (clash : Row → Row → Bool)
    (clash_sym : (r s : Row) → clash r s ≡ true → clash s r ≡ true) where
  -- No other row stands in the way.
  pub clear_of_violates :
      (t : List Row) (r : Row)
      → violates key clash r t ≡ false
      → (s : Row) → In s t
      → clash r s ≡ true
      → key s ≡ key r
  clear_of_violates t r free s m c = elim (Bool-cases (key s == key r)) [
    | inl same ↦ ground arith
    | inr other ↦
        absurd
          (ground (arith, anyb-In (λ x. not (key x == key r) && clash r x) s t m (ground arith)))
  ]

  pub insert-HasSingletons :
      (t : List Row) (r : Row)
      → HasSingletons key clash t
      → violates key clash r t ≡ false
      → HasSingletons key clash (t ++ r ∷ [])
  insert-HasSingletons t r h free a b m n c = elim (append-In r a t m) [
    | inl old ↦ elim (append-In r b t n) [
      | inl old' ↦ h a b old old' c
      | inr new' ↦
          clear_of_violates t r free a old (clash_sym a r (ap (clash a) (sym new') ∙ c))
          ∙ ap key (sym new')
    ]
    | inr new ↦ elim (append-In r b t n) [
      | inl old' ↦
          ap key new ∙ sym (clear_of_violates t r free b old' (ap (λ x. clash x b) (sym new) ∙ c))
      | inr new' ↦ ap key (new ∙ sym new')
    ]
  ]

  -- A row of the changed table is the changed row or an old one.
  revised_or_old :
      (t : List Row) (r : Row) (k : ℕ) (q : Row → Bool) (f : Row → Row) (x : Row)
      → Unique key t
      → find key k t ≡ some r
      → In x (update (λ s. key s == k && q s) f t)
      → (x ≡ f r) ⊎ In x t
  revised_or_old t r k q f x u found m =
      let (old, n, same) = update-In (λ s. key s == k && q s) f x t m in
      elim (Bool-cases (key old == k && q old)) [
        | inl hit ↦
            let one : old ≡ r = ground (arith, In-find key old t u n) in
            inl (same ∙ rw hit (ap f one))
        | inr miss ↦ inr (subst (λ y. In y t) (sym (same ∙ rw miss refl)) n)
      ]

  pub revise-HasSingletons :
      (t : List Row) (r : Row) (k : ℕ) (q : Row → Bool) (f : Row → Row)
      → HasSingletons key clash t
      → Unique key t
      → find key k t ≡ some r
      → ((s : Row) → key (f s) ≡ key s)
      → ((s : Row) → In s t → clash (f r) s ≡ true → key s ≡ key r)
      → HasSingletons key clash (update (λ s. key s == k && q s) f t)
  revise-HasSingletons t r k q f h u found keeps clear a b m n c =
      elim (revised_or_old t r k q f a u found m) [
        | inl new ↦ elim (revised_or_old t r k q f b u found n) [
          | inl new' ↦ ap key (new ∙ sym new')
          | inr old' ↦ ap key new ∙ keeps r ∙ sym (clear b old' (ap (λ x. clash x b) (sym new) ∙ c))
        ]
        | inr old ↦ elim (revised_or_old t r k q f b u found n) [
          | inl new' ↦
              clear a old (clash_sym a (f r) (ap (clash a) (sym new') ∙ c))
              ∙ sym (keeps r)
              ∙ ap key (sym new')
          | inr old' ↦ h a b old old' c
        ]
      ]

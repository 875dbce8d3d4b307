-- ===== src/Base/History.antt =====
-- Tables whose rows carry a version, with a table of their earlier versions beside them: a write adds
-- a row of version 1, or makes the next version of one row, and appends what it wrote.
use moventra_tms.Base.{
  ℕ, suc, ◌+◌, ◌≤◌, ◌≡◌, inl, inr, sym, ap, subst, ◌∙◌, Bool, true, ◌&&◌, Option, none, some, List,
  [], ◌∷◌, ◌++◌, arith, ◌==◌, if◌then◌else◌, Bool-cases, Option-cases, head?, All, All-append,
  All-weaken,
}
use moventra_tms.Base.Sql.{
  update, returning, find, Unique, find-update, find-key, find-append, Unique-update, Unique-append,
  returning_by_key,
}

module _ {Row : Type 0} (key : Row → ℕ) where
  -- `UPDATE … SET f WHERE id = k AND q RETURNING *`, and its first row.
  unfoldable pub revise : ℕ → (Row → Bool) → (Row → Row) → List Row → Option (List Row × Row)
  revise k q f t = elim (head? (returning (λ r. key r == k && q r) f t)) [
    | none ↦ none
    | some r ↦ some (update (λ r. key r == k && q r) f t, r)
  ]

  -- The statement reached the one row of its key.
  abbrev pub Revises : ℕ → (Row → Bool) → (Row → Row) → List Row → List Row → Row → Type 0
  Revises k q f t t' r' =
      (r : Row) × (find key k t ≡ some r)
      × (q r ≡ true)
      × (r' ≡ f r)
      × (t' ≡ update (λ s. key s == k && q s) f t)

  pub revise-Revises :
      (k : ℕ) (q : Row → Bool) (f : Row → Row) (t : List Row) {t' : List Row} {r' : Row}
      → Unique key t
      → revise k q f t ≡ some (t', r')
      → Revises k q f t t' r'
  unfolding revise
  revise-Revises k q f t {t'} {r'} u h = elim (Option-cases (find key k t)) [
    | inl missing ↦ absurd (ground (arith, returning_by_key key k q f t u))
    | inr (r, found) ↦ elim (Bool-cases (q r)) [
      | inl fits ↦ (
        r,
        found,
        fits,
        ground (arith, returning_by_key key k q f t u),
        ground (arith, returning_by_key key k q f t u),
      )
      | inr other ↦ absurd (ground (arith, returning_by_key key k q f t u))
    ]
  ]

  pub revise_hit :
      (k : ℕ) (q : Row → Bool) (f : Row → Row) (t : List Row) (r : Row)
      → Unique key t
      → find key k t ≡ some r
      → q r ≡ true
      → revise k q f t ≡ some (update (λ s. key s == k && q s) f t, f r)
  unfolding revise
  revise_hit k q f t r u found fits = ground (arith, returning_by_key key k q f t u)

  pub find-revised :
      (k k' : ℕ) (q : Row → Bool) (f : Row → Row) (t : List Row) (r : Row)
      → ((s : Row) → key (f s) ≡ key s)
      → find key k t ≡ some r
      → q r ≡ true
      → find key k' (update (λ s. key s == k && q s) f t)
        ≡ (if k == k' then some (f r) else find key k' t)
  find-revised k k' q f t r keeps found fits = elim (Option-cases (find key k' t)) [
    | inl missing ↦ ground (arith, find-update key (λ s. key s == k && q s) f keeps k' t)
    | inr (s, there) ↦ ground (
      arith,
      find-update key (λ s. key s == k && q s) f keeps k' t,
      find-key key k' t there,
      find-key key k t found,
    )
  ]

  pub find-append_found :
      (k : ℕ) (t : List Row) (r s : Row) → find key k t ≡ some s → find key k (t ++ r ∷ []) ≡ some s
  find-append_found k [] r s h = cc
  find-append_found k (x ∷ t) r s h = ground (arith, find-append_found k t r s)

-- The table of versions: each entry names its row and the version that it keeps.
module _ {Row Entry : Type 0} (key version : Row → ℕ) (owner number : Entry → ℕ)
    (Shows : Row → Entry → Type 0) where
  abbrev pub find_entry : ℕ → ℕ → List Entry → Option Entry
  find_entry k v [] = none
  find_entry k v (e ∷ es) = if owner e == k && number e == v then some e else find_entry k v es

  pub find_entry-append :
      (k v : ℕ) (es : List Entry) (e d : Entry)
      → find_entry k v es ≡ some d
      → find_entry k v (es ++ e ∷ []) ≡ some d
  find_entry-append k v [] e d h = cc
  find_entry-append k v (x ∷ es) e d h = ground (arith, find_entry-append k v es e d)

  find_entry-append_last :
      (k v : ℕ) (es : List Entry) (e : Entry)
      → owner e ≡ k
      → number e ≡ v
      → All (λ d. (owner d ≡ k → suc (number d) ≤ v)) es
      → find_entry k v (es ++ e ∷ []) ≡ some e
  find_entry-append_last k v [] e h n a = ground arith
  find_entry-append_last k v (x ∷ es) e h n a =
      ground (arith, a.0, find_entry-append_last k v es e h n a.1)

  -- Each row's present version is in the history as the row shows it, and no entry is of a row or a
  -- version that is not there.
  pub record IsHistory (t : List Row) (es : List Entry) : Type 0 where
    pub keyed : Unique key t
    pub present :
        (k : ℕ) (r : Row)
        → find key k t ≡ some r
        → (e : Entry) × (find_entry k (version r) es ≡ some e) × Shows r e
    pub past : All (λ e. (r : Row) × (find key (owner e) t ≡ some r) × (number e ≤ version r)) es

  -- A row that is not there has no entry, and a row that is there has none of its next version.
  pub no_entry_of :
      (k v : ℕ) (t : List Row) (es : List Entry)
      → IsHistory t es
      → ((r : Row) → find key k t ≡ some r → version r + 1 ≡ v)
      → All (λ d. (owner d ≡ k → suc (number d) ≤ v)) es
  no_entry_of k v t es h next =
      All-weaken _ _ es
        (λ d p own. omega (arith, p.2, next p.0 (ap (λ j. find key j t) (sym own) ∙ p.1))) h.past

  pub insert-IsHistory :
      (t : List Row) (es : List Entry) (r : Row) (e : Entry)
      → IsHistory t es
      → find key (key r) t ≡ none
      → owner e ≡ key r
      → number e ≡ version r
      → Shows r e
      → IsHistory (t ++ r ∷ []) (es ++ e ∷ [])
  insert-IsHistory t es r e h fresh own num shows = record {
    keyed = Unique-append key t r h.keyed fresh;
    present = seen;
    past =
        All-append _ es (e ∷ [])
          (All-weaken _ _ es (λ d p. (p.0, find-append_found key (owner d) t r p.0 p.1, p.2))
            h.past)
          ((r, rw own added, omega (arith, num)), tt);
  }
    where
      added : find key (key r) (t ++ r ∷ []) ≡ some r
      added = ground (arith, find-append key (key r) t r fresh)

      seen :
          (k : ℕ) (s : Row)
          → find key k (t ++ r ∷ []) ≡ some s
          → (d : Entry) × (find_entry k (version s) (es ++ e ∷ []) ≡ some d) × Shows s d
      seen k s found = elim (Option-cases (find key k t)) [
        | inl missing ↦
            let new : (key r ≡ k) × (s ≡ r) = ground (arith, find-append key k t r missing) in
            (
              e,
              find_entry-append_last k (version s) es e (own ∙ new.0) (num ∙ ap version (sym new.1))
                  (no_entry_of k (version s) t es h (λ x there. cc)),
              subst (λ x. Shows x e) (sym new.1) shows,
            )
        | inr (old, there) ↦
            let same : s ≡ old = ground (arith, find-append_found key k t r old there) in
            let (d, stored, as_shown) = h.present k old there in
            (
              d,
              find_entry-append k (version s) es e d
                  (ap (λ x. find_entry k (version x) es) same ∙ stored),
              subst (λ x. Shows x d) (sym same) as_shown,
            )
      ]

  pub revise-IsHistory :
      (k : ℕ) (q : Row → Bool) (f : Row → Row) (t t' : List Row) (r' : Row) (es : List Entry)
      (e : Entry)
      → IsHistory t es
      → ((s : Row) → key (f s) ≡ key s)
      → ((s : Row) → version (f s) ≡ version s + 1)
      → Revises key k q f t t' r'
      → owner e ≡ k
      → number e ≡ version r'
      → Shows r' e
      → IsHistory t' (es ++ e ∷ [])
  revise-IsHistory k q f t t' r' es e h keeps next (r, found, fits, same, table) own num shows =
      subst (λ u. IsHistory u (es ++ e ∷ [])) (sym table)
        (record {
          keyed = Unique-update key _ f keeps t h.keyed;
          present = seen;
          past = All-append _ es (e ∷ []) (All-weaken _ _ es (λ d p. older d p) h.past) (
            (f r, ap (λ j. find key j changed) own ∙ at_key, omega (arith, num, ap version same)),
            tt,
          );
        })
    where
      changed : List Row
      changed = update (λ s. key s == k && q s) f t

      at : (j : ℕ) → find key j changed ≡ (if k == j then some (f r) else find key j t)
      at j = find-revised key k j q f t r keeps found fits

      at_key : find key k changed ≡ some (f r)
      at_key = ground (arith, at k)

      older :
          (d : Entry)
          → (s : Row) × (find key (owner d) t ≡ some s) × (number d ≤ version s)
          → (s : Row) × (find key (owner d) changed ≡ some s) × (number d ≤ version s)
      older d (s, there, le) = elim (Bool-cases (k == owner d)) [
        | inl this ↦
            let one : s ≡ r = ground (arith) in
            (f r, ground (arith, at (owner d)), omega (arith, le, next r, ap version one))
        | inr other ↦ (s, ground (arith, at (owner d)), le)
      ]

      seen :
          (j : ℕ) (s : Row)
          → find key j changed ≡ some s
          → (d : Entry) × (find_entry j (version s) (es ++ e ∷ []) ≡ some d) × Shows s d
      seen j s there = elim (Bool-cases (k == j)) [
        | inl this ↦
            let one : (k ≡ j) × (s ≡ f r) = ground (arith, at j) in
            (
              e,
              find_entry-append_last j (version s) es e (own ∙ one.0)
                  (num ∙ ap version (same ∙ sym one.1))
                  (no_entry_of j (version s) t es h
                    (λ x had. ground (arith, next r, ap version one.1))),
              subst (λ x. Shows x e) (same ∙ sym one.1) shows,
            )
        | inr other ↦
            let (d, stored, as_shown) = h.present j s (ground (arith, at j)) in
            (d, find_entry-append j (version s) es e d stored, as_shown)
      ]

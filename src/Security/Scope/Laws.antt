-- ===== src/Security/Scope/Laws.antt =====
-- Coverage of scopes is inclusion of the places that they reach.
use moventra_tms.Base.{
  ℕ, ◌≡◌, ap, ◌∙◌, ◌↔◌, Bool, true, false, ◌&&◌, some, none, arith, ◌>>=◌, col_eq, ok,
}
use moventra_tms.Security.Scope.{
  tenant, company, branch, Given, Target, has_shape, normalize_scope_target, covers, scope_covers,
  ScopeRow, row_covers,
}

normalize_scope_target-has_shape :
    (input : Given) {t : Target} → normalize_scope_target input ≡ ok t → has_shape t ≡ true
unfolding normalize_scope_target
normalize_scope_target-has_shape input h = ground arith

-- Where something of a tenant may be: nowhere in particular, in a company, or in a branch of one.
pub data Place : Type 0 where
  anywhere : Place
  at_company : ℕ → Place
  at_branch : (company_id branch_id : ℕ) → Place

-- The places that a scope reaches: all of the tenant, all of a company, or a branch.
unfoldable pub reaches : Target → Place → Bool
reaches t p = elim t.level [
  | tenant ↦ true
  | company ↦ elim p [
    | anywhere ↦ false
    | at_company c ↦ col_eq t.company_id c
    | at_branch c b ↦ col_eq t.company_id c
  ]
  | branch ↦ elim p [ at_branch c b ↦ col_eq t.company_id c && col_eq t.branch_id b | _ ↦ false ]
]

-- `t` reaches no place that `g` does not reach.
abbrev pub Includes : (g t : Target) → Type 0
Includes g t = (p : Place) → reaches t p ≡ true → reaches g p ≡ true

covers-Includes :
    (g t : Target) → has_shape g ≡ true → has_shape t ≡ true → covers g t ≡ true → Includes g t
unfolding covers has_shape reaches
covers-Includes g t shaped_g shaped_t h p m = ground arith

own_place : Target → Place
own_place t = elim t.level [
  | tenant ↦ anywhere
  | company ↦ elim t.company_id [ none ↦ anywhere | some c ↦ at_company c ]
  | branch ↦ elim t.company_id [
    | none ↦ anywhere
    | some c ↦ elim t.branch_id [ none ↦ anywhere | some b ↦ at_branch c b ]
  ]
]

reaches_own : (t : Target) → has_shape t ≡ true → reaches t (own_place t) ≡ true
unfolding has_shape reaches own_place
reaches_own t shaped = ground arith

covers_of_reach :
    (g t : Target)
    → has_shape g ≡ true
    → has_shape t ≡ true
    → reaches g (own_place t) ≡ true
    → covers g t ≡ true
unfolding covers has_shape reaches own_place
covers_of_reach g t shaped_g shaped_t h = ground arith

pub covers_iff :
    (g t : Target) → has_shape g ≡ true → has_shape t ≡ true → (covers g t ≡ true) ↔ Includes g t
covers_iff g t shaped_g shaped_t = (
  covers-Includes g t shaped_g shaped_t,
  λ wider. covers_of_reach g t shaped_g shaped_t (wider (own_place t) (reaches_own t shaped_t)),
)

scope_covers-of :
    (granted requested : Given) (g t : Target)
    → normalize_scope_target granted ≡ ok g
    → normalize_scope_target requested ≡ ok t
    → scope_covers granted requested ≡ ok (covers g t)
unfolding scope_covers
scope_covers-of granted requested g t given asked =
    ap (λ x. x >>= λ grant. normalize_scope_target requested >>= λ target. ok (covers grant target))
      given
    ∙ ap (λ x. x >>= λ target. ok (covers g target)) asked

-- scopeCovers answers on any two scopes that it accepts, and it answers yes exactly when the granted
-- scope reaches every place that the requested one reaches.
pub scope_covers_iff :
    (granted requested : Given) {g t : Target}
    → normalize_scope_target granted ≡ ok g
    → normalize_scope_target requested ≡ ok t
    → (b : Bool) × (scope_covers granted requested ≡ ok b) × ((b ≡ true) ↔ Includes g t)
scope_covers_iff granted requested {g} {t} given asked = (
  covers g t,
  scope_covers-of granted requested g t given asked,
  covers_iff g t (normalize_scope_target-has_shape granted given)
      (normalize_scope_target-has_shape requested asked),
)

abbrev pub row_target : ScopeRow → Target
row_target os = record {
  level = os.scope_level;
  company_id = os.company_id;
  branch_id = os.branch_id;
}

pub row_covers-covers :
    (os : ScopeRow) (t : Target)
    → has_shape (row_target os) ≡ true
    → row_covers os t ≡ covers (row_target os) t
unfolding row_covers covers has_shape
row_covers-covers os t h = ground arith

-- ===== src/Security/Scope.antt =====
-- Organizational scopes: src/modules/security/scope/organizational-scope-domain.js, and
-- hasScopedPermission of organizational-scope-repository.js beside it. A canonical UUID is an opaque
-- number; the tables of its query are lists.
pub mod Laws
pub mod Grants
pub mod Decision
mod Tests
use moventra_tms.Base.{
  ℕ, Bool, true, false, not, ◌&&◌, ◌||◌, Option, none, some, List, [], ◌∷◌, ◌==◌, if◌then◌else◌,
  opt_eq, col_eq, col_is, is_some, is_none, anyb, Result, ok, err, ◌>>=◌, ◌>>◌, guard,
}
use moventra_tms.Base.Json.{Text, codes}
use moventra_tms.Base.Text.{text_eq, to_upper_case}
use moventra_tms.Base.Inputs.{GivenId, absent, malformed, uuid}

pub data Level : Type 0 where
  tenant company branch : Level

pub data ScopeError : Type 0 where
  level_invalid shape_invalid id_invalid : ScopeError

pub record Given : Type 0 where
  pub level : Text
  pub company_id : GivenId
  pub branch_id : GivenId

pub record Target : Type 0 where
  pub level : Level
  pub company_id : Option ℕ
  pub branch_id : Option ℕ

-- `String(input.level ?? '').toUpperCase()`, looked up among the levels.
unfoldable pub normalize_level : Text → Result ScopeError Level
unfolding text_eq to_upper_case
normalize_level s =
    let level = to_upper_case s in
    if text_eq level (codes "TENANT")
    then ok tenant
    else if text_eq level (codes "COMPANY")
    then ok company
    else if text_eq level (codes "BRANCH")
    then ok branch
    else err level_invalid

unfoldable pub normalize_optional_uuid : GivenId → Result ScopeError (Option ℕ)
normalize_optional_uuid absent = ok none
normalize_optional_uuid malformed = err id_invalid
normalize_optional_uuid (uuid n) = ok (some n)

-- The ids that a level takes: none, the company's, or both.
unfoldable pub has_shape : Target → Bool
has_shape t = elim t.level [
  | tenant ↦ not (is_some t.company_id || is_some t.branch_id)
  | company ↦ not (is_none t.company_id || is_some t.branch_id)
  | branch ↦ not (is_none t.company_id || is_none t.branch_id)
]

unfoldable pub normalize_scope_target : Given → Result ScopeError Target
unfolding normalize_level normalize_optional_uuid has_shape
normalize_scope_target input = do
  level ← normalize_level input.level
  company_id ← normalize_optional_uuid input.company_id
  branch_id ← normalize_optional_uuid input.branch_id
  let target : Target = record { level = level; company_id = company_id; branch_id = branch_id }
  guard (has_shape target) shape_invalid
  ok target

abbrev pub is_branch : Level → Bool
is_branch branch = true
is_branch _ = false

-- `scopeCovers` behind the normalisation of its arguments.
unfoldable pub covers : (grant target : Target) → Bool
covers grant target = elim grant.level [
  | tenant ↦ true
  | company ↦ opt_eq grant.company_id target.company_id
  | branch ↦
      is_branch target.level
      && opt_eq grant.company_id target.company_id
      && opt_eq grant.branch_id target.branch_id
]

unfoldable pub scope_covers : (granted requested : Given) → Result ScopeError Bool
unfolding normalize_scope_target covers
scope_covers granted requested = do
  grant ← normalize_scope_target granted
  target ← normalize_scope_target requested
  ok (covers grant target)

-- The columns that the query of `hasScopedPermission` reads; `is_active` is `status = 'ACTIVE'`.
pub record Membership : Type 0 where
  pub id : ℕ
  pub tenant_id : ℕ
  pub user_id : ℕ
  pub is_active : Bool

-- A tenant or a user.
pub record Party : Type 0 where
  pub id : ℕ
  pub is_active : Bool

pub record MembershipRole : Type 0 where
  pub id : ℕ
  pub tenant_id : ℕ
  pub membership_id : ℕ
  pub role_id : ℕ
  pub is_active : Bool

pub record Role : Type 0 where
  pub id : ℕ
  pub tenant_id : ℕ
  pub is_active : Bool

pub record RolePermission : Type 0 where
  pub tenant_id : ℕ
  pub role_id : ℕ
  pub permission_id : ℕ

pub record Permission : Type 0 where
  pub id : ℕ
  pub code : Text
  pub is_active : Bool

pub record AssignmentScope : Type 0 where
  pub tenant_id : ℕ
  pub assignment_id : ℕ
  pub scope_id : ℕ

pub record ScopeRow : Type 0 where
  pub id : ℕ
  pub tenant_id : ℕ
  pub scope_level : Level
  pub company_id : Option ℕ
  pub branch_id : Option ℕ
  pub is_active : Bool

pub record Database : Type 0 where
  pub memberships : List Membership
  pub tenants : List Party
  pub users : List Party
  pub membership_roles : List MembershipRole
  pub roles : List Role
  pub role_permissions : List RolePermission
  pub permissions : List Permission
  pub assignment_scopes : List AssignmentScope
  pub scopes : List ScopeRow

-- The last conjunct of the WHERE clause.
unfoldable pub row_covers : ScopeRow → Target → Bool
row_covers os requested = elim os.scope_level [
  | tenant ↦ true
  | company ↦ col_is os.company_id requested.company_id
  | branch ↦
      is_branch requested.level
      && col_is os.company_id requested.company_id
      && col_is os.branch_id requested.branch_id
]

-- The joins of the query, from its innermost table: a scope of an assignment,
unfoldable pub is_assigned_scope : Target → AssignmentScope → ScopeRow → Bool
unfolding row_covers
is_assigned_scope requested ras os =
    os.tenant_id == ras.tenant_id
    && os.id == ras.scope_id
    && os.is_active
    && row_covers os requested

unfoldable pub assigns_scope : Database → Target → MembershipRole → AssignmentScope → Bool
unfolding is_assigned_scope
assigns_scope db requested mr ras =
    ras.tenant_id == mr.tenant_id
    && ras.assignment_id == mr.id
    && anyb (is_assigned_scope requested ras) db.scopes

-- a permission of a role,
unfoldable pub has_permission : Database → (code : Text) → Role → RolePermission → Bool
unfolding text_eq
has_permission db code r rp =
    rp.tenant_id == r.tenant_id
    && rp.role_id == r.id
    && anyb (λ p. p.id == rp.permission_id && text_eq p.code code && p.is_active) db.permissions

unfoldable pub grants_permission : Database → (code : Text) → MembershipRole → Bool
unfolding has_permission
grants_permission db code mr =
    anyb
      (λ r.
        r.tenant_id == mr.tenant_id
        && r.id == mr.role_id
        && r.is_active
        && anyb (has_permission db code r) db.role_permissions)
      db.roles

-- an assignment of a membership, and the membership.
unfoldable pub is_granting_role :
    Database → (code : Text) → Target → Membership → MembershipRole → Bool
unfolding assigns_scope grants_permission
is_granting_role db code requested m mr =
    mr.tenant_id == m.tenant_id
    && mr.membership_id == m.id
    && mr.is_active
    && grants_permission db code mr
    && anyb (assigns_scope db requested mr) db.assignment_scopes

unfoldable pub is_allowed_member :
    Database → (tenant_id membership_id : ℕ) → (code : Text) → Target → Membership → Bool
unfolding is_granting_role
is_allowed_member db tenant_id membership_id code requested m =
    m.tenant_id == tenant_id
    && m.id == membership_id
    && m.is_active
    && anyb (λ t. t.id == m.tenant_id && t.is_active) db.tenants
    && anyb (λ u. u.id == m.user_id && u.is_active) db.users
    && anyb (is_granting_role db code requested m) db.membership_roles

unfoldable pub has_scoped_permission :
    Database → (tenant_id membership_id : ℕ) → (code : Text) → (requested : Target) → Bool
unfolding is_allowed_member
has_scoped_permission db tenant_id membership_id code requested =
    anyb (is_allowed_member db tenant_id membership_id code requested) db.memberships

-- ===== src/Security/Scope/Decision.antt =====
-- hasScopedPermission decides by the rows of its tables.
use moventra_tms.Base.{ℕ, ◌≡◌, ◌∙◌, ◌↔◌, true, ◌&&◌, ◌==◌, arith, anyb, All}
use moventra_tms.Base.Members.{anyb-In}
use moventra_tms.Base.Json.{Text}
use moventra_tms.Security.Scope.{
  Target, has_shape, Membership, Party, MembershipRole, Database, assigns_scope, grants_permission,
  is_granting_role, is_allowed_member, has_scoped_permission,
}
use moventra_tms.Security.Scope.Laws.{row_target}
use moventra_tms.Security.Scope.Grants.{
  IsGranted, anyb-inv, grants_permission-HasCode, HasCode-grants_permission, assigns_scope-HasScope,
  HasScope-assigns_scope,
}

is_allowed_member-inv :
    (db : Database) (tenant_id membership_id : ℕ) (code : Text) (requested : Target)
    (m : Membership)
    → is_allowed_member db tenant_id membership_id code requested m ≡ true
    → (m.tenant_id ≡ tenant_id)
      × (m.id ≡ membership_id)
      × (m.is_active ≡ true)
      × (anyb (λ t. t.id == m.tenant_id && t.is_active) db.tenants ≡ true)
      × (anyb (λ u. u.id == m.user_id && u.is_active) db.users ≡ true)
      × (anyb (is_granting_role db code requested m) db.membership_roles ≡ true)
unfolding is_allowed_member
is_allowed_member-inv db tenant_id membership_id code requested m h =
    (ground arith, ground arith, ground arith, ground arith, ground arith, ground arith)

is_granting_role-inv :
    (db : Database) (code : Text) (requested : Target) (m : Membership) (mr : MembershipRole)
    → is_granting_role db code requested m mr ≡ true
    → (mr.tenant_id ≡ m.tenant_id)
      × (mr.membership_id ≡ m.id)
      × (mr.is_active ≡ true)
      × (grants_permission db code mr ≡ true)
      × (anyb (assigns_scope db requested mr) db.assignment_scopes ≡ true)
unfolding is_granting_role
is_granting_role-inv db code requested m mr h =
    (ground arith, ground arith, ground arith, ground arith, ground arith)

has_scoped_permission-IsGranted :
    (db : Database) (tenant_id membership_id : ℕ) (code : Text) (requested : Target)
    → All (λ os. has_shape (row_target os) ≡ true) db.scopes
    → has_shape requested ≡ true
    → has_scoped_permission db tenant_id membership_id code requested ≡ true
    → IsGranted db tenant_id membership_id code requested
unfolding has_scoped_permission
has_scoped_permission-IsGranted db tenant_id membership_id code requested shaped asked h =
    let (m, member, e) =
      anyb-inv (is_allowed_member db tenant_id membership_id code requested) db.memberships h in
    let (in_tenant, own, active, live_tenant, live_user, roles) =
      is_allowed_member-inv db tenant_id membership_id code requested m e in
    let (t, tenant_in, e1) =
      anyb-inv (λ (t : Party). t.id == m.tenant_id && t.is_active) db.tenants live_tenant in
    let (u, user_in, e2) =
      anyb-inv (λ (u : Party). u.id == m.user_id && u.is_active) db.users live_user in
    let (mr, assigned, e3) =
      anyb-inv (is_granting_role db code requested m) db.membership_roles roles in
    let (same_tenant, same_member, active_role, permitted, scoped) =
      is_granting_role-inv db code requested m mr e3 in
    (
      m,
      member,
      own,
      in_tenant,
      active,
      t,
      tenant_in,
      ground arith,
      ground arith,
      u,
      user_in,
      ground arith,
      ground arith,
      mr,
      assigned,
      same_tenant ∙ in_tenant,
      same_member ∙ own,
      active_role,
      grants_permission-HasCode db code mr permitted,
      assigns_scope-HasScope db requested mr shaped asked scoped,
    )

IsGranted-has_scoped_permission :
    (db : Database) (tenant_id membership_id : ℕ) (code : Text) (requested : Target)
    → All (λ os. has_shape (row_target os) ≡ true) db.scopes
    → has_shape requested ≡ true
    → IsGranted db tenant_id membership_id code requested
    → has_scoped_permission db tenant_id membership_id code requested ≡ true
unfolding has_scoped_permission is_allowed_member is_granting_role
IsGranted-has_scoped_permission db tenant_id membership_id code requested shaped asked
      (
        m, member, own, in_tenant, live, t, tenant_in, tenant_is, tenant_live, u, user_in, user_is,
        user_live, mr, assigned, mr_tenant, mr_member, mr_live, coded, scoped,
      ) =
    let permitted = HasCode-grants_permission db code mr coded in
    let within = HasScope-assigns_scope db requested mr shaped asked scoped in
    let live_tenant : anyb (λ (t : Party). t.id == m.tenant_id && t.is_active) db.tenants ≡ true =
      anyb-In _ t db.tenants tenant_in (ground arith) in
    let live_user : anyb (λ (u : Party). u.id == m.user_id && u.is_active) db.users ≡ true =
      anyb-In _ u db.users user_in (ground arith) in
    let role : anyb (is_granting_role db code requested m) db.membership_roles ≡ true =
      anyb-In _ mr db.membership_roles assigned (ground arith) in
    anyb-In _ m db.memberships member (ground arith)

-- With stored and requested scopes that have the ids of their levels, hasScopedPermission grants a permission exactly to
-- an active membership of an active tenant and an active user with an active assignment of a role
-- that has the permission, where a scope of that same assignment reaches every place of the
-- requested scope; all these rows but the user and the permission are the tenant's.
pub has_scoped_permission_iff :
    (db : Database) (tenant_id membership_id : ℕ) (code : Text) (requested : Target)
    → All (λ os. has_shape (row_target os) ≡ true) db.scopes
    → has_shape requested ≡ true
    → (has_scoped_permission db tenant_id membership_id code requested ≡ true)
      ↔ IsGranted db tenant_id membership_id code requested
has_scoped_permission_iff db tenant_id membership_id code requested shaped asked = (
  has_scoped_permission-IsGranted db tenant_id membership_id code requested shaped asked,
  IsGranted-has_scoped_permission db tenant_id membership_id code requested shaped asked,
)

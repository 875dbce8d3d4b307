-- ===== src/Security/Scope/Grants.antt =====
-- What a role assignment has in the tables of hasScopedPermission: a permission and a scope.
use moventra_tms.Base.{
  ℕ, ◌≡◌, refl, sym, ◌∙◌, inl, inr, Bool, true, ◌&&◌, List, [], ◌∷◌, ◌==◌, arith, Bool-cases, anyb,
  All, ==_refl,
}
use moventra_tms.Base.Members.{In, All-In, anyb-In}
use moventra_tms.Base.Json.{Text}
use moventra_tms.Base.Text.{text_eq}
use moventra_tms.Base.Text.Laws.{text_eq_refl, text_eq_sound}
use moventra_tms.Security.Scope.{
  Target, has_shape, Membership, Party, MembershipRole, Role, RolePermission, Permission,
  AssignmentScope, ScopeRow, Database, row_covers, is_assigned_scope, assigns_scope, has_permission,
  grants_permission,
}
use moventra_tms.Security.Scope.Laws.{row_target, row_covers-covers, Includes, covers_iff}

pub anyb-inv :
    {A : Type 0} (p : A → Bool) (xs : List A) → anyb p xs ≡ true → (x : A) × In x xs × (p x ≡ true)
anyb-inv p [] h = cc
anyb-inv p (x ∷ xs) h = elim (Bool-cases (p x)) [
  | inl yes_x ↦ (x, inl refl, yes_x)
  | inr no_x ↦ let (y, m, e) = anyb-inv p xs (ground arith) in (y, inr m, e)
]

-- The assignment `mr` is of a role that has the permission `code`.
abbrev pub HasCode : Database → (code : Text) → MembershipRole → Type 0
HasCode db code mr =
    (r : Role) × In r db.roles
    × (r.tenant_id ≡ mr.tenant_id)
    × (r.id ≡ mr.role_id)
    × (r.is_active ≡ true)
    × (rp : RolePermission) × In rp db.role_permissions
    × (rp.tenant_id ≡ mr.tenant_id)
    × (rp.role_id ≡ r.id)
    × (p : Permission) × In p db.permissions
    × (p.id ≡ rp.permission_id)
    × (p.code ≡ code)
    × (p.is_active ≡ true)

-- The assignment `mr` has a scope that reaches every place of the requested one.
abbrev pub HasScope : Database → (requested : Target) → MembershipRole → Type 0
HasScope db requested mr =
    (ras : AssignmentScope) × In ras db.assignment_scopes
    × (ras.tenant_id ≡ mr.tenant_id)
    × (ras.assignment_id ≡ mr.id)
    × (os : ScopeRow) × In os db.scopes
    × (os.tenant_id ≡ mr.tenant_id)
    × (os.id ≡ ras.scope_id)
    × (os.is_active ≡ true)
    × Includes (row_target os) requested

-- What a permission within a scope rests on: an active membership, tenant, user and role
-- assignment, of which one and the same assignment has the permission and the scope.
abbrev pub IsGranted :
    Database → (tenant_id membership_id : ℕ) → (code : Text) → (requested : Target) → Type 0
IsGranted db tenant_id membership_id code requested =
    (m : Membership) × In m db.memberships
    × (m.id ≡ membership_id)
    × (m.tenant_id ≡ tenant_id)
    × (m.is_active ≡ true)
    × (t : Party) × In t db.tenants
    × (t.id ≡ tenant_id)
    × (t.is_active ≡ true)
    × (u : Party) × In u db.users
    × (u.id ≡ m.user_id)
    × (u.is_active ≡ true)
    × (mr : MembershipRole) × In mr db.membership_roles
    × (mr.tenant_id ≡ tenant_id)
    × (mr.membership_id ≡ membership_id)
    × (mr.is_active ≡ true)
    × HasCode db code mr
    × HasScope db requested mr

pub grants_permission-HasCode :
    (db : Database) (code : Text) (mr : MembershipRole)
    → grants_permission db code mr ≡ true
    → HasCode db code mr
unfolding grants_permission has_permission
grants_permission-HasCode db code mr h =
    let (r, role, e) = anyb-inv _ db.roles h in
    let (rp, link, e') = anyb-inv (has_permission db code r) db.role_permissions (ground arith) in
    let (p, stored, e'') =
      anyb-inv (λ (p : Permission). p.id == rp.permission_id && text_eq p.code code && p.is_active)
        db.permissions (ground arith) in
    (
      r,
      role,
      ground arith,
      ground arith,
      ground arith,
      rp,
      link,
      ground arith,
      ground arith,
      p,
      stored,
      ground arith,
      text_eq_sound p.code code (ground arith),
      ground arith,
    )

pub HasCode-grants_permission :
    (db : Database) (code : Text) (mr : MembershipRole)
    → HasCode db code mr
    → grants_permission db code mr ≡ true
unfolding grants_permission has_permission
HasCode-grants_permission db code mr
      (
        r, role, same_tenant, own, live, rp, link, linked, of_role, p, stored, named, coded, active,
      ) =
    let found : anyb
          (λ (p : Permission). p.id == rp.permission_id && text_eq p.code code && p.is_active)
          db.permissions
        ≡ true =
      anyb-In _ p db.permissions stored
        (rw (named, coded, active, text_eq_refl code, ==_refl rp.permission_id) refl) in
    let permitted : anyb (has_permission db code r) db.role_permissions ≡ true =
      anyb-In (has_permission db code r) rp db.role_permissions link (ground arith) in
    anyb-In _ r db.roles role (ground arith)

pub assigns_scope-HasScope :
    (db : Database) (requested : Target) (mr : MembershipRole)
    → All (λ os. has_shape (row_target os) ≡ true) db.scopes
    → has_shape requested ≡ true
    → anyb (assigns_scope db requested mr) db.assignment_scopes ≡ true
    → HasScope db requested mr
assigns_scope-HasScope db requested mr shaped asked h =
    let (ras, link, e) = anyb-inv (assigns_scope db requested mr) db.assignment_scopes h in
    let (os, stored, e') =
      anyb-inv (is_assigned_scope requested ras) db.scopes (unfold assigns_scope in ground arith) in
    let shape = All-In _ os db.scopes shaped stored in
    let covered : row_covers os requested ≡ true = unfold is_assigned_scope in ground arith in
    (
      ras,
      link,
      unfold assigns_scope in ground arith,
      unfold assigns_scope in ground arith,
      os,
      stored,
      unfold assigns_scope is_assigned_scope in ground arith,
      unfold is_assigned_scope in ground arith,
      unfold is_assigned_scope in ground arith,
      (covers_iff (row_target os) requested shape asked).0
          (sym (row_covers-covers os requested shape) ∙ covered),
    )

pub HasScope-assigns_scope :
    (db : Database) (requested : Target) (mr : MembershipRole)
    → All (λ os. has_shape (row_target os) ≡ true) db.scopes
    → has_shape requested ≡ true
    → HasScope db requested mr
    → anyb (assigns_scope db requested mr) db.assignment_scopes ≡ true
HasScope-assigns_scope db requested mr shaped asked
      (ras, link, same_tenant, own, os, stored, in_tenant, linked, live, wider) =
    let shape = All-In _ os db.scopes shaped stored in
    let covered : row_covers os requested ≡ true =
      row_covers-covers os requested shape
      ∙ (covers_iff (row_target os) requested shape asked).1 wider in
    let found : anyb (is_assigned_scope requested ras) db.scopes ≡ true =
      anyb-In _ os db.scopes stored (unfold is_assigned_scope in ground arith) in
    anyb-In _ ras db.assignment_scopes link (unfold assigns_scope in ground arith)

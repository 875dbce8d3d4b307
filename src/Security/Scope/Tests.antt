-- ===== src/Security/Scope/Tests.antt =====
-- A dispatcher of one company asks for a branch of it.
use moventra_tms.Base.{◌≡◌, ◌↔◌, refl, Bool, true, none, some, [], ◌∷◌, ok}
use moventra_tms.Base.Json.{codes}
use moventra_tms.Base.Text.{text_eq, to_upper_case}
use moventra_tms.Security.Scope.{
  company, branch, Target, has_shape, covers, Database, row_covers, is_assigned_scope,
  assigns_scope, has_permission, is_granting_role, is_allowed_member, grants_permission,
  has_scoped_permission, Given, scope_covers, normalize_scope_target, normalize_level,
  normalize_optional_uuid,
}
use moventra_tms.Security.Scope.Laws.{Includes, scope_covers_iff}
use moventra_tms.Security.Scope.Grants.{IsGranted}
use moventra_tms.Security.Scope.Decision.{has_scoped_permission_iff}
use moventra_tms.Base.Inputs.{absent, uuid}

scopes : Unit {0}
unfolding to_upper_case normalize_level normalize_optional_uuid normalize_scope_target text_eq
    has_shape covers row_covers is_assigned_scope assigns_scope has_permission is_granting_role
    is_allowed_member grants_permission has_scoped_permission
scopes = tt

abbrev at_branch : Target
at_branch = record { level = branch; company_id = some 20; branch_id = some 30 }

abbrev fleet : Database
fleet = record {
  memberships = record { id = 1; tenant_id = 7; user_id = 3; is_active = true } ∷ [];
  tenants = record { id = 7; is_active = true } ∷ [];
  users = record { id = 3; is_active = true } ∷ [];
  membership_roles =
      record { id = 4; tenant_id = 7; membership_id = 1; role_id = 5; is_active = true } ∷ [];
  roles = record { id = 5; tenant_id = 7; is_active = true } ∷ [];
  role_permissions = record { tenant_id = 7; role_id = 5; permission_id = 6 } ∷ [];
  permissions = record { id = 6; code = codes "branches.read"; is_active = true } ∷ [];
  assignment_scopes = record { tenant_id = 7; assignment_id = 4; scope_id = 8 } ∷ [];
  scopes =
      record {
        id = 8;
        tenant_id = 7;
        scope_level = company;
        company_id = some 20;
        branch_id = none;
        is_active = true;
      }
      ∷ [];
}

has_scoped_permission_iff_example :
    (has_scoped_permission fleet 7 1 (codes "branches.read") at_branch ≡ true)
    ↔ IsGranted fleet 7 1 (codes "branches.read") at_branch
unfolding scopes
has_scoped_permission_iff_example =
    has_scoped_permission_iff fleet 7 1 (codes "branches.read") at_branch (refl, tt) refl

-- The same company's scope as given, and the branch's.
abbrev company_given : Given
company_given = record { level = codes "company"; company_id = uuid 20; branch_id = absent }

abbrev branch_given : Given
branch_given = record { level = codes "Branch"; company_id = uuid 20; branch_id = uuid 30 }

abbrev at_company : Target
at_company = record { level = company; company_id = some 20; branch_id = none }

scope_covers_iff_example :
    (b : Bool) × (scope_covers branch_given company_given ≡ ok b)
    × ((b ≡ true) ↔ Includes at_branch at_company)
unfolding scopes
scope_covers_iff_example = scope_covers_iff branch_given company_given refl refl

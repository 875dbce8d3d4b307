-- ===== src/Organization.antt =====
-- The columns of organization.companies and organization.branches (db/migrations/0003_company.sql,
-- 0004_branch.sql) that the repositories of flags and configuration ask for.
use moventra_tms.Base.{ℕ, Bool, ◌&&◌, Option, some, List, ◌==◌, col_is, anyb}

pub record Company : Type 0 where
  pub id : ℕ
  pub tenant_id : ℕ

pub record Branch : Type 0 where
  pub id : ℕ
  pub tenant_id : ℕ
  pub company_id : ℕ

-- `SELECT EXISTS (SELECT 1 FROM organization.… WHERE …)`
unfoldable pub company_exists : List Company → (tenant_id : ℕ) → (company_id : Option ℕ) → Bool
company_exists companies tenant_id company_id =
    anyb (λ c. c.tenant_id == tenant_id && col_is (some c.id) company_id) companies

unfoldable pub branch_exists :
    List Branch → (tenant_id : ℕ) → (company_id branch_id : Option ℕ) → Bool
branch_exists branches tenant_id company_id branch_id =
    anyb
      (λ b.
        b.tenant_id == tenant_id
        && col_is (some b.company_id) company_id
        && col_is (some b.id) branch_id)
      branches

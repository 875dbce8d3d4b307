-- ===== src/Configuration/Store.antt =====
-- The tables of db/migrations/0012_configuration.sql and the queries on them of
-- src/modules/configuration/configuration-repository.js. Times of the rows are left out, and so is the
-- row-level security, whose condition each query repeats.
use moventra_tms.Base.{
  ℕ, Bool, true, false, ◌&&◌, Option, none, some, List, ◌==◌, col_is, is_none, filterb, head?,
  Result, ok, err, ◌>>=◌, guard,
}
use moventra_tms.Base.Sql.{opt_map, find}
use moventra_tms.Base.Json.{Text, Json, str}
use moventra_tms.Base.Text.{text_eq}
use moventra_tms.Base.Inputs.{GivenId, uuid}
use moventra_tms.Organization.{Company, Branch, company_exists, branch_exists}
use moventra_tms.Configuration.Domain.{
  ConfigurationError, id_invalid, scope_not_found, Status, active, inactive, ScopeType, tenant,
  company, branch, ConfigurationScope, Definition, normalize_configuration_key,
}

abbrev pub is_active : Status → Bool
is_active active = true
is_active inactive = false

abbrev pub scope_code : ScopeType → ℕ
scope_code tenant = 0
scope_code company = 1
scope_code branch = 2

-- `scope` holds the columns scope_type, company_id and branch_id.
pub record Setting : Type 0 where
  pub id : ℕ
  pub tenant_id : ℕ
  pub definition_id : ℕ
  pub scope : ConfigurationScope
  pub value : Json
  pub status : Status
  pub version : ℕ

pub data ChangeType : Type 0 where
  created updated activated inactivated : ChangeType

pub record SettingVersion : Type 0 where
  pub tenant_id : ℕ
  pub setting_id : ℕ
  pub setting_version : ℕ
  pub value : Option Json
  pub status : Status
  pub change_type : ChangeType
  pub reason : Option Text

pub record Store : Type 0 where
  pub tenants : List ℕ
  pub companies : List Company
  pub branches : List Branch
  pub definitions : List Definition
  pub settings : List Setting
  pub setting_versions : List SettingVersion

unfoldable pub identifier : GivenId → (kind : Text) → Result ConfigurationError ℕ
identifier (uuid n) kind = ok n
identifier _ kind = err (id_invalid kind)

unfoldable pub assert_organizational_target :
    Store → (tenant_id : ℕ) → ConfigurationScope → Result ConfigurationError (Unit {0})
unfolding company_exists branch_exists
assert_organizational_target s tenant_id scope = elim scope.type [
  | tenant ↦ ok tt
  | company ↦ guard (company_exists s.companies tenant_id scope.company_id) scope_not_found
  | branch ↦
      guard (branch_exists s.branches tenant_id scope.company_id scope.branch_id) scope_not_found
]

unfoldable pub find_active_definition_by_key :
    Text → Store → Result ConfigurationError (Option Definition)
unfolding normalize_configuration_key text_eq
find_active_definition_by_key key s = do
  normalized_key ← normalize_configuration_key (str key)
  ok (head? (filterb (λ d. text_eq d.key normalized_key && is_active d.status) s.definitions))

-- The conditions of `#findActiveSetting` on the columns of the scope.
unfoldable pub in_scope : (scope columns : ConfigurationScope) → Bool
in_scope scope c = elim scope.type [
  | tenant ↦ scope_code c.type == 0 && is_none c.company_id && is_none c.branch_id
  | company ↦ scope_code c.type == 1 && col_is c.company_id scope.company_id && is_none c.branch_id
  | branch ↦
      scope_code c.type == 2
      && col_is c.company_id scope.company_id
      && col_is c.branch_id scope.branch_id
]

unfoldable pub find_active_setting :
    (tenant_id definition_id : ℕ) → ConfigurationScope → List Setting → Option Setting
unfolding in_scope
find_active_setting tenant_id definition_id scope settings = head? (
    filterb
      (λ r.
        r.tenant_id == tenant_id
        && r.definition_id == definition_id
        && is_active r.status
        && in_scope scope r.scope)
      settings)

unfoldable pub find_setting_with_definition :
    (tenant_id id : ℕ) → Store → Option (Setting × Definition)
find_setting_with_definition tenant_id id s =
    elim (head? (filterb (λ r. r.id == id && r.tenant_id == tenant_id) s.settings)) [
      | none ↦ none
      | some r ↦ opt_map (λ d. (r, d)) (find Definition.id r.definition_id s.definitions)
    ]

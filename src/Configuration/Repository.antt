-- ===== src/Configuration/Repository.antt =====
-- The methods of src/modules/configuration/configuration-repository.js: resolveEffective, putOverride
-- and transitionOverrideStatus. Each write runs in a transaction of its own.
use moventra_tms.Base.{
  ℕ, Bool, true, false, not, ◌&&◌, Option, none, some, List, [], ◌∷◌, ◌++◌, if◌then◌else◌, ◌==◌,
  opt_eq, Result, ok, err, ◌>>=◌, ◌>>◌, guard,
}
use moventra_tms.Base.Json.{Text, Json, null, codes}
use moventra_tms.Base.Text.{text_eq, trim, to_upper_case}
use moventra_tms.Base.Inputs.{GivenId}
use moventra_tms.Configuration.Domain.{
  ConfigurationError, status_invalid, definition_not_found, value_missing, setting_not_found,
  version_conflict, status_conflict, scope_mismatch, scope_not_allowed, definition_not_operational,
  Status, active, inactive, ScopeType, tenant, company, branch, GivenScope, ConfigurationScope,
  Definition, allows, normalize_configuration_key, normalize_configuration_scope,
  normalize_configuration_expected_version, normalize_configuration_reason,
}
use moventra_tms.Configuration.Values.{Runtime, normalize_configuration_value}
use moventra_tms.Configuration.Store.{
  is_active, scope_code, Setting, Store, identifier, assert_organizational_target,
  find_active_definition_by_key, find_active_setting, find_setting_with_definition,
}
use moventra_tms.Configuration.Statements.{Written, change_status, put_onto}

-- The scopes that `normalizeConfigurationScope` makes of a company's id and of none: they are in
-- normal form, so that it returns them as they are.
abbrev pub company_scope : Option ℕ → ConfigurationScope
company_scope company_id = record { type = company; company_id = company_id; branch_id = none }

abbrev pub tenant_scope : ConfigurationScope
tenant_scope = record { type = tenant; company_id = none; branch_id = none }

abbrev pub if_allowed : Bool → ConfigurationScope → List ConfigurationScope
if_allowed true scope = scope ∷ []
if_allowed false scope = []

unfoldable pub build_resolution_candidates :
    Definition → ConfigurationScope → List ConfigurationScope
build_resolution_candidates d requested = elim requested.type [
  | branch ↦
      if_allowed d.allow_branch_override requested
      ++ (if_allowed d.allow_company_override (company_scope requested.company_id)
          ++ if_allowed d.allow_tenant_override tenant_scope)
  | company ↦
      if_allowed d.allow_company_override (company_scope requested.company_id)
      ++ if_allowed d.allow_tenant_override tenant_scope
  | tenant ↦ if_allowed d.allow_tenant_override tenant_scope
]

-- `source` is `none` for 'DEFINITION_DEFAULT'.
pub record Effective : Type 0 where
  pub key : Text
  pub value : Json
  pub source : Option ScopeType
  pub tenant_id : ℕ
  pub company_id : Option ℕ
  pub branch_id : Option ℕ
  pub setting_id : Option ℕ
  pub setting_version : Option ℕ
  pub definition_version : ℕ

-- The loop over the candidates.
unfoldable pub first_setting :
    (tenant_id definition_id : ℕ)
    → List Setting
    → List ConfigurationScope
    → Option (ConfigurationScope × Setting)
unfolding find_active_setting
first_setting tenant_id definition_id settings [] = none
first_setting tenant_id definition_id settings (scope ∷ candidates) =
    elim (find_active_setting tenant_id definition_id scope settings) [
      | some r ↦ some (scope, r)
      | none ↦ first_setting tenant_id definition_id settings candidates
    ]

abbrev pub existing_definition : Option Definition → Result ConfigurationError Definition
existing_definition none = err definition_not_found
existing_definition (some d) = ok d

pub record PutInput : Type 0 where
  pub scope : GivenScope
  pub value : Json
  pub reason : Json
  pub expected_version : Json

pub record StatusInput : Type 0 where
  pub scope : GivenScope
  pub expected_version : Json
  pub reason : Json
  pub to_status : Text

unfoldable pub status_named : Text → Result ConfigurationError Status
unfolding text_eq
status_named s =
    if text_eq s (codes "ACTIVE")
    then ok active
    else if text_eq s (codes "INACTIVE")
    then ok inactive
    else err status_invalid

abbrev pub existing :
    Option (Setting × Definition) → Result ConfigurationError (Setting × Definition)
existing none = err setting_not_found
existing (some current) = ok current

-- `sameScope`
unfoldable pub same_scope : Setting → ConfigurationScope → Bool
same_scope r scope =
    scope_code r.scope.type == scope_code scope.type
    && opt_eq r.scope.company_id scope.company_id
    && opt_eq r.scope.branch_id scope.branch_id

abbrev pub same_status : Status → Status → Bool
same_status a b = if is_active a then is_active b else not (is_active b)

-- `definition.defaultValue !== null`
abbrev pub not_null : Option Json → Option Json
not_null (some null) = none
not_null value = value

-- The scopes are in normal form, so that `assertConfigurationScopeAllowed`, which normalises them
-- again, leaves its test of the definition.
module _ (rt : Runtime) where
  unfoldable pub by_default :
      (tenant_id : ℕ)
      → ConfigurationScope
      → Definition
      → Option Json
      → Result ConfigurationError Effective
  unfolding normalize_configuration_value
  by_default tenant_id scope d none = err value_missing
  by_default tenant_id scope d (some v) = normalize_configuration_value rt d v >>= λ value.
      ok (record {
        key = d.key;
        value = value;
        source = none;
        tenant_id = tenant_id;
        company_id = scope.company_id;
        branch_id = scope.branch_id;
        setting_id = none;
        setting_version = none;
        definition_version = d.version;
      })

  unfoldable pub effective_value :
      (tenant_id : ℕ)
      → ConfigurationScope
      → Definition
      → Option (ConfigurationScope × Setting)
      → Result ConfigurationError Effective
  unfolding normalize_configuration_value by_default
  effective_value tenant_id scope d (some (candidate, r)) =
      normalize_configuration_value rt d r.value >>= λ value. ok (record {
        key = d.key;
        value = value;
        source = some candidate.type;
        tenant_id = tenant_id;
        company_id = candidate.company_id;
        branch_id = candidate.branch_id;
        setting_id = some r.id;
        setting_version = some r.version;
        definition_version = d.version;
      })
  effective_value tenant_id scope d none = by_default tenant_id scope d (not_null d.default_value)

  unfoldable pub resolve_effective :
      (tenant_id : GivenId)
      → (key : Json) → GivenScope
      → Store
      → Result ConfigurationError Effective
  unfolding identifier normalize_configuration_key normalize_configuration_scope
      assert_organizational_target find_active_definition_by_key first_setting
      build_resolution_candidates effective_value
  resolve_effective given_tenant key scope_input s = do
    tenant_id ← identifier given_tenant (codes "TENANT")
    key_value ← normalize_configuration_key key
    scope ← normalize_configuration_scope scope_input
    assert_organizational_target s tenant_id scope
    found ← find_active_definition_by_key key_value s
    d ← existing_definition found
    effective_value tenant_id scope d
        (first_setting tenant_id d.id s.settings (build_resolution_candidates d scope))

  unfoldable pub put_override :
      (new_id : ℕ)
      → (tenant_id : GivenId) → (key : Json) → PutInput
      → Store
      → Result ConfigurationError Written
  unfolding identifier normalize_configuration_key normalize_configuration_scope
      normalize_configuration_reason assert_organizational_target find_active_definition_by_key
      allows normalize_configuration_value find_active_setting put_onto
  put_override new_id given_tenant key input s = do
    tenant_id ← identifier given_tenant (codes "TENANT")
    key_value ← normalize_configuration_key key
    scope ← normalize_configuration_scope input.scope
    reason ← normalize_configuration_reason input.reason
    assert_organizational_target s tenant_id scope
    found ← find_active_definition_by_key key_value s
    d ← existing_definition found
    guard (allows d scope.type) scope_not_allowed
    value ← normalize_configuration_value rt d input.value
    let fresh : Setting = record {
      id = new_id;
      tenant_id = tenant_id;
      definition_id = d.id;
      scope = scope;
      value = value;
      status = active;
      version = 1;
    }
    put_onto s (find_active_setting tenant_id d.id scope s.settings) fresh input.expected_version
        reason

  -- An activation needs an active definition that allows the scope and accepts the value.
  unfoldable pub may_be :
      Status → ConfigurationScope → Setting → Definition → Result ConfigurationError (Unit {0})
  unfolding allows normalize_configuration_value
  may_be inactive scope r d = ok tt
  may_be active scope r d = do
    guard (is_active d.status) definition_not_operational
    guard (allows d scope.type) scope_not_allowed
    _ ← normalize_configuration_value rt d r.value
    ok tt

  unfoldable pub transition_override_status :
      (tenant_id setting_id : GivenId) → StatusInput → Store → Result ConfigurationError Written
  unfolding identifier normalize_configuration_scope normalize_configuration_expected_version
      normalize_configuration_reason status_named find_setting_with_definition same_scope
      assert_organizational_target may_be change_status trim to_upper_case
  transition_override_status given_tenant setting_id input s = do
    tenant_id ← identifier given_tenant (codes "TENANT")
    id ← identifier setting_id (codes "SETTING")
    scope ← normalize_configuration_scope input.scope
    expected_version ← normalize_configuration_expected_version input.expected_version
    reason ← normalize_configuration_reason input.reason
    to_status ← status_named (to_upper_case (trim input.to_status))
    (r, d) ← existing (find_setting_with_definition tenant_id id s)
    guard (same_scope r scope) scope_mismatch
    assert_organizational_target s tenant_id scope
    guard (r.version == expected_version) version_conflict
    guard (not (same_status r.status to_status)) status_conflict
    may_be to_status scope r d
    change_status s tenant_id id expected_version to_status reason

-- ===== src/Configuration/Statements.antt =====
-- The statements of src/modules/configuration/configuration-repository.js that write: createOverride,
-- updateOverride, the UPDATE of a status, and appendVersion. The database's unique indexes and foreign
-- keys are checked as the statements run.
use moventra_tms.Base.{
  ℕ, ◌+◌, Bool, not, ◌&&◌, ◌||◌, Option, none, some, [], ◌∷◌, ◌++◌, if◌then◌else◌, ◌==◌, col_is,
  is_some, is_none, contains, anyb, Result, ok, err, ◌>>=◌, ◌>>◌, guard,
}
use moventra_tms.Base.Sql.{find}
use moventra_tms.Base.History.{revise}
use moventra_tms.Base.Singletons.{violates}
use moventra_tms.Base.Json.{Text, Json}
use moventra_tms.Organization.{company_exists, branch_exists}
use moventra_tms.Configuration.Domain.{
  ConfigurationError, version_required, setting_not_found, version_conflict, scope_not_found,
  active_conflict, unique_violation, Status, active, inactive, Definition,
  normalize_configuration_expected_version,
}
use moventra_tms.Configuration.Values.{is_null}
use moventra_tms.Configuration.Store.{
  is_active, scope_code, Setting, ChangeType, SettingVersion, Store, created, updated, activated,
  inactivated,
}

-- What the two UPDATEs set.
abbrev pub with_value : Json → Setting → Setting
with_value value r = record r { value = value; version = r.version + 1 }

abbrev pub with_status : Status → Setting → Setting
with_status status r = record r { status = status; version = r.version + 1 }

-- The indexes uq_configuration_settings_active_…
unfoldable pub same_active_scope : Setting → Setting → Bool
same_active_scope r s =
    is_active r.status
    && is_active s.status
    && r.tenant_id == s.tenant_id
    && r.definition_id == s.definition_id
    && scope_code r.scope.type == scope_code s.scope.type
    && (scope_code r.scope.type == 0 || col_is r.scope.company_id s.scope.company_id)
    && (not (scope_code r.scope.type == 2) || col_is r.scope.branch_id s.scope.branch_id)

-- The foreign keys of a setting, each of which counts if none of its columns is NULL.
unfoldable pub has_references : Store → Setting → Bool
unfolding company_exists branch_exists
has_references s r =
    contains s.tenants r.tenant_id
    && is_some (find Definition.id r.definition_id s.definitions)
    && (is_none r.scope.company_id || company_exists s.companies r.tenant_id r.scope.company_id)
    && (is_none r.scope.company_id
        || is_none r.scope.branch_id
        || branch_exists s.branches r.tenant_id r.scope.company_id r.scope.branch_id)

abbrev pub Written : Type 0
Written = Store × Setting × ChangeType

abbrev pub version_of : Setting → Option Json → ChangeType → Option Text → SettingVersion
version_of r value change_type reason = record {
  tenant_id = r.tenant_id;
  setting_id = r.id;
  setting_version = r.version;
  value = value;
  status = r.status;
  change_type = change_type;
  reason = reason;
}

-- `#appendVersion` and the answer.
unfoldable pub append_version :
    Store → Setting → Option Json → ChangeType → Option Text → Result ConfigurationError Written
append_version s r value change_type reason =
    if anyb
      (λ v. v.tenant_id == r.tenant_id && v.setting_id == r.id && v.setting_version == r.version)
      s.setting_versions
    then err unique_violation
    else ok (
      record s {
        setting_versions = s.setting_versions ++ version_of r value change_type reason ∷ [];
      },
      r,
      change_type,
    )

unfoldable pub create_override : Store → Setting → Option Text → Result ConfigurationError Written
unfolding same_active_scope has_references append_version
create_override s r reason =
    if is_some (find Setting.id r.id s.settings)
      || violates Setting.id same_active_scope r s.settings
    then err active_conflict
    else if has_references s r
    then append_version (record s { settings = s.settings ++ r ∷ [] }) r (some r.value) created
        reason
    else err scope_not_found

abbrev pub is_version : (tenant_id expected_version : ℕ) → Setting → Bool
is_version tenant_id expected_version r = r.tenant_id == tenant_id && r.version == expected_version

abbrev pub is_active_version : (tenant_id expected_version : ℕ) → Setting → Bool
is_active_version tenant_id expected_version r =
    r.tenant_id == tenant_id && r.version == expected_version && is_active r.status

unfoldable pub update_override :
    Store
    → (tenant_id current_id : ℕ) → Json
    → (expected_version : ℕ) → Option Text
    → Result ConfigurationError Written
unfolding revise append_version
update_override s tenant_id current_id value expected_version reason =
    elim (revise Setting.id current_id (is_active_version tenant_id expected_version)
      (with_value value) s.settings) [
        | none ↦ err version_conflict
        | some (settings, r) ↦
            append_version (record s { settings = settings }) r (some r.value) updated reason
      ]

abbrev pub change_to : Status → ChangeType
change_to active = activated
change_to inactive = inactivated

-- An inactivation keeps no value in the history.
abbrev pub shown_value : Status → Json → Option Json
shown_value active value = some value
shown_value inactive value = none

unfoldable pub change_status :
    Store
    → (tenant_id id expected_version : ℕ) → Status
    → Option Text
    → Result ConfigurationError Written
unfolding revise append_version same_active_scope
change_status s tenant_id id expected_version to_status reason =
    elim (revise Setting.id id (is_version tenant_id expected_version) (with_status to_status)
      s.settings) [
        | none ↦ err version_conflict
        | some (settings, r) ↦
            if violates Setting.id same_active_scope r s.settings
            then err active_conflict
            else append_version (record s { settings = settings }) r (shown_value to_status r.value)
                (change_to to_status) reason
      ]

unfoldable pub put_onto :
    Store
    → (current : Option Setting) → (fresh : Setting) → (expected_version : Json) → Option Text
    → Result ConfigurationError Written
unfolding create_override update_override normalize_configuration_expected_version
put_onto s none fresh expected reason =
    if is_null expected
    then create_override s fresh reason
    else normalize_configuration_expected_version expected >>= λ _. err setting_not_found
put_onto s (some current) fresh expected reason =
    if is_null expected
    then err version_required
    else normalize_configuration_expected_version expected >>= λ v.
        guard (current.version == v) version_conflict
        >> update_override s fresh.tenant_id current.id fresh.value v reason

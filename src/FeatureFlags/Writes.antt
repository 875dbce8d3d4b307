-- ===== src/FeatureFlags/Writes.antt =====
-- The writes of src/modules/feature-flags/feature-flag-repository.js: putRule,
-- transitionRuleStatus and restoreRuleVersion. Each runs in a transaction of its own; the database's
-- unique indexes and foreign keys are checked as the statements run.
use moventra_tms.Base.{
  col_is, ℕ, ◌+◌, Bool, true, false, not, ◌&&◌, ◌||◌, Option, none, some, [], ◌∷◌, ◌++◌,
  if◌then◌else◌, ◌==◌, is_some, is_none, contains, anyb, Result, ok, err, ◌>>=◌, ◌>>◌, guard,
}
use moventra_tms.Base.Sql.{find}
use moventra_tms.Base.History.{revise}
use moventra_tms.Base.Singletons.{violates}
use moventra_tms.Base.Json.{Text, Json, null, bool, str, codes}
use moventra_tms.Base.Text.{text_eq, trim, to_upper_case}
use moventra_tms.Base.Inputs.{GivenId, absent, uuid}
use moventra_tms.FeatureFlags.Domain.{
  Status, active, inactive, TargetType, tenant, company, branch, user, plan, Environment, Target,
  GivenTarget, GivenNumber, FlagError, enabled_invalid, status_invalid, not_operational,
  version_required, rule_not_found, version_conflict, status_conflict, active_conflict,
  history_not_found, target_not_found, unique_violation, normalize_feature_flag_key,
  normalize_optional_rule_environment, normalize_uuid, normalize_feature_flag_target,
  normalize_feature_flag_rollout_basis_points, normalize_feature_flag_expected_version,
  normalize_feature_flag_reason,
}
use moventra_tms.FeatureFlags.Store.{
  is_active, type_code, same_environment, text_is, Flag, Rule, ChangeType, created, updated,
  activated, inactivated, restored, RuleVersion, Store, has_company, has_branch, assert_target,
  find_active_flag_by_key, find_active_rule_by_target, find_rule_with_flag, find_rule_version,
}

-- The columns that the partial unique index of a target type has beside the tenant, the flag and
-- the environment.
unfoldable pub same_columns : Target → Target → Bool
unfolding text_eq
same_columns a b = elim a.type [
  | tenant ↦ true
  | company ↦ col_is a.company_id b.company_id
  | branch ↦ col_is a.company_id b.company_id && col_is a.branch_id b.branch_id
  | user ↦ col_is a.user_id b.user_id
  | plan ↦ text_is a.plan_key b.plan_key
]

-- The indexes uq_feature_flags_rules_active_…
unfoldable pub same_active_target : Rule → Rule → Bool
unfolding same_columns
same_active_target r s =
    is_active r.status
    && is_active s.status
    && r.tenant_id == s.tenant_id
    && r.flag_id == s.flag_id
    && type_code r.target.type == type_code s.target.type
    && same_columns r.target s.target
    && same_environment r.environment s.environment

-- The foreign keys of a rule, each of which counts if none of its columns is NULL.
unfoldable pub has_references : Store → Rule → Bool
unfolding has_company has_branch
has_references s r =
    contains s.tenants r.tenant_id
    && is_some (find Flag.id r.flag_id s.flags)
    && (is_none r.target.company_id || has_company s r.tenant_id r.target)
    && (is_none r.target.company_id
        || is_none r.target.branch_id
        || has_branch s r.tenant_id r.target)
    && (is_none r.target.user_id
        || anyb (λ m. m.tenant_id == r.tenant_id && col_is (some m.user_id) r.target.user_id)
            s.memberships)

-- What a write returns beside the new tables: the rule and the kind of change.
abbrev pub Written : Type 0
Written = Store × Rule × ChangeType

abbrev pub version_of : Rule → ChangeType → Option Text → RuleVersion
version_of r change_type reason = record {
  tenant_id = r.tenant_id;
  rule_id = r.id;
  rule_version = r.version;
  enabled = r.enabled;
  rollout_basis_points = r.rollout_basis_points;
  status = r.status;
  change_type = change_type;
  reason = reason;
}

-- `#appendRuleVersion` and the answer; the rule is of the tenant.
unfoldable pub append_rule_version :
    Store → Rule → ChangeType → Option Text → Result FlagError Written
unfolding find_rule_version
append_rule_version s r change_type reason =
    if is_some (find_rule_version r.tenant_id r.id r.version s.rule_versions)
    then err unique_violation
    else ok (
      record s { rule_versions = s.rule_versions ++ version_of r change_type reason ∷ [] },
      r,
      change_type,
    )

unfoldable pub insert_rule : Store → Rule → Result FlagError Store
unfolding same_active_target has_references
insert_rule s r =
    if is_some (find Rule.id r.id s.rules) || violates Rule.id same_active_target r s.rules
    then err active_conflict
    else if has_references s r
    then ok (record s { rules = s.rules ++ r ∷ [] })
    else err target_not_found

unfoldable pub create_rule : Store → Rule → Option Text → Result FlagError Written
unfolding insert_rule append_rule_version
create_rule s r reason = do s' ← insert_rule s r; append_rule_version s' r created reason

-- The conditions of an UPDATE behind `id = $2`.
abbrev pub is_version : (tenant_id expected_version : ℕ) → Rule → Bool
is_version tenant_id expected_version r = r.tenant_id == tenant_id && r.version == expected_version

abbrev pub is_active_version : (tenant_id expected_version : ℕ) → Rule → Bool
is_active_version tenant_id expected_version r =
    r.tenant_id == tenant_id && r.version == expected_version && is_active r.status

-- What the UPDATEs set.
abbrev pub with_value : (enabled : Bool) → (rollout_basis_points : ℕ) → Rule → Rule
with_value enabled rollout_basis_points r = record r {
  enabled = enabled;
  rollout_basis_points = rollout_basis_points;
  version = r.version + 1;
}

abbrev pub with_status : Status → Rule → Rule
with_status status r = record r { status = status; version = r.version + 1 }

abbrev pub as_in : RuleVersion → Rule → Rule
as_in historical r = record r {
  enabled = historical.enabled;
  rollout_basis_points = historical.rollout_basis_points;
  status = historical.status;
  version = r.version + 1;
}

unfoldable pub update_rule :
    Store
    → (tenant_id : ℕ) → (current : Rule) → (enabled : Bool)
    → (rollout_basis_points expected_version : ℕ) → (reason : Option Text)
    → Result FlagError Written
unfolding revise append_rule_version
update_rule s tenant_id current enabled rollout_basis_points expected_version reason =
    elim (revise Rule.id current.id (is_active_version tenant_id expected_version)
      (with_value enabled rollout_basis_points) s.rules) [
        | none ↦ err version_conflict
        | some (rules, r) ↦ append_rule_version (record s { rules = rules }) r updated reason
      ]

-- The UPDATEs that set the status, which the unique indexes may refuse.
unfoldable pub change_rule :
    Store
    → (tenant_id rule_id expected_version : ℕ) → (change : Rule → Rule) → ChangeType
    → (reason : Option Text) → Result FlagError Written
unfolding revise append_rule_version same_active_target
change_rule s tenant_id rule_id expected_version change change_type reason =
    elim (revise Rule.id rule_id (is_version tenant_id expected_version) change s.rules) [
      | none ↦ err version_conflict
      | some (rules, r) ↦
          if violates Rule.id same_active_target r s.rules
          then err active_conflict
          else append_rule_version (record s { rules = rules }) r change_type reason
    ]

pub record PutInput : Type 0 where
  pub environment : Json
  pub target : GivenTarget
  pub enabled : Json
  pub rollout_basis_points : GivenNumber
  pub reason : Json
  pub expected_version : Json

unfoldable pub normalize_enabled : Json → Result FlagError Bool
normalize_enabled (bool b) = ok b
normalize_enabled _ = err enabled_invalid

-- The new rule of `#createRule`; its id is the database's `uuidv7()`.
abbrev pub new_rule :
    (id tenant_id flag_id : ℕ)
    → Option Environment
    → Target
    → (enabled : Bool) → (rollout_basis_points : ℕ) → Rule
new_rule id tenant_id flag_id environment target enabled rollout_basis_points = record {
  id = id;
  tenant_id = tenant_id;
  flag_id = flag_id;
  environment = environment;
  target = target;
  enabled = enabled;
  rollout_basis_points = rollout_basis_points;
  status = active;
  version = 1;
}

-- `input.expectedVersion === null || input.expectedVersion === undefined`
abbrev pub is_null : Json → Bool
is_null null = true
is_null _ = false

-- The end of `putRule`, behind the query for the active rule of the target: `fresh` is what
-- `#createRule` would insert.
unfoldable pub put_onto :
    Store
    → (current : Option Rule) → (fresh : Rule) → (expected_version : Json) → (reason : Option Text)
    → Result FlagError Written
unfolding create_rule update_rule normalize_feature_flag_expected_version
put_onto s none fresh expected reason =
    if is_null expected
    then create_rule s fresh reason
    else normalize_feature_flag_expected_version expected >>= λ _. err rule_not_found
put_onto s (some current) fresh expected reason =
    if is_null expected
    then err version_required
    else normalize_feature_flag_expected_version expected >>= λ v.
        guard (current.version == v) version_conflict
        >> update_rule s fresh.tenant_id current fresh.enabled fresh.rollout_basis_points v reason

unfoldable pub operational : Option Flag → Result FlagError Flag
operational none = err not_operational
operational (some flag) = ok flag

unfoldable pub put_rule :
    (new_id : ℕ)
    → (tenant_id : GivenId) → (key : Json) → PutInput
    → Store
    → Result FlagError Written
unfolding normalize_uuid normalize_feature_flag_key normalize_optional_rule_environment
    normalize_feature_flag_target normalize_enabled normalize_feature_flag_rollout_basis_points
    normalize_feature_flag_reason assert_target find_active_flag_by_key operational
    find_active_rule_by_target put_onto
put_rule new_id given_tenant key input s = do
  tenant_id ← normalize_uuid given_tenant (codes "TENANT")
  flag_key ← normalize_feature_flag_key key
  environment ← normalize_optional_rule_environment input.environment
  target ← normalize_feature_flag_target input.target
  enabled ← normalize_enabled input.enabled
  rollout ← normalize_feature_flag_rollout_basis_points input.rollout_basis_points
  reason ← normalize_feature_flag_reason input.reason
  assert_target s tenant_id target
  found ← find_active_flag_by_key flag_key s.flags
  flag ← operational found
  let fresh : Rule = new_rule new_id tenant_id flag.id environment target enabled rollout
  put_onto s (find_active_rule_by_target tenant_id flag.id environment target s.rules) fresh
      input.expected_version reason

unfoldable pub status_named : Text → Result FlagError Status
unfolding text_eq
status_named s =
    if text_eq s (codes "ACTIVE")
    then ok active
    else if text_eq s (codes "INACTIVE")
    then ok inactive
    else err status_invalid

abbrev pub existing : Option (Rule × Flag) → Result FlagError (Rule × Flag)
existing none = err rule_not_found
existing (some current) = ok current

abbrev pub change_to : Status → ChangeType
change_to active = activated
change_to inactive = inactivated

-- `targetFromRule`: the columns are normalised again.
abbrev pub column : Option ℕ → GivenId
column none = absent
column (some n) = uuid n

abbrev pub text_column : Option Text → Json
text_column none = null
text_column (some s) = str s

abbrev pub type_text : TargetType → Text
type_text tenant = codes "TENANT"
type_text company = codes "COMPANY"
type_text branch = codes "BRANCH"
type_text user = codes "USER"
type_text plan = codes "PLAN"

abbrev pub as_given : Target → GivenTarget
as_given t = record {
  type = type_text t.type;
  company_id = column t.company_id;
  branch_id = column t.branch_id;
  user_id = column t.user_id;
  plan_key = text_column t.plan_key;
}

unfoldable pub target_from_rule : Rule → Result FlagError Target
unfolding normalize_feature_flag_target
target_from_rule r = normalize_feature_flag_target (as_given r.target)

-- A write that ends in an active rule needs an active flag and the rule's target.
unfoldable pub may_be : Store → (tenant_id : ℕ) → Status → Rule → Flag → Result FlagError (Unit {0})
unfolding assert_target target_from_rule
may_be s tenant_id inactive r flag = ok tt
may_be s tenant_id active r flag = do
  guard (is_active flag.status) not_operational
  target ← target_from_rule r
  assert_target s tenant_id target

pub record StatusInput : Type 0 where
  pub expected_version : Json
  pub reason : Json
  pub to_status : Text

abbrev pub same_status : Status → Status → Bool
same_status active active = true
same_status inactive inactive = true
same_status active inactive = false
same_status inactive active = false

unfoldable pub transition_rule_status :
    (tenant_id rule_id : GivenId) → StatusInput → Store → Result FlagError Written
unfolding normalize_uuid normalize_feature_flag_expected_version normalize_feature_flag_reason
    status_named find_rule_with_flag may_be change_rule trim to_upper_case
transition_rule_status given_tenant rule_id input s = do
  tenant_id ← normalize_uuid given_tenant (codes "TENANT")
  id ← normalize_uuid rule_id (codes "RULE")
  expected_version ← normalize_feature_flag_expected_version input.expected_version
  reason ← normalize_feature_flag_reason input.reason
  to_status ← status_named (to_upper_case (trim input.to_status))
  (r, flag) ← existing (find_rule_with_flag tenant_id id s)
  guard (r.version == expected_version) version_conflict
  guard (not (same_status r.status to_status)) status_conflict
  may_be s tenant_id to_status r flag
  change_rule s tenant_id id expected_version (with_status to_status) (change_to to_status) reason

pub record RestoreInput : Type 0 where
  pub expected_version : Json
  pub restore_version : Json
  pub reason : Json

abbrev pub recorded : Option RuleVersion → Result FlagError RuleVersion
recorded none = err history_not_found
recorded (some v) = ok v

unfoldable pub restore_rule_version :
    (tenant_id rule_id : GivenId) → RestoreInput → Store → Result FlagError Written
unfolding normalize_uuid normalize_feature_flag_expected_version normalize_feature_flag_reason
    find_rule_with_flag find_rule_version may_be change_rule
restore_rule_version given_tenant rule_id input s = do
  tenant_id ← normalize_uuid given_tenant (codes "TENANT")
  id ← normalize_uuid rule_id (codes "RULE")
  expected_version ← normalize_feature_flag_expected_version input.expected_version
  restore_version ← normalize_feature_flag_expected_version input.restore_version
  reason ← normalize_feature_flag_reason input.reason
  (r, flag) ← existing (find_rule_with_flag tenant_id id s)
  guard (r.version == expected_version) version_conflict
  historical ← recorded (find_rule_version tenant_id id restore_version s.rule_versions)
  may_be s tenant_id historical.status r flag
  change_rule s tenant_id id expected_version (as_in historical) restored reason

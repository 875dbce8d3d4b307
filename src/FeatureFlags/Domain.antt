-- ===== src/FeatureFlags/Domain.antt =====
-- src/modules/feature-flags/feature-flag-domain.js: the normalisation of what callers give. The
-- objects that it takes are records, so that the tests for an object are left out.
use moventra_tms.Base.{
  ℕ, Bool, false, not, ◌&&◌, ◌||◌, Option, none, some, [], ◌∷◌, if◌then◌else◌, ltb, ◌==◌, length,
  is_some, is_none, allb, Result, ok, err, ◌>>=◌, ◌>>◌, guard,
}
use moventra_tms.Base.Int.{ℤ, pos, negsuc}
use moventra_tms.Base.Json.{Text, Json, null, str, codes}
use moventra_tms.Base.Text.{text_eq, trim, to_lower_case, to_upper_case, is_lower, is_digit}
use moventra_tms.Base.Text.Dotted.{is_dotted}
use moventra_tms.Base.Inputs.{GivenId, absent, uuid, given_version, given_reason}

pub data Status : Type 0 where
  active inactive : Status

pub data TargetType : Type 0 where
  tenant company branch user plan : TargetType

pub data Environment : Type 0 where
  development preview staging production : Environment

-- The codes `MVT_FEATURE_FLAG_…` of both files. `id_invalid` has the label of its code, and
-- `unique_violation` is the database's 23505 where nothing catches it.
pub data FlagError : Type 0 where
  key_invalid environment_invalid target_invalid plan_invalid rollout_invalid : FlagError
  version_invalid reason_invalid bucket_subject_invalid hash_version_unsupported : FlagError
  enabled_invalid bucket_invalid status_invalid : FlagError
  id_invalid : Text → FlagError
  not_operational version_required rule_not_found version_conflict status_conflict : FlagError
  active_conflict history_not_found target_not_found unique_violation : FlagError

unfoldable pub normalize_feature_flag_key : Json → Result FlagError Text
unfolding trim to_lower_case
normalize_feature_flag_key (str s) =
    let key = to_lower_case (trim s) in
    if ltb (length key) 3 || ltb 160 (length key) || not (is_dotted key)
    then err key_invalid
    else ok key
normalize_feature_flag_key _ = err key_invalid

-- `environments.has(environment)`
unfoldable pub environment_named : Text → Result FlagError Environment
unfolding text_eq
environment_named s =
    if text_eq s (codes "development")
    then ok development
    else if text_eq s (codes "preview")
    then ok preview
    else if text_eq s (codes "staging")
    then ok staging
    else if text_eq s (codes "production")
    then ok production
    else err environment_invalid

unfoldable pub normalize_feature_flag_environment : Json → Result FlagError Environment
unfolding environment_named trim to_lower_case
normalize_feature_flag_environment (str s) = environment_named (to_lower_case (trim s))
normalize_feature_flag_environment _ = err environment_invalid

-- Also `normalizeOptionalEnvironment` of the repository. `null` is undefined, too.
unfoldable pub normalize_optional_rule_environment : Json → Result FlagError (Option Environment)
unfolding normalize_feature_flag_environment
normalize_optional_rule_environment null = ok none
normalize_optional_rule_environment (str []) = ok none
normalize_optional_rule_environment value =
    normalize_feature_flag_environment value >>= λ e. ok (some e)

unfoldable pub normalize_uuid : GivenId → (label : Text) → Result FlagError ℕ
normalize_uuid (uuid n) label = ok n
normalize_uuid _ label = err (id_invalid label)

unfoldable pub normalize_optional_uuid : GivenId → (label : Text) → Result FlagError (Option ℕ)
unfolding normalize_uuid
normalize_optional_uuid absent label = ok none
normalize_optional_uuid value label = normalize_uuid value label >>= λ n. ok (some n)

-- The pattern `/^[a-z][a-z0-9_-]*$/`.
unfoldable pub is_plan_key : Text → Bool
is_plan_key [] = false
is_plan_key (c ∷ s) = is_lower c && allb (λ d. is_lower d || is_digit d || d == b'_' || d == b'-') s

unfoldable pub plan_key_named : Text → Result FlagError (Option Text)
unfolding is_plan_key
plan_key_named plan_key =
    if ltb (length plan_key) 2 || ltb 63 (length plan_key) || not (is_plan_key plan_key)
    then err plan_invalid
    else ok (some plan_key)

unfoldable pub normalize_optional_plan_key : Json → Result FlagError (Option Text)
unfolding plan_key_named trim to_lower_case
normalize_optional_plan_key null = ok none
normalize_optional_plan_key (str []) = ok none
normalize_optional_plan_key (str (c ∷ s)) = plan_key_named (to_lower_case (trim (c ∷ s)))
normalize_optional_plan_key _ = err plan_invalid

pub record GivenTarget : Type 0 where
  pub type : Text
  pub company_id : GivenId
  pub branch_id : GivenId
  pub user_id : GivenId
  pub plan_key : Json

pub record Target : Type 0 where
  pub type : TargetType
  pub company_id : Option ℕ
  pub branch_id : Option ℕ
  pub user_id : Option ℕ
  pub plan_key : Option Text

unfoldable pub target_type_named : Text → Result FlagError TargetType
unfolding text_eq
target_type_named s =
    if text_eq s (codes "TENANT")
    then ok tenant
    else if text_eq s (codes "COMPANY")
    then ok company
    else if text_eq s (codes "BRANCH")
    then ok branch
    else if text_eq s (codes "USER")
    then ok user
    else if text_eq s (codes "PLAN")
    then ok plan
    else err target_invalid

-- What a target of each type includes, and nothing else.
unfoldable pub has_shape : Target → Bool
has_shape t = elim t.type [
  | tenant ↦
      not (is_some t.company_id || is_some t.branch_id || is_some t.user_id || is_some t.plan_key)
  | company ↦
      not (is_none t.company_id || is_some t.branch_id || is_some t.user_id || is_some t.plan_key)
  | branch ↦
      not (is_none t.company_id || is_none t.branch_id || is_some t.user_id || is_some t.plan_key)
  | user ↦
      not (is_none t.user_id || is_some t.company_id || is_some t.branch_id || is_some t.plan_key)
  | plan ↦
      not (is_none t.plan_key || is_some t.company_id || is_some t.branch_id || is_some t.user_id)
]

unfoldable pub normalize_feature_flag_target : GivenTarget → Result FlagError Target
unfolding target_type_named normalize_optional_uuid normalize_optional_plan_key has_shape trim
    to_upper_case
normalize_feature_flag_target input = do
  type ← target_type_named (to_upper_case (trim input.type))
  company_id ← normalize_optional_uuid input.company_id (codes "companyId")
  branch_id ← normalize_optional_uuid input.branch_id (codes "branchId")
  user_id ← normalize_optional_uuid input.user_id (codes "userId")
  plan_key ← normalize_optional_plan_key input.plan_key
  let target : Target = record {
    type = type;
    company_id = company_id;
    branch_id = branch_id;
    user_id = user_id;
    plan_key = plan_key;
  }
  guard (has_shape target) target_invalid
  ok target

-- A number as given: undefined; an integer; or anything else.
pub data GivenNumber : Type 0 where
  undefined other : GivenNumber
  integer : ℤ → GivenNumber

unfoldable pub normalize_feature_flag_rollout_basis_points : GivenNumber → Result FlagError ℕ
normalize_feature_flag_rollout_basis_points undefined = ok 10000
normalize_feature_flag_rollout_basis_points other = err rollout_invalid
normalize_feature_flag_rollout_basis_points (integer (negsuc n)) = err rollout_invalid
normalize_feature_flag_rollout_basis_points (integer (pos n)) =
    if ltb 10000 n then err rollout_invalid else ok n

unfoldable pub normalize_feature_flag_expected_version : Json → Result FlagError ℕ
unfolding given_version
normalize_feature_flag_expected_version value = elim (given_version value) [
  | none ↦ err version_invalid
  | some n ↦ ok n
]

unfoldable pub normalize_feature_flag_reason : Json → Result FlagError (Option Text)
unfolding given_reason
normalize_feature_flag_reason value = elim (given_reason value) [
  | none ↦ err reason_invalid
  | some reason ↦ ok reason
]

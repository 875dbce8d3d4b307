-- ===== src/FeatureFlags/Store.antt =====
-- The tables of db/migrations/0013_feature_flags.sql and the queries on them of
-- src/modules/feature-flags/feature-flag-repository.js. Names, descriptions and times of the rows are
-- left out, and so is the row-level security, whose condition each query repeats.
use moventra_tms.Base.{
  ℕ, Bool, true, false, ◌&&◌, ◌||◌, Option, none, some, List, ◌==◌, opt_eq, col_is, is_none, anyb,
  filterb, head?, Result, ok, guard, ◌>>=◌,
}
use moventra_tms.Base.Sql.{find, opt_map}
use moventra_tms.Base.Json.{Text, str}
use moventra_tms.Base.Text.{text_eq}
use moventra_tms.Organization.{Company, Branch}
use moventra_tms.FeatureFlags.Domain.{
  Status, active, inactive, TargetType, tenant, company, branch, user, plan, Environment,
  development, preview, staging, production, Target, FlagError, target_not_found,
  normalize_feature_flag_key,
}

abbrev pub is_active : Status → Bool
is_active active = true
is_active inactive = false

abbrev pub type_code : TargetType → ℕ
type_code tenant = 0
type_code company = 1
type_code branch = 2
type_code user = 3
type_code plan = 4

abbrev pub environment_code : Environment → ℕ
environment_code development = 0
environment_code preview = 1
environment_code staging = 2
environment_code production = 3

-- `environment = $n`, which NULL does not meet, and `environment IS NOT DISTINCT FROM $n`.
abbrev pub is_environment : Option Environment → Environment → Bool
is_environment none b = false
is_environment (some a) b = environment_code a == environment_code b

abbrev pub same_environment : Option Environment → Option Environment → Bool
same_environment a b = opt_eq (opt_map environment_code a) (opt_map environment_code b)

-- `plan_key = $n`, which NULL does not meet.
abbrev pub text_is : Option Text → Option Text → Bool
text_is none b = false
text_is (some a) none = false
text_is (some a) (some b) = text_eq a b

pub record Flag : Type 0 where
  pub id : ℕ
  pub key : Text
  pub default_enabled : Bool
  pub status : Status
  pub hash_version : ℕ

pub record Policy : Type 0 where
  pub id : ℕ
  pub flag_id : ℕ
  pub environment : Environment
  pub enabled : Bool
  pub rollout_basis_points : ℕ
  pub status : Status

-- `target` holds the columns target_type, company_id, branch_id, user_id and plan_key.
pub record Rule : Type 0 where
  pub id : ℕ
  pub tenant_id : ℕ
  pub flag_id : ℕ
  pub environment : Option Environment
  pub target : Target
  pub enabled : Bool
  pub rollout_basis_points : ℕ
  pub status : Status
  pub version : ℕ

pub data ChangeType : Type 0 where
  created updated activated inactivated restored : ChangeType

pub record RuleVersion : Type 0 where
  pub tenant_id : ℕ
  pub rule_id : ℕ
  pub rule_version : ℕ
  pub enabled : Bool
  pub rollout_basis_points : ℕ
  pub status : Status
  pub change_type : ChangeType
  pub reason : Option Text

pub record Member : Type 0 where
  pub tenant_id : ℕ
  pub user_id : ℕ
  pub is_active : Bool

pub record Store : Type 0 where
  pub tenants : List ℕ
  pub companies : List Company
  pub branches : List Branch
  pub memberships : List Member
  pub flags : List Flag
  pub policies : List Policy
  pub rules : List Rule
  pub rule_versions : List RuleVersion

-- `#assertTarget`
unfoldable pub has_company : Store → (tenant_id : ℕ) → Target → Bool
has_company s tenant_id t =
    anyb (λ c. c.tenant_id == tenant_id && col_is (some c.id) t.company_id) s.companies

unfoldable pub has_branch : Store → (tenant_id : ℕ) → Target → Bool
has_branch s tenant_id t =
    anyb
      (λ b.
        b.tenant_id == tenant_id
        && col_is (some b.company_id) t.company_id
        && col_is (some b.id) t.branch_id)
      s.branches

unfoldable pub has_active_member : Store → (tenant_id : ℕ) → Target → Bool
has_active_member s tenant_id t =
    anyb (λ m. m.tenant_id == tenant_id && col_is (some m.user_id) t.user_id && m.is_active)
      s.memberships

unfoldable pub assert_target : Store → (tenant_id : ℕ) → Target → Result FlagError (Unit {0})
unfolding has_company has_branch has_active_member
assert_target s tenant_id t = elim t.type [
  | tenant ↦ ok tt
  | plan ↦ ok tt
  | company ↦ guard (has_company s tenant_id t) target_not_found
  | branch ↦ guard (has_branch s tenant_id t) target_not_found
  | user ↦ guard (has_active_member s tenant_id t) target_not_found
]

unfoldable pub active_flag : Text → List Flag → Option Flag
unfolding text_eq
active_flag key flags = head? (filterb (λ f. text_eq f.key key && is_active f.status) flags)

unfoldable pub find_active_environment_policy :
    (flag_id : ℕ) → Environment → List Policy → Option Policy
find_active_environment_policy flag_id environment policies = head? (
    filterb
      (λ p.
        p.flag_id == flag_id
        && environment_code p.environment == environment_code environment
        && is_active p.status)
      policies)

-- The conditions of `buildTargetConditions` on the columns, behind `target_type = $n`.
unfoldable pub has_columns : (target columns : Target) → Bool
unfolding text_eq
has_columns t c = elim t.type [
  | tenant ↦ is_none c.company_id && is_none c.branch_id && is_none c.user_id && is_none c.plan_key
  | company ↦
      col_is c.company_id t.company_id
      && is_none c.branch_id
      && is_none c.user_id
      && is_none c.plan_key
  | branch ↦
      col_is c.company_id t.company_id
      && col_is c.branch_id t.branch_id
      && is_none c.user_id
      && is_none c.plan_key
  | user ↦
      is_none c.company_id
      && is_none c.branch_id
      && col_is c.user_id t.user_id
      && is_none c.plan_key
  | plan ↦
      is_none c.company_id
      && is_none c.branch_id
      && is_none c.user_id
      && text_is c.plan_key t.plan_key
]

unfoldable pub target_rule : (tenant_id flag_id : ℕ) → Target → Rule → Bool
unfolding has_columns
target_rule tenant_id flag_id t r =
    r.tenant_id == tenant_id
    && r.flag_id == flag_id
    && is_active r.status
    && type_code r.target.type == type_code t.type
    && has_columns t r.target

-- `#findActiveRule`: among the rules of the environment and of all environments, one of the
-- environment comes first.
unfoldable pub applies : (tenant_id flag_id : ℕ) → Environment → Target → Rule → Bool
unfolding target_rule
applies tenant_id flag_id environment t r =
    target_rule tenant_id flag_id t r
    && (is_environment r.environment environment || is_none r.environment)

unfoldable pub first_of_environment : Environment → List Rule → Option Rule
first_of_environment environment rows =
    elim (head? (filterb (λ r. is_environment r.environment environment) rows)) [
      | some r ↦ some r
      | none ↦ head? rows
    ]

unfoldable pub find_active_rule :
    (tenant_id flag_id : ℕ) → Environment → Target → List Rule → Option Rule
unfolding applies first_of_environment
find_active_rule tenant_id flag_id environment t rules =
    first_of_environment environment (filterb (applies tenant_id flag_id environment t) rules)

unfoldable pub find_active_rule_by_target :
    (tenant_id flag_id : ℕ) → Option Environment → Target → List Rule → Option Rule
unfolding target_rule
find_active_rule_by_target tenant_id flag_id environment t rules = head? (
    filterb (λ r. target_rule tenant_id flag_id t r && same_environment r.environment environment)
      rules)

-- `#findRuleWithFlag`: the rule of the id, joined with its flag.
unfoldable pub find_rule : (tenant_id rule_id : ℕ) → List Rule → Option Rule
find_rule tenant_id rule_id rules =
    head? (filterb (λ r. r.id == rule_id && r.tenant_id == tenant_id) rules)

unfoldable pub find_rule_with_flag : (tenant_id rule_id : ℕ) → Store → Option (Rule × Flag)
unfolding find_rule
find_rule_with_flag tenant_id rule_id s = elim (find_rule tenant_id rule_id s.rules) [
  | none ↦ none
  | some r ↦ opt_map (λ f. (r, f)) (find Flag.id r.flag_id s.flags)
]

unfoldable pub find_rule_version :
    (tenant_id rule_id rule_version : ℕ) → List RuleVersion → Option RuleVersion
find_rule_version tenant_id rule_id rule_version versions = head? (
    filterb
      (λ v. (v.rule_id == rule_id && v.rule_version == rule_version) && v.tenant_id == tenant_id)
      versions)

unfoldable pub find_active_flag_by_key : Text → List Flag → Result FlagError (Option Flag)
unfolding active_flag normalize_feature_flag_key
find_active_flag_by_key key flags =
    normalize_feature_flag_key (str key) >>= λ flag_key. ok (active_flag flag_key flags)

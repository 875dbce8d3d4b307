-- ===== src/FeatureFlags/Evaluation.antt =====
-- `evaluate` of src/modules/feature-flags/feature-flag-repository.js.
pub mod Governing
pub mod Queries
pub mod Isolation
pub mod Laws
use moventra_tms.Base.{
  ℕ, ◌≡◌, Bool, true, false, Option, none, some, List, [], ◌∷◌, ◌++◌, if◌then◌else◌, Result, ok,
  err, ◌>>=◌, ◌>>◌,
}
use moventra_tms.Base.Json.{Text, Json, null, str, codes}
use moventra_tms.Base.Inputs.{GivenId, absent}
use moventra_tms.FeatureFlags.Domain.{
  TargetType, tenant, company, branch, user, plan, Environment, Target, GivenTarget, FlagError,
  not_operational, normalize_feature_flag_key, normalize_feature_flag_environment, normalize_uuid,
  normalize_feature_flag_target,
}
use moventra_tms.FeatureFlags.Rollout.{
  stable_feature_flag_bucket, feature_flag_rollout_decision, feature_flag_bucket_subject,
}
use moventra_tms.FeatureFlags.Store.{
  Flag, Policy, Rule, Store, assert_target, find_active_flag_by_key, find_active_environment_policy,
  find_active_rule,
}
use moventra_tms.FeatureFlags.Writes.{operational}

pub record EvaluationInput : Type 0 where
  pub environment : Json
  pub company_id : GivenId
  pub branch_id : GivenId
  pub user_id : GivenId
  pub plan_key : Json

pub record Context : Type 0 where
  pub company_id : Option ℕ
  pub branch_id : Option ℕ
  pub user_id : Option ℕ
  pub plan_key : Option Text

abbrev pub is_absent : GivenId → Bool
is_absent absent = true
is_absent _ = false

abbrev pub is_blank : Json → Bool
is_blank null = true
is_blank (str []) = true
is_blank _ = false

-- The argument `{ type, … }` of `normalizeFeatureFlagTarget` with the ids that it leaves out.
abbrev pub given_target : Text → (company_id branch_id user_id : GivenId) → Json → GivenTarget
given_target type company_id branch_id user_id plan_key = record {
  type = type;
  company_id = company_id;
  branch_id = branch_id;
  user_id = user_id;
  plan_key = plan_key;
}

-- The company and the branch of the context.
unfoldable pub normalize_place : EvaluationInput → Result FlagError (Option ℕ × Option ℕ)
unfolding normalize_feature_flag_target
normalize_place input =
    if is_absent input.branch_id
    then if is_absent input.company_id
      then ok (none, none)
      else (normalize_feature_flag_target
            (given_target (codes "COMPANY") input.company_id absent absent null)
          >>= λ t. ok (t.company_id, none))
    else normalize_feature_flag_target
        (given_target (codes "BRANCH") input.company_id input.branch_id absent null)
      >>= λ t. ok (t.company_id, t.branch_id)

unfoldable pub normalize_user : GivenId → Result FlagError (Option ℕ)
unfolding normalize_feature_flag_target
normalize_user user_id =
    if is_absent user_id
    then ok none
    else normalize_feature_flag_target (given_target (codes "USER") absent absent user_id null)
      >>= λ t. ok t.user_id

unfoldable pub normalize_plan : Json → Result FlagError (Option Text)
unfolding normalize_feature_flag_target
normalize_plan plan_key =
    if is_blank plan_key
    then ok none
    else normalize_feature_flag_target (given_target (codes "PLAN") absent absent absent plan_key)
      >>= λ t. ok t.plan_key

unfoldable pub normalize_evaluation_context : EvaluationInput → Result FlagError Context
unfolding normalize_place normalize_user normalize_plan
normalize_evaluation_context input = do
  (company_id, branch_id) ← normalize_place input
  user_id ← normalize_user input.user_id
  plan_key ← normalize_plan input.plan_key
  ok (record {
    company_id = company_id;
    branch_id = branch_id;
    user_id = user_id;
    plan_key = plan_key;
  })

-- The targets that `normalizeFeatureFlagTarget` makes of the ids of a context: they are in normal
-- form, so that it returns them as they are.
abbrev pub user_target : ℕ → Target
user_target user_id = record {
  type = user;
  company_id = none;
  branch_id = none;
  user_id = some user_id;
  plan_key = none;
}

abbrev pub branch_target : Option ℕ → ℕ → Target
branch_target company_id branch_id = record {
  type = branch;
  company_id = company_id;
  branch_id = some branch_id;
  user_id = none;
  plan_key = none;
}

abbrev pub company_target : ℕ → Target
company_target company_id = record {
  type = company;
  company_id = some company_id;
  branch_id = none;
  user_id = none;
  plan_key = none;
}

abbrev pub tenant_target : Target
tenant_target = record {
  type = tenant;
  company_id = none;
  branch_id = none;
  user_id = none;
  plan_key = none;
}

abbrev pub plan_target : Text → Target
plan_target plan_key = record {
  type = plan;
  company_id = none;
  branch_id = none;
  user_id = none;
  plan_key = some plan_key;
}

-- `if (id) candidates.push(…)`
abbrev pub pushed {ℓ} : {A : Type ℓ} → (A → Target) → Option A → List Target
pushed target none = []
pushed target (some id) = target id ∷ []

unfoldable pub build_evaluation_candidates : Context → List Target
build_evaluation_candidates c =
    pushed user_target c.user_id
    ++ (pushed (branch_target c.company_id) c.branch_id
        ++ (pushed company_target c.company_id ++ (tenant_target ∷ pushed plan_target c.plan_key)))

unfoldable pub assert_place : Store → (tenant_id : ℕ) → Context → Result FlagError (Unit {0})
unfolding assert_target
assert_place s tenant_id c = elim c.branch_id [
  | some b ↦ assert_target s tenant_id (branch_target c.company_id b)
  | none ↦ elim c.company_id [
    | some n ↦ assert_target s tenant_id (company_target n)
    | none ↦ ok tt
  ]
]

unfoldable pub assert_user : Store → (tenant_id : ℕ) → Option ℕ → Result FlagError (Unit {0})
unfolding assert_target
assert_user s tenant_id none = ok tt
assert_user s tenant_id (some u) = assert_target s tenant_id (user_target u)

unfoldable pub assert_evaluation_context :
    Store → (tenant_id : ℕ) → Context → Result FlagError (Unit {0})
unfolding assert_place assert_user
assert_evaluation_context s tenant_id c = do
  assert_place s tenant_id c
  assert_user s tenant_id c.user_id

pub data Source : Type 0 where
  environment_policy flag_default : Source
  rule_of : TargetType → Source

pub record Decision : Type 0 where
  pub key : Text
  pub enabled : Bool
  pub source : Source
  pub rule_id : Option ℕ
  pub rule_version : Option ℕ
  pub rollout_basis_points : ℕ
  pub bucket : ℕ
  pub hash_version : ℕ

abbrev pub decision : Flag → (bucket : ℕ) → Source → (rollout : ℕ) → (enabled : Bool) → Decision
decision flag bucket source rollout enabled = record {
  key = flag.key;
  enabled = enabled;
  source = source;
  rule_id = none;
  rule_version = none;
  rollout_basis_points = rollout;
  bucket = bucket;
  hash_version = flag.hash_version;
}

unfoldable pub decide_by_rule : Flag → (bucket : ℕ) → Rule → Result FlagError Decision
unfolding feature_flag_rollout_decision
decide_by_rule flag bucket r =
    feature_flag_rollout_decision r.enabled r.rollout_basis_points bucket >>= λ enabled.
    ok (record (decision flag bucket (rule_of r.target.type) r.rollout_basis_points enabled) {
      rule_id = some r.id;
      rule_version = some r.version;
    })

unfoldable pub decide_by_policy : Flag → (bucket : ℕ) → Policy → Result FlagError Decision
unfolding feature_flag_rollout_decision
decide_by_policy flag bucket p =
    feature_flag_rollout_decision p.enabled p.rollout_basis_points bucket >>= λ enabled.
    ok (decision flag bucket environment_policy p.rollout_basis_points enabled)

unfoldable pub decide_by_default : Flag → (bucket : ℕ) → Result FlagError Decision
unfolding feature_flag_rollout_decision
decide_by_default flag bucket =
    feature_flag_rollout_decision flag.default_enabled 10000 bucket >>= λ enabled.
    ok (decision flag bucket flag_default 10000 enabled)

-- The loop over the candidates: the first rule that one of them has.
unfoldable pub first_rule :
    (tenant_id flag_id : ℕ) → Environment → List Rule → List Target → Option Rule
unfolding find_active_rule
first_rule tenant_id flag_id environment rules [] = none
first_rule tenant_id flag_id environment rules (t ∷ candidates) =
    elim (find_active_rule tenant_id flag_id environment t rules) [
      | some r ↦ some r
      | none ↦ first_rule tenant_id flag_id environment rules candidates
    ]

-- Behind the loop: the rule, or else the policy, or else the flag's default.
unfoldable pub decide :
    Flag → (bucket : ℕ) → Option Policy → Option Rule → Result FlagError Decision
unfolding decide_by_rule decide_by_policy decide_by_default
decide flag bucket policy (some r) = decide_by_rule flag bucket r
decide flag bucket (some p) none = decide_by_policy flag bucket p
decide flag bucket none none = decide_by_default flag bucket

-- `environmentPolicy && environmentPolicy.enabled === false`
abbrev pub kill_switch : Option Policy → Option Policy
kill_switch none = none
kill_switch (some p) = if p.enabled then none else some p

unfoldable pub evaluate_flag :
    Flag
    → (bucket : ℕ) → (tenant_id : ℕ) → Environment
    → Context
    → Store
    → Result FlagError Decision
unfolding find_active_environment_policy build_evaluation_candidates first_rule decide
evaluate_flag flag bucket tenant_id environment c s =
    let policy = find_active_environment_policy flag.id environment s.policies in
    elim (kill_switch policy) [
      | some p ↦ ok (decision flag bucket environment_policy p.rollout_basis_points false)
      | none ↦
          decide flag bucket policy
            (first_rule tenant_id flag.id environment s.rules (build_evaluation_candidates c))
    ]

module _ (first_64 : Text → ℕ) (spelling : ℕ → Text) where
  unfoldable pub evaluate :
      (tenant_id : GivenId) → (key : Json) → EvaluationInput → Store → Result FlagError Decision
  unfolding normalize_uuid normalize_feature_flag_key normalize_feature_flag_environment
      normalize_evaluation_context assert_evaluation_context find_active_flag_by_key operational
      stable_feature_flag_bucket feature_flag_bucket_subject evaluate_flag
  evaluate given_tenant key input s = do
    tenant_id ← normalize_uuid given_tenant (codes "TENANT")
    flag_key ← normalize_feature_flag_key key
    environment ← normalize_feature_flag_environment input.environment
    context ← normalize_evaluation_context input
    assert_evaluation_context s tenant_id context
    found ← find_active_flag_by_key flag_key s.flags
    flag ← operational found
    let subject = spelling (feature_flag_bucket_subject tenant_id context.user_id)
    bucket ← stable_feature_flag_bucket first_64 flag.key subject flag.hash_version
    evaluate_flag flag bucket tenant_id environment context s

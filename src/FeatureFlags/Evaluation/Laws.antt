-- ===== src/FeatureFlags/Evaluation/Laws.antt =====
-- About the decisions of `evaluate` of src/modules/feature-flags/feature-flag-repository.js.
use moventra_tms.Base.{
  ℕ, ◌<◌, ◌≡◌, Bool, true, ◌&&◌, Option, none, some, arith, if◌then◌else◌, ltb, ok, >>=-eq-ok,
  >>-eq-ok,
}
use moventra_tms.Base.Sql.{opt_map}
use moventra_tms.Base.Json.{Text, Json}
use moventra_tms.Base.Inputs.{uuid}
use moventra_tms.FeatureFlags.Domain.{
  Environment, normalize_feature_flag_key, normalize_feature_flag_environment, normalize_uuid,
  normalize_feature_flag_rollout_basis_points,
}
use moventra_tms.FeatureFlags.Rollout.{
  stable_feature_flag_bucket, feature_flag_rollout_decision, feature_flag_bucket_subject,
  bucket_in_range,
}
use moventra_tms.FeatureFlags.Store.{
  Flag, Policy, Rule, Store, find_active_flag_by_key, find_active_environment_policy,
}
use moventra_tms.FeatureFlags.Writes.{operational}
use moventra_tms.FeatureFlags.Evaluation.{
  EvaluationInput, Context, Decision, decide, decide_by_rule, decide_by_policy, decide_by_default,
  first_rule, build_evaluation_candidates, evaluate_flag, evaluate, normalize_evaluation_context,
  assert_evaluation_context,
}
use moventra_tms.FeatureFlags.Evaluation.Governing.{Governs}
use moventra_tms.FeatureFlags.Evaluation.Queries.{first_rule-Governs}

-- Whether the environment's policy lets a flag be on at all.
abbrev pub is_allowed : Option Policy → Bool
is_allowed none = true
is_allowed (some p) = p.enabled

-- What a governing rule says, or else the policy, or else the flag's default.
abbrev pub says : Flag → (bucket : ℕ) → Option Policy → Option Rule → Bool
says flag bucket policy (some r) = r.enabled && ltb bucket r.rollout_basis_points
says flag bucket (some p) none = p.enabled && ltb bucket p.rollout_basis_points
says flag bucket none none = flag.default_enabled

abbrev pub rule_id_of : Option Rule → Option ℕ
rule_id_of o = opt_map Rule.id o

abbrev pub unless_killed {ℓ} : {A : Type ℓ} → Option Policy → Option A → Option A
unless_killed p o = if is_allowed p then o else none

pub evaluate_flag_settles :
    (flag : Flag) (bucket tenant_id : ℕ) (environment : Environment) (c : Context) (s : Store)
    {d : Decision}
    → bucket < 10000
    → evaluate_flag flag bucket tenant_id environment c s ≡ ok d
    → (governing : Option Rule) × Governs tenant_id flag.id environment c s.rules governing
      × (d.enabled ≡ (
          is_allowed (find_active_environment_policy flag.id environment s.policies)
          && says flag bucket
              (find_active_environment_policy flag.id environment s.policies)
              governing))
      × (d.rule_id
          ≡ unless_killed
              (find_active_environment_policy flag.id environment s.policies)
              (rule_id_of governing))
unfolding evaluate_flag decide decide_by_rule decide_by_policy decide_by_default
    feature_flag_rollout_decision normalize_feature_flag_rollout_basis_points
evaluate_flag_settles flag bucket tenant_id environment c s {d} low h = (
  first_rule tenant_id flag.id environment s.rules (build_evaluation_candidates c),
  first_rule-Governs tenant_id flag.id environment c s.rules,
  ground arith,
  ground arith,
)

abbrev pub policy_of : Flag → Environment → Store → Option Policy
policy_of flag environment s = find_active_environment_policy flag.id environment s.policies

module _ (first_64 : Text → ℕ) (spelling : ℕ → Text) where
  -- How a decision comes about: from the active flag of the normalised key, the bucket of the user or
  -- else of the tenant, the environment's policy and the rule that governs, if one does.
  abbrev pub IsDecided : ℕ → Json → EvaluationInput → Store → Decision → Type 0
  IsDecided tenant_id key input s d =
      (flag_key : Text) × (environment : Environment) × (c : Context) × (flag : Flag) × (bucket : ℕ)
      × (normalize_feature_flag_key key ≡ ok flag_key)
      × (find_active_flag_by_key flag_key s.flags ≡ ok (some flag))
      × (normalize_feature_flag_environment input.environment ≡ ok environment)
      × (normalize_evaluation_context input ≡ ok c)
      × (stable_feature_flag_bucket first_64 flag.key
            (spelling (feature_flag_bucket_subject tenant_id c.user_id)) flag.hash_version
          ≡ ok bucket)
      × (governing : Option Rule) × Governs tenant_id flag.id environment c s.rules governing
      × (d.enabled ≡ (
          is_allowed (policy_of flag environment s)
          && says flag bucket (policy_of flag environment s) governing))
      × (d.rule_id ≡ unless_killed (policy_of flag environment s) (rule_id_of governing))

  -- When an evaluation for a tenant returns, a rule governs it that concerns it (an active rule of the
  -- tenant and the flag, for the environment or for all, whose target is in the context) and than
  -- which no rule that concerns it is more specific (user, branch, company, tenant, plan; then a rule
  -- of the environment before one of all); or no rule concerns it. The flag is on exactly if the
  -- environment's active policy, if there is one, is enabled, and the bucket of the user, or else of
  -- the tenant, lies within the rollout of the enabled governing rule, or without a rule of the
  -- policy, or with neither the flag is on by default. The decision names the governing rule, unless
  -- the policy is not enabled.
  pub evaluate_governed :
      (tenant_id : ℕ) (key : Json) (input : EvaluationInput) (s : Store) {d : Decision}
      → evaluate first_64 spelling (uuid tenant_id) key input s ≡ ok d
      → IsDecided tenant_id key input s d
  unfolding evaluate normalize_uuid operational
  evaluate_governed tenant_id key input s {d} h =
      let (flag_key, e, h1) = >>=-eq-ok (normalize_feature_flag_key key) _ h in
      let (environment, e1, h2) =
        >>=-eq-ok (normalize_feature_flag_environment input.environment) _ h1 in
      let (c, e2, h3) = >>=-eq-ok (normalize_evaluation_context input) _ h2 in
      let (_, h4) = >>-eq-ok (assert_evaluation_context s tenant_id c) _ h3 in
      let (found, e4, h5) = >>=-eq-ok (find_active_flag_by_key flag_key s.flags) _ h4 in
      let (flag, e5, h6) = >>=-eq-ok (operational found) _ h5 in
      let subject = spelling (feature_flag_bucket_subject tenant_id c.user_id) in
      let (bucket, e3, h7) =
        >>=-eq-ok (stable_feature_flag_bucket first_64 flag.key subject flag.hash_version) _ h6 in
      let (governing, g, on, by) =
        evaluate_flag_settles flag bucket tenant_id environment c s
          (bucket_in_range first_64 flag.key subject flag.hash_version e3) h7 in
      (flag_key, environment, c, flag, bucket, e, ground arith, e1, e2, e3, governing, g, on, by)

-- ===== src/FeatureFlags/Evaluation/Isolation.antt =====
-- About `evaluate` of src/modules/feature-flags/feature-flag-repository.js and the rows of other
-- tenants.
use moventra_tms.Base.{
  ℕ, ◌≡◌, refl, Option, none, some, List, [], Option-cases, inl, inr, ◌∷◌, arith, ◌==◌, filterb,
  filterb_within, anyb_within,
}
use moventra_tms.Base.Json.{Text, Json}
use moventra_tms.Base.Inputs.{uuid}
use moventra_tms.FeatureFlags.Domain.{Environment, Target, normalize_uuid}
use moventra_tms.FeatureFlags.Store.{
  Flag, Rule, Store, has_company, has_branch, has_active_member, assert_target, target_rule,
  applies, find_active_rule,
}
use moventra_tms.FeatureFlags.Evaluation.{
  EvaluationInput, Context, user_target, branch_target, company_target, first_rule,
  build_evaluation_candidates, assert_place, assert_user, assert_evaluation_context, evaluate_flag,
  evaluate,
}

-- The database with no other tenant's rows.
abbrev pub only_tenant : ℕ → Store → Store
only_tenant tenant_id s = record s {
  companies = filterb (λ c. c.tenant_id == tenant_id) s.companies;
  branches = filterb (λ b. b.tenant_id == tenant_id) s.branches;
  memberships = filterb (λ m. m.tenant_id == tenant_id) s.memberships;
  rules = filterb (λ r. r.tenant_id == tenant_id) s.rules;
  rule_versions = filterb (λ v. v.tenant_id == tenant_id) s.rule_versions;
}

module _ (tenant_id : ℕ) (s : Store) where
  has_company-only_tenant :
      (t : Target) → has_company (only_tenant tenant_id s) tenant_id t ≡ has_company s tenant_id t
  unfolding has_company
  has_company-only_tenant t = anyb_within _ _ (λ c e. ground arith) s.companies

  has_branch-only_tenant :
      (t : Target) → has_branch (only_tenant tenant_id s) tenant_id t ≡ has_branch s tenant_id t
  unfolding has_branch
  has_branch-only_tenant t = anyb_within _ _ (λ b e. ground arith) s.branches

  has_active_member-only_tenant :
      (t : Target)
      → has_active_member (only_tenant tenant_id s) tenant_id t ≡ has_active_member s tenant_id t
  unfolding has_active_member
  has_active_member-only_tenant t = anyb_within _ _ (λ m e. ground arith) s.memberships

  assert_target-only_tenant :
      (t : Target)
      → assert_target (only_tenant tenant_id s) tenant_id t ≡ assert_target s tenant_id t
  unfolding assert_target
  assert_target-only_tenant t =
      ground (
        arith,
        has_company-only_tenant t,
        has_branch-only_tenant t,
        has_active_member-only_tenant t,
      )

  assert_user-only_tenant :
      (u : Option ℕ) → assert_user (only_tenant tenant_id s) tenant_id u ≡ assert_user s tenant_id u
  unfolding assert_user
  assert_user-only_tenant none = refl
  assert_user-only_tenant (some u) = assert_target-only_tenant (user_target u)

  assert_place-only_tenant :
      (c : Context)
      → assert_place (only_tenant tenant_id s) tenant_id c ≡ assert_place s tenant_id c
  unfolding assert_place
  assert_place-only_tenant c = elim (Option-cases c.branch_id) [
    | inr (b, e) ↦ rw e (assert_target-only_tenant (branch_target c.company_id b))
    | inl e ↦ elim (Option-cases c.company_id) [
      | inr (n, e') ↦ rw (e, e') (assert_target-only_tenant (company_target n))
      | inl e' ↦ rw (e, e') refl
    ]
  ]

  assert_context-only_tenant :
      (c : Context)
      → assert_evaluation_context (only_tenant tenant_id s) tenant_id c
        ≡ assert_evaluation_context s tenant_id c
  unfolding assert_evaluation_context
  assert_context-only_tenant c =
      rw (assert_place-only_tenant c, assert_user-only_tenant c.user_id) refl

  find_active_rule-only_tenant :
      (flag_id : ℕ) (environment : Environment) (t : Target)
      → find_active_rule tenant_id flag_id environment t
          (filterb (λ r. r.tenant_id == tenant_id) s.rules)
        ≡ find_active_rule tenant_id flag_id environment t s.rules
  unfolding find_active_rule applies target_rule
  find_active_rule-only_tenant flag_id environment t =
      rw
        (filterb_within (λ (r : Rule). r.tenant_id == tenant_id)
          (applies tenant_id flag_id environment t) (λ r e. ground arith) s.rules)
        refl

  first_rule-only_tenant :
      (flag_id : ℕ) (environment : Environment) (ts : List Target)
      → first_rule tenant_id flag_id environment
          (filterb (λ r. r.tenant_id == tenant_id) s.rules)
          ts
        ≡ first_rule tenant_id flag_id environment s.rules ts
  unfolding first_rule
  first_rule-only_tenant flag_id environment [] = refl
  first_rule-only_tenant flag_id environment (t ∷ ts) = ground (
    arith,
    find_active_rule-only_tenant flag_id environment t,
    first_rule-only_tenant flag_id environment ts,
  )

  evaluate_flag-only_tenant :
      (flag : Flag) (bucket : ℕ) (environment : Environment) (c : Context)
      → evaluate_flag flag bucket tenant_id environment c (only_tenant tenant_id s)
        ≡ evaluate_flag flag bucket tenant_id environment c s
  unfolding evaluate_flag
  evaluate_flag-only_tenant flag bucket environment c =
      ground (arith, first_rule-only_tenant flag.id environment (build_evaluation_candidates c))

  -- An evaluation for a tenant comes out as it would if the database held no other tenant's companies,
  -- branches, memberships, rules and rule versions.
  pub evaluate-only_tenant :
      (first_64 : Text → ℕ) (spelling : ℕ → Text) (key : Json) (input : EvaluationInput)
      → evaluate first_64 spelling (uuid tenant_id) key input (only_tenant tenant_id s)
        ≡ evaluate first_64 spelling (uuid tenant_id) key input s
  unfolding evaluate normalize_uuid
  evaluate-only_tenant first_64 spelling key input =
      simp (assert_context-only_tenant, evaluate_flag-only_tenant)

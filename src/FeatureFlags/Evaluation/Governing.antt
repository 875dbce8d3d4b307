-- ===== src/FeatureFlags/Evaluation/Governing.antt =====
-- Which rule governs an evaluation, said without the queries and the order in which `evaluate` of
-- src/modules/feature-flags/feature-flag-repository.js sends them.
use moventra_tms.Base.{
  col_is, ℕ, ◌+◌, ◌*◌, ◌≡◌, Bool, true, false, ◌&&◌, ◌||◌, Option, none, some, List, if◌then◌else◌,
  ltb, ◌==◌, anyb, is_none,
}
use moventra_tms.Base.Members.{In}
use moventra_tms.FeatureFlags.Domain.{
  TargetType, tenant, company, branch, user, plan, Environment, Target, has_shape,
}
use moventra_tms.FeatureFlags.Store.{is_active, is_environment, text_is, Rule}
use moventra_tms.FeatureFlags.Evaluation.{Context}

-- A target is about the context's user, branch, company, tenant or plan.
abbrev pub addresses : Context → Target → Bool
addresses c t = elim t.type [
  | tenant ↦ true
  | company ↦ col_is t.company_id c.company_id
  | branch ↦ col_is t.company_id c.company_id && col_is t.branch_id c.branch_id
  | user ↦ col_is t.user_id c.user_id
  | plan ↦ text_is t.plan_key c.plan_key
]

-- An active rule of the tenant and the flag, for the environment or for all, about the context.
unfoldable pub concerns : (tenant_id flag_id : ℕ) → Environment → Context → Rule → Bool
unfolding has_shape
concerns tenant_id flag_id environment c r =
    r.tenant_id == tenant_id
    && r.flag_id == flag_id
    && is_active r.status
    && (is_environment r.environment environment || is_none r.environment)
    && has_shape r.target
    && addresses c r.target

abbrev pub position : TargetType → ℕ
position user = 0
position branch = 1
position company = 2
position tenant = 3
position plan = 4

-- The more specific a rule, the lower its rank.
unfoldable pub rank : Rule → ℕ
rank r = 2 * position r.target.type + (if is_none r.environment then 1 else 0)

module _ (tenant_id flag_id : ℕ) (environment : Environment) (c : Context) (rules : List Rule) where
  -- The rule concerns the evaluation and none that does is more specific; or none does.
  abbrev pub Governs : Option Rule → Type 0
  Governs none = anyb (concerns tenant_id flag_id environment c) rules ≡ false
  Governs (some r) =
      In r rules
      × (concerns tenant_id flag_id environment c r ≡ true)
      × (anyb (λ s. concerns tenant_id flag_id environment c s && ltb (rank s) (rank r)) rules
          ≡ false)

-- ===== src/FeatureFlags/Evaluation/Queries.antt =====
-- About the queries of `evaluate` (src/modules/feature-flags/feature-flag-repository.js) and its loop
-- over the candidates.
use moventra_tms.Base.{
  col_is, ℕ, ◌<◌, ◌≡◌, ◌⊎◌, inl, inr, refl, sym, ap, subst, ◌∙◌, Bool, true, false, ◌&&◌, ◌||◌,
  Option, none, some, List, [], ◌∷◌, ◌++◌, arith, ltb, ◌==◌, anyb, filterb, head?, All, is_none,
  Bool-cases, Option-cases,
}
use moventra_tms.Base.Members.{In, head?-In, filterb-In, anyb-filterb, In-filterb, never, never-In}
use moventra_tms.Base.Json.{Text}
use moventra_tms.FeatureFlags.Domain.{TargetType, Environment, Target, has_shape}
use moventra_tms.FeatureFlags.Store.{
  is_active, type_code, is_environment, text_is, Rule, has_columns, target_rule, applies,
  first_of_environment, find_active_rule,
}
use moventra_tms.FeatureFlags.Evaluation.{
  Context, user_target, branch_target, company_target, tenant_target, plan_target, pushed,
  build_evaluation_candidates, first_rule,
}
use moventra_tms.FeatureFlags.Evaluation.Governing.{concerns, position, rank, Governs}

-- How the queries find it.
module _ (tenant_id flag_id : ℕ) (environment : Environment) where
  abbrev found_by : List Target → Rule → Bool
  found_by ts r = anyb (λ t. applies tenant_id flag_id environment t r) ts

  found_by-append :
      (xs ys : List Target) (r : Rule) → found_by (xs ++ ys) r ≡ (found_by xs r || found_by ys r)
  found_by-append [] ys r = refl
  found_by-append (x ∷ xs) ys r = ground (arith, found_by-append xs ys r)

  -- The conditions that all candidates share.
  abbrev in_reach : Rule → Bool
  in_reach r =
      r.tenant_id == tenant_id
      && r.flag_id == flag_id
      && is_active r.status
      && (is_environment r.environment environment || is_none r.environment)

  found_user :
      (id : Option ℕ) (r : Rule)
      → found_by (pushed user_target id) r ≡ (
          in_reach r
          && type_code r.target.type == 3
          && has_shape r.target
          && col_is r.target.user_id id)
  unfolding applies target_rule has_columns has_shape
  found_user none r = ground arith
  found_user (some u) r = ground arith

  found_branch :
      (company_id id : Option ℕ) (r : Rule)
      → found_by (pushed (branch_target company_id) id) r ≡ (
          in_reach r
          && type_code r.target.type == 2
          && has_shape r.target
          && col_is r.target.company_id company_id
          && col_is r.target.branch_id id)
  unfolding applies target_rule has_columns has_shape
  found_branch company_id none r = ground arith
  found_branch company_id (some b) r = ground arith

  found_company :
      (id : Option ℕ) (r : Rule)
      → found_by (pushed company_target id) r ≡ (
          in_reach r
          && type_code r.target.type == 1
          && has_shape r.target
          && col_is r.target.company_id id)
  unfolding applies target_rule has_columns has_shape
  found_company none r = ground arith
  found_company (some n) r = ground arith

  found_tenant :
      (r : Rule)
      → found_by (tenant_target ∷ []) r
        ≡ (in_reach r && type_code r.target.type == 0 && has_shape r.target)
  unfolding applies target_rule has_columns has_shape
  found_tenant r = ground arith

  found_plan :
      (key : Option Text) (r : Rule)
      → found_by (pushed plan_target key) r ≡ (
          in_reach r
          && type_code r.target.type == 4
          && has_shape r.target
          && text_is r.target.plan_key key)
  unfolding applies target_rule has_columns has_shape
  found_plan none r = ground arith
  found_plan (some k) r = ground arith

  found_by_candidates :
      (c : Context) (r : Rule)
      → found_by (build_evaluation_candidates c) r ≡ concerns tenant_id flag_id environment c r
  unfolding build_evaluation_candidates concerns
  found_by_candidates c r =
      found_by-append (pushed user_target c.user_id) _ r
      ∙ ap (λ b. found_by (pushed user_target c.user_id) r || b)
          (found_by-append (pushed (branch_target c.company_id) c.branch_id) _ r
            ∙ ap (λ b. found_by (pushed (branch_target c.company_id) c.branch_id) r || b)
                (found_by-append (pushed company_target c.company_id) _ r
                  ∙ ap (λ b. found_by (pushed company_target c.company_id) r || b)
                      (found_by-append (tenant_target ∷ []) _ r)))
      ∙ rw
          (
            found_user c.user_id r,
            found_branch c.company_id c.branch_id r,
            found_company c.company_id r,
            found_tenant r,
            found_plan c.plan_key r,
          )
          (ground arith)

  same_position : (a b : TargetType) → (type_code a == type_code b) ≡ true → position a ≡ position b
  same_position a b h = ground arith

  applies-position :
      (t : Target) (r : Rule)
      → applies tenant_id flag_id environment t r ≡ true
      → position r.target.type ≡ position t.type
  unfolding applies target_rule
  applies-position t r h = ground (arith, same_position r.target.type t.type)

  applies-or :
      (t : Target) (r : Rule)
      → applies tenant_id flag_id environment t r ≡ true
      → (is_environment r.environment environment ≡ true) ⊎ (is_none r.environment ≡ true)
  unfolding applies
  applies-or t r h = elim (Bool-cases (is_environment r.environment environment)) [
    | inl e ↦ inl e
    | inr e ↦ inr (ground arith)
  ]

  abbrev before : Target → Rule → Rule → Bool
  before t r s = applies tenant_id flag_id environment t s && ltb (rank s) (rank r)

  abbrev rows : Target → List Rule → List Rule
  rows t rules = filterb (applies tenant_id flag_id environment t) rules

  abbrev Found : Target → List Rule → Rule → Type 0
  Found t rules r =
      In r rules
      × (applies tenant_id flag_id environment t r ≡ true)
      × (anyb (before t r) rules ≡ false)

  exact_is_first :
      (t : Target) (rules : List Rule) (r : Rule)
      → In r (rows t rules)
      → is_environment r.environment environment ≡ true
      → Found t rules r
  unfolding rank
  exact_is_first t rules r m e =
      let (n, hit) = filterb-In _ r rules m in
      (
        n,
        hit,
        never (before t r) rules
            (λ s _. ground (arith, applies-position t s, applies-position t r hit)),
      )

  general_is_first :
      (t : Target) (rules : List Rule) (r : Rule)
      → In r (rows t rules)
      → anyb (λ s. is_environment s.environment environment) (rows t rules) ≡ false
      → Found t rules r
  unfolding rank
  general_is_first t rules r m none_exact =
      let (n, hit) = filterb-In _ r rules m in
      (
        n,
        hit,
        never (before t r) rules (λ s at.
            elim (Bool-cases (applies tenant_id flag_id environment t s)) [
              | inr e ↦ rw e refl
              | inl e ↦
                  let other =
                    never-In (λ x. is_environment x.environment environment) s _ none_exact
                      (In-filterb _ s rules e at) in
                  ground (arith, applies-or t s e, applies-position t s e, applies-position t r hit)
            ]),
      )

  -- What one query finds.
  query-Found :
      (t : Target) (rules : List Rule) (r : Rule)
      → find_active_rule tenant_id flag_id environment t rules ≡ some r
      → Found t rules r
  unfolding find_active_rule first_of_environment
  query-Found t rules r h =
      let exact = filterb (λ s. is_environment s.environment environment) (rows t rules) in
      elim (Option-cases (head? exact)) [
        | inr (x, e) ↦
            let same : x ≡ r = ground arith in
            let (m, fits) = filterb-In _ r (rows t rules) (head?-In exact (e ∙ ap some same)) in
            exact_is_first t rules r m fits
        | inl e ↦ general_is_first t rules r (head?-In (rows t rules) (ground arith)) (
            ground
              (arith, anyb-filterb (λ s. is_environment s.environment environment) (rows t rules)))
      ]

  query_none :
      (t : Target) (rules : List Rule)
      → find_active_rule tenant_id flag_id environment t rules ≡ none
      → anyb (applies tenant_id flag_id environment t) rules ≡ false
  unfolding find_active_rule first_of_environment
  query_none t rules h =
      ground (arith, anyb-filterb (applies tenant_id flag_id environment t) rules)

  abbrev Ascending : List Target → Type 0
  Ascending [] = Unit
  Ascending (t ∷ ts) = All (λ u. position t.type < position u.type) ts × Ascending ts

  abbrev outranked : List Target → Rule → Rule → Bool
  outranked ts r s = found_by ts s && ltb (rank s) (rank r)

  -- What the loop over candidates finds.
  abbrev Finds : List Target → List Rule → Option Rule → Type 0
  Finds ts rules none = anyb (found_by ts) rules ≡ false
  Finds ts rules (some r) =
      In r rules × (found_by ts r ≡ true) × (anyb (outranked ts r) rules ≡ false)

  found_by-position :
      (n : ℕ) (ts : List Target) (r : Rule)
      → All (λ u. n < position u.type) ts
      → found_by ts r ≡ true
      → n < position r.target.type
  found_by-position n [] r a h = cc
  found_by-position n (t ∷ ts) r a h =
      ground (arith, a.0, a.1, applies-position t r, found_by-position n ts r)

  Finds-here :
      (t : Target) (ts : List Target) (rules : List Rule) (r : Rule)
      → Ascending (t ∷ ts)
      → Found t rules r
      → Finds (t ∷ ts) rules (some r)
  unfolding rank
  Finds-here t ts rules r a (m, hit, first) = (
    m,
    ground arith,
    never (outranked (t ∷ ts) r) rules (λ s at. ground (
      arith,
      never-In (before t r) s rules first at,
      found_by-position (position t.type) ts s a.0,
      applies-position t r hit,
    )),
  )

  Finds-later :
      (t : Target) (ts : List Target) (rules : List Rule) (o : Option Rule)
      → anyb (applies tenant_id flag_id environment t) rules ≡ false
      → Finds ts rules o
      → Finds (t ∷ ts) rules o
  Finds-later t ts rules none free f = never (found_by (t ∷ ts)) rules (λ s at. ground (
    arith,
    never-In (applies tenant_id flag_id environment t) s rules free at,
    never-In (found_by ts) s rules f at,
  ))
  Finds-later t ts rules (some r) free (m, hit, first) = (
    m,
    ground arith,
    never (outranked (t ∷ ts) r) rules (λ s at. ground (
      arith,
      never-In (applies tenant_id flag_id environment t) s rules free at,
      never-In (outranked ts r) s rules first at,
    )),
  )

  first_rule-Finds :
      (ts : List Target) (rules : List Rule)
      → Ascending ts
      → Finds ts rules (first_rule tenant_id flag_id environment rules ts)
  unfolding first_rule
  first_rule-Finds [] rules a = never (λ _. false) rules (λ r m. refl)
  first_rule-Finds (t ∷ ts) rules a =
      elim (Option-cases (find_active_rule tenant_id flag_id environment t rules)) [
        | inr (r, e) ↦
            let here : first_rule tenant_id flag_id environment rules (t ∷ ts) ≡ some r =
              ground arith in
            subst (Finds (t ∷ ts) rules) (sym here)
              (Finds-here t ts rules r a (query-Found t rules r e))
        | inl e ↦
            let later : first_rule tenant_id flag_id environment rules (t ∷ ts)
                ≡ first_rule tenant_id flag_id environment rules ts =
              ground arith in
            subst (Finds (t ∷ ts) rules) (sym later)
              (Finds-later t ts rules _ (query_none t rules e) (first_rule-Finds ts rules a.1))
      ]

  candidates-Ascending :
      (co br us : Option ℕ) (pl : Option Text)
      → Ascending (
          pushed user_target us
          ++ (pushed (branch_target co) br
              ++ (pushed company_target co ++ (tenant_target ∷ pushed plan_target pl))))
  candidates-Ascending none none none none = ground arith
  candidates-Ascending co br us pl = ground arith

  candidates_ascend : (c : Context) → Ascending (build_evaluation_candidates c)
  unfolding build_evaluation_candidates
  candidates_ascend c = candidates-Ascending c.company_id c.branch_id c.user_id c.plan_key

  Finds-Governs :
      (c : Context) (rules : List Rule) (o : Option Rule)
      → Finds (build_evaluation_candidates c) rules o
      → Governs tenant_id flag_id environment c rules o
  Finds-Governs c rules none f = never (concerns tenant_id flag_id environment c) rules (λ s at.
      ground (
        arith,
        found_by_candidates c s,
        never-In (found_by (build_evaluation_candidates c)) s rules f at,
      ))
  Finds-Governs c rules (some r) (m, hit, first) = (
    m,
    ground (arith, found_by_candidates c r),
    never (λ s. concerns tenant_id flag_id environment c s && ltb (rank s) (rank r)) rules
        (λ s at. ground (
          arith,
          found_by_candidates c s,
          never-In (outranked (build_evaluation_candidates c) r) s rules first at,
        )),
  )

  -- The loop of `evaluate` finds the rule that governs.
  pub first_rule-Governs :
      (c : Context) (rules : List Rule)
      → Governs tenant_id flag_id environment c rules
          (first_rule tenant_id flag_id environment rules (build_evaluation_candidates c))
  first_rule-Governs c rules =
      Finds-Governs c rules _
        (first_rule-Finds (build_evaluation_candidates c) rules (candidates_ascend c))

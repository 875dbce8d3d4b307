-- ===== src/Configuration/Resolution.antt =====
-- Which override `resolveEffective` of src/modules/configuration/configuration-repository.js answers
-- with, said without its queries and their order.
use moventra_tms.Base.{
  ℕ, ◌<◌, ◌≡◌, inl, inr, refl, sym, ap, subst, ◌∙◌, Bool, true, false, not, ◌&&◌, Option, none,
  some, List, [], ◌∷◌, arith, ltb, ◌==◌, col_is, is_none, anyb, filterb, All, Option-cases, Result,
  ok, err, >>=-eq-ok, >>-eq-ok,
}
use moventra_tms.Base.Members.{In, head?-In, filterb-In, anyb-filterb, never, never-In}
use moventra_tms.Base.Sql.{opt_map}
use moventra_tms.Base.Json.{Text, Json, null}
use moventra_tms.Base.Inputs.{uuid}
use moventra_tms.Configuration.Domain.{
  ConfigurationError, tenant, company, branch, GivenScope, ConfigurationScope, Definition, allows,
  normalize_configuration_key, normalize_configuration_scope,
}
use moventra_tms.Configuration.Values.{Runtime, normalize_configuration_value}
use moventra_tms.Configuration.Store.{
  is_active, scope_code, Setting, Store, in_scope, find_active_setting, identifier,
  assert_organizational_target, find_active_definition_by_key,
}
use moventra_tms.Configuration.Repository.{
  Effective, first_setting, build_resolution_candidates, effective_value, by_default, not_null,
  resolve_effective, existing_definition,
}

-- A setting's scope holds the requested one.
abbrev pub holds : (scope requested : ConfigurationScope) → Bool
holds c requested = elim c.type [
  | tenant ↦ is_none c.company_id && is_none c.branch_id
  | company ↦
      not (scope_code requested.type == 0)
      && col_is c.company_id requested.company_id
      && is_none c.branch_id
  | branch ↦
      scope_code requested.type == 2
      && col_is c.company_id requested.company_id
      && col_is c.branch_id requested.branch_id
]

-- An active override of the tenant and the definition, at a level that the definition allows.
unfoldable pub counts :
    (tenant_id : ℕ) → Definition → (requested : ConfigurationScope) → Setting → Bool
unfolding allows
counts tenant_id d requested r =
    r.tenant_id == tenant_id
    && r.definition_id == d.id
    && is_active r.status
    && allows d r.scope.type
    && holds r.scope requested

-- The setting counts and none that does is narrower; or none does.
abbrev pub Governs : ℕ → Definition → ConfigurationScope → List Setting → Option Setting → Type 0
Governs tenant_id d requested settings none = anyb (counts tenant_id d requested) settings ≡ false
Governs tenant_id d requested settings (some r) =
    In r settings
    × (counts tenant_id d requested r ≡ true)
    × (anyb
          (λ s.
            counts tenant_id d requested s
            && ltb (scope_code r.scope.type) (scope_code s.scope.type))
          settings
        ≡ false)

module _ (tenant_id definition_id : ℕ) where
  abbrev matches : ConfigurationScope → Setting → Bool
  matches c r =
      r.tenant_id == tenant_id
      && r.definition_id == definition_id
      && is_active r.status
      && in_scope c r.scope

  abbrev found_by : List ConfigurationScope → Setting → Bool
  found_by cs r = anyb (λ c. matches c r) cs

  matches-code :
      (c : ConfigurationScope) (r : Setting)
      → matches c r ≡ true
      → scope_code r.scope.type ≡ scope_code c.type
  unfolding in_scope
  matches-code c r h = ground arith

  abbrev narrower : List ConfigurationScope → Setting → Setting → Bool
  narrower cs r s = found_by cs s && ltb (scope_code r.scope.type) (scope_code s.scope.type)

  abbrev Finds : List ConfigurationScope → List Setting → Option Setting → Type 0
  Finds cs settings none = anyb (found_by cs) settings ≡ false
  Finds cs settings (some r) =
      In r settings × (found_by cs r ≡ true) × (anyb (narrower cs r) settings ≡ false)

  abbrev Descending : List ConfigurationScope → Type 0
  Descending [] = Unit
  Descending (c ∷ cs) = All (λ d. scope_code d.type < scope_code c.type) cs × Descending cs

  found_by-code :
      (n : ℕ) (cs : List ConfigurationScope) (r : Setting)
      → All (λ d. scope_code d.type < n) cs
      → found_by cs r ≡ true
      → scope_code r.scope.type < n
  found_by-code n [] r a h = cc
  found_by-code n (c ∷ cs) r a h = ground (arith, a.0, a.1, matches-code c r, found_by-code n cs r)

  Finds-here :
      (c : ConfigurationScope) (cs : List ConfigurationScope) (settings : List Setting)
      (r : Setting)
      → Descending (c ∷ cs)
      → In r settings
      → matches c r ≡ true
      → Finds (c ∷ cs) settings (some r)
  Finds-here c cs settings r a m hit = (
    m,
    ground arith,
    never (narrower (c ∷ cs) r) settings (λ s at. ground (
      arith,
      matches-code c r hit,
      matches-code c s,
      found_by-code (scope_code c.type) cs s a.0,
    )),
  )

  Finds-later :
      (c : ConfigurationScope) (cs : List ConfigurationScope) (settings : List Setting)
      (o : Option Setting)
      → anyb (matches c) settings ≡ false
      → Finds cs settings o
      → Finds (c ∷ cs) settings o
  Finds-later c cs settings none free f = never (found_by (c ∷ cs)) settings (λ s at.
      ground
        (arith, never-In (matches c) s settings free at, never-In (found_by cs) s settings f at))
  Finds-later c cs settings (some r) free (m, hit, first) = (
    m,
    ground arith,
    never (narrower (c ∷ cs) r) settings (λ s at. ground (
      arith,
      never-In (matches c) s settings free at,
      never-In (narrower cs r) s settings first at,
    )),
  )

  abbrev setting_of : Option (ConfigurationScope × Setting) → Option Setting
  setting_of o = opt_map (λ p. p.1) o

  first_setting-Finds :
      (cs : List ConfigurationScope) (settings : List Setting)
      → Descending cs
      → Finds cs settings (setting_of (first_setting tenant_id definition_id settings cs))
  unfolding first_setting find_active_setting
  first_setting-Finds [] settings a = never (λ _. false) settings (λ r m. refl)
  first_setting-Finds (c ∷ cs) settings a =
      elim (Option-cases (find_active_setting tenant_id definition_id c settings)) [
        | inr (r, e) ↦
            let here : setting_of (first_setting tenant_id definition_id settings (c ∷ cs))
                ≡ some r =
              ground arith in
            let (m, hit) =
              filterb-In (matches c) r settings (head?-In (filterb (matches c) settings) e) in
            subst (Finds (c ∷ cs) settings) (sym here) (Finds-here c cs settings r a m hit)
        | inl e ↦
            let later : setting_of (first_setting tenant_id definition_id settings (c ∷ cs))
                ≡ setting_of (first_setting tenant_id definition_id settings cs) =
              ground arith in
            subst (Finds (c ∷ cs) settings) (sym later) (
              Finds-later c cs settings _ (ground (arith, anyb-filterb (matches c) settings))
                (first_setting-Finds cs settings a.1))
      ]

candidates_descend :
    (d : Definition) (requested : ConfigurationScope)
    → Descending d.id d.id (build_resolution_candidates d requested)
unfolding build_resolution_candidates
candidates_descend d requested = ground arith

found_by_candidates :
    (tenant_id : ℕ) (d : Definition) (requested : ConfigurationScope) (r : Setting)
    → found_by tenant_id d.id (build_resolution_candidates d requested) r
      ≡ counts tenant_id d requested r
unfolding build_resolution_candidates counts in_scope
found_by_candidates tenant_id d requested r = ground arith

Finds-Governs :
    (tenant_id : ℕ) (d : Definition) (requested : ConfigurationScope) (settings : List Setting)
    (o : Option Setting)
    → Finds tenant_id d.id (build_resolution_candidates d requested) settings o
    → Governs tenant_id d requested settings o
Finds-Governs tenant_id d requested settings none f =
    never (counts tenant_id d requested) settings (λ s at. ground (
      arith,
      found_by_candidates tenant_id d requested s,
      never-In (found_by tenant_id d.id (build_resolution_candidates d requested)) s settings f at,
    ))
Finds-Governs tenant_id d requested settings (some r) (m, hit, first) = (
  m,
  ground (arith, found_by_candidates tenant_id d requested r),
  never
      (λ s.
        counts tenant_id d requested s && ltb (scope_code r.scope.type) (scope_code s.scope.type))
      settings
      (λ s at. ground (
        arith,
        found_by_candidates tenant_id d requested s,
        never-In (narrower tenant_id d.id (build_resolution_candidates d requested) r) s settings
            first at,
      )),
)

abbrev answer_value : Result ConfigurationError Effective → Json
answer_value (err thrown) = null
answer_value (ok e) = e.value

abbrev answer_id : Result ConfigurationError Effective → Option ℕ
answer_id (err thrown) = none
answer_id (ok e) = e.setting_id

-- The value of the governing setting, or else the definition's default.
abbrev pub value_of : Definition → Option Setting → Option Json
value_of d (some r) = some r.value
value_of d none = not_null d.default_value

module _ (rt : Runtime) where
  -- What an effective value rests on.
  abbrev pub IsResolved : ℕ → Json → GivenScope → Store → Effective → Type 0
  IsResolved tenant_id key scope_input s e =
      (key_value : Text) × (scope : ConfigurationScope) × (d : Definition)
      × (normalize_configuration_key key ≡ ok key_value)
      × (normalize_configuration_scope scope_input ≡ ok scope)
      × (find_active_definition_by_key key_value s ≡ ok (some d))
      × (governing : Option Setting) × Governs tenant_id d scope s.settings governing
      × (value : Json) × (value_of d governing ≡ some value)
      × (normalize_configuration_value rt d value ≡ ok e.value)
      × (e.setting_id ≡ opt_map Setting.id governing)

  by_default_rests :
      (tenant_id : ℕ) (scope : ConfigurationScope) (d : Definition) (o : Option Json)
      {e : Effective}
      → by_default rt tenant_id scope d o ≡ ok e
      → (value : Json) × (o ≡ some value)
        × (normalize_configuration_value rt d value ≡ ok e.value)
        × (e.setting_id ≡ none)
  unfolding by_default
  by_default_rests tenant_id scope d none h = cc
  by_default_rests tenant_id scope d (some v) h =
      let (value, accepted, answered) = >>=-eq-ok (normalize_configuration_value rt d v) _ h in
      (v, refl, accepted ∙ ap (λ x. ok (answer_value x)) answered, sym (ap answer_id answered))

  effective_value_rests :
      (tenant_id : ℕ) (scope : ConfigurationScope) (d : Definition)
      (o : Option (ConfigurationScope × Setting)) {e : Effective}
      → effective_value rt tenant_id scope d o ≡ ok e
      → (value : Json) × (value_of d (opt_map (λ p. p.1) o) ≡ some value)
        × (normalize_configuration_value rt d value ≡ ok e.value)
        × (e.setting_id ≡ opt_map Setting.id (opt_map (λ p. p.1) o))
  unfolding effective_value
  effective_value_rests tenant_id scope d (some (c, r)) {e} h =
      let (value, accepted, answered) =
        >>=-eq-ok (normalize_configuration_value rt d r.value) _ h in
      (
        r.value,
        refl,
        accepted ∙ ap (λ x. ok (answer_value x)) answered,
        sym (ap answer_id answered),
      )
  effective_value_rests tenant_id scope d none {e} h =
      by_default_rests tenant_id scope d (not_null d.default_value) h

  -- When a configuration is resolved for a tenant and a scope, a setting governs it that counts (an
  -- active override of the tenant and the active definition, whose scope the definition allows and
  -- holds the requested one) and than which no setting that counts is narrower (branch, company,
  -- tenant); or no setting counts. The value is what the definition accepts as the governing setting's
  -- value, or without one as its default, and the governing setting is named.
  pub resolve_effective_governed :
      (tenant_id : ℕ) (key : Json) (scope_input : GivenScope) (s : Store) {e : Effective}
      → resolve_effective rt (uuid tenant_id) key scope_input s ≡ ok e
      → IsResolved tenant_id key scope_input s e
  unfolding resolve_effective identifier
  resolve_effective_governed tenant_id key scope_input s {e} h =
      let (key_value, e1, h1) = >>=-eq-ok (normalize_configuration_key key) _ h in
      let (scope, e2, h2) = >>=-eq-ok (normalize_configuration_scope scope_input) _ h1 in
      let (_, h3) = >>-eq-ok (assert_organizational_target s tenant_id scope) _ h2 in
      let (found, e3, h4) = >>=-eq-ok (find_active_definition_by_key key_value s) _ h3 in
      let (d, e4, h5) = >>=-eq-ok (existing_definition found) _ h4 in
      let candidates = build_resolution_candidates d scope in
      let (value, from, accepted, named) =
        effective_value_rests tenant_id scope d (first_setting tenant_id d.id s.settings candidates)
          h5 in
      (
        key_value,
        scope,
        d,
        e1,
        e2,
        ground arith,
        opt_map (λ p. p.1) (first_setting tenant_id d.id s.settings candidates),
        Finds-Governs tenant_id d scope s.settings _
            (first_setting-Finds tenant_id d.id candidates s.settings (candidates_descend d scope)),
        value,
        from,
        accepted,
        named,
      )

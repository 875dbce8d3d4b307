-- ===== src/Jobs/Registry.antt =====
-- The handlers of the worker (src/modules/jobs/job-handler-registry.js). A handler is a value of the
-- type `H`; the `Map` from job types to registrations is an association list without repetition.
use moventra_tms.Base.{
  ℕ, ◌≡◌, refl, Bool, true, false, not, ◌&&◌, Option, none, some, List, [], ◌∷◌, arith,
  if◌then◌else◌, leb, ◌==◌, length, allb, contains, Result, ok, err, ◌>>=◌, ◌>>◌, guard, is_none,
  ◌≢◌, ◌⊎◌, inl, inr, sym, ap, ◌∙◌, subst, Bool-cases,
}
use moventra_tms.Base.Json.{Text, Json, str, codes}
use moventra_tms.Base.Text.{text_eq}
use moventra_tms.Base.Text.Laws.{text_eq_refl, text_eq_sound}
use moventra_tms.Base.Members.{In, contains-member, member-contains}
use moventra_tms.Jobs.Row.{Scope, tenant, system, Row}
use moventra_tms.Jobs.Types.{TypeError, normalize_job_type}

pub data HandlerScope : Type 0 where
  tenant_only system_only both : HandlerScope

pub data RegistryError : Type 0 where
  job_type_invalid schema_versions_empty schema_version_invalid handler_duplicate : RegistryError
  handler_not_found handler_scope_rejected schema_unsupported : RegistryError

-- `error.code` of an error that `resolve` throws.
unfoldable pub registry_code : RegistryError → Text
registry_code job_type_invalid = codes "MVT_JOB_TYPE_INVALID"
registry_code handler_duplicate = codes "MVT_JOB_HANDLER_DUPLICATE"
registry_code handler_not_found = codes "MVT_JOB_HANDLER_NOT_FOUND"
registry_code handler_scope_rejected = codes "MVT_JOB_HANDLER_SCOPE_REJECTED"
registry_code schema_unsupported = codes "MVT_JOB_SCHEMA_UNSUPPORTED"
registry_code _ = []

typed : Result TypeError Text → Result RegistryError Text
typed (ok type) = ok type
typed (err e) = err job_type_invalid

-- `registration.scope === 'both' || registration.scope === job.scope`
unfoldable pub admits : HandlerScope → Scope → Bool
admits both scope = true
admits tenant_only tenant = true
admits tenant_only system = false
admits system_only tenant = false
admits system_only system = true

pub record Registration (H : Type 0) : Type 0 where
  pub scope : HandlerScope
  pub versions : List ℕ
  pub handler : H

abbrev pub Registry : Type 0 → Type 0
Registry H = List (Text × Registration H)

-- `this.handlers.get(type)`
unfoldable pub get : {H : Type 0} → Registry H → Text → Option (Registration H)
get [] type = none
get ((t, r) ∷ registry) type = if text_eq t type then some r else get registry type

-- The call's argument: the job type, and the rest of the registration.
unfoldable pub register :
    {H : Type 0} → Json → Registration H → Registry H → Result RegistryError (Registry H)
unfolding typed get
register job_type r registry = do
  type ← typed (normalize_job_type job_type)
  guard (not (length r.versions == 0)) schema_versions_empty
  guard (allb (λ v. leb 1 v && leb v 32767) r.versions) schema_version_invalid
  guard (is_none (get registry type)) handler_duplicate
  ok ((type, r) ∷ registry)

-- `job` is `mapJob(row, scope)`: its scope is the repository's.
-- The checks of `resolve` on the registration that it found.
unfoldable pub fits : {H : Type 0} → Option (Registration H) → Scope → ℕ → Result RegistryError H
unfolding admits
fits none scope version = err handler_not_found
fits (some r) scope version = do
  guard (admits r.scope scope) handler_scope_rejected
  guard (contains r.versions version) schema_unsupported
  ok r.handler

unfoldable pub resolve : {H : Type 0} → Registry H → Scope → Row → Result RegistryError H
unfolding typed get fits
resolve registry scope job = do
  type ← typed (normalize_job_type (str job.job_type))
  fits (get registry type) scope job.schema_version

register-inv :
    {H : Type 0} (job_type : Json) (r : Registration H) (registry : Registry H)
    {registry' : Registry H}
    → register job_type r registry ≡ ok registry'
    → (type : Text) × (normalize_job_type job_type ≡ ok type)
      × (get registry type ≡ none)
      × (registry' ≡ (type, r) ∷ registry)
unfolding register
register-inv job_type r registry {registry'} e = go (normalize_job_type job_type) refl e
  where
    go :
        (n : Result TypeError Text)
        → normalize_job_type job_type ≡ n
        → register job_type r registry ≡ ok registry'
        → (type : Text) × (normalize_job_type job_type ≡ ok type)
          × (get registry type ≡ none)
          × (registry' ≡ (type, r) ∷ registry)
    go (err x) s e = absurd (ground arith)
    go (ok type) s e = (type, s, ground arith, ground arith)

resolve-registered :
    {H : Type 0} (job_type : Json) (r : Registration H) (registry : Registry H)
    {registry' : Registry H} (scope : Scope) (job : Row) {type own : Text}
    → register job_type r registry ≡ ok registry'
    → normalize_job_type job_type ≡ ok type
    → normalize_job_type (str job.job_type) ≡ ok own
    → resolve registry' scope job ≡ (
        if text_eq type own
        then fits (some r) scope job.schema_version
        else resolve registry scope job)
unfolding resolve
resolve-registered job_type r registry scope job {type} {own} e n m =
    let (type', n', fresh, same) = register-inv job_type r registry e in
    let eq : type' ≡ type = ground arith in ground arith

-- A registration for `declared` covers the jobs of `scope`.
abbrev pub Covers : (declared : HandlerScope) (scope : Scope) → Type 0
Covers declared scope =
    (declared ≡ both)
    ⊎ ((declared ≡ tenant_only) × (scope ≡ tenant))
    ⊎ ((declared ≡ system_only) × (scope ≡ system))

-- How a job of a scope and a schema version resolves with the registration `r` of its type.
abbrev pub Serves : {H : Type 0} → Registration H → Scope → ℕ → Result RegistryError H → Type 0
Serves r scope version resolved =
    (Covers r.scope scope × In version r.versions × (resolved ≡ ok r.handler))
    ⊎ (¬ Covers r.scope scope × (resolved ≡ err handler_scope_rejected))
    ⊎ (Covers r.scope scope × ¬ In version r.versions × (resolved ≡ err schema_unsupported))

admits-Covers :
    (declared : HandlerScope) (scope : Scope) → admits declared scope ≡ true → Covers declared scope
unfolding admits
admits-Covers both scope e = inl refl
admits-Covers tenant_only tenant e = inr (inl (refl, refl))
admits-Covers tenant_only system e = cc
admits-Covers system_only tenant e = cc
admits-Covers system_only system e = inr (inr (refl, refl))

Covers-admits :
    (declared : HandlerScope) (scope : Scope) → Covers declared scope → admits declared scope ≡ true
unfolding admits
Covers-admits declared scope (inl e) = rw e refl
Covers-admits declared scope (inr (inl (e, s))) = rw (e, s) refl
Covers-admits declared scope (inr (inr (e, s))) = rw (e, s) refl

fits-Serves :
    {H : Type 0} (r : Registration H) (scope : Scope) (version : ℕ)
    → Serves r scope version (fits (some r) scope version)
unfolding fits
fits-Serves r scope version = elim (Bool-cases (admits r.scope scope)) [
  | inr refused ↦ inr (inl ((λ c. cc (refused, Covers-admits r.scope scope c)), rw refused refl))
  | inl admitted ↦ elim (Bool-cases (contains r.versions version)) [
    | inl listed ↦ inl (
      admits-Covers r.scope scope admitted,
      contains-member version r.versions listed,
      rw (admitted, listed) refl,
    )
    | inr missing ↦ inr (
        inr (
          admits-Covers r.scope scope admitted,
          (λ m. cc (missing, member-contains version r.versions m)),
          rw (admitted, missing) refl,
        ))
  ]
]

-- Once a registration is accepted, a job of its normalised type resolves to its handler if its
-- scope is the declared one or `both` is declared and its schema version is listed; else it is
-- refused, for its scope first and then for its version. A job of any other valid type resolves as
-- before.
pub register-resolve :
    {H : Type 0} (job_type : Json) (r : Registration H) (registry : Registry H)
    {registry' : Registry H} (scope : Scope) (job : Row) {type own : Text}
    → register job_type r registry ≡ ok registry'
    → normalize_job_type job_type ≡ ok type
    → normalize_job_type (str job.job_type) ≡ ok own
    → ((own ≡ type) × Serves r scope job.schema_version (resolve registry' scope job))
      ⊎ ((own ≢ type) × (resolve registry' scope job ≡ resolve registry scope job))
register-resolve job_type r registry scope job {type} {own} e n m =
    let by_type = resolve-registered job_type r registry scope job e n m in
    elim (Bool-cases (text_eq type own)) [
      | inl hit ↦ inl (
        sym (text_eq_sound type own hit),
        subst (Serves r scope job.schema_version)
            (sym (
              by_type
              ∙ ap
                  (λ b.
                    if b
                    then fits (some r) scope job.schema_version
                    else resolve registry scope job)
                  hit))
            (fits-Serves r scope job.schema_version),
      )
      | inr miss ↦ inr (
        (λ (s : own ≡ type). cc (miss, s, text_eq_refl type)),
        by_type
            ∙ ap
                (λ b.
                  if b then fits (some r) scope job.schema_version else resolve registry scope job)
                miss,
      )
    ]

-- ===== src/Configuration/Domain.antt =====
-- Keys, scopes, versions and reasons of src/modules/configuration/configuration-domain.js. The objects
-- that it takes are records, so that the tests for an object are left out.
use moventra_tms.Base.{
  ℕ, Bool, true, false, not, ◌&&◌, ◌||◌, Option, none, some, List, [], ◌∷◌, if◌then◌else◌, ltb,
  ◌==◌, length, is_some, is_none, anyb, contains, Result, ok, err, ◌>>=◌, ◌>>◌, guard,
}
use moventra_tms.Base.Json.{Text, Json, str, codes}
use moventra_tms.Base.Text.{text_eq, trim, to_lower_case, to_upper_case}
use moventra_tms.Base.Text.Dotted.{is_dotted}
use moventra_tms.Base.Inputs.{GivenId, absent, malformed, uuid, given_version, given_reason}

-- The codes `MVT_CONFIGURATION_…` of the domain and of the repository. `id_invalid` has the kind in
-- its code, and `unique_violation` is the database's 23505 where nothing catches it.
pub data ConfigurationError : Type 0 where
  key_invalid secret_forbidden scope_invalid scope_not_allowed : ConfigurationError
  type_invalid sensitivity_invalid schema_invalid value_invalid : ConfigurationError
  version_invalid reason_invalid status_invalid : ConfigurationError
  id_invalid : Text → ConfigurationError
  definition_not_found value_missing version_required setting_not_found : ConfigurationError
  version_conflict status_conflict scope_mismatch scope_not_found : ConfigurationError
  definition_not_operational active_conflict unique_violation : ConfigurationError

abbrev pub secret_key_fragments : List Text
secret_key_fragments =
    codes "password"
    ∷ codes "access_token"
    ∷ codes "refresh_token"
    ∷ codes "api_key"
    ∷ codes "apikey"
    ∷ codes "private_key"
    ∷ codes "database_url"
    ∷ codes "credentials"
    ∷ codes "secret_value"
    ∷ []

-- `s.startsWith(t)` and `s.includes(t)`
unfoldable pub starts_with : (s t : Text) → Bool
starts_with s [] = true
starts_with [] (d ∷ t) = false
starts_with (c ∷ s) (d ∷ t) = c == d && starts_with s t

unfoldable pub includes : (s t : Text) → Bool
unfolding starts_with
includes [] t = starts_with [] t
includes (c ∷ s) t = starts_with (c ∷ s) t || includes s t

-- The pattern `/^[a-z][a-z0-9_]*(\.[a-z][a-z0-9_]*){1,7}$/`: that of job types, with no hyphen.
unfoldable pub is_configuration_key : Text → Bool
is_configuration_key key = is_dotted key && not (contains key b'-')

unfoldable pub has_secret : Text → Bool
unfolding includes
has_secret key = anyb (includes key) secret_key_fragments

unfoldable pub checked_key : Text → Result ConfigurationError Text
unfolding is_configuration_key has_secret
checked_key key =
    if ltb (length key) 3 || ltb 160 (length key) || not (is_configuration_key key)
    then err key_invalid
    else if has_secret key
    then err secret_forbidden
    else ok key

unfoldable pub normalize_configuration_key : Json → Result ConfigurationError Text
unfolding checked_key trim to_lower_case
normalize_configuration_key (str s) = checked_key (to_lower_case (trim s))
normalize_configuration_key _ = err key_invalid

pub data ScopeType : Type 0 where
  tenant company branch : ScopeType

pub record GivenScope : Type 0 where
  pub type : Text
  pub company_id : GivenId
  pub branch_id : GivenId

pub record ConfigurationScope : Type 0 where
  pub type : ScopeType
  pub company_id : Option ℕ
  pub branch_id : Option ℕ

unfoldable pub scope_type_named : Text → Result ConfigurationError ScopeType
unfolding text_eq
scope_type_named s =
    if text_eq s (codes "TENANT")
    then ok tenant
    else if text_eq s (codes "COMPANY")
    then ok company
    else if text_eq s (codes "BRANCH")
    then ok branch
    else err scope_invalid

unfoldable pub optional_id : GivenId → Result ConfigurationError (Option ℕ)
optional_id absent = ok none
optional_id malformed = err scope_invalid
optional_id (uuid n) = ok (some n)

unfoldable pub fits_type : ConfigurationScope → Bool
fits_type s = elim s.type [
  | tenant ↦ not (is_some s.company_id || is_some s.branch_id)
  | company ↦ not (is_none s.company_id || is_some s.branch_id)
  | branch ↦ not (is_none s.company_id || is_none s.branch_id)
]

unfoldable pub normalize_configuration_scope :
    GivenScope → Result ConfigurationError ConfigurationScope
unfolding scope_type_named optional_id fits_type trim to_upper_case
normalize_configuration_scope input = do
  type ← scope_type_named (to_upper_case (trim input.type))
  company_id ← optional_id input.company_id
  branch_id ← optional_id input.branch_id
  let scope : ConfigurationScope = record {
    type = type;
    company_id = company_id;
    branch_id = branch_id;
  }
  guard (fits_type scope) scope_invalid
  ok scope

abbrev pub is_given : GivenId → Bool
is_given absent = false
is_given _ = true

unfoldable pub scope_from_configuration_context :
    (company_id branch_id : GivenId) → Result ConfigurationError ConfigurationScope
unfolding normalize_configuration_scope
scope_from_configuration_context company_id branch_id =
    if is_given branch_id
    then normalize_configuration_scope
        (record { type = codes "BRANCH"; company_id = company_id; branch_id = branch_id })
    else if is_given company_id
    then normalize_configuration_scope
        (record { type = codes "COMPANY"; company_id = company_id; branch_id = absent })
    else normalize_configuration_scope
        (record { type = codes "TENANT"; company_id = absent; branch_id = absent })

pub data Status : Type 0 where
  active inactive : Status

-- What the code reads of a row of configuration.definitions.
pub record Definition : Type 0 where
  pub id : ℕ
  pub key : Text
  pub default_value : Option Json
  pub status : Status
  pub version : ℕ
  pub value_type : Text
  pub sensitivity : Option Text
  pub validation_schema : Option Json
  pub allow_tenant_override : Bool
  pub allow_company_override : Bool
  pub allow_branch_override : Bool

unfoldable pub allows : Definition → ScopeType → Bool
allows d tenant = d.allow_tenant_override
allows d company = d.allow_company_override
allows d branch = d.allow_branch_override

unfoldable pub assert_configuration_scope_allowed :
    Definition → GivenScope → Result ConfigurationError ConfigurationScope
unfolding normalize_configuration_scope allows
assert_configuration_scope_allowed definition scope = do
  normalized ← normalize_configuration_scope scope
  guard (allows definition normalized.type) scope_not_allowed
  ok normalized

unfoldable pub normalize_configuration_expected_version : Json → Result ConfigurationError ℕ
unfolding given_version
normalize_configuration_expected_version value = elim (given_version value) [
  | none ↦ err version_invalid
  | some n ↦ ok n
]

unfoldable pub normalize_configuration_reason : Json → Result ConfigurationError (Option Text)
unfolding given_reason
normalize_configuration_reason value = elim (given_reason value) [
  | none ↦ err reason_invalid
  | some reason ↦ ok reason
]

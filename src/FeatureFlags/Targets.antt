-- ===== src/FeatureFlags/Targets.antt =====
-- Normalised targets (src/modules/feature-flags/feature-flag-domain.js).
use moventra_tms.Base.{
  ℕ, ◌≡◌, refl, sym, ap, ◌∙◌, Bool, true, ◌||◌, Option, none, some, [], ◌∷◌, arith, ◌==◌, allb, ok,
  ◌&&◌, is_none, is_some, leb, length, >>=-eq-ok,
}
use moventra_tms.Base.Json.{Text, Json, str, codes}
use moventra_tms.Base.Text.{
  is_space, text_eq, trim, to_lower_case, to_upper_case, is_lower, is_digit,
}
use moventra_tms.Base.Text.Laws.{
  is_plain, trim-lower_of_plain, to_lower_case_of_plain, text_eq_refl,
}
use moventra_tms.FeatureFlags.Domain.{
  TargetType, tenant, company, branch, user, plan, GivenTarget, Target, is_plan_key, plan_key_named,
  normalize_optional_plan_key, normalize_optional_uuid, normalize_uuid, target_type_named,
  has_shape, normalize_feature_flag_target,
}
use moventra_tms.FeatureFlags.Writes.{column, text_column, type_text, as_given}

type_text-named : (t : TargetType) → target_type_named (to_upper_case (trim (type_text t))) ≡ ok t
unfolding target_type_named trim to_upper_case text_eq is_space
type_text-named tenant = refl
type_text-named company = refl
type_text-named branch = refl
type_text-named user = refl
type_text-named plan = refl

column-normal : (o : Option ℕ) (label : Text) → normalize_optional_uuid (column o) label ≡ ok o
unfolding normalize_optional_uuid normalize_uuid
column-normal none label = refl
column-normal (some n) label = refl

abbrev is_plan_unit : ℕ → Bool
is_plan_unit d = is_lower d || is_digit d || d == b'_' || d == b'-'

units_plain : (s : Text) → allb is_plan_unit s ≡ true → allb is_plain s ≡ true
units_plain [] h = refl
units_plain (c ∷ s) h = ground (arith, units_plain s)

is_plan_key-plain : (s : Text) → is_plan_key s ≡ true → allb is_plain s ≡ true
unfolding is_plan_key
is_plan_key-plain [] h = cc
is_plan_key-plain (c ∷ s) h = ground (arith, units_plain s)

plan_key-normal :
    (s k : Text)
    → plan_key_named s ≡ ok (some k)
    → normalize_optional_plan_key (str k) ≡ ok (some k)
unfolding plan_key_named normalize_optional_plan_key
plan_key-normal s [] h = ground arith
plan_key-normal s (c ∷ k) h = ground (arith, trim-lower_of_plain (c ∷ k), is_plan_key-plain (c ∷ k))

optional_plan_key-normal :
    (value : Json) (k : Option Text)
    → normalize_optional_plan_key value ≡ ok k
    → normalize_optional_plan_key (text_column k) ≡ ok k
unfolding normalize_optional_plan_key
optional_plan_key-normal value none h = refl
optional_plan_key-normal (str (c ∷ s)) (some k) h =
    plan_key-normal (to_lower_case (trim (c ∷ s))) k h
optional_plan_key-normal value (some k) h = absurd (ground arith)

shaped-normal :
    (t : Target)
    → has_shape t ≡ true
    → normalize_optional_plan_key (text_column t.plan_key) ≡ ok t.plan_key
    → normalize_feature_flag_target (as_given t) ≡ ok t
unfolding normalize_feature_flag_target
shaped-normal t shape key =
    rw
      (
        type_text-named t.type,
        column-normal t.company_id (codes "companyId"),
        column-normal t.branch_id (codes "branchId"),
        column-normal t.user_id (codes "userId"),
        key,
        shape,
      )
      refl

-- The CHECK constraint ck_feature_flags_rules_target_shape of db/migrations/0013_feature_flags.sql.
unfoldable pub target_shape_ok : Target → Bool
unfolding text_eq
target_shape_ok t =
    let target_type = type_text t.type in
    (text_eq target_type (codes "TENANT")
      && is_none t.company_id
      && is_none t.branch_id
      && is_none t.user_id
      && is_none t.plan_key)
    || (text_eq target_type (codes "COMPANY")
        && is_some t.company_id
        && is_none t.branch_id
        && is_none t.user_id
        && is_none t.plan_key)
    || (text_eq target_type (codes "BRANCH")
        && is_some t.company_id
        && is_some t.branch_id
        && is_none t.user_id
        && is_none t.plan_key)
    || (text_eq target_type (codes "USER")
        && is_none t.company_id
        && is_none t.branch_id
        && is_some t.user_id
        && is_none t.plan_key)
    || (text_eq target_type (codes "PLAN")
        && is_none t.company_id
        && is_none t.branch_id
        && is_none t.user_id
        && is_some t.plan_key)

-- The CHECK constraint ck_feature_flags_rules_plan_key of the same file.
unfoldable pub plan_key_ok : Option Text → Bool
unfolding text_eq
plan_key_ok none = true
plan_key_ok (some k) =
    text_eq k (to_lower_case k) && leb 2 (length k) && leb (length k) 63 && is_plan_key k

has_shape-target_shape_ok : (t : Target) → has_shape t ≡ target_shape_ok t
unfolding has_shape target_shape_ok
has_shape-target_shape_ok t = by_type t.type t.company_id t.branch_id t.user_id t.plan_key
  where
    by_type :
        (type : TargetType) (c b u : Option ℕ) (k : Option Text)
        → (let t : Target = record {
          type = type;
          company_id = c;
          branch_id = b;
          user_id = u;
          plan_key = k;
        } in
            has_shape t ≡ target_shape_ok t)
    by_type tenant c b u k = ground arith
    by_type company c b u k = ground arith
    by_type branch c b u k = ground arith
    by_type user c b u k = ground arith
    by_type plan c b u k = ground arith

named-plan_key_ok : (s : Text) (k : Option Text) → plan_key_named s ≡ ok k → plan_key_ok k ≡ true
unfolding plan_key_named plan_key_ok
named-plan_key_ok s none h = refl
named-plan_key_ok s (some k) h =
    let keyed : is_plan_key k ≡ true = ground arith in
    let least : leb 2 (length k) ≡ true = ground arith in
    let most : leb (length k) 63 ≡ true = ground arith in
    let lower : text_eq k (to_lower_case k) ≡ true =
      rw (to_lower_case_of_plain k (is_plan_key-plain k keyed)) (text_eq_refl k) in
    rw (lower, least, most, keyed) refl

normalize_optional_plan_key-plan_key_ok :
    (value : Json) (k : Option Text)
    → normalize_optional_plan_key value ≡ ok k
    → plan_key_ok k ≡ true
unfolding normalize_optional_plan_key
normalize_optional_plan_key-plan_key_ok (str (c ∷ s)) k h =
    named-plan_key_ok (to_lower_case (trim (c ∷ s))) k h
normalize_optional_plan_key-plan_key_ok value none h = unfold plan_key_ok in refl
normalize_optional_plan_key-plan_key_ok value (some k) h = absurd (ground arith)

-- A normalised target meets the constraints of feature_flags.rules on the ids that go with a
-- target's type and on plan keys, and it is its own normal form.
pub normalize_feature_flag_target-stable :
    (input : GivenTarget) {t : Target}
    → normalize_feature_flag_target input ≡ ok t
    → ((target_shape_ok t ≡ true) × (plan_key_ok t.plan_key ≡ true))
      × (normalize_feature_flag_target (as_given t) ≡ ok t)
unfolding normalize_feature_flag_target
normalize_feature_flag_target-stable input {t} h =
    let (type, _, h1) = >>=-eq-ok (target_type_named (to_upper_case (trim input.type))) _ h in
    let (company_id, _, h2) =
      >>=-eq-ok (normalize_optional_uuid input.company_id (codes "companyId")) _ h1 in
    let (branch_id, _, h3) =
      >>=-eq-ok (normalize_optional_uuid input.branch_id (codes "branchId")) _ h2 in
    let (user_id, _, h4) =
      >>=-eq-ok (normalize_optional_uuid input.user_id (codes "userId")) _ h3 in
    let (plan_key, key, h5) = >>=-eq-ok (normalize_optional_plan_key input.plan_key) _ h4 in
    let shape : has_shape t ≡ true = ground arith in
    let same : t.plan_key ≡ plan_key = ground arith in
    (
      (
        sym (has_shape-target_shape_ok t) ∙ shape,
        normalize_optional_plan_key-plan_key_ok input.plan_key t.plan_key (key ∙ ap ok (sym same)),
      ),
      shaped-normal t shape
          (optional_plan_key-normal input.plan_key t.plan_key (key ∙ ap ok (sym same))),
    )

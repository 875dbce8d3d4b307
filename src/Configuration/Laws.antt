-- ===== src/Configuration/Laws.antt =====
-- About normalising again what src/modules/configuration/configuration-domain.js has normalised, as
-- the repository does with a stored override each time that it is read.
use moventra_tms.Base.{
  ℕ, zero, suc, ◌-◌, ◌≡◌, refl, sym, ap, ◌∙◌, subst, inl, inr, Bool, true, false, not, ◌&&◌, ◌||◌,
  some, [], ◌∷◌, arith, ltb, leb, Bool-cases, Option-cases, length, allb, Result, ok, guard,
  >>=-eq-ok, >>-eq-ok,
}
use moventra_tms.Base.Members.{In, drop, never-In}
use moventra_tms.Base.Json.{Text, Json, bool, num, str, Fields}
use moventra_tms.Base.Text.{
  text_eq, trim, trim_start, is_space, to_lower_case, to_upper_case, upper_unit, is_lower, is_upper,
  is_digit,
}
use moventra_tms.Base.Text.Laws.{is_plain, trim_of_plain, text_eq_refl}
use moventra_tms.Base.Text.Dotted.{is_dotted, is_dotted-stable, is_dotted-lower}
use moventra_tms.Configuration.Domain.{
  ConfigurationError, sensitivity_invalid, value_invalid, Definition, starts_with, includes,
  secret_key_fragments, is_configuration_key, has_secret, checked_key, normalize_configuration_key,
}
use moventra_tms.Configuration.Values.{
  Runtime, ValueType, boolean, integer, decimal_type, string_type, enum_type, json, duration,
  timezone, currency, is_fraction, is_tail, is_digits_tail, is_unsigned, is_decimal, is_alpha_3,
  is_null, is_nonempty, value_type_named, is_sensitivity, normalize_validation_schema,
  normalize_integer, normalize_decimal, checked_decimal, normalize_string, normalize_enum,
  normalize_json, normalize_duration, normalize_timezone, resolved_zone, normalize_currency,
  is_supported, normalize_of_type, normalize_configuration_value,
}

-- Decimals are plain texts.
digits_plain : (s : Text) → allb is_digit s ≡ true → allb is_plain s ≡ true
digits_plain [] h = refl
digits_plain (c ∷ s) h = ground (arith, digits_plain s)

is_fraction-plain : (s : Text) → is_fraction s ≡ true → allb is_plain s ≡ true
unfolding is_fraction
is_fraction-plain [] h = cc
is_fraction-plain (c ∷ s) h = ground (arith, digits_plain s)

is_tail-plain : (s : Text) → is_tail s ≡ true → allb is_plain s ≡ true
unfolding is_tail
is_tail-plain [] h = refl
is_tail-plain (c ∷ s) h = ground (arith, is_fraction-plain s)

is_digits_tail-plain : (s : Text) → is_digits_tail s ≡ true → allb is_plain s ≡ true
unfolding is_digits_tail
is_digits_tail-plain [] h = refl
is_digits_tail-plain (c ∷ s) h = ground (arith, is_digits_tail-plain s, is_fraction-plain s)

is_unsigned-plain : (s : Text) → is_unsigned s ≡ true → allb is_plain s ≡ true
unfolding is_unsigned
is_unsigned-plain [] h = cc
is_unsigned-plain (c ∷ s) h = ground (arith, is_tail-plain s, is_digits_tail-plain s)

is_decimal-plain : (s : Text) → is_decimal s ≡ true → allb is_plain s ≡ true
unfolding is_decimal
is_decimal-plain [] h = cc
is_decimal-plain (c ∷ s) h = ground (arith, is_unsigned-plain s, is_unsigned-plain (c ∷ s))

-- Three letters in upper case.
upper_letter :
    (c : ℕ)
    → (is_lower c || is_upper c) ≡ true
    → (d : ℕ) × (upper_unit c ≡ d ∷ []) × (is_upper d ≡ true)
unfolding upper_unit
upper_letter c h = elim (Bool-cases (is_lower c)) [
  | inl low ↦ (c - 32, ground arith, ground arith)
  | inr other ↦ (c, ground arith, ground arith)
]

abbrev of_upper : ℕ → ℕ → ℕ → Text
of_upper a b c = a ∷ b ∷ c ∷ []

upper_stable :
    (a b c : ℕ)
    → is_upper a ≡ true
    → is_upper b ≡ true
    → is_upper c ≡ true
    → (is_alpha_3 (of_upper a b c) ≡ true)
      × (trim (of_upper a b c) ≡ of_upper a b c)
      × (to_upper_case (of_upper a b c) ≡ of_upper a b c)
unfolding is_alpha_3 trim trim_start is_space to_upper_case upper_unit
upper_stable a b c h k l = (ground arith, ground arith, ground arith)

upper_of_alpha :
    (t : Text)
    → is_alpha_3 t ≡ true
    → (a b c : ℕ) × (to_upper_case t ≡ of_upper a b c)
      × (is_upper a ≡ true)
      × (is_upper b ≡ true)
      × (is_upper c ≡ true)
unfolding is_alpha_3 to_upper_case
upper_of_alpha (x ∷ y ∷ z ∷ []) h =
    let (a, ea, ha) = upper_letter x (ground arith) in
    let (b, eb, hb) = upper_letter y (ground arith) in
    let (c, ec, hc) = upper_letter z (ground arith) in (a, b, c, rw (ea, eb, ec) refl, ha, hb, hc)
upper_of_alpha [] h = cc
upper_of_alpha (x ∷ []) h = cc
upper_of_alpha (x ∷ y ∷ []) h = cc
upper_of_alpha (x ∷ y ∷ z ∷ u ∷ t) h = cc

-- The resolved name of a time zone is a name without spaces around it, of at most 100 units, that
-- resolves to itself.
pub record ResolvesZones (rt : Runtime) : Type 0 where
  pub resolved :
      (zone name : Text)
      → rt.time_zone zone ≡ some name
      → (rt.time_zone name ≡ some name)
        × (trim name ≡ name)
        × (is_nonempty name ≡ true)
        × (ltb 100 (length name) ≡ false)

module _ (rt : Runtime) where
  -- These give the value back as it is.
  normalize_integer-eq :
      (v : Json) (schema : Fields) {w : Json} → normalize_integer rt v schema ≡ ok w → w ≡ v
  unfolding normalize_integer
  normalize_integer-eq (num s) schema h = ground arith
  normalize_integer-eq v schema h = ground arith

  normalize_duration-eq :
      (v : Json) (schema : Fields) {w : Json} → normalize_duration rt v schema ≡ ok w → w ≡ v
  unfolding normalize_duration
  normalize_duration-eq (num s) schema h = ground arith
  normalize_duration-eq v schema h = ground arith

  normalize_string-eq :
      (v : Json) (schema : Fields) {w : Json} → normalize_string rt v schema ≡ ok w → w ≡ v
  unfolding normalize_string
  normalize_string-eq (str s) schema h = ground arith
  normalize_string-eq v schema h = ground arith

  normalize_enum-eq :
      (v : Json) (schema : Fields) {w : Json} → normalize_enum rt v schema ≡ ok w → w ≡ v
  unfolding normalize_enum
  normalize_enum-eq (str s) schema h = ground arith
  normalize_enum-eq v schema h = ground arith

  normalize_json-eq :
      (v : Json) (schema : Fields) {w : Json} → normalize_json rt v schema ≡ ok w → w ≡ v
  unfolding normalize_json
  normalize_json-eq v schema h = ground arith

  again :
      (f : Json → Result ConfigurationError Json) (v : Json) {w : Json}
      → f v ≡ ok w
      → w ≡ v
      → f w ≡ ok w
  again f v h e = ap f e ∙ h

  checked_decimal-eq :
      (d : Text) (schema : Fields) {w : Json}
      → checked_decimal rt d schema ≡ ok w
      → (w ≡ str d) × (is_decimal d ≡ true)
  unfolding checked_decimal
  checked_decimal-eq d schema h = (ground arith, ground arith)

  normalize_decimal-stable :
      (v : Json) (schema : Fields) {w : Json}
      → normalize_decimal rt v schema ≡ ok w
      → normalize_decimal rt w schema ≡ ok w
  unfolding normalize_decimal
  normalize_decimal-stable (str s) schema {w} h =
      let (same, fits) = checked_decimal-eq (trim s) schema h in
      ap (λ x. normalize_decimal rt x schema) same
      ∙ ap (λ t. checked_decimal rt t schema)
          (trim_of_plain (trim s) (is_decimal-plain (trim s) fits))
      ∙ h
  normalize_decimal-stable v schema h = absurd (ground arith)

  normalize_timezone-stable :
      (v : Json) {w : Json}
      → ResolvesZones rt
      → normalize_timezone rt v ≡ ok w
      → normalize_timezone rt w ≡ ok w
  unfolding normalize_timezone resolved_zone
  normalize_timezone-stable (str s) {w} zones h = elim (Option-cases (rt.time_zone (trim s))) [
    | inl unknown ↦ absurd (ground arith)
    | inr (name, known) ↦
        let same : w ≡ str name = ground arith in
        let (own, bare, nonempty, short) = zones.resolved (trim s) name known in
        let fixed : normalize_timezone rt (str name) ≡ ok (str name) = ground arith in
        subst (λ x. normalize_timezone rt x ≡ ok x) (sym same) fixed
  ]
  normalize_timezone-stable v zones h = absurd (ground arith)

  normalize_currency-stable :
      (v : Json) {w : Json} → normalize_currency rt v ≡ ok w → normalize_currency rt w ≡ ok w
  unfolding normalize_currency
  normalize_currency-stable (str s) {w} h =
      let fits : is_alpha_3 (trim s) ≡ true = ground arith in
      let same : w ≡ str (to_upper_case (trim s)) = ground arith in
      let (a, b, c, upper, ha, hb, hc) = upper_of_alpha (trim s) fits in
      let (alpha, bare, fixed) = upper_stable a b c ha hb hc in
      let known : is_supported rt (of_upper a b c) ≡ true =
        ap (is_supported rt) (sym upper) ∙ ground arith in
      let again : normalize_currency rt (str (of_upper a b c)) ≡ ok (str (of_upper a b c)) =
        ground arith in
      subst (λ x. normalize_currency rt x ≡ ok x) (sym (same ∙ ap str upper)) again
  normalize_currency-stable v h = absurd (ground arith)

  normalize_of_type-stable :
      (t : ValueType) (v : Json) (schema : Fields) {w : Json}
      → ResolvesZones rt
      → normalize_of_type rt t v schema ≡ ok w
      → normalize_of_type rt t w schema ≡ ok w
  unfolding normalize_of_type
  normalize_of_type-stable boolean (bool b) schema {w} zones h =
      again (λ x. normalize_of_type rt boolean x schema) (bool b) h (ground arith)
  normalize_of_type-stable boolean v schema zones h = absurd (ground arith)
  normalize_of_type-stable integer v schema zones h =
      again (λ x. normalize_integer rt x schema) v h (normalize_integer-eq v schema h)
  normalize_of_type-stable decimal_type v schema zones h = normalize_decimal-stable v schema h
  normalize_of_type-stable string_type v schema zones h =
      again (λ x. normalize_string rt x schema) v h (normalize_string-eq v schema h)
  normalize_of_type-stable enum_type v schema zones h =
      again (λ x. normalize_enum rt x schema) v h (normalize_enum-eq v schema h)
  normalize_of_type-stable json v schema zones h =
      again (λ x. normalize_json rt x schema) v h (normalize_json-eq v schema h)
  normalize_of_type-stable duration v schema zones h =
      again (λ x. normalize_duration rt x schema) v h (normalize_duration-eq v schema h)
  normalize_of_type-stable timezone v schema zones h = normalize_timezone-stable v zones h
  normalize_of_type-stable currency v schema zones h = normalize_currency-stable v h

  kept_value : (v : Json) {w : Json} → w ≡ v → is_null v ≡ false → is_null w ≡ false
  kept_value v e h = ap is_null e ∙ h

  text_not_null :
      (t : ValueType) (v : Json) (schema : Fields) {w : Json}
      → is_null v ≡ false
      → normalize_of_type rt t v schema ≡ ok w
      → is_null w ≡ false
  unfolding normalize_of_type normalize_decimal normalize_timezone resolved_zone normalize_currency
  text_not_null boolean (bool b) schema n h = kept_value (bool b) (ground arith) n
  text_not_null boolean v schema n h = absurd (ground arith)
  text_not_null integer v schema n h = kept_value v (normalize_integer-eq v schema h) n
  text_not_null decimal_type (str s) schema n h =
      ap is_null (checked_decimal-eq (trim s) schema h).0
  text_not_null decimal_type v schema n h = absurd (ground arith)
  text_not_null string_type v schema n h = kept_value v (normalize_string-eq v schema h) n
  text_not_null enum_type v schema n h = kept_value v (normalize_enum-eq v schema h) n
  text_not_null json v schema n h = kept_value v (normalize_json-eq v schema h) n
  text_not_null duration v schema n h = kept_value v (normalize_duration-eq v schema h) n
  text_not_null timezone v schema {w} n h = ground arith
  text_not_null currency v schema {w} n h = ground arith

  -- If the runtime resolves time zones to names that resolve to themselves, then a value that a
  -- definition accepts is accepted again as it was normalised, and stays as it is.
  pub normalize_configuration_value-stable :
      (definition : Definition) (value : Json) {w : Json}
      → ResolvesZones rt
      → normalize_configuration_value rt definition value ≡ ok w
      → normalize_configuration_value rt definition w ≡ ok w
  unfolding normalize_configuration_value
  normalize_configuration_value-stable definition value {w} zones h =
      let (t, e1, h1) = >>=-eq-ok (value_type_named (to_upper_case definition.value_type)) _ h in
      let (e2, h2) =
        >>-eq-ok (guard (is_sensitivity definition.sensitivity) sensitivity_invalid) _ h1 in
      let (e3, h3) = >>-eq-ok (guard (not (is_null value)) value_invalid) _ h2 in
      let (schema, e4, h4) =
        >>=-eq-ok (normalize_validation_schema rt definition.validation_schema) _ h3 in
      let fixed = normalize_of_type-stable t value schema zones h4 in
      let filled : is_null w ≡ false = text_not_null t value schema (ground arith) h4 in
      rw (e1, e2, filled, e4) fixed

-- The CHECK constraint ck_configuration_definitions_key.
unfoldable pub key_ok : Text → Bool
unfolding is_configuration_key
key_ok key =
    text_eq key (to_lower_case key)
    && leb 3 (length key)
    && leb (length key) 160
    && is_configuration_key key

dotted_key : (key : Text) → is_configuration_key key ≡ true → is_dotted key ≡ true
unfolding is_configuration_key
dotted_key key h = ground arith

-- What a key that is accepted has passed.
checked_key-eq-ok :
    (s : Text) {key : Text}
    → checked_key s ≡ ok key
    → ((key ≡ s)
        × ((ltb (length key) 3 || ltb 160 (length key)) ≡ false)
        × (is_configuration_key key ≡ true))
      × (has_secret key ≡ false)
unfolding checked_key
checked_key-eq-ok s h = (ground arith, ground arith)

nowhere : (s t : Text) (place : ℕ) → includes s t ≡ false → starts_with (drop place s) t ≡ false
unfolding includes
nowhere [] t zero h = h
nowhere (c ∷ s) t zero h = ground arith
nowhere [] t (suc n) h = h
nowhere (c ∷ s) t (suc n) h = nowhere s t n (ground arith)

-- A normalised key is its own normal form, meets the CHECK constraint of
-- db/migrations/0012_configuration.sql, and holds none of the secret fragments at any place.
pub normalize_configuration_key-stable :
    (value : Json) (place : ℕ) (fragment : Text) {key : Text}
    → In fragment secret_key_fragments
    → normalize_configuration_key value ≡ ok key
    → (normalize_configuration_key (str key) ≡ ok key)
      × (key_ok key ≡ true)
      × (starts_with (drop place key) fragment ≡ false)
unfolding normalize_configuration_key checked_key key_ok has_secret
normalize_configuration_key-stable (str s) place fragment {key} m h =
    let (canonical, secret_free) = checked_key-eq-ok (to_lower_case (trim s)) h in
    let pattern : is_configuration_key key ≡ true = canonical.2 in
    let dotted : is_dotted key ≡ true = dotted_key key pattern in
    (
      ground (arith, is_dotted-stable key dotted, canonical),
      ground (arith, text_eq_refl key, is_dotted-lower key dotted, canonical),
      nowhere key fragment place
          (never-In (includes key) fragment secret_key_fragments secret_free m),
    )
normalize_configuration_key-stable value place fragment m h = absurd (ground arith)

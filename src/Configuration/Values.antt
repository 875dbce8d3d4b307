-- ===== src/Configuration/Values.antt =====
-- normalizeConfigurationValue of src/modules/configuration/configuration-domain.js. A value is a JSON
-- value, which `JSON.parse(JSON.stringify(value))` gives back. What the code asks of the runtime is a
-- record of functions.
use moventra_tms.Base.{
  ℕ, ◌+◌, max, Bool, true, false, not, ◌&&◌, ◌||◌, Option, none, some, List, [], ◌∷◌, if◌then◌else◌,
  ltb, leb, ◌==◌, length, allb, Result, ok, err, ◌>>=◌, ◌>>◌, guard,
}
use moventra_tms.Base.Json.{
  Text, Json, null, bool, num, str, arr, obj, Items, nil, cons, Fields, end, field, codes,
}
use moventra_tms.Base.Text.{text_eq, one_of, trim, to_upper_case, is_lower, is_upper, is_digit}
use moventra_tms.Base.Inputs.{decimal}
use moventra_tms.Configuration.Domain.{
  ConfigurationError, type_invalid, sensitivity_invalid, schema_invalid, value_invalid, Definition,
}

-- `<` on numbers as JSON spells them; `Number(text)`, if it is finite; the length in bytes of a
-- value's JSON text; `new RegExp(pattern, 'u').test(text)`, where `none` is a pattern that is refused;
-- the resolved name of a time zone, if it is known; and the supported currencies, if there is a list.
pub record Runtime : Type 0 where
  pub less : Text → Text → Bool
  pub number : Text → Option Text
  pub bytes : Json → ℕ
  pub test : (pattern text : Text) → Option Bool
  pub time_zone : Text → Option Text
  pub currencies : Option (List Text)

pub data ValueType : Type 0 where
  boolean integer decimal_type string_type enum_type json duration timezone currency : ValueType

unfoldable pub value_type_named : Text → Result ConfigurationError ValueType
unfolding text_eq
value_type_named s =
    if text_eq s (codes "BOOLEAN")
    then ok boolean
    else if text_eq s (codes "INTEGER")
    then ok integer
    else if text_eq s (codes "DECIMAL")
    then ok decimal_type
    else if text_eq s (codes "STRING")
    then ok string_type
    else if text_eq s (codes "ENUM")
    then ok enum_type
    else if text_eq s (codes "JSON")
    then ok json
    else if text_eq s (codes "DURATION")
    then ok duration
    else if text_eq s (codes "TIMEZONE")
    then ok timezone
    else if text_eq s (codes "CURRENCY")
    then ok currency
    else err type_invalid

-- `definition.sensitivity ?? 'INTERNAL'`
unfoldable pub is_sensitivity : Option Text → Bool
unfolding one_of to_upper_case
is_sensitivity none = true
is_sensitivity (some s) =
    one_of (codes "PUBLIC" ∷ codes "INTERNAL" ∷ codes "CONFIDENTIAL" ∷ []) (to_upper_case s)

abbrev pub is_null : Json → Bool
is_null null = true
is_null _ = false

-- `schema[name]`
unfoldable pub property : Text → Fields → Option Json
unfolding text_eq
property name end = none
property name (field n v rest) = if text_eq n name then some v else property name rest

-- `Number.isSafeInteger`, on the spelling of a number.
unfoldable pub is_safe_natural : Text → Bool
unfolding decimal
is_safe_natural [] = false
is_safe_natural (c ∷ s) =
    allb is_digit (c ∷ s) && leb (length s) 15 && leb (decimal (c ∷ s)) 9007199254740991

unfoldable pub is_safe_integer : Text → Bool
unfolding is_safe_natural
is_safe_integer [] = false
is_safe_integer (c ∷ s) = if c == b'-' then is_safe_natural s else is_safe_natural (c ∷ s)

unfoldable pub optional_safe_integer :
    Option Json → (minimum maximum : ℕ) → Result ConfigurationError (Option ℕ)
unfolding is_safe_natural decimal
optional_safe_integer none minimum maximum = ok none
optional_safe_integer (some null) minimum maximum = ok none
optional_safe_integer (some (num s)) minimum maximum =
    if is_safe_natural s && leb minimum (decimal s) && leb (decimal s) maximum
    then ok (some (decimal s))
    else err schema_invalid
optional_safe_integer (some _) minimum maximum = err schema_invalid

-- The pattern `/^-?(?:0|[1-9][0-9]*)(?:\.[0-9]+)?$/`
unfoldable pub is_fraction : Text → Bool
is_fraction [] = false
is_fraction (c ∷ s) = is_digit c && allb is_digit s

unfoldable pub is_tail : Text → Bool
unfolding is_fraction
is_tail [] = true
is_tail (c ∷ s) = c == b'.' && is_fraction s

unfoldable pub is_digits_tail : Text → Bool
unfolding is_fraction
is_digits_tail [] = true
is_digits_tail (c ∷ s) =
    let rest = is_digits_tail s in if is_digit c then rest else c == b'.' && is_fraction s

unfoldable pub is_unsigned : Text → Bool
unfolding is_tail is_digits_tail
is_unsigned [] = false
is_unsigned (c ∷ s) = if c == b'0' then is_tail s else is_digit c && is_digits_tail s

unfoldable pub is_decimal : Text → Bool
unfolding is_unsigned
is_decimal [] = false
is_decimal (c ∷ s) = if c == b'-' then is_unsigned s else is_unsigned (c ∷ s)

-- `jsonDepth`
unfoldable mutual
  pub json_depth : Json → ℕ
  json_depth (arr xs) = 1 + items_depth xs
  json_depth (obj fs) = 1 + fields_depth fs
  json_depth _ = 1

  pub items_depth : Items → ℕ
  items_depth nil = 0
  items_depth (cons v xs) = max (json_depth v) (items_depth xs)

  pub fields_depth : Fields → ℕ
  fields_depth end = 0
  fields_depth (field n v fs) = max (json_depth v) (fields_depth fs)

-- The texts of an array, if it has nothing else.
unfoldable pub texts_of : Items → Option (List Text)
texts_of nil = some []
texts_of (cons (str s) xs) = elim (texts_of xs) [ none ↦ none | some ss ↦ some (s ∷ ss) ]
texts_of (cons _ xs) = none

abbrev pub is_nonempty : Text → Bool
is_nonempty [] = false
is_nonempty (c ∷ s) = true

-- `schema.allowedValues`, checked.
unfoldable pub allowed_values : Option Json → Result ConfigurationError (List Text)
unfolding texts_of
allowed_values (some (arr xs)) = elim (texts_of xs) [
  | none ↦ err schema_invalid
  | some ss ↦
      if ltb (length ss) 1 || ltb 200 (length ss) || not (allb is_nonempty ss)
      then err schema_invalid
      else ok ss
]
allowed_values _ = err schema_invalid

-- Three letters: the pattern `/^[A-Za-z]{3}$/`.
abbrev pub is_letter : ℕ → Bool
is_letter c = is_lower c || is_upper c

unfoldable pub is_alpha_3 : Text → Bool
is_alpha_3 (a ∷ b ∷ c ∷ []) = is_letter a && is_letter b && is_letter c
is_alpha_3 _ = false

-- `value ?? fallback`
abbrev pub or_else : Option ℕ → ℕ → ℕ
or_else none fallback = fallback
or_else (some n) fallback = n

module _ (rt : Runtime) where
  unfoldable pub normalize_validation_schema : Option Json → Result ConfigurationError Fields
  normalize_validation_schema none = ok end
  normalize_validation_schema (some null) = ok end
  normalize_validation_schema (some (obj fs)) =
      if ltb 16384 (rt.bytes (obj fs)) then err schema_invalid else ok fs
  normalize_validation_schema (some _) = err schema_invalid

  -- One bound of `assertNumericBounds`; `beyond` compares the value with it.
  unfoldable pub assert_bound :
      Option Json → (beyond : Text → Bool) → Result ConfigurationError (Unit {0})
  assert_bound none beyond = ok tt
  assert_bound (some (num bound)) beyond = guard (not (beyond bound)) value_invalid
  assert_bound (some _) beyond = err schema_invalid

  unfoldable pub assert_numeric_bounds : Text → Fields → Result ConfigurationError (Unit {0})
  unfolding assert_bound property
  assert_numeric_bounds value schema = do
    assert_bound (property (codes "minimum") schema) (λ bound. rt.less value bound)
    assert_bound (property (codes "maximum") schema) (λ bound. rt.less bound value)

  unfoldable pub normalize_integer : Json → Fields → Result ConfigurationError Json
  unfolding is_safe_integer assert_numeric_bounds
  normalize_integer (num s) schema = do
    guard (is_safe_integer s) value_invalid
    assert_numeric_bounds s schema
    ok (num s)
  normalize_integer _ schema = err value_invalid

  unfoldable pub checked_decimal : Text → Fields → Result ConfigurationError Json
  unfolding is_decimal assert_numeric_bounds
  checked_decimal d schema =
      if not (is_decimal d) || ltb 80 (length d) then err value_invalid else elim (rt.number d) [
        | none ↦ err value_invalid
        | some comparable ↦ assert_numeric_bounds comparable schema >> ok (str d)
      ]

  unfoldable pub normalize_decimal : Json → Fields → Result ConfigurationError Json
  unfolding checked_decimal trim
  normalize_decimal (str s) schema = checked_decimal (trim s) schema
  normalize_decimal _ schema = err value_invalid

  unfoldable pub assert_pattern : Option Json → Text → Result ConfigurationError (Unit {0})
  assert_pattern (some (str pattern)) s = elim (rt.test pattern s) [
    | none ↦ err schema_invalid
    | some matches ↦ guard matches value_invalid
  ]
  assert_pattern _ s = ok tt

  unfoldable pub normalize_string : Json → Fields → Result ConfigurationError Json
  unfolding optional_safe_integer property assert_pattern
  normalize_string (str s) schema = do
    min_length ← optional_safe_integer (property (codes "minLength") schema) 0 100000
    max_length ← optional_safe_integer (property (codes "maxLength") schema) 0 100000
    guard (leb (or_else min_length 0) (length s)) value_invalid
    guard (leb (length s) (or_else max_length (length s))) value_invalid
    assert_pattern (property (codes "pattern") schema) s
    ok (str s)
  normalize_string _ schema = err value_invalid

  unfoldable pub normalize_enum : Json → Fields → Result ConfigurationError Json
  unfolding allowed_values property one_of
  normalize_enum (str s) schema = do
    allowed ← allowed_values (property (codes "allowedValues") schema)
    guard (one_of allowed s) value_invalid
    ok (str s)
  normalize_enum _ schema = err value_invalid

  unfoldable pub normalize_json : Json → Fields → Result ConfigurationError Json
  unfolding optional_safe_integer property json_depth
  normalize_json value schema = do
    max_bytes ← optional_safe_integer (property (codes "maxBytes") schema) 1 1048576
    max_depth ← optional_safe_integer (property (codes "maxDepth") schema) 1 32
    guard (leb (rt.bytes value) (or_else max_bytes 65536)) value_invalid
    guard (leb (json_depth value) (or_else max_depth 8)) value_invalid
    ok value

  unfoldable pub normalize_duration : Json → Fields → Result ConfigurationError Json
  unfolding is_safe_natural assert_numeric_bounds
  normalize_duration (num s) schema = do
    guard (is_safe_natural s) value_invalid
    assert_numeric_bounds s schema
    ok (num s)
  normalize_duration _ schema = err value_invalid

  unfoldable pub resolved_zone : Text → Result ConfigurationError Json
  resolved_zone zone = elim (rt.time_zone zone) [
    | none ↦ err value_invalid
    | some name ↦ ok (str name)
  ]

  unfoldable pub normalize_timezone : Json → Result ConfigurationError Json
  unfolding resolved_zone trim
  normalize_timezone (str s) =
      if not (is_nonempty (trim s)) || ltb 100 (length s)
      then err value_invalid
      else resolved_zone (trim s)
  normalize_timezone _ = err value_invalid

  -- `supported.includes(currency)`, where the runtime has the list.
  unfoldable pub is_supported : Text → Bool
  unfolding one_of
  is_supported currency_code = elim rt.currencies [
    | none ↦ true
    | some supported ↦ one_of supported currency_code
  ]

  unfoldable pub normalize_currency : Json → Result ConfigurationError Json
  unfolding is_alpha_3 is_supported trim to_upper_case
  normalize_currency (str s) =
      if is_alpha_3 (trim s) && is_supported (to_upper_case (trim s))
      then ok (str (to_upper_case (trim s)))
      else err value_invalid
  normalize_currency _ = err value_invalid

  -- The `switch` over the value type.
  unfoldable pub normalize_of_type : ValueType → Json → Fields → Result ConfigurationError Json
  unfolding normalize_integer normalize_decimal normalize_string normalize_enum normalize_json
      normalize_duration normalize_timezone normalize_currency
  normalize_of_type boolean (bool b) schema = ok (bool b)
  normalize_of_type boolean _ schema = err value_invalid
  normalize_of_type integer value schema = normalize_integer value schema
  normalize_of_type decimal_type value schema = normalize_decimal value schema
  normalize_of_type string_type value schema = normalize_string value schema
  normalize_of_type enum_type value schema = normalize_enum value schema
  normalize_of_type json value schema = normalize_json value schema
  normalize_of_type duration value schema = normalize_duration value schema
  normalize_of_type timezone value schema = normalize_timezone value
  normalize_of_type currency value schema = normalize_currency value

  -- `null` is undefined, too.
  unfoldable pub normalize_configuration_value : Definition → Json → Result ConfigurationError Json
  unfolding value_type_named is_sensitivity normalize_validation_schema normalize_of_type
      to_upper_case
  normalize_configuration_value definition value = do
    value_type ← value_type_named (to_upper_case definition.value_type)
    guard (is_sensitivity definition.sensitivity) sensitivity_invalid
    guard (not (is_null value)) value_invalid
    schema ← normalize_validation_schema definition.validation_schema
    normalize_of_type value_type value schema

-- A confidential value is not shown to the audit.
unfoldable pub configuration_audit_value : Definition → Json → Json
unfolding text_eq
configuration_audit_value definition value = elim definition.sensitivity [
  | none ↦ value
  | some s ↦
      if text_eq s (codes "CONFIDENTIAL")
      then obj (field (codes "redacted") (bool true) end)
      else value
]

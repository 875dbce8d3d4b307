-- ===== src/FeatureFlags/Rollout.antt =====
-- The rollout of feature-flag-domain.js: the bucket of a subject and the decision by it. The SHA-256
-- digest is of node:crypto; its first 64 bits, as a big-endian number, are a parameter, and so is
-- the spelling of a UUID.
use moventra_tms.Base.{
  ℕ, ◌%◌, ◌≤◌, ◌<◌, ◌≡◌, Bool, true, false, ◌&&◌, Option, none, some, [], ◌∷◌, ◌++◌, arith,
  if◌then◌else◌, ltb, ◌==◌, Result, ok, err, ◌>>=◌,
}
use moventra_tms.Base.Int.{pos}
use moventra_tms.Base.Json.{Text, str, codes}
use moventra_tms.Base.Text.{trim, to_lower_case}
use moventra_tms.FeatureFlags.Domain.{
  FlagError, bucket_subject_invalid, hash_version_unsupported, bucket_invalid,
  normalize_feature_flag_key, integer, normalize_feature_flag_rollout_basis_points,
}

abbrev pub sha256_first_64_mod_10000 : ℕ
sha256_first_64_mod_10000 = 1

-- `!subject.trim()`
abbrev pub is_empty : Text → Bool
is_empty [] = true
is_empty (c ∷ s) = false

unfoldable pub bucket_of_subject :
    (first_64 : Text → ℕ) → (key subject : Text) → (hash_version : ℕ) → Result FlagError ℕ
bucket_of_subject first_64 key subject hash_version =
    if is_empty subject
    then err bucket_subject_invalid
    else if hash_version == sha256_first_64_mod_10000
    then ok (first_64 (key ++ codes ":" ++ to_lower_case subject) % 10000)
    else err hash_version_unsupported

unfoldable pub stable_feature_flag_bucket :
    (first_64 : Text → ℕ) → (flag_key subject : Text) → (hash_version : ℕ) → Result FlagError ℕ
unfolding bucket_of_subject trim
stable_feature_flag_bucket first_64 flag_key subject hash_version = do
  key ← normalize_feature_flag_key (str flag_key)
  bucket_of_subject first_64 key (trim subject) hash_version

unfoldable pub feature_flag_rollout_decision :
    (enabled : Bool) → (rollout_basis_points bucket : ℕ) → Result FlagError Bool
unfolding normalize_feature_flag_rollout_basis_points
feature_flag_rollout_decision enabled rollout_basis_points bucket = do
  rollout ← normalize_feature_flag_rollout_basis_points (integer (pos rollout_basis_points))
  if ltb 9999 bucket then err bucket_invalid else ok (enabled && ltb bucket rollout)

-- `user ?? tenant`
unfoldable pub feature_flag_bucket_subject : (tenant_id : ℕ) → (user_id : Option ℕ) → ℕ
feature_flag_bucket_subject tenant_id none = tenant_id
feature_flag_bucket_subject tenant_id (some user_id) = user_id

pub bucket_in_range :
    (first_64 : Text → ℕ) (flag_key subject : Text) (hash_version : ℕ) {bucket : ℕ}
    → stable_feature_flag_bucket first_64 flag_key subject hash_version ≡ ok bucket
    → bucket < 10000
unfolding stable_feature_flag_bucket bucket_of_subject
bucket_in_range first_64 flag_key subject hash_version h = ground arith

-- When a subject is in a rollout under the bucket of its flag and its id, then it is in every wider
-- rollout of at most 10000 basis points, the full one included; it is not in a rollout of 0 basis
-- points; and it is in none while the flag is not enabled.
pub rollout_widens :
    (first_64 : Text → ℕ) (flag_key subject : Text) (hash_version narrow wide bucket : ℕ)
    (set : Bool)
    → stable_feature_flag_bucket first_64 flag_key subject hash_version ≡ ok bucket
    → feature_flag_rollout_decision set narrow bucket ≡ ok true
    → narrow ≤ wide
    → wide ≤ 10000
    → (feature_flag_rollout_decision set wide bucket ≡ ok true)
      × (feature_flag_rollout_decision set 10000 bucket ≡ ok true)
      × (feature_flag_rollout_decision set 0 bucket ≡ ok false)
      × (feature_flag_rollout_decision false narrow bucket ≡ ok false)
unfolding feature_flag_rollout_decision
rollout_widens first_64 flag_key subject hash_version narrow wide bucket set h inside le top =
    ground (arith, bucket_in_range first_64 flag_key subject hash_version h)

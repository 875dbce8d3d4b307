-- ===== src/FeatureFlags/Reach.antt =====
-- Sequences of the writes of src/modules/feature-flags/feature-flag-repository.js. A write that
-- throws rolls its transaction back.
use moventra_tms.Base.{
  ℕ, ◌≡◌, ◌⊎◌, refl, not, Option, none, some, List, [], ◌∷◌, arith, inl, inr, ◌==◌, Bool-cases,
  Result, ok, err, guard, >>=-eq-ok, >>-eq-ok,
}
use moventra_tms.Base.Json.{Text, Json, codes}
use moventra_tms.Base.Text.{trim, to_upper_case}
use moventra_tms.Base.Inputs.{GivenId}
use moventra_tms.FeatureFlags.Domain.{
  Status, FlagError, version_conflict, normalize_uuid, normalize_feature_flag_key,
  normalize_optional_rule_environment, normalize_feature_flag_target,
  normalize_feature_flag_rollout_basis_points, normalize_feature_flag_reason,
  normalize_feature_flag_expected_version, status_conflict,
}
use moventra_tms.FeatureFlags.Store.{
  Rule, RuleVersion, Store, assert_target, find_active_flag_by_key, find_active_rule_by_target,
  find_rule_with_flag, find_rule_version, restored,
}
use moventra_tms.FeatureFlags.Writes.{
  Written, PutInput, StatusInput, RestoreInput, normalize_enabled, operational, new_rule, put_onto,
  is_null, create_rule, update_rule, put_rule, status_named, existing, recorded, may_be, change_to,
  same_status, change_rule, with_status, as_in, transition_rule_status, restore_rule_version,
  target_from_rule,
}
use moventra_tms.FeatureFlags.Targets.{normalize_feature_flag_target-stable}
use moventra_tms.FeatureFlags.Histories.{
  IsNormal, IsSound, create_rule-IsSound, update_rule-IsSound, change_rule-IsSound,
}

pub data Write : Type 0 where
  put : (new_id : ℕ) → (tenant_id : GivenId) → (key : Json) → PutInput → Write
  transition : (tenant_id rule_id : GivenId) → StatusInput → Write
  restore : (tenant_id rule_id : GivenId) → RestoreInput → Write

unfoldable pub write : Write → Store → Result FlagError Written
unfolding put_rule transition_rule_status restore_rule_version
write (put new_id tenant_id key input) s = put_rule new_id tenant_id key input s
write (transition tenant_id rule_id input) s = transition_rule_status tenant_id rule_id input s
write (restore tenant_id rule_id input) s = restore_rule_version tenant_id rule_id input s

-- The end of a successful put.
pub put_rule-eq-ok :
    (new_id : ℕ) (tenant_id : GivenId) (key : Json) (input : PutInput) (s : Store) {w : Written}
    → put_rule new_id tenant_id key input s ≡ ok w
    → (current : Option Rule) × (fresh : Rule) × (reason : Option Text) × IsNormal fresh
      × (put_onto s current fresh input.expected_version reason ≡ ok w)
unfolding put_rule target_from_rule
put_rule-eq-ok new_id tenant_id key input s e =
    let (t, _, e1) = >>=-eq-ok (normalize_uuid tenant_id (codes "TENANT")) _ e in
    let (flag_key, _, e2) = >>=-eq-ok (normalize_feature_flag_key key) _ e1 in
    let (environment, _, e3) =
      >>=-eq-ok (normalize_optional_rule_environment input.environment) _ e2 in
    let (target, normal, e4) = >>=-eq-ok (normalize_feature_flag_target input.target) _ e3 in
    let (enabled, _, e5) = >>=-eq-ok (normalize_enabled input.enabled) _ e4 in
    let (rollout, _, e6) =
      >>=-eq-ok (normalize_feature_flag_rollout_basis_points input.rollout_basis_points) _ e5 in
    let (reason, _, e7) = >>=-eq-ok (normalize_feature_flag_reason input.reason) _ e6 in
    let (_, e8) = >>-eq-ok (assert_target s t target) _ e7 in
    let (found, _, e9) = >>=-eq-ok (find_active_flag_by_key flag_key s.flags) _ e8 in
    let (flag, _, e10) = >>=-eq-ok (operational found) _ e9 in
    (
      find_active_rule_by_target t flag.id environment target s.rules,
      new_rule new_id t flag.id environment target enabled rollout,
      reason,
      (normalize_feature_flag_target-stable input.target normal).1,
      e10,
    )

-- It creates the rule or updates the current one.
pub put_onto-cases :
    (s : Store) (current : Option Rule) (fresh : Rule) (expected : Json) (reason : Option Text)
    {w : Written}
    → put_onto s current fresh expected reason ≡ ok w
    → (create_rule s fresh reason ≡ ok w)
      ⊎ ((r : Rule) × (v : ℕ) × (update_rule s fresh.tenant_id r fresh.enabled
              fresh.rollout_basis_points v reason
            ≡ ok w))
unfolding put_onto
put_onto-cases s none fresh expected reason {w} e = elim (Bool-cases (is_null expected)) [
  | inl missing ↦ inl (ground arith)
  | inr given ↦ absurd (ground (arith, normalize_feature_flag_expected_version expected))
]
put_onto-cases s (some current) fresh expected reason {w} e = elim (Bool-cases (is_null expected)) [
  | inl missing ↦ absurd (ground arith)
  | inr given ↦
      let (v, _, e1) =
        >>=-eq-ok (normalize_feature_flag_expected_version expected) _ (rw given at e) in
      let (_, e2) = >>-eq-ok (guard (current.version == v) version_conflict) _ e1 in
      inr (current, v, e2)
]

-- The UPDATE of a successful transition.
pub transition_rule_status-eq-ok :
    (tenant_id rule_id : GivenId) (input : StatusInput) (s : Store) {w : Written}
    → transition_rule_status tenant_id rule_id input s ≡ ok w
    → (t id v : ℕ) × (to_status : Status) × (reason : Option Text) × (normalize_uuid tenant_id
          (codes "TENANT")
        ≡ ok t)
      × (normalize_uuid rule_id (codes "RULE") ≡ ok id)
      × (normalize_feature_flag_expected_version input.expected_version ≡ ok v)
      × (change_rule s t id v (with_status to_status) (change_to to_status) reason ≡ ok w)
unfolding transition_rule_status
transition_rule_status-eq-ok tenant_id rule_id input s e =
    let (t, h1, e1) = >>=-eq-ok (normalize_uuid tenant_id (codes "TENANT")) _ e in
    let (id, h2, e2) = >>=-eq-ok (normalize_uuid rule_id (codes "RULE")) _ e1 in
    let (v, h3, e3) =
      >>=-eq-ok (normalize_feature_flag_expected_version input.expected_version) _ e2 in
    let (reason, _, e4) = >>=-eq-ok (normalize_feature_flag_reason input.reason) _ e3 in
    let (to_status, _, e5) = >>=-eq-ok (status_named (to_upper_case (trim input.to_status))) _ e4 in
    let (current, _, e6) = >>=-eq-ok (existing (find_rule_with_flag t id s)) _ e5 in
    let (_, e7) = >>-eq-ok (guard (current.0.version == v) version_conflict) _ e6 in
    let (_, e8) =
      >>-eq-ok (guard (not (same_status current.0.status to_status)) status_conflict) _ e7 in
    let (_, e9) = >>-eq-ok (may_be s t to_status current.0 current.1) _ e8 in
    (t, id, v, to_status, reason, h1, h2, h3, e9)

pub restore_rule_version-eq-ok :
    (tenant_id rule_id : GivenId) (input : RestoreInput) (s : Store) {w : Written}
    → restore_rule_version tenant_id rule_id input s ≡ ok w
    → (t id v : ℕ) × (historical : RuleVersion) × (reason : Option Text) × (normalize_uuid tenant_id
          (codes "TENANT")
        ≡ ok t)
      × (normalize_uuid rule_id (codes "RULE") ≡ ok id)
      × (normalize_feature_flag_expected_version input.expected_version ≡ ok v)
      × (change_rule s t id v (as_in historical) restored reason ≡ ok w)
unfolding restore_rule_version
restore_rule_version-eq-ok tenant_id rule_id input s e =
    let (t, h1, e1) = >>=-eq-ok (normalize_uuid tenant_id (codes "TENANT")) _ e in
    let (id, h2, e2) = >>=-eq-ok (normalize_uuid rule_id (codes "RULE")) _ e1 in
    let (v, h3, e3) =
      >>=-eq-ok (normalize_feature_flag_expected_version input.expected_version) _ e2 in
    let (old, _, e4) =
      >>=-eq-ok (normalize_feature_flag_expected_version input.restore_version) _ e3 in
    let (reason, _, e5) = >>=-eq-ok (normalize_feature_flag_reason input.reason) _ e4 in
    let (current, _, e6) = >>=-eq-ok (existing (find_rule_with_flag t id s)) _ e5 in
    let (_, e7) = >>-eq-ok (guard (current.0.version == v) version_conflict) _ e6 in
    let (historical, _, e8) =
      >>=-eq-ok (recorded (find_rule_version t id old s.rule_versions)) _ e7 in
    let (_, e9) = >>-eq-ok (may_be s t historical.status current.0 current.1) _ e8 in
    (t, id, v, historical, reason, h1, h2, h3, e9)

pub write-IsSound :
    (c : Write) (s : Store) {w : Written} → IsSound s → write c s ≡ ok w → IsSound w.0
unfolding write target_from_rule
write-IsSound (put new_id tenant_id key input) s h e =
    let (current, fresh, reason, normal, e') = put_rule-eq-ok new_id tenant_id key input s e in
    elim (put_onto-cases s current fresh input.expected_version reason e') [
      | inl made ↦ create_rule-IsSound s fresh reason h normal made
      | inr (r, v, changed) ↦
          update_rule-IsSound s fresh.tenant_id r fresh.enabled fresh.rollout_basis_points v reason
            h changed
    ]
write-IsSound (transition tenant_id rule_id input) s h e =
    let (t, id, v, to_status, reason, _, _, _, changed) =
      transition_rule_status-eq-ok tenant_id rule_id input s e in
    change_rule-IsSound s t id v (with_status to_status) (change_to to_status) reason h (λ x. refl)
      (λ x. refl) (λ x p. p) changed
write-IsSound (restore tenant_id rule_id input) s h e =
    let (t, id, v, historical, reason, _, _, _, changed) =
      restore_rule_version-eq-ok tenant_id rule_id input s e in
    change_rule-IsSound s t id v (as_in historical) restored reason h (λ x. refl) (λ x. refl)
      (λ x p. p) changed

-- One transaction after the other.
abbrev pub settled : Store → Result FlagError Written → Store
settled s (err thrown) = s
settled s (ok w) = w.0

unfoldable pub run_writes : List Write → Store → Store
unfolding write
run_writes [] s = s
run_writes (c ∷ cs) s = run_writes cs (settled s (write c s))

settled-IsSound :
    (c : Write) (s : Store) (o : Result FlagError Written)
    → IsSound s
    → write c s ≡ o
    → IsSound (settled s o)
settled-IsSound c s (err thrown) h e = h
settled-IsSound c s (ok w) h e = write-IsSound c s h e

abbrev pub without_rules : Store → Store
without_rules s = record s { rules = []; rule_versions = [] }

without_rules-IsSound : (s : Store) → IsSound (without_rules s)
without_rules-IsSound s = record {
  history = record { keyed = tt; present = λ k r e. cc; past = tt };
  alone = λ r q m n c. absurd m;
  placed = tt;
}

run_writes-keeps : (cs : List Write) (s : Store) → IsSound s → IsSound (run_writes cs s)
unfolding run_writes
run_writes-keeps [] s h = h
run_writes-keeps (c ∷ cs) s h =
    run_writes-keeps cs (settled s (write c s)) (settled-IsSound c s (write c s) h refl)

-- After any sequence of writes on tables with no rules and no versions, whatever the other tables
-- hold, ids of rules are unique, each rule's present version is in the history as the rule shows it,
-- every version in the history is of a rule that is there and no later than its present one, no two
-- active rules have the same tenant, flag, target and environment, every target is its own
-- normal form, and every rule's flag is there.
pub run_writes-IsSound : (cs : List Write) (s : Store) → IsSound (run_writes cs (without_rules s))
run_writes-IsSound cs s = run_writes-keeps cs (without_rules s) (without_rules-IsSound s)

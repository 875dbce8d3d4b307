-- ===== src/Configuration/Reach.antt =====
-- Sequences of the writes of src/modules/configuration/configuration-repository.js.
use moventra_tms.Base.{
  ℕ, ◌≡◌, refl, not, Option, none, some, List, [], ◌∷◌, arith, inl, inr, ◌==◌, Bool-cases, Result,
  ok, err, guard, >>=-eq-ok, >>-eq-ok,
}
use moventra_tms.Base.Json.{Text, Json, codes}
use moventra_tms.Base.Text.{trim, to_upper_case}
use moventra_tms.Base.Inputs.{GivenId}
use moventra_tms.Configuration.Domain.{
  ConfigurationError, active, scope_not_allowed, scope_mismatch, version_conflict, status_conflict,
  normalize_configuration_key, normalize_configuration_scope,
  normalize_configuration_expected_version, normalize_configuration_reason, allows,
}
use moventra_tms.Configuration.Values.{Runtime, is_null, normalize_configuration_value}
use moventra_tms.Configuration.Store.{
  Setting, Store, identifier, assert_organizational_target, find_active_definition_by_key,
  find_active_setting, find_setting_with_definition,
}
use moventra_tms.Configuration.Statements.{Written, create_override, put_onto}
use moventra_tms.Configuration.Repository.{
  PutInput, StatusInput, put_override, transition_override_status, existing_definition,
  status_named, existing, same_scope, same_status, may_be,
}
use moventra_tms.Configuration.Histories.{
  IsSound, create_override-IsSound, update_override-IsSound, change_status-IsSound,
}

put_onto-IsSound :
    (s : Store) (current : Option Setting) (fresh : Setting) (expected : Json)
    (reason : Option Text) {w : Written}
    → IsSound s
    → fresh.status ≡ active
    → put_onto s current fresh expected reason ≡ ok w
    → IsSound w.0
unfolding put_onto
put_onto-IsSound s none fresh expected reason {w} h on e = elim (Bool-cases (is_null expected)) [
  | inl missing ↦
      let made : create_override s fresh reason ≡ ok w = ground arith in
      create_override-IsSound s fresh reason h on made
  | inr given ↦ absurd (ground (arith, normalize_configuration_expected_version expected))
]
put_onto-IsSound s (some current) fresh expected reason {w} h on e =
    elim (Bool-cases (is_null expected)) [
      | inl missing ↦ absurd (ground arith)
      | inr given ↦
          let (v, _, e1) =
            >>=-eq-ok (normalize_configuration_expected_version expected) _ (rw given at e) in
          let (_, e2) = >>-eq-ok (guard (current.version == v) version_conflict) _ e1 in
          update_override-IsSound s fresh.tenant_id current.id fresh.value v reason h e2
    ]

pub data Write : Type 0 where
  put : (new_id : ℕ) → (tenant_id : GivenId) → (key : Json) → PutInput → Write
  transition : (tenant_id setting_id : GivenId) → StatusInput → Write

abbrev pub settled : Store → Result ConfigurationError Written → Store
settled s (err thrown) = s
settled s (ok w) = w.0

abbrev pub without_settings : Store → Store
without_settings s = record s { settings = []; setting_versions = [] }

module _ (rt : Runtime) where
  unfoldable pub write : Write → Store → Result ConfigurationError Written
  unfolding put_override transition_override_status
  write (put new_id tenant_id key input) s = put_override rt new_id tenant_id key input s
  write (transition tenant_id setting_id input) s =
      transition_override_status rt tenant_id setting_id input s

  put_override-IsSound :
      (new_id : ℕ) (tenant_id : GivenId) (key : Json) (input : PutInput) (s : Store) {w : Written}
      → IsSound s
      → put_override rt new_id tenant_id key input s ≡ ok w
      → IsSound w.0
  unfolding put_override
  put_override-IsSound new_id tenant_id key input s h e =
      let (t, _, e1) = >>=-eq-ok (identifier tenant_id (codes "TENANT")) _ e in
      let (key_value, _, e2) = >>=-eq-ok (normalize_configuration_key key) _ e1 in
      let (scope, _, e3) = >>=-eq-ok (normalize_configuration_scope input.scope) _ e2 in
      let (reason, _, e4) = >>=-eq-ok (normalize_configuration_reason input.reason) _ e3 in
      let (_, e5) = >>-eq-ok (assert_organizational_target s t scope) _ e4 in
      let (found, _, e6) = >>=-eq-ok (find_active_definition_by_key key_value s) _ e5 in
      let (d, _, e7) = >>=-eq-ok (existing_definition found) _ e6 in
      let (_, e8) = >>-eq-ok (guard (allows d scope.type) scope_not_allowed) _ e7 in
      let (value, _, e9) = >>=-eq-ok (normalize_configuration_value rt d input.value) _ e8 in
      put_onto-IsSound s (find_active_setting t d.id scope s.settings) _ input.expected_version
        reason h refl e9

  transition-IsSound :
      (tenant_id setting_id : GivenId) (input : StatusInput) (s : Store) {w : Written}
      → IsSound s
      → transition_override_status rt tenant_id setting_id input s ≡ ok w
      → IsSound w.0
  unfolding transition_override_status
  transition-IsSound tenant_id setting_id input s h e =
      let (t, _, e1) = >>=-eq-ok (identifier tenant_id (codes "TENANT")) _ e in
      let (id, _, e2) = >>=-eq-ok (identifier setting_id (codes "SETTING")) _ e1 in
      let (scope, _, e3) = >>=-eq-ok (normalize_configuration_scope input.scope) _ e2 in
      let (v, _, e4) =
        >>=-eq-ok (normalize_configuration_expected_version input.expected_version) _ e3 in
      let (reason, _, e5) = >>=-eq-ok (normalize_configuration_reason input.reason) _ e4 in
      let (to_status, _, e6) =
        >>=-eq-ok (status_named (to_upper_case (trim input.to_status))) _ e5 in
      let (current, _, e7) = >>=-eq-ok (existing (find_setting_with_definition t id s)) _ e6 in
      let (_, e8) = >>-eq-ok (guard (same_scope current.0 scope) scope_mismatch) _ e7 in
      let (_, e9) = >>-eq-ok (assert_organizational_target s t scope) _ e8 in
      let (_, e10) = >>-eq-ok (guard (current.0.version == v) version_conflict) _ e9 in
      let (_, e11) =
        >>-eq-ok (guard (not (same_status current.0.status to_status)) status_conflict) _ e10 in
      let (_, e12) = >>-eq-ok (may_be rt to_status scope current.0 current.1) _ e11 in
      change_status-IsSound s t id v to_status reason h e12

  write-IsSound : (c : Write) (s : Store) {w : Written} → IsSound s → write c s ≡ ok w → IsSound w.0
  unfolding write
  write-IsSound (put new_id tenant_id key input) s h e =
      put_override-IsSound new_id tenant_id key input s h e
  write-IsSound (transition tenant_id setting_id input) s h e =
      transition-IsSound tenant_id setting_id input s h e

  unfoldable pub run_writes : List Write → Store → Store
  unfolding write
  run_writes [] s = s
  run_writes (c ∷ cs) s = run_writes cs (settled s (write c s))

  settled-IsSound :
      (c : Write) (s : Store) (o : Result ConfigurationError Written)
      → IsSound s
      → write c s ≡ o
      → IsSound (settled s o)
  settled-IsSound c s (err thrown) h e = h
  settled-IsSound c s (ok w) h e = write-IsSound c s h e

  run_writes-keeps : (cs : List Write) (s : Store) → IsSound s → IsSound (run_writes cs s)
  unfolding run_writes
  run_writes-keeps [] s h = h
  run_writes-keeps (c ∷ cs) s h =
      run_writes-keeps cs (settled s (write c s)) (settled-IsSound c s (write c s) h refl)

  -- After any sequence of writes on tables with no settings and no versions, whatever the other tables
  -- hold, ids of settings are unique, each setting's present version is in the history with its status
  -- and, if it is active, its value, and with no value if it is inactive, every version in the history
  -- is of a setting that is there and no later than its present one, and no two active settings have
  -- the same tenant, definition and scope.
  pub overrides-IsSound :
      (cs : List Write) (s : Store) → IsSound (run_writes cs (without_settings s))
  overrides-IsSound cs s = run_writes-keeps cs (without_settings s) (record {
    history = record { keyed = tt; present = λ k r e. cc; past = tt };
    alone = λ r q m n c. absurd m;
  })

-- ===== src/FeatureFlags/Versions.antt =====
-- The versions of rules in src/modules/feature-flags/feature-flag-repository.js: what a successful
-- write does to those who read an earlier version, and how a version comes back.
use moventra_tms.Base.{
  ℕ, ◌+◌, ◌≡◌, ◌≢◌, inl, inr, refl, sym, ap, subst, ◌∙◌, Bool, true, false, ◌&&◌, Option, none,
  some, List, [], ◌∷◌, ◌++◌, arith, ◌==◌, Option-cases, ok, err,
}
use moventra_tms.Base.Sql.{find, find-key, find-append, find-All, update, Unique}
use moventra_tms.Base.History.{revise, revise-Revises, find-revised}
use moventra_tms.Base.Json.{Text}
use moventra_tms.Base.Text.{trim, to_upper_case}
use moventra_tms.Base.Inputs.{uuid}
use moventra_tms.FeatureFlags.Domain.{
  Status, version_conflict, normalize_uuid, normalize_feature_flag_reason,
  normalize_feature_flag_expected_version,
}
use moventra_tms.FeatureFlags.Store.{
  Flag, Rule, Store, ChangeType, created, updated, restored, find_rule, find_rule_with_flag,
}
use moventra_tms.FeatureFlags.Writes.{
  Written, StatusInput, RestoreInput, transition_rule_status, restore_rule_version, status_named,
  version_of, with_value, with_status, as_in, is_version, is_active_version, change_to,
}
use moventra_tms.FeatureFlags.Histories.{
  IsSound, IsPlaced, create_rule-eq-ok, update_rule-eq-ok, change_rule-eq-ok,
}
use moventra_tms.FeatureFlags.Reach.{
  Write, put, transition, restore, write, write-IsSound, transition_rule_status-eq-ok,
  restore_rule_version-eq-ok, put_rule-eq-ok, put_onto-cases,
}

-- What a write of a rule keeps: all but its value, its status and its version, the next one.
abbrev pub Amends : Rule → Rule → Type 0
Amends r r' = r' ≡ record r {
  enabled = r'.enabled;
  rollout_basis_points = r'.rollout_basis_points;
  status = r'.status;
  version = r.version + 1;
}

abbrev pub logged : Store → List Rule → Rule → ChangeType → Option Text → Store
logged s rules r change_type reason = record s {
  rules = rules;
  rule_versions = s.rule_versions ++ version_of r change_type reason ∷ [];
}

-- A successful write adds the rule, or amends the rule that is there.
pub data Effect (s : Store) (w : Written) : Type 0 where
  added :
      (change_type : ChangeType) (reason : Option Text)
      → find Rule.id w.1.id s.rules ≡ none
      → w.0 ≡ logged s (s.rules ++ w.1 ∷ []) w.1 change_type reason
      → Effect s w
  amended :
      (change_type : ChangeType) (reason : Option Text) (q : Rule → Bool) (f : Rule → Rule)
      (r : Rule)
      → ((x : Rule) → Amends x (f x))
      → find Rule.id w.1.id s.rules ≡ some r
      → q r ≡ true
      → w.1 ≡ f r
      → w.0 ≡ logged s (update (λ x. x.id == w.1.id && q x) f s.rules) w.1 change_type reason
      → Effect s w

revised-Effect :
    (s : Store) (k : ℕ) (q : Rule → Bool) (f : Rule → Rule) (change_type : ChangeType)
    (reason : Option Text) (rules : List Rule) (r' : Rule)
    → IsSound s
    → ((x : Rule) → Amends x (f x))
    → revise Rule.id k q f s.rules ≡ some (rules, r')
    → Effect s (logged s rules r' change_type reason, r', change_type)
revised-Effect s k q f change_type reason rules r' h amends e =
    let (r, found, fits, same, table) = revise-Revises Rule.id k q f s.rules h.history.keyed e in
    let id : k ≡ r'.id = sym (ap Rule.id (same ∙ amends r) ∙ find-key Rule.id k s.rules found) in
    amended change_type reason q f r amends (subst (λ j. find Rule.id j s.rules ≡ some r) id found)
      fits same
      (ap (λ u. logged s u r' change_type reason)
        (subst (λ j. rules ≡ update (λ x. x.id == j && q x) f s.rules) id table))

pub write-Effect : (c : Write) (s : Store) {w : Written} → IsSound s → write c s ≡ ok w → Effect s w
unfolding write
write-Effect (put new_id tenant_id key input) s h e =
    let (current, fresh, reason, normal, e1) = put_rule-eq-ok new_id tenant_id key input s e in
    elim (put_onto-cases s current fresh input.expected_version reason e1) [
      | inl made ↦
          let (free, _, _, same) = create_rule-eq-ok s fresh reason made in
          subst (Effect s) (sym same) (added created reason free refl)
      | inr (r, v, changed) ↦
          let (rules, r', e2, same) =
            update_rule-eq-ok s fresh.tenant_id r fresh.enabled fresh.rollout_basis_points v reason
              changed in
          subst (Effect s) (sym same) (
            revised-Effect s r.id (is_active_version fresh.tenant_id v)
              (with_value fresh.enabled fresh.rollout_basis_points) updated reason rules r' h
              (λ x. refl) e2)
    ]
write-Effect (transition tenant_id rule_id input) s h e =
    let (t, id, v, to_status, reason, _, _, _, changed) =
      transition_rule_status-eq-ok tenant_id rule_id input s e in
    let (rules, r', e1, _, same) =
      change_rule-eq-ok s t id v (with_status to_status) (change_to to_status) reason changed in
    subst (Effect s) (sym same) (
      revised-Effect s id (is_version t v) (with_status to_status) (change_to to_status) reason
        rules r' h (λ x. refl) e1)
write-Effect (restore tenant_id rule_id input) s h e =
    let (t, id, v, historical, reason, _, _, _, changed) =
      restore_rule_version-eq-ok tenant_id rule_id input s e in
    let (rules, r', e1, _, same) =
      change_rule-eq-ok s t id v (as_in historical) restored reason changed in
    subst (Effect s) (sym same) (
      revised-Effect s id (is_version t v) (as_in historical) restored reason rules r' h (λ x. refl)
        e1)

-- The written rule is in the table.
pub Effect-stored :
    (s : Store) (w : Written) → Effect s w → find Rule.id w.1.id w.0.rules ≡ some w.1
Effect-stored s w (added ct reason free same) =
    ap (λ (x : Store). find Rule.id w.1.id x.rules) same
    ∙ ground (arith, find-append Rule.id w.1.id s.rules w.1 free)
Effect-stored s w (amended ct reason q f r amends found fits now same) =
    ap (λ (x : Store). find Rule.id w.1.id x.rules) same
    ∙ find-revised Rule.id w.1.id w.1.id q f s.rules r (λ x. ap Rule.id (amends x)) found fits
    ∙ ground arith

find_rule_by_id :
    (tenant_id id : ℕ) (rules : List Rule) (r : Rule)
    → Unique Rule.id rules
    → find Rule.id id rules ≡ some r
    → r.tenant_id ≡ tenant_id
    → find_rule tenant_id id rules ≡ some r
unfolding find_rule
find_rule_by_id tenant_id id [] r u e t = cc
find_rule_by_id tenant_id id (x ∷ rules) r u e t =
    ground (arith, find_rule_by_id tenant_id id rules r u.1)

-- The rule of a sound store, read with its flag.
pub find_sound :
    (s : Store) (r : Rule)
    → IsSound s
    → find Rule.id r.id s.rules ≡ some r
    → (flag : Flag) × (find_rule_with_flag r.tenant_id r.id s ≡ some (r, flag))
      × (find Flag.id r.flag_id s.flags ≡ some flag)
unfolding find_rule_with_flag
find_sound s r h found =
    let (_, flagged) = find-All Rule.id (IsPlaced s.flags) r.id s.rules h.placed found in
    elim (Option-cases (find Flag.id r.flag_id s.flags)) [
      | inl e ↦ absurd (ground arith)
      | inr (flag, e) ↦ (
        flag,
        ground (arith, find_rule_by_id r.tenant_id r.id s.rules r h.history.keyed found refl),
        e,
      )
    ]

-- Who read a version of the rule other than the one that a write on a sound store made cannot change
-- the rule's status, nor restore a version of it: both report a version conflict, if the rest of
-- their input is valid.
pub write_outdates :
    (c : Write) (s : Store) (change : StatusInput) (back : RestoreInput) (v old : ℕ)
    (reason reason' : Option Text) (to_status : Status) {w : Written}
    → IsSound s
    → write c s ≡ ok w
    → v ≢ w.1.version
    → normalize_feature_flag_expected_version change.expected_version ≡ ok v
    → normalize_feature_flag_reason change.reason ≡ ok reason
    → status_named (to_upper_case (trim change.to_status)) ≡ ok to_status
    → normalize_feature_flag_expected_version back.expected_version ≡ ok v
    → normalize_feature_flag_expected_version back.restore_version ≡ ok old
    → normalize_feature_flag_reason back.reason ≡ ok reason'
    → (transition_rule_status (uuid w.1.tenant_id) (uuid w.1.id) change w.0 ≡ err version_conflict)
      × (restore_rule_version (uuid w.1.tenant_id) (uuid w.1.id) back w.0 ≡ err version_conflict)
unfolding transition_rule_status restore_rule_version normalize_uuid
write_outdates c s change back v old reason reason' to_status {w} h e stale h1 h2 h3 h4 h5 h6 =
    let (flag, there, _) =
      find_sound w.0 w.1 (write-IsSound c s h e) (Effect-stored s w (write-Effect c s h e)) in
    let differs : (w.1.version == v) ≡ false = ground arith in
    (rw (h1, h2, h3, there, differs) refl, rw (h4, h5, h6, there, differs) refl)

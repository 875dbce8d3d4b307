-- ===== src/FeatureFlags/Histories.antt =====
-- What the writes of src/modules/feature-flags/feature-flag-repository.js keep of the rules and of
-- their versions.
use moventra_tms.Base.{
  ℕ, ◌+◌, ◌≡◌, inl, inr, refl, sym, ap, subst, ◌∙◌, Bool, true, false, ◌&&◌, Option, none, some,
  List, [], ◌∷◌, ◌++◌, arith, ◌==◌, Option-cases, is_some, opt_eq, >>=-eq-ok, All, All-append, ok,
}
use moventra_tms.Base.Sql.{opt_map, find, find-key, All-update}
use moventra_tms.Base.Members.{In, find-In}
use moventra_tms.Base.History.{
  revise, revise-Revises, IsHistory, insert-IsHistory, revise-IsHistory,
}
use moventra_tms.Base.Singletons.{
  violates, HasSingletons, clear_of_violates, insert-HasSingletons, revise-HasSingletons,
}
use moventra_tms.Base.Json.{Text}
use moventra_tms.Base.Text.{text_eq}
use moventra_tms.Base.Text.Laws.{text_eq_sound, text_eq_refl}
use moventra_tms.FeatureFlags.Domain.{Target}
use moventra_tms.FeatureFlags.Store.{
  is_active, Flag, Rule, RuleVersion, ChangeType, created, updated, Store, text_is, type_code,
  environment_code, same_environment,
}
use moventra_tms.FeatureFlags.Writes.{
  same_columns, same_active_target, Written, version_of, append_rule_version, insert_rule,
  create_rule, is_version, is_active_version, with_value, update_rule, change_rule,
  target_from_rule, has_references,
}

-- A version in the history keeps what the rule shows.
abbrev pub Shows : Rule → RuleVersion → Type 0
Shows r v =
    (v.tenant_id ≡ r.tenant_id)
    × (v.enabled ≡ r.enabled)
    × (v.rollout_basis_points ≡ r.rollout_basis_points)
    × (v.status ≡ r.status)

abbrev pub HasHistory : List Rule → List RuleVersion → Type 0
HasHistory rules versions =
    IsHistory Rule.id Rule.version RuleVersion.rule_id RuleVersion.rule_version Shows rules versions

-- The CHECK constraint on the target's shape, and on the plan's key: the target is in normal form.
abbrev pub IsNormal : Rule → Type 0
IsNormal r = target_from_rule r ≡ ok r.target

-- The rule's flag is there, too, as its foreign key wants.
abbrev pub IsPlaced : List Flag → Rule → Type 0
IsPlaced flags r = IsNormal r × (is_some (find Flag.id r.flag_id flags) ≡ true)

-- The ids of rules are unique, each rule's present version is in the history as the rule shows it, no
-- version in the history is of a rule or a version that is not there, an active rule of a target
-- stands alone, targets are in normal form, and flags are there.
pub record IsSound (s : Store) : Type 0 where
  pub history : HasHistory s.rules s.rule_versions
  pub alone : HasSingletons Rule.id same_active_target s.rules
  pub placed : All (IsPlaced s.flags) s.rules

text_is_sym : (a b : Option Text) → text_is a b ≡ true → text_is b a ≡ true
text_is_sym none b h = cc
text_is_sym (some a) none h = cc
text_is_sym (some a) (some b) h =
    subst (λ t. text_eq t a ≡ true) (text_eq_sound a b h) (text_eq_refl a)

same_columns_sym :
    (a b : Target)
    → (type_code a.type == type_code b.type) ≡ true
    → same_columns a b ≡ true
    → same_columns b a ≡ true
unfolding same_columns
same_columns_sym a b e h = ground (arith, text_is_sym a.plan_key b.plan_key)

abbrev AllTrue : (a b c d e f g : Bool) → Type 0
AllTrue a b c d e f g =
    (a ≡ true) × (b ≡ true) × (c ≡ true) × (d ≡ true) × (e ≡ true) × (f ≡ true) × (g ≡ true)

conjuncts :
    (a b c d e f g : Bool) → (a && b && c && d && e && f && g) ≡ true → AllTrue a b c d e f g
conjuncts a b c d e f g h = ground arith

conjunction :
    (a b c d e f g : Bool) → AllTrue a b c d e f g → (a && b && c && d && e && f && g) ≡ true
conjunction a b c d e f g h = ground arith

==_sym : (a b : ℕ) → (a == b) ≡ true → (b == a) ≡ true
==_sym a b h = ground arith

opt_eq_sym : (a b : Option ℕ) → opt_eq a b ≡ true → opt_eq b a ≡ true
opt_eq_sym a b h = ground arith

pub same_active_target_sym :
    (r s : Rule) → same_active_target r s ≡ true → same_active_target s r ≡ true
unfolding same_active_target
same_active_target_sym r s h =
    let (a, b, c, d, e, f, g) =
      conjuncts (is_active r.status) (is_active s.status) (r.tenant_id == s.tenant_id)
        (r.flag_id == s.flag_id) (type_code r.target.type == type_code s.target.type)
        (same_columns r.target s.target) (same_environment r.environment s.environment) h in
    conjunction (is_active s.status) (is_active r.status) (s.tenant_id == r.tenant_id)
      (s.flag_id == r.flag_id) (type_code s.target.type == type_code r.target.type)
      (same_columns s.target r.target) (same_environment s.environment r.environment)
      (
        b,
        a,
        ==_sym r.tenant_id s.tenant_id c,
        ==_sym r.flag_id s.flag_id d,
        ==_sym (type_code r.target.type) (type_code s.target.type) e,
        same_columns_sym r.target s.target e f,
        opt_eq_sym (opt_map environment_code r.environment) (opt_map environment_code s.environment)
            g,
      )

-- What a successful write makes of the tables.
pub append_rule_version-eq-ok :
    (s : Store) (r : Rule) (change_type : ChangeType) (reason : Option Text) {w : Written}
    → append_rule_version s r change_type reason ≡ ok w
    → w ≡ (
      record s { rule_versions = s.rule_versions ++ version_of r change_type reason ∷ [] },
      r,
      change_type,
    )
unfolding append_rule_version
append_rule_version-eq-ok s r change_type reason h = ground arith

pub insert_rule-eq-ok :
    (s : Store) (r : Rule) {s' : Store}
    → insert_rule s r ≡ ok s'
    → (find Rule.id r.id s.rules ≡ none)
      × (violates Rule.id same_active_target r s.rules ≡ false)
      × (is_some (find Flag.id r.flag_id s.flags) ≡ true)
      × (s' ≡ record s { rules = s.rules ++ r ∷ [] })
unfolding insert_rule has_references
insert_rule-eq-ok s r h = ground arith

pub create_rule-eq-ok :
    (s : Store) (r : Rule) (reason : Option Text) {w : Written}
    → create_rule s r reason ≡ ok w
    → (find Rule.id r.id s.rules ≡ none)
      × (violates Rule.id same_active_target r s.rules ≡ false)
      × (is_some (find Flag.id r.flag_id s.flags) ≡ true)
      × (w ≡ (
        record s {
          rules = s.rules ++ r ∷ [];
          rule_versions = s.rule_versions ++ version_of r created reason ∷ [];
        },
        r,
        created,
      ))
unfolding create_rule
create_rule-eq-ok s r reason e =
    let (s', e1, e2) = >>=-eq-ok (insert_rule s r) _ e in
    let (fresh, free, flagged, grown) = insert_rule-eq-ok s r e1 in
    (
      fresh,
      free,
      flagged,
      append_rule_version-eq-ok s' r created reason e2
          ∙ ap
              (λ (x : Store). (
                record x { rule_versions = x.rule_versions ++ version_of r created reason ∷ [] },
                r,
                created,
              ))
              grown,
    )

pub create_rule-IsSound :
    (s : Store) (r : Rule) (reason : Option Text) {w : Written}
    → IsSound s
    → IsNormal r
    → create_rule s r reason ≡ ok w
    → IsSound w.0
create_rule-IsSound s r reason {w} h n e =
    let (fresh, free, flagged, written) = create_rule-eq-ok s r reason e in
    subst (λ (x : Written). IsSound x.0) (sym written)
      (record {
        history =
            insert-IsHistory _ _ _ _ Shows s.rules s.rule_versions r _ h.history fresh refl refl
              (refl, refl, refl, refl);
        alone =
            insert-HasSingletons Rule.id same_active_target same_active_target_sym s.rules r h.alone
              free;
        placed = All-append (IsPlaced s.flags) s.rules (r ∷ []) h.placed ((n, flagged), tt);
      })

-- The row that an UPDATE writes.
pub change_rule-eq-ok :
    (s : Store) (tenant_id rule_id expected_version : ℕ) (change : Rule → Rule)
    (change_type : ChangeType) (reason : Option Text) {w : Written}
    → change_rule s tenant_id rule_id expected_version change change_type reason ≡ ok w
    → (rules : List Rule) × (r' : Rule) × (revise Rule.id rule_id
          (is_version tenant_id expected_version)
          change
          s.rules
        ≡ some (rules, r'))
      × (violates Rule.id same_active_target r' s.rules ≡ false)
      × (w ≡ (
        record s {
          rules = rules;
          rule_versions = s.rule_versions ++ version_of r' change_type reason ∷ [];
        },
        r',
        change_type,
      ))
unfolding change_rule
change_rule-eq-ok s tenant_id rule_id expected_version change change_type reason {w} h =
    elim (Option-cases
      (revise Rule.id rule_id (is_version tenant_id expected_version) change s.rules)) [
        | inl e ↦ absurd (ground arith)
        | inr ((rules, r'), e) ↦ (
          rules,
          r',
          e,
          ground arith,
          ground
              (arith, append_rule_version-eq-ok (record s { rules = rules }) r' change_type reason),
        )
      ]

pub update_rule-eq-ok :
    (s : Store) (tenant_id : ℕ) (current : Rule) (enabled : Bool) (rollout expected_version : ℕ)
    (reason : Option Text) {w : Written}
    → update_rule s tenant_id current enabled rollout expected_version reason ≡ ok w
    → (rules : List Rule) × (r' : Rule) × (revise Rule.id current.id
          (is_active_version tenant_id expected_version)
          (with_value enabled rollout)
          s.rules
        ≡ some (rules, r'))
      × (w ≡ (
        record s {
          rules = rules;
          rule_versions = s.rule_versions ++ version_of r' updated reason ∷ [];
        },
        r',
        updated,
      ))
unfolding update_rule
update_rule-eq-ok s tenant_id current enabled rollout expected_version reason {w} h =
    elim (Option-cases (
      revise Rule.id current.id (is_active_version tenant_id expected_version)
        (with_value enabled rollout) s.rules)) [
          | inl e ↦ absurd (ground arith)
          | inr ((rules, r'), e) ↦ (
            rules,
            r',
            e,
            ground
                (arith, append_rule_version-eq-ok (record s { rules = rules }) r' updated reason),
          )
        ]

-- An UPDATE of one rule that makes its next version, and no target of an active rule twice.
revised-IsSound :
    (s : Store) (k : ℕ) (q : Rule → Bool) (f : Rule → Rule) (change_type : ChangeType)
    (reason : Option Text) {rules : List Rule} {r' : Rule}
    → IsSound s
    → ((x : Rule) → (f x).id ≡ x.id)
    → ((x : Rule) → (f x).version ≡ x.version + 1)
    → ((x : Rule) → IsPlaced s.flags x → IsPlaced s.flags (f x))
    → revise Rule.id k q f s.rules ≡ some (rules, r')
    → ((r : Rule)
        → In r s.rules
        → q r ≡ true
        → r' ≡ f r
        → (x : Rule) → In x s.rules
        → same_active_target (f r) x ≡ true
        → x.id ≡ r.id)
    → IsSound (record s {
      rules = rules;
      rule_versions = s.rule_versions ++ version_of r' change_type reason ∷ [];
    })
revised-IsSound s k q f change_type reason {rules} {r'} h keeps next kept e clear =
    let hit = revise-Revises Rule.id k q f s.rules h.history.keyed e in
    let (r, found, fits, same, table) = hit in
    record {
      history =
          revise-IsHistory _ _ _ _ Shows k q f s.rules rules r' s.rule_versions _ h.history keeps
            next hit (ap Rule.id same ∙ keeps r ∙ find-key Rule.id k s.rules found) refl
            (refl, refl, refl, refl);
      alone = subst (HasSingletons Rule.id same_active_target) (sym table) (
          revise-HasSingletons Rule.id same_active_target same_active_target_sym s.rules r k q f
            h.alone h.history.keyed found keeps
            (clear r (find-In Rule.id k s.rules found) fits same));
      placed =
          subst (All (IsPlaced s.flags)) (sym table)
            (All-update (IsPlaced s.flags) _ f s.rules (λ x _ p. kept x p) h.placed);
    }

pub change_rule-IsSound :
    (s : Store) (tenant_id rule_id expected_version : ℕ) (change : Rule → Rule)
    (change_type : ChangeType) (reason : Option Text) {w : Written}
    → IsSound s
    → ((x : Rule) → (change x).id ≡ x.id)
    → ((x : Rule) → (change x).version ≡ x.version + 1)
    → ((x : Rule) → IsPlaced s.flags x → IsPlaced s.flags (change x))
    → change_rule s tenant_id rule_id expected_version change change_type reason ≡ ok w
    → IsSound w.0
change_rule-IsSound s tenant_id rule_id expected_version change change_type reason {w} h keeps next
      kept e =
    let (rules, r', e1, free, written) =
      change_rule-eq-ok s tenant_id rule_id expected_version change change_type reason e in
    subst (λ (x : Written). IsSound x.0) (sym written)
      (revised-IsSound s rule_id (is_version tenant_id expected_version) change change_type reason h
        keeps next kept e1
        (λ r m fits same x n c.
          clear_of_violates Rule.id same_active_target same_active_target_sym s.rules r' free x n
            (ap (λ y. same_active_target y x) same ∙ c)
          ∙ ap Rule.id same
          ∙ keeps r))

pub update_rule-IsSound :
    (s : Store) (tenant_id : ℕ) (current : Rule) (enabled : Bool) (rollout expected_version : ℕ)
    (reason : Option Text) {w : Written}
    → IsSound s
    → update_rule s tenant_id current enabled rollout expected_version reason ≡ ok w
    → IsSound w.0
unfolding same_active_target target_from_rule
update_rule-IsSound s tenant_id current enabled rollout expected_version reason {w} h e =
    let (rules, r', e1, written) =
      update_rule-eq-ok s tenant_id current enabled rollout expected_version reason e in
    subst (λ (x : Written). IsSound x.0) (sym written)
      (revised-IsSound s current.id (is_active_version tenant_id expected_version)
        (with_value enabled rollout) updated reason h (λ x. refl) (λ x. refl) (λ x p. p) e1
        (λ r m fits same x n c. h.alone x r n m (same_active_target_sym r x c)))

-- ===== src/FeatureFlags/Restore.antt =====
-- About restoreRuleVersion (src/modules/feature-flags/feature-flag-repository.js) after a write.
use moventra_tms.Base.{
  ℕ, suc, ◌+◌, ◌≤◌, ◌≡◌, ◌≢◌, inl, inr, refl, sym, ap, subst, ◌∙◌, true, false, not, ◌&&◌, Option,
  some, List, [], ◌∷◌, ◌++◌, arith, ◌==◌, ==_refl, Bool-cases, is_some, All, ok,
}
use moventra_tms.Base.Sql.{find, update}
use moventra_tms.Base.Members.{In, update-In, never, find-In}
use moventra_tms.Base.History.{revise_hit, find_entry, find_entry-append, no_entry_of}
use moventra_tms.Base.Singletons.{violates}
use moventra_tms.Base.Json.{Text}
use moventra_tms.Base.Inputs.{uuid}
use moventra_tms.FeatureFlags.Domain.{
  Status, active, inactive, normalize_uuid, normalize_feature_flag_reason,
  normalize_feature_flag_expected_version,
}
use moventra_tms.FeatureFlags.Store.{
  Flag, Rule, RuleVersion, Store, restored, find_rule_version, find_rule_with_flag, assert_target,
  has_company, has_branch, has_active_member,
}
use moventra_tms.FeatureFlags.Writes.{
  Written, RestoreInput, restore_rule_version, version_of, as_in, is_version, same_active_target,
  target_from_rule, may_be, change_rule, append_rule_version,
}
use moventra_tms.FeatureFlags.Histories.{IsSound, Shows}
use moventra_tms.FeatureFlags.Reach.{Write, write, write-IsSound}
use moventra_tms.FeatureFlags.Versions.{
  Amends, Effect, added, amended, logged, write-Effect, Effect-stored, find_sound,
}

find_rule_version-entry :
    (t k v : ℕ) (es : List RuleVersion) (e : RuleVersion)
    → find_entry Rule.id Rule.version RuleVersion.rule_id RuleVersion.rule_version Shows k v es
      ≡ some e
    → e.tenant_id ≡ t
    → find_rule_version t k v es ≡ some e
unfolding find_rule_version
find_rule_version-entry t k v [] e h own = cc
find_rule_version-entry t k v (x ∷ es) e h own = ground (arith, find_rule_version-entry t k v es e)

no_rule_version :
    (t k v : ℕ) (es : List RuleVersion)
    → All (λ d. (d.rule_id ≡ k → suc d.rule_version ≤ v)) es
    → is_some (find_rule_version t k v es) ≡ false
unfolding find_rule_version
no_rule_version t k v [] a = refl
no_rule_version t k v (x ∷ es) a = ground (arith, a.0, no_rule_version t k v es a.1)

-- The write of a rule that was there.
amended_of :
    (s : Store) (r : Rule) (w : Written)
    → Effect s w
    → find Rule.id r.id s.rules ≡ some r
    → w.1.id ≡ r.id
    → Amends r w.1
      × (w.0 ≡ record s { rules = w.0.rules; rule_versions = w.0.rule_versions })
      × ((e : RuleVersion) × (w.0.rule_versions ≡ s.rule_versions ++ e ∷ []))
      × ((x : Rule) → In x w.0.rules → x.id ≢ r.id → In x s.rules)
amended_of s r w (added ct reason free same) found id = absurd (cc)
amended_of s r w (amended ct reason q f r0 amends found0 fits now same) found id =
    let one : r0 ≡ r = ground arith in
    (
      subst (λ y. Amends y w.1) one (subst (Amends r0) (sym now) (amends r0)),
      same
          ∙ ap (λ (x : Store). record s { rules = x.rules; rule_versions = x.rule_versions })
              (sym same),
      (version_of w.1 ct reason, ap (λ (x : Store). x.rule_versions) same),
      λ x m other.
          let (y, n, e) =
            update-In (λ z. z.id == w.1.id && q z) f x s.rules
              (subst (λ (u : Store). In x u.rules) same m) in
          elim (Bool-cases (y.id == w.1.id && q y)) [
            | inl hit ↦ absurd (ground (arith, ap Rule.id (amends y)))
            | inr miss ↦ subst (λ z. In z s.rules) (sym (e ∙ rw miss refl)) n
          ],
    )

may_be_again :
    (s : Store) (rules : List Rule) (versions : List RuleVersion) (t : ℕ) (status : Status)
    (r r' : Rule) (flag : Flag)
    → Amends r r'
    → may_be (record s { rules = rules; rule_versions = versions }) t status r' flag
      ≡ may_be s t status r flag
unfolding may_be target_from_rule assert_target has_company has_branch has_active_member
may_be_again s rules versions t active r r' flag a =
    ap (λ y. may_be (record s { rules = rules; rule_versions = versions }) t active y flag) a
may_be_again s rules versions t inactive r r' flag a = refl

-- Taking the rule back meets no other active rule of its target.
back_alone :
    (s : Store) (r n : Rule) (w : Written)
    → IsSound s
    → In r s.rules
    → ((x : Rule) → In x w.0.rules → x.id ≢ r.id → In x s.rules)
    → n ≡ record r { version = n.version }
    → violates Rule.id same_active_target n w.0.rules ≡ false
unfolding same_active_target
back_alone s r n w h m others same =
    never (λ x. not (x.id == n.id) && same_active_target n x) w.0.rules
      (λ x at. elim (Bool-cases (x.id == n.id)) [
        | inl own ↦ rw own refl
        | inr other ↦ elim (Bool-cases (same_active_target n x)) [
          | inr free ↦ rw (other, free) refl
          | inl c ↦
              let away : x.id ≢ r.id = ground (arith, ap Rule.id same) in
              let one =
                h.alone r x m (others x at away)
                  (ap (λ y. same_active_target y x) (sym same) ∙ c) in
              absurd (away (sym one))
        ]
      ])

-- The UPDATE and the history entry of a restore that nothing stands in the way of.
change_rule_succeeds :
    (s : Store) (r : Rule) (old : RuleVersion) (reason : Option Text)
    → IsSound s
    → find Rule.id r.id s.rules ≡ some r
    → violates Rule.id same_active_target (as_in old r) s.rules ≡ false
    → (s' : Store) × (change_rule s r.tenant_id r.id r.version (as_in old) restored reason
        ≡ ok (s', as_in old r, restored))
unfolding change_rule append_rule_version
change_rule_succeeds s r old reason h found free =
    let fits : is_version r.tenant_id r.version r ≡ true = ground arith in
    let hit =
      revise_hit Rule.id r.id (is_version r.tenant_id r.version) (as_in old) s.rules r
        h.history.keyed found fits in
    let none_yet = no_rule_version r.tenant_id r.id (r.version + 1) s.rule_versions (
      no_entry_of Rule.id Rule.version RuleVersion.rule_id RuleVersion.rule_version Shows r.id
        (r.version + 1) s.rules s.rule_versions h.history (λ x there. ground (arith))) in
    (
      logged s
          (update (λ x. x.id == r.id && is_version r.tenant_id r.version x) (as_in old) s.rules)
          (as_in old r) restored reason,
      ground (arith, hit, free, none_yet),
    )

-- The old value and status on the written rule.
as_in_old :
    (r r' : Rule) (old : RuleVersion)
    → Amends r r'
    → Shows r old
    → as_in old r' ≡ record r { version = r'.version + 1 }
as_in_old r r' old amends shows = ground arith

-- After a successful write of a rule that a sound store has, a restore of the rule's version before
-- the write brings its value and status back, all in the next version, if the rest of the input is
-- valid and the rule could be written with its old status: if that is active, its flag is active and
-- its target exists. No other rule stands in the way.
pub restore_takes_back :
    (c : Write) (s : Store) (r : Rule) (flag : Flag) (back : RestoreInput) (reason : Option Text)
    {w : Written}
    → IsSound s
    → find Rule.id r.id s.rules ≡ some r
    → find Flag.id r.flag_id s.flags ≡ some flag
    → may_be s r.tenant_id r.status r flag ≡ ok tt
    → write c s ≡ ok w
    → w.1.id ≡ r.id
    → normalize_feature_flag_expected_version back.expected_version ≡ ok w.1.version
    → normalize_feature_flag_expected_version back.restore_version ≡ ok r.version
    → normalize_feature_flag_reason back.reason ≡ ok reason
    → (s' : Store) × (restore_rule_version (uuid r.tenant_id) (uuid r.id) back w.0
        ≡ ok (s', record r { version = w.1.version + 1 }, restored))
unfolding restore_rule_version normalize_uuid
restore_takes_back c s r flag back reason {w} h found flagged fine e id h1 h2 h3 =
    let sound = write-IsSound c s h e in
    let effect = write-Effect c s h e in
    let stored = Effect-stored s w effect in
    let (amends, kept, (entry, more), others) = amended_of s r w effect found id in
    let (old, listed, shows) = h.history.present r.id r found in
    let versions : find_rule_version r.tenant_id r.id r.version w.0.rule_versions ≡ some old =
      ap (find_rule_version r.tenant_id r.id r.version) more
      ∙ find_rule_version-entry r.tenant_id r.id r.version (s.rule_versions ++ entry ∷ []) old
          (find_entry-append Rule.id Rule.version RuleVersion.rule_id RuleVersion.rule_version Shows
            r.id r.version s.rule_versions entry old listed)
          shows.0 in
    let (flag', there, flagged') = find_sound w.0 w.1 sound stored in
    let back_to : as_in old w.1 ≡ record r { version = w.1.version + 1 } =
      as_in_old r w.1 old amends shows in
    let free =
      back_alone s r (as_in old w.1) w h (find-In Rule.id r.id s.rules found) others back_to in
    let (s', changed) = change_rule_succeeds w.0 w.1 old reason sound stored free in
    let tenant = ap Rule.tenant_id amends in
    let there' : find_rule_with_flag r.tenant_id r.id w.0 ≡ some (w.1, flag') =
      ap (λ t. find_rule_with_flag t r.id w.0) (sym tenant)
      ∙ ap (λ k. find_rule_with_flag w.1.tenant_id k w.0) (sym id)
      ∙ there in
    let same_flag : flag' ≡ flag = ground (arith, ap Store.flags kept, ap Rule.flag_id amends) in
    let allowed : may_be w.0 r.tenant_id old.status w.1 flag' ≡ ok tt =
      ap (λ z. may_be z r.tenant_id old.status w.1 flag') kept
      ∙ may_be_again s w.0.rules w.0.rule_versions r.tenant_id old.status r w.1 flag' amends
      ∙ ap (λ st. may_be s r.tenant_id st r flag') shows.3
      ∙ ap (may_be s r.tenant_id r.status r) same_flag
      ∙ fine in
    let changed' : change_rule w.0 r.tenant_id r.id w.1.version (as_in old) restored reason
        ≡ ok (s', as_in old w.1, restored) =
      ap (λ t. change_rule w.0 t r.id w.1.version (as_in old) restored reason) (sym tenant)
      ∙ ap (λ k. change_rule w.0 w.1.tenant_id k w.1.version (as_in old) restored reason) (sym id)
      ∙ changed in
    (
      s',
      rw (h1, h2, h3, there', ==_refl w.1.version, versions, allowed, changed')
          (ap (λ n. ok (s', n, restored)) back_to),
    )

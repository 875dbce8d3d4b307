-- ===== src/Configuration/Histories.antt =====
-- What the writes of src/modules/configuration/configuration-repository.js keep of the settings and of
-- their versions. A write that throws rolls its transaction back.
use moventra_tms.Base.{
  ℕ, ◌+◌, ◌≡◌, inl, inr, refl, sym, ap, subst, ◌∙◌, Bool, true, false, Option, none, some, List, [],
  ◌∷◌, ◌++◌, arith, Option-cases, ok,
}
use moventra_tms.Base.Sql.{find, find-key}
use moventra_tms.Base.Members.{In, find-In}
use moventra_tms.Base.History.{
  revise, revise-Revises, IsHistory, insert-IsHistory, revise-IsHistory,
}
use moventra_tms.Base.Singletons.{
  violates, HasSingletons, clear_of_violates, insert-HasSingletons, revise-HasSingletons,
}
use moventra_tms.Base.Json.{Text, Json}
use moventra_tms.Configuration.Domain.{Status, active, inactive}
use moventra_tms.Configuration.Store.{
  is_active, Setting, SettingVersion, ChangeType, created, updated, Store,
}
use moventra_tms.Configuration.Statements.{
  Written, version_of, append_version, same_active_scope, create_override, update_override,
  change_status, change_to, shown_value, with_value, with_status, is_version, is_active_version,
}

-- A version in the history keeps what the setting shows, but no value once it is inactive.
abbrev pub Shows : Setting → SettingVersion → Type 0
Shows r v =
    (v.tenant_id ≡ r.tenant_id) × (v.status ≡ r.status) × (v.value ≡ shown_value r.status r.value)

abbrev pub HasHistory : List Setting → List SettingVersion → Type 0
HasHistory settings versions =
    IsHistory Setting.id Setting.version SettingVersion.setting_id SettingVersion.setting_version
      Shows settings versions

-- The ids of settings are unique, each setting's present version is in the history as the setting
-- shows it, no version in the history is of a setting or a version that is not there, and an active
-- setting of a scope stands alone.
pub record IsSound (s : Store) : Type 0 where
  pub history : HasHistory s.settings s.setting_versions
  pub alone : HasSingletons Setting.id same_active_scope s.settings

same_active_scope_sym :
    (r s : Setting) → same_active_scope r s ≡ true → same_active_scope s r ≡ true
unfolding same_active_scope
same_active_scope_sym r s h = ground arith

abbrev pub logged : Store → List Setting → Setting → Option Json → ChangeType → Option Text → Store
logged s settings r value change_type reason = record s {
  settings = settings;
  setting_versions = s.setting_versions ++ version_of r value change_type reason ∷ [];
}

create_override-eq-ok :
    (s : Store) (r : Setting) (reason : Option Text) {w : Written}
    → create_override s r reason ≡ ok w
    → (find Setting.id r.id s.settings ≡ none)
      × (violates Setting.id same_active_scope r s.settings ≡ false)
      × (w.0 ≡ logged s (s.settings ++ r ∷ []) r (some r.value) created reason)
unfolding create_override append_version
create_override-eq-ok s r reason h = (ground arith, ground arith, ground arith)

pub create_override-IsSound :
    (s : Store) (r : Setting) (reason : Option Text) {w : Written}
    → IsSound s
    → r.status ≡ active
    → create_override s r reason ≡ ok w
    → IsSound w.0
create_override-IsSound s r reason {w} h on e =
    let (fresh, free, same) = create_override-eq-ok s r reason e in
    subst IsSound (sym same) (record {
      history =
          insert-IsHistory _ _ _ _ Shows s.settings s.setting_versions r _ h.history fresh refl refl
            (refl, refl, sym (ap (λ st. shown_value st r.value) on));
      alone =
          insert-HasSingletons Setting.id same_active_scope same_active_scope_sym s.settings r
            h.alone free;
    })

-- An UPDATE of one setting that makes its next version.
revised-IsSound :
    (s : Store) (k : ℕ) (q : Setting → Bool) (f : Setting → Setting) (value : Option Json)
    (change_type : ChangeType) (reason : Option Text) (settings : List Setting) (r' : Setting)
    → IsSound s
    → ((x : Setting) → (f x).id ≡ x.id)
    → ((x : Setting) → (f x).version ≡ x.version + 1)
    → revise Setting.id k q f s.settings ≡ some (settings, r')
    → ((r : Setting) → q r ≡ true → r' ≡ f r → value ≡ shown_value r'.status r'.value)
    → ((r : Setting)
        → In r s.settings
        → q r ≡ true
        → r' ≡ f r
        → (x : Setting) → In x s.settings
        → same_active_scope (f r) x ≡ true
        → x.id ≡ r.id)
    → IsSound (logged s settings r' value change_type reason)
revised-IsSound s k q f value change_type reason settings r' h keeps next e shown clear =
    let hit = revise-Revises Setting.id k q f s.settings h.history.keyed e in
    let (r, found, fits, same, table) = hit in
    record {
      history =
          revise-IsHistory _ _ _ _ Shows k q f s.settings settings r' s.setting_versions _ h.history
            keeps next hit (ap Setting.id same ∙ keeps r ∙ find-key Setting.id k s.settings found)
            refl (refl, refl, shown r fits same);
      alone = subst (HasSingletons Setting.id same_active_scope) (sym table) (
          revise-HasSingletons Setting.id same_active_scope same_active_scope_sym s.settings r k q f
            h.alone h.history.keyed found keeps
            (clear r (find-In Setting.id k s.settings found) fits same));
    }

active_shown : (st : Status) (v : Json) → is_active st ≡ true → some v ≡ shown_value st v
active_shown active v h = refl
active_shown inactive v h = cc

append_version-eq-ok :
    (s : Store) (r : Setting) (value : Option Json) (change_type : ChangeType)
    (reason : Option Text) {w : Written}
    → append_version s r value change_type reason ≡ ok w
    → w.0 ≡ record s {
      setting_versions = s.setting_versions ++ version_of r value change_type reason ∷ [];
    }
unfolding append_version
append_version-eq-ok s r value change_type reason h = ground arith

pub update_override-IsSound :
    (s : Store) (tenant_id current_id : ℕ) (value : Json) (expected_version : ℕ)
    (reason : Option Text) {w : Written}
    → IsSound s
    → update_override s tenant_id current_id value expected_version reason ≡ ok w
    → IsSound w.0
unfolding update_override same_active_scope
update_override-IsSound s tenant_id current_id value expected_version reason {w} h e =
    elim (Option-cases (
      revise Setting.id current_id (is_active_version tenant_id expected_version) (with_value value)
        s.settings)) [
          | inl gone ↦ absurd (ground arith)
          | inr ((settings, r'), hit) ↦
              let stored : append_version (record s { settings = settings }) r' (some r'.value)
                    updated reason
                  ≡ ok w =
                ground arith in
              subst IsSound (sym (append_version-eq-ok _ _ _ _ _ stored)) (
                revised-IsSound s current_id (is_active_version tenant_id expected_version)
                  (with_value value) (some r'.value) updated reason settings r' h (λ x. refl)
                  (λ x. refl) hit
                  (λ r fits same.
                    active_shown r'.status r'.value
                      (ap (λ (x : Setting). is_active x.status) same ∙ ground arith))
                  (λ r m fits same x n c. h.alone x r n m (same_active_scope_sym r x c)))
        ]

pub change_status-IsSound :
    (s : Store) (tenant_id id expected_version : ℕ) (to_status : Status) (reason : Option Text)
    {w : Written}
    → IsSound s
    → change_status s tenant_id id expected_version to_status reason ≡ ok w
    → IsSound w.0
unfolding change_status
change_status-IsSound s tenant_id id expected_version to_status reason {w} h e =
    elim (Option-cases (
      revise Setting.id id (is_version tenant_id expected_version) (with_status to_status)
        s.settings)) [
          | inl gone ↦ absurd (ground arith)
          | inr ((settings, r'), hit) ↦
              let free : violates Setting.id same_active_scope r' s.settings ≡ false =
                ground arith in
              let stored : append_version (record s { settings = settings }) r'
                    (shown_value to_status r'.value) (change_to to_status) reason
                  ≡ ok w =
                ground arith in
              subst IsSound (sym (append_version-eq-ok _ _ _ _ _ stored)) (
                revised-IsSound s id (is_version tenant_id expected_version) (with_status to_status)
                  (shown_value to_status r'.value) (change_to to_status) reason settings r' h
                  (λ x. refl) (λ x. refl) hit
                  (λ r fits same. ap (λ st. shown_value st r'.value) (sym (ap Setting.status same)))
                  (λ r m fits same x n c.
                    clear_of_violates Setting.id same_active_scope same_active_scope_sym s.settings
                      r' free x n (ap (λ y. same_active_scope y x) same ∙ c)
                    ∙ ap Setting.id same))
        ]

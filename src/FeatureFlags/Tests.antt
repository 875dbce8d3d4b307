-- ===== src/FeatureFlags/Tests.antt =====
-- A flag of a tenant with a company, a branch and a user: a rule for the branch, its update and the
-- way back.
use moventra_tms.Base.{ℕ, ◌≡◌, refl, true, false, none, some, [], ◌∷◌, arith, ok, err}
use moventra_tms.Base.Sql.{find}
use moventra_tms.Base.Int.{pos}
use moventra_tms.Base.Json.{Text, null, str, num, bool, codes}
use moventra_tms.Base.Text.{trim, is_space, to_upper_case, text_eq}
use moventra_tms.Base.Text.Dotted.{is_dotted}
use moventra_tms.Base.Inputs.{absent, uuid}
use moventra_tms.FeatureFlags.Domain.{
  active, inactive, production, branch, GivenTarget, integer, version_conflict,
  normalize_feature_flag_target, normalize_feature_flag_key,
  normalize_feature_flag_expected_version, normalize_feature_flag_reason,
}
use moventra_tms.FeatureFlags.Rollout.{
  stable_feature_flag_bucket, feature_flag_rollout_decision, rollout_widens,
}
use moventra_tms.FeatureFlags.Store.{Flag, Rule, Store, updated, restored}
use moventra_tms.FeatureFlags.Writes.{
  PutInput, StatusInput, RestoreInput, as_given, may_be, transition_rule_status,
  restore_rule_version, status_named,
}
use moventra_tms.FeatureFlags.Evaluation.{EvaluationInput, Decision, rule_of, evaluate}
use moventra_tms.FeatureFlags.Evaluation.Laws.{IsDecided, evaluate_governed}
use moventra_tms.FeatureFlags.Evaluation.Isolation.{only_tenant, evaluate-only_tenant}
use moventra_tms.FeatureFlags.Targets.{
  target_shape_ok, plan_key_ok, normalize_feature_flag_target-stable,
}
use moventra_tms.FeatureFlags.Histories.{IsSound}
use moventra_tms.FeatureFlags.Reach.{
  Write, put, write, run_writes, without_rules, run_writes-IsSound,
}
use moventra_tms.FeatureFlags.Versions.{write_outdates}
use moventra_tms.FeatureFlags.Restore.{restore_takes_back}

abbrev key : Text
key = codes "billing.invoices"

abbrev to_branch : GivenTarget
to_branch = record {
  type = codes " branch";
  company_id = uuid 20;
  branch_id = uuid 30;
  user_id = absent;
  plan_key = null;
}

abbrev fleet : Store
fleet = record {
  tenants = 7 ∷ 8 ∷ [];
  companies = record { id = 20; tenant_id = 7 } ∷ [];
  branches = record { id = 30; tenant_id = 7; company_id = 20 } ∷ [];
  memberships = record { tenant_id = 7; user_id = 3; is_active = true } ∷ [];
  flags =
      record { id = 1; key = key; default_enabled = false; status = active; hash_version = 1 } ∷ [];
  policies = [];
  rules = [];
  rule_versions = [];
}

abbrev turned_on : PutInput
turned_on = record {
  environment = str (codes "production");
  target = to_branch;
  enabled = bool true;
  rollout_basis_points = integer (pos 5000);
  reason = null;
  expected_version = null;
}

abbrev widened : PutInput
widened = record turned_on {
  rollout_basis_points = integer (pos 8000);
  expected_version = num (codes "1");
}

abbrev first_put : Write
first_put = put 100 (uuid 7) (str key) turned_on

abbrev second_put : Write
second_put = put 101 (uuid 7) (str key) widened

-- The rule and the tables behind the first put and behind the second.
abbrev first : Rule
first = record {
  id = 100;
  tenant_id = 7;
  flag_id = 1;
  environment = some production;
  target = record {
    type = branch;
    company_id = some 20;
    branch_id = some 30;
    user_id = none;
    plan_key = none;
  };
  enabled = true;
  rollout_basis_points = 5000;
  status = active;
  version = 1;
}

abbrev second : Rule
second = record first { rollout_basis_points = 8000; version = 2 }

abbrev at_branch : EvaluationInput
at_branch = record {
  environment = str (codes "production");
  company_id = uuid 20;
  branch_id = uuid 30;
  user_id = uuid 3;
  plan_key = null;
}

-- A digest and a spelling for the tests: every subject is in bucket 4321.
abbrev digest : Text → ℕ
digest s = 4321

abbrev spelling : ℕ → Text
spelling n = codes "0190d3b4-5a5e-7cc3-8f2a-1d2e3f405162"

after_first : Store
unfolding run_writes
after_first = run_writes (first_put ∷ []) (without_rules fleet)

after_first-IsSound : IsSound after_first
unfolding after_first
after_first-IsSound = run_writes-IsSound (first_put ∷ []) fleet

run_writes-IsSound_example :
    IsSound (run_writes (first_put ∷ second_put ∷ []) (without_rules fleet))
run_writes-IsSound_example = run_writes-IsSound (first_put ∷ second_put ∷ []) fleet

abbrev decided : Decision
decided = record {
  key = key;
  enabled = true;
  source = rule_of branch;
  rule_id = some 100;
  rule_version = some 1;
  rollout_basis_points = 5000;
  bucket = 4321;
  hash_version = 1;
}

evaluated : evaluate digest spelling (uuid 7) (str key) at_branch after_first ≡ ok decided
unfolding evaluate after_first is_dotted text_eq is_space
evaluated = refl

evaluate_governed_example : IsDecided digest spelling 7 (str key) at_branch after_first decided
evaluate_governed_example =
    evaluate_governed digest spelling 7 (str key) at_branch after_first evaluated

evaluate-only_tenant_example :
    evaluate digest spelling (uuid 7) (str key) at_branch (only_tenant 7 after_first)
    ≡ evaluate digest spelling (uuid 7) (str key) at_branch after_first
evaluate-only_tenant_example =
    evaluate-only_tenant 7 after_first digest spelling (str key) at_branch

bucket_of_user : stable_feature_flag_bucket digest key (spelling 3) 1 ≡ ok 4321
unfolding stable_feature_flag_bucket is_dotted is_space normalize_feature_flag_key
bucket_of_user = refl

in_half : feature_flag_rollout_decision true 5000 4321 ≡ ok true
unfolding feature_flag_rollout_decision
in_half = refl

rollout_widens_example :
    (feature_flag_rollout_decision true 8000 4321 ≡ ok true)
    × (feature_flag_rollout_decision true 10000 4321 ≡ ok true)
    × (feature_flag_rollout_decision true 0 4321 ≡ ok false)
    × (feature_flag_rollout_decision false 5000 4321 ≡ ok false)
rollout_widens_example =
    rollout_widens digest key (spelling 3) 1 5000 8000 4321 true bucket_of_user in_half
      (omega arith) (omega arith)

to_branch_normal : normalize_feature_flag_target to_branch ≡ ok first.target
unfolding normalize_feature_flag_target text_eq is_space
to_branch_normal = refl

normalize_feature_flag_target-stable_example :
    ((target_shape_ok first.target ≡ true) × (plan_key_ok first.target.plan_key ≡ true))
    × (normalize_feature_flag_target (as_given first.target) ≡ ok first.target)
normalize_feature_flag_target-stable_example =
    normalize_feature_flag_target-stable to_branch to_branch_normal

-- The second put, and who still has the first version.
after_second : Store
unfolding run_writes
after_second = run_writes (first_put ∷ second_put ∷ []) (without_rules fleet)

second_written : write second_put after_first ≡ ok (after_second, second, updated)
unfolding write after_first after_second is_dotted text_eq is_space
second_written = refl

abbrev off : StatusInput
off = record { expected_version = str (codes "1"); reason = null; to_status = codes "inactive" }

abbrev back_from_1 : RestoreInput
back_from_1 = record {
  expected_version = num (codes "1");
  restore_version = num (codes "1");
  reason = null;
}

abbrev back_from_2 : RestoreInput
back_from_2 = record back_from_1 { expected_version = num (codes "2") }

version_1 : normalize_feature_flag_expected_version (num (codes "1")) ≡ ok 1
unfolding normalize_feature_flag_expected_version
version_1 = refl

version_1_text : normalize_feature_flag_expected_version (str (codes "1")) ≡ ok 1
unfolding normalize_feature_flag_expected_version
version_1_text = refl

version_2 : normalize_feature_flag_expected_version (num (codes "2")) ≡ ok 2
unfolding normalize_feature_flag_expected_version
version_2 = refl

no_reason : normalize_feature_flag_reason null ≡ ok none
unfolding normalize_feature_flag_reason
no_reason = refl

inactive_named : status_named (to_upper_case (trim (codes "inactive"))) ≡ ok inactive
unfolding status_named to_upper_case trim text_eq is_space
inactive_named = refl

write_outdates_example :
    (transition_rule_status (uuid 7) (uuid 100) off after_second ≡ err version_conflict)
    × (restore_rule_version (uuid 7) (uuid 100) back_from_1 after_second ≡ err version_conflict)
write_outdates_example =
    write_outdates second_put after_first off back_from_1 1 1 none none inactive after_first-IsSound
      second_written (omega arith) version_1_text no_reason inactive_named version_1 version_1
      no_reason

first_there : find Rule.id 100 after_first.rules ≡ some first
unfolding after_first is_dotted text_eq is_space write
first_there = refl

abbrev invoices : Flag
invoices = record { id = 1; key = key; default_enabled = false; status = active; hash_version = 1 }

flag_there : find Flag.id 1 after_first.flags ≡ some invoices
unfolding after_first is_dotted text_eq is_space write
flag_there = refl

first_allowed : may_be after_first 7 active first invoices ≡ ok tt
unfolding after_first is_dotted text_eq is_space write may_be
first_allowed = refl

restore_takes_back_example :
    (s' : Store) × (restore_rule_version (uuid 7) (uuid 100) back_from_2 after_second
      ≡ ok (s', record first { version = 3 }, restored))
restore_takes_back_example =
    restore_takes_back second_put after_first first invoices back_from_2 none after_first-IsSound
      first_there flag_there first_allowed second_written refl version_2 version_1 no_reason

-- ===== src/Configuration/Tests.antt =====
-- A currency of a company's configuration, in a runtime that knows one time zone and one currency.
use moventra_tms.Base.{
  ◌≡◌, refl, true, false, none, some, [], ◌∷◌, inl, if◌then◌else◌, Option, Bool, ltb, length, subst,
  ok,
}
use moventra_tms.Base.Members.{drop}
use moventra_tms.Base.Json.{Text, null, num, str, codes}
use moventra_tms.Base.Text.{text_eq, trim, trim_start, is_space}
use moventra_tms.Base.Text.Dotted.{is_dotted}
use moventra_tms.Configuration.Domain.{
  active, tenant, GivenScope, Definition, starts_with, normalize_configuration_key,
}
use moventra_tms.Configuration.Values.{Runtime, is_nonempty, normalize_configuration_value}
use moventra_tms.Base.Inputs.{absent, uuid}
use moventra_tms.Configuration.Store.{Store}
use moventra_tms.Configuration.Repository.{Effective, resolve_effective}
use moventra_tms.Configuration.Histories.{IsSound}
use moventra_tms.Configuration.Reach.{
  Write, put, transition, run_writes, without_settings, overrides-IsSound,
}
use moventra_tms.Configuration.Resolution.{IsResolved, resolve_effective_governed}
use moventra_tms.Configuration.Laws.{
  ResolvesZones, normalize_configuration_value-stable, key_ok, normalize_configuration_key-stable,
}

abbrev zone : Text
zone = codes "America/Sao_Paulo"

abbrev zone_of : Text → Option Text
zone_of z = if text_eq z zone then some zone else none

abbrev runtime : Runtime
runtime = record {
  less = λ a b. false;
  number = λ s. some s;
  bytes = λ v. 10;
  test = λ pattern s. some true;
  time_zone = zone_of;
  currencies = some (codes "BRL" ∷ []);
}

zone_bare : (trim zone ≡ zone) × (zone_of zone ≡ some zone)
unfolding trim trim_start is_space text_eq
zone_bare = (refl, refl)

zone_only :
    (known : Bool) (name : Text) → (if known then some zone else none) ≡ some name → zone ≡ name
zone_only true name h = cc
zone_only false name h = cc

runtime-ResolvesZones : ResolvesZones runtime
runtime-ResolvesZones = record {
  resolved = λ z name known.
      subst
        (λ n.
          (zone_of n ≡ some n)
          × (trim n ≡ n)
          × (is_nonempty n ≡ true)
          × (ltb 100 (length n) ≡ false))
        (zone_only (text_eq z zone) name known) (zone_bare.1, zone_bare.0, refl, refl);
}

abbrev money : Definition
money = record {
  id = 1;
  key = codes "billing.currency";
  default_value = some (str (codes "brl"));
  status = active;
  version = 1;
  value_type = codes "currency";
  sensitivity = none;
  validation_schema = none;
  allow_tenant_override = true;
  allow_company_override = true;
  allow_branch_override = false;
}

money_accepted :
    normalize_configuration_value runtime money (str (codes " brl ")) ≡ ok (str (codes "BRL"))
unfolding normalize_configuration_value text_eq is_space
money_accepted = refl

normalize_configuration_value-stable_example :
    normalize_configuration_value runtime money (str (codes "BRL")) ≡ ok (str (codes "BRL"))
normalize_configuration_value-stable_example =
    normalize_configuration_value-stable runtime money (str (codes " brl ")) runtime-ResolvesZones
      money_accepted

abbrev currency_key : Text
currency_key = codes "billing.currency"

key_accepted : normalize_configuration_key (str (codes " Billing.Currency")) ≡ ok currency_key
unfolding normalize_configuration_key is_dotted is_space
key_accepted = refl

normalize_configuration_key-stable_example :
    (normalize_configuration_key (str currency_key) ≡ ok currency_key)
    × (key_ok currency_key ≡ true)
    × (starts_with (drop 4 currency_key) (codes "password") ≡ false)
normalize_configuration_key-stable_example =
    normalize_configuration_key-stable (str (codes " Billing.Currency")) 4 (codes "password")
      (inl refl) key_accepted

-- The override of a tenant, inactivated and resolved for a company.
abbrev tables : Store
tables = record {
  tenants = 7 ∷ [];
  companies = record { id = 20; tenant_id = 7 } ∷ [];
  branches = [];
  definitions = money ∷ [];
  settings = [];
  setting_versions = [];
}

abbrev whole : GivenScope
whole = record { type = codes "tenant"; company_id = absent; branch_id = absent }

abbrev for_company : GivenScope
for_company = record { type = codes "company"; company_id = uuid 20; branch_id = absent }

abbrev put_brl : Write
put_brl =
    put 100 (uuid 7) (str currency_key)
      (record { scope = whole; value = str (codes "brl"); reason = null; expected_version = null })

abbrev switch_off : Write
switch_off = transition (uuid 7) (uuid 100) (record {
  scope = whole;
  expected_version = num (codes "1");
  reason = null;
  to_status = codes "inactive";
})

overrides-IsSound_example :
    IsSound (run_writes runtime (put_brl ∷ switch_off ∷ []) (without_settings tables))
overrides-IsSound_example = overrides-IsSound runtime (put_brl ∷ switch_off ∷ []) tables

after_put : Store
unfolding run_writes
after_put = run_writes runtime (put_brl ∷ []) (without_settings tables)

abbrev effective : Effective
effective = record {
  key = currency_key;
  value = str (codes "BRL");
  source = some tenant;
  tenant_id = 7;
  company_id = none;
  branch_id = none;
  setting_id = some 100;
  setting_version = some 1;
  definition_version = 1;
}

resolved :
    resolve_effective runtime (uuid 7) (str currency_key) for_company after_put ≡ ok effective
unfolding resolve_effective after_put is_dotted text_eq is_space
resolved = refl

resolve_effective_governed_example :
    IsResolved runtime 7 (str currency_key) for_company after_put effective
resolve_effective_governed_example =
    resolve_effective_governed runtime 7 (str currency_key) for_company after_put resolved

-- ===== src/Jobs/Worker/Tests.antt =====
-- A worker's round on concrete jobs, its settings, delays and handlers.
use moventra_tms.Base.{
  ℕ, ◌-◌, ◌*◌, ◌/◌, ◌≤◌, ◌≡◌, ◌≢◌, ◌⊎◌, ◌↔◌, ◌^◌, refl, Bool, true, false, none, some, List, [],
  ◌∷◌, arith, ok, ltb, min, All,
}
use moventra_tms.Base.Int.{pos, integer}
use moventra_tms.Base.Text.{text_eq, trim, to_lower_case, is_space}
use moventra_tms.Base.Text.Dotted.{is_dotted, starts_with}
use moventra_tms.Base.Json.{null, str, codes}
use moventra_tms.Jobs.Row.{tenant, Row, Table}
use moventra_tms.Jobs.Repository.{Schedule, fresh_row, leased, completed, complete_success, owns}
use moventra_tms.Jobs.Types.{
  normalize_job_type, type_ok, system_type_ok, normalize_job_type-stable, lowered,
}
use moventra_tms.Jobs.Backoff.{
  Doubles, IsIeee, within, calculate_job_backoff, calculate_job_backoff_bounds,
}
use moventra_tms.Jobs.Registry.{
  tenant_only, Registration, Registry, get, fits, register, resolve, Serves, register-resolve,
}
use moventra_tms.Jobs.Worker.Settings.{
  Worker, numbers_of, make_worker, IsConfigured, make_worker_iff,
}
use moventra_tms.Jobs.Worker.{Run, Verdict, success, settle, finish, interrupted, execute_job}
use moventra_tms.Jobs.Worker.Laws.{Ends, execute_job-Ends, execute_job_total}
use moventra_tms.Jobs.Worker.Runs.{idle_delays, idle_delays_bounded}

-- Fixed-point numbers, in hundredths.
abbrev hundredths : Doubles
hundredths = record {
  Double = ℕ;
  is_finite = λ _. true;
  lt = ltb;
  of_ℕ = λ n. n * 100;
  half = 50;
  times = λ a b. a * b / 100;
  floor = λ n. pos (n / 100);
}

abbrev settings : Worker
settings = record {
  batch_size = 10;
  concurrency = 4;
  lease_ms = 30000;
  heartbeat_ms = 10000;
  idle_poll_ms = 500;
  idle_poll_max_ms = 5000;
  handler_timeout_ms = 60000;
  retry_base_ms = 1000;
  retry_max_ms = 60000;
}

settings-IsConfigured : IsConfigured settings
settings-IsConfigured = record {
  batch = (omega arith, omega arith);
  parallel = (omega arith, omega arith);
  lease = (omega arith, omega arith);
  beat_least = omega arith;
  beat = omega arith;
  poll_most = omega arith;
  poll = (omega arith, omega arith);
  poll_max = omega arith;
  timeout = (omega arith, omega arith);
  retry = (omega arith, omega arith, omega arith);
  retry_max = omega arith;
}

abbrev refresh : Schedule
refresh = record {
  tenant_id = some 7;
  scope = tenant;
  job_type = codes "routes.refresh";
  schema_version = 1;
  payload = null;
  metadata = null;
  priority = pos 3;
  available_at = 10;
  max_attempts = 2;
  schedule_key = none;
  recurrence_interval_ms = none;
}

abbrev waiting : Row
waiting = fresh_row 1 5 refresh

abbrev job : Row
job = leased 30000 100 20 waiting

abbrev fine : Run
fine = record { thrown = none; aborted = none; lease_lost = false; during = λ t. t; now = 40 }

abbrev refresher : Registration Bool
refresher = record { scope = tenant_only; versions = 1 ∷ 2 ∷ []; handler = true }

abbrev handlers : Registry Bool
handlers = (codes "routes.refresh", refresher) ∷ []

abbrev runs : Bool → Run
runs _ = fine

served : Unit {0}
unfolding fresh_row leased completed complete_success owns normalize_job_type lowered trim is_space
    to_lower_case is_dotted text_eq get fits resolve settle finish interrupted execute_job within
served = tt

execute_job-Ends_example : Ends fine 1 100 (job ∷ []) (completed 40 job ∷ []) success
unfolding served
execute_job-Ends_example =
    execute_job-Ends hundredths settings 10 50 handlers tenant runs job 100 20 (job ∷ []) true refl
      (refl, tt) refl

execute_job_total_example :
    (res : Table × Verdict) × (execute_job hundredths settings 10 50 handlers tenant runs job 100 20
        (job ∷ [])
      ≡ ok res)
unfolding served
execute_job_total_example =
    execute_job_total hundredths settings 10 50 settings-IsConfigured refl refl handlers tenant runs
      job 100 20 (job ∷ []) (omega arith)

idle_delays_bounded_example :
    (slept : List ℕ) × (idle_delays settings 500 (0 ∷ 0 ∷ 3 ∷ 0 ∷ []) ≡ ok slept)
    × All (λ d. (500 ≤ d) × (d ≤ 5000)) slept
idle_delays_bounded_example =
    idle_delays_bounded settings (0 ∷ 0 ∷ 3 ∷ 0 ∷ []) settings-IsConfigured

make_worker_iff_example :
    (make_worker (numbers_of settings) ≡ ok settings)
    ↔ ((numbers_of settings ≡ numbers_of settings) × IsConfigured settings)
make_worker_iff_example = make_worker_iff (numbers_of settings) settings

hundredths-IsIeee : IsIeee hundredths
hundredths-IsIeee = record {
  natural = λ n h. (refl, ground arith);
  half_least = λ x f h. ground arith;
  fraction = λ x y h k. (refl, ground arith);
  rounded = λ x h. (x / 100, refl);
}

calculate_job_backoff_bounds_example :
    (a b m ms : ℕ) × (integer (pos 3) ≡ integer (pos a))
    × (integer (pos 1000) ≡ integer (pos b))
    × (integer (pos 60000) ≡ integer (pos m))
    × (((1 ≤ a) × (a ≤ 100)) × ((100 ≤ b) × (b ≤ 3600000)) × (m ≤ 86400000))
    × (pos 4200 ≡ pos ms)
    × (b ≤ ms)
    × (ms ≤ m)
    × (min m (b * 2 ^ min (a - 1) 30) ≤ ms)
unfolding calculate_job_backoff
calculate_job_backoff_bounds_example =
    calculate_job_backoff_bounds hundredths hundredths-IsIeee (integer (pos 3)) (integer (pos 1000))
      (integer (pos 60000)) 10 50 refl

normalize_job_type-stable_example :
    (normalize_job_type (str (codes "routes.refresh")) ≡ ok (codes "routes.refresh"))
    × (type_ok (codes "routes.refresh") ≡ true)
    × (system_type_ok (codes "routes.refresh") ≡ false)
unfolding served starts_with
normalize_job_type-stable_example = normalize_job_type-stable (str (codes " Routes.Refresh")) refl

register-resolve_example :
    ((codes "routes.refresh" ≡ codes "routes.refresh")
      × Serves refresher tenant 1 (resolve handlers tenant job))
    ⊎ ((codes "routes.refresh" ≢ codes "routes.refresh")
        × (resolve handlers tenant job ≡ resolve [] tenant job))
unfolding served register
register-resolve_example =
    register-resolve (str (codes "Routes.refresh")) refresher [] tenant job refl refl refl

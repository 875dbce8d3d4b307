-- ===== src/Jobs/Worker/Settings.antt =====
-- The settings that the constructor of `JobWorker` checks, and the idle delay.
use moventra_tms.Base.{
  ℕ, ◌-◌, ◌*◌, ◌≤◌, ◌<◌, ◌≡◌, ◌↔◌, ◌||◌, min, max, arith, if◌then◌else◌, ltb, Result, ok, err,
  ◌>>=◌, ap, ◌∙◌,
}
use moventra_tms.Base.Int.{pos, negsuc, Number, integer, no_integer}

-- The name of the setting that is out of range.
pub data SettingError : Type 0 where
  batch_size concurrency lease_ms heartbeat_ms idle_poll_ms idle_poll_max_ms : SettingError
  handler_timeout_ms retry_base_ms retry_max_ms current_ms base_ms max_ms : SettingError

unfoldable pub bounded_integer : Number → ℕ → ℕ → SettingError → Result SettingError ℕ
bounded_integer no_integer minimum maximum error = err error
bounded_integer (integer (negsuc n)) minimum maximum error = err error
bounded_integer (integer (pos value)) minimum maximum error =
    if ltb value minimum || ltb maximum value then err error else ok value

pub record Worker : Type 0 where
  pub batch_size : ℕ
  pub concurrency : ℕ
  pub lease_ms : ℕ
  pub heartbeat_ms : ℕ
  pub idle_poll_ms : ℕ
  pub idle_poll_max_ms : ℕ
  pub handler_timeout_ms : ℕ
  pub retry_base_ms : ℕ
  pub retry_max_ms : ℕ

-- The settings as given, or their defaults, as `Number` reads them.
pub record GivenSettings : Type 0 where
  pub batch_size : Number
  pub concurrency : Number
  pub lease_ms : Number
  pub heartbeat_ms : Number
  pub idle_poll_ms : Number
  pub idle_poll_max_ms : Number
  pub handler_timeout_ms : Number
  pub retry_base_ms : Number
  pub retry_max_ms : Number

-- The constructor.
unfoldable pub make_worker : GivenSettings → Result SettingError Worker
unfolding bounded_integer
make_worker g = do
  batch ← bounded_integer g.batch_size 1 500 batch_size
  parallel ← bounded_integer g.concurrency 1 100 concurrency
  lease ← bounded_integer g.lease_ms 1000 3600000 lease_ms
  beat ← bounded_integer g.heartbeat_ms 500 (max 500 (lease - 1)) heartbeat_ms
  poll ← bounded_integer g.idle_poll_ms 100 60000 idle_poll_ms
  poll_max ← bounded_integer g.idle_poll_max_ms poll 300000 idle_poll_max_ms
  timeout ← bounded_integer g.handler_timeout_ms 250 3600000 handler_timeout_ms
  base ← bounded_integer g.retry_base_ms 100 3600000 retry_base_ms
  retry ← bounded_integer g.retry_max_ms base 86400000 retry_max_ms
  ok (record {
    batch_size = batch;
    concurrency = parallel;
    lease_ms = lease;
    heartbeat_ms = beat;
    idle_poll_ms = poll;
    idle_poll_max_ms = poll_max;
    handler_timeout_ms = timeout;
    retry_base_ms = base;
    retry_max_ms = retry;
  })

-- `calculateIdlePollDelay`
unfoldable pub calculate_idle_poll_delay : (current base maximum : ℕ) → Result SettingError ℕ
unfolding bounded_integer
calculate_idle_poll_delay current base maximum = do
  current' ← bounded_integer (integer (pos current)) 1 300000 current_ms
  base' ← bounded_integer (integer (pos base)) 1 300000 base_ms
  maximum' ← bounded_integer (integer (pos maximum)) base' 300000 max_ms
  ok (min maximum' (max base' (current' * 2)))

-- The settings of a worker that was constructed.
pub record IsConfigured (w : Worker) : Type 0 where
  pub batch : (1 ≤ w.batch_size) × (w.batch_size ≤ 500)
  pub parallel : (1 ≤ w.concurrency) × (w.concurrency ≤ 100)
  pub lease : (1000 ≤ w.lease_ms) × (w.lease_ms ≤ 3600000)
  pub beat_least : 500 ≤ w.heartbeat_ms
  pub beat : w.heartbeat_ms < w.lease_ms
  pub poll_most : w.idle_poll_ms ≤ 60000
  pub poll : (100 ≤ w.idle_poll_ms) × (w.idle_poll_ms ≤ w.idle_poll_max_ms)
  pub poll_max : w.idle_poll_max_ms ≤ 300000
  pub timeout : (250 ≤ w.handler_timeout_ms) × (w.handler_timeout_ms ≤ 3600000)
  pub retry :
      (100 ≤ w.retry_base_ms) × (w.retry_base_ms ≤ 3600000) × (w.retry_base_ms ≤ w.retry_max_ms)
  pub retry_max : w.retry_max_ms ≤ 86400000

abbrev pub numbers_of : Worker → GivenSettings
numbers_of w = record {
  batch_size = integer (pos w.batch_size);
  concurrency = integer (pos w.concurrency);
  lease_ms = integer (pos w.lease_ms);
  heartbeat_ms = integer (pos w.heartbeat_ms);
  idle_poll_ms = integer (pos w.idle_poll_ms);
  idle_poll_max_ms = integer (pos w.idle_poll_max_ms);
  handler_timeout_ms = integer (pos w.handler_timeout_ms);
  retry_base_ms = integer (pos w.retry_base_ms);
  retry_max_ms = integer (pos w.retry_max_ms);
}

make_worker_of_numbers : (w : Worker) → IsConfigured w → make_worker (numbers_of w) ≡ ok w
unfolding make_worker
make_worker_of_numbers w c = ground arith

-- A worker is constructed exactly from integers that are its settings, each of the nine within its
-- bounds: the heartbeat's interval shorter than the lease, neither delay's maximum below its start.
pub make_worker_iff :
    (g : GivenSettings) (w : Worker)
    → (make_worker g ≡ ok w) ↔ ((g ≡ numbers_of w) × IsConfigured w)
unfolding make_worker
make_worker_iff g w =
    ((λ e. (ground arith, ground arith)), λ h. ap make_worker h.0 ∙ make_worker_of_numbers w h.1)

-- ===== src/Jobs/Backoff.antt =====
-- The retry delay (src/modules/jobs/job-backoff.js).
-- Of attempt and delays, `Number(value)` is given; `jitterRatio` and `random()` are doubles, whose
-- operations are the fields of `Doubles`.
use moventra_tms.Base.{
  ℕ, ◌+◌, ◌-◌, ◌*◌, ◌^◌, ◌≤◌, ◌≡◌, Bool, true, not, ◌||◌, ◌&&◌, min, arith, if◌then◌else◌, ltb,
  Result, ok, err, ◌>>=◌, ◌>>◌, guard, zero, suc, false, refl, ap, ◌∙◌,
}
use moventra_tms.Base.Int.{ℤ, pos, negsuc, add_ℤ, min_ℤ, Number, integer, no_integer}
use native.Mathlib.Nat.{pow-suc}

-- Thrown as TypeError.
pub data BackoffError : Type 0 where
  attempt_invalid base_delay_ms_invalid max_delay_ms_invalid : BackoffError
  jitter_ratio_invalid random_invalid : BackoffError

-- IEEE doubles, as far as the delay uses them: `floor` is of finite ones.
pub record Doubles : Type 1 where
  pub Double : Type 0
  pub is_finite : Double → Bool
  pub lt : Double → Double → Bool
  pub of_ℕ : ℕ → Double
  pub half : Double
  pub times : Double → Double → Double
  pub floor : Double → ℤ

unfoldable pub bounded_integer : Number → ℕ → ℕ → BackoffError → Result BackoffError ℕ
bounded_integer no_integer minimum maximum error = err error
bounded_integer (integer (negsuc n)) minimum maximum error = err error
bounded_integer (integer (pos value)) minimum maximum error =
    if ltb value minimum || ltb maximum value then err error else ok value

jittered :
    (maximum raw n : ℕ) {delay jitter : ℤ}
    → jitter ≡ pos n
    → delay ≡ min_ℤ maximum (add_ℤ raw jitter)
    → delay ≡ pos (if ltb maximum (raw + n) then maximum else raw + n)
jittered maximum raw n s given = given ∙ ap (λ x. min_ℤ maximum (add_ℤ raw x)) s

module _ (ieee : Doubles) where
  open ieee use {Double, is_finite, lt, of_ℕ, half, times, floor}

  -- What the delay relies on: numbers of milliseconds are exact, a product with a fraction between 0
  -- and 1 stays finite and keeps its sign, and so does rounding.
  pub record IsIeee : Type 0 where
    pub natural :
        (n : ℕ) → n ≤ 86400000 → (is_finite (of_ℕ n) ≡ true) × (lt (of_ℕ n) (of_ℕ 0) ≡ false)
    pub half_least : (x : Double) → is_finite x ≡ true → lt half x ≡ false → lt (of_ℕ 1) x ≡ false
    pub fraction :
        (x y : Double)
        → (is_finite x ≡ true) × (lt x (of_ℕ 0) ≡ false)
        → (is_finite y ≡ true) × (lt y (of_ℕ 0) ≡ false) × (lt (of_ℕ 1) y ≡ false)
        → (is_finite (times x y) ≡ true) × (lt (times x y) (of_ℕ 0) ≡ false)
    pub rounded :
        (x : Double) → (is_finite x ≡ true) × (lt x (of_ℕ 0) ≡ false) → (n : ℕ) × (floor x ≡ pos n)

  -- `!Number.isFinite(x) || x < 0 || x > top` does not hold.
  unfoldable pub within : Double → Double → Bool
  within x top = is_finite x && not (lt x (of_ℕ 0)) && not (lt top x)

  unfoldable pub exponential : ℕ → ℕ → ℕ → ℕ
  exponential attempt base maximum = min maximum (base * 2 ^ min (attempt - 1) 30)

  unfoldable pub calculate_job_backoff :
      (attempt base_delay_ms max_delay_ms : Number) (jitter_ratio random : Double)
      → Result BackoffError ℤ
  unfolding bounded_integer within exponential
  calculate_job_backoff attempt base_delay_ms max_delay_ms jitter_ratio random = do
    attempt' ← bounded_integer attempt 1 100 attempt_invalid
    base ← bounded_integer base_delay_ms 100 3600000 base_delay_ms_invalid
    maximum ← bounded_integer max_delay_ms base 86400000 max_delay_ms_invalid
    guard (within jitter_ratio half) jitter_ratio_invalid
    guard (within random (of_ℕ 1)) random_invalid
    let delay = exponential attempt' base maximum
    let jitter_ms = floor (times (times (of_ℕ delay) jitter_ratio) random)
    ok (min_ℤ maximum (add_ℤ delay jitter_ms))

  -- The doubling of the delay never takes it below the base.
  pow_pos : (n : ℕ) → 1 ≤ 2 ^ n
  pow_pos zero = omega arith
  pow_pos (suc n) = rw pow-suc (omega (arith, pow_pos n))

  exponential-lower :
      (attempt base maximum : ℕ) → base ≤ maximum → base ≤ exponential attempt base maximum
  unfolding exponential
  exponential-lower attempt base maximum h = grind (arith, pow_pos (min (attempt - 1) 30))

  exponential-upper : (attempt base maximum : ℕ) → exponential attempt base maximum ≤ maximum
  unfolding exponential
  exponential-upper attempt base maximum = grind arith

  abbrev jitter_ms : ℕ → (jitter random : Double) → ℤ
  jitter_ms delay jitter random = floor (times (times (of_ℕ delay) jitter) random)

  -- Behind the guards of `jitterRatio` and `random` the jitter is not negative.
  jitter_ms-pos :
      IsIeee
      → (delay : ℕ) (jitter random : Double) → delay ≤ 86400000
      → within jitter half ≡ true
      → within random (of_ℕ 1) ≡ true
      → (n : ℕ) × (jitter_ms delay jitter random ≡ pos n)
  unfolding within
  jitter_ms-pos laws delay jitter random h j r =
      let finite : is_finite jitter ≡ true = ground arith in
      let small : lt (of_ℕ 1) jitter ≡ false = laws.half_least jitter finite (ground arith) in
      let scaled =
        laws.fraction (of_ℕ delay) jitter (laws.natural delay h) (finite, ground arith, small) in
      laws.rounded _ (
        laws.fraction (times (of_ℕ delay) jitter) random scaled
          (ground arith, ground arith, ground arith))

  calculate_job_backoff-naturals :
      IsIeee
      → (attempt base maximum : ℕ) (jitter random : Double) {delay : ℤ}
      → calculate_job_backoff
          (integer (pos attempt))
          (integer (pos base))
          (integer (pos maximum))
          jitter
          random
        ≡ ok delay
      → (ms : ℕ) × (delay ≡ pos ms)
        × (base ≤ ms)
        × (ms ≤ maximum)
        × (min maximum (base * 2 ^ min (attempt - 1) 30) ≤ ms)
  unfolding calculate_job_backoff
  calculate_job_backoff-naturals laws attempt base maximum jitter random {delay} e =
      let j : within jitter half ≡ true = ground arith in
      let r : within random (of_ℕ 1) ≡ true = ground arith in
      let ranged : (base ≤ maximum) × (maximum ≤ 86400000) = (ground arith, ground arith) in
      let raw = exponential attempt base maximum in
      let (n, s) =
        jitter_ms-pos laws raw jitter random (omega (arith, exponential-upper attempt base maximum))
          j r in
      let given : delay ≡ min_ℤ maximum (add_ℤ raw (jitter_ms raw jitter random)) = ground arith in
      (
        if ltb maximum (raw + n) then maximum else raw + n,
        jittered maximum raw n s given,
        ground (arith, exponential-lower attempt base maximum),
        ground arith,
        unfold exponential in ground arith,
      )

  calculate_job_backoff-ranges :
      (a b m : ℕ) (jitter random : Double) {delay : ℤ}
      → calculate_job_backoff (integer (pos a)) (integer (pos b)) (integer (pos m)) jitter random
        ≡ ok delay
      → ((1 ≤ a) × (a ≤ 100)) × ((100 ≤ b) × (b ≤ 3600000)) × (m ≤ 86400000)
  unfolding calculate_job_backoff
  calculate_job_backoff-ranges a b m jitter random e =
      ((ground arith, ground arith), (ground arith, ground arith), ground arith)

  -- With doubles that behave as IEEE's, a delay is calculated only of an attempt from 1 to 100, a
  -- base from 100 to 3600000 and a maximum of at most 86400000, all of them integers, and it is a number of milliseconds between the base and the maximum, at least
  -- the base doubled at each attempt after the first (30 times at most), up to the maximum: the
  -- jitter never shortens it.
  pub calculate_job_backoff_bounds :
      IsIeee
      → (attempt base maximum : Number) (jitter random : Double) {delay : ℤ}
      → calculate_job_backoff attempt base maximum jitter random ≡ ok delay
      → (a b m ms : ℕ) × (attempt ≡ integer (pos a))
        × (base ≡ integer (pos b))
        × (maximum ≡ integer (pos m))
        × (((1 ≤ a) × (a ≤ 100)) × ((100 ≤ b) × (b ≤ 3600000)) × (m ≤ 86400000))
        × (delay ≡ pos ms)
        × (b ≤ ms)
        × (ms ≤ m)
        × (min m (b * 2 ^ min (a - 1) 30) ≤ ms)
  unfolding calculate_job_backoff
  calculate_job_backoff_bounds laws (integer (pos a)) (integer (pos b)) (integer (pos m)) jitter
        random e =
      let (ms, given, least, most, doubled) =
        calculate_job_backoff-naturals laws a b m jitter random e in
      (
        a,
        b,
        m,
        ms,
        refl,
        refl,
        refl,
        calculate_job_backoff-ranges a b m jitter random e,
        given,
        least,
        most,
        doubled,
      )
  calculate_job_backoff_bounds laws no_integer base maximum jitter random e = cc
  calculate_job_backoff_bounds laws (integer (negsuc a)) base maximum jitter random e = cc
  calculate_job_backoff_bounds laws (integer (pos a)) no_integer maximum jitter random e =
      absurd (ground arith)
  calculate_job_backoff_bounds laws (integer (pos a)) (integer (negsuc b)) maximum jitter random e =
      absurd (ground arith)
  calculate_job_backoff_bounds laws (integer (pos a)) (integer (pos b)) no_integer jitter random e =
      absurd (ground arith)
  calculate_job_backoff_bounds laws (integer (pos a)) (integer (pos b)) (integer (negsuc m)) jitter
        random e =
      absurd (ground arith)

  -- On inputs in range the calculation does not throw.
  pub calculate_job_backoff_total :
      (attempt base maximum : ℕ) (jitter random : Double)
      → (1 ≤ attempt) × (attempt ≤ 100)
      → (100 ≤ base) × (base ≤ 3600000) × (base ≤ maximum) × (maximum ≤ 86400000)
      → within jitter half ≡ true
      → within random (of_ℕ 1) ≡ true
      → (delay : ℤ) × (calculate_job_backoff
            (integer (pos attempt))
            (integer (pos base))
            (integer (pos maximum))
            jitter
            random
          ≡ ok delay)
  unfolding calculate_job_backoff
  calculate_job_backoff_total attempt base maximum jitter random a b j r = (
    min_ℤ maximum (
        add_ℤ (exponential attempt base maximum)
          (floor (times (times (of_ℕ (exponential attempt base maximum)) jitter) random))),
    ground arith,
  )

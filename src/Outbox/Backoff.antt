-- ===== src/Outbox/Backoff.antt =====
-- The retry delays.
use w4gns_logger4men.Base.{
  ℕ, zero, suc, ◌-◌, ◌*◌, ◌^◌, ◌≤◌, ◌<◌, ◌≡◌, sym, ap, ◌∙◌, arith, leb, if◌then◌else◌,
}
use native.Mathlib.Nat.{pow-succ', mul_assoc}
use w4gns_logger4men.Outbox.{minute, half_hour, max_upload_attempts, double_delay, upload_backoff}

-- A delay under the ceiling of half an hour.
abbrev pub capped : ℕ → ℕ
capped delay = if leb half_hour delay then half_hour else delay

pow_suc : (delay n : ℕ) → delay * 2 ^ suc n ≡ (delay * 2) * 2 ^ n
pow_suc delay n = ap (λ x. delay * x) (pow-succ' 2 n) ∙ sym (mul_assoc delay 2 (2 ^ n))

pow_grows : (delay n : ℕ) → delay ≤ delay * 2 ^ n
pow_grows delay zero = ground arith
pow_grows delay (suc n) = omega (arith, pow_suc delay n, pow_grows (delay * 2) n)

double_delay-capped :
    (rounds delay : ℕ) → delay < half_hour → double_delay rounds delay ≡ capped (delay * 2 ^ rounds)
unfolding double_delay
double_delay-capped zero delay h = ground arith
double_delay-capped (suc rounds) delay h = ground (
  arith,
  double_delay-capped rounds (delay * 2),
  pow_suc delay rounds,
  pow_grows (delay * 2) rounds,
)

-- While the retry budget lasts, the delay behind the n-th failure is a minute doubled n - 1 times,
-- under a ceiling of half an hour.
pub upload_backoff-capped :
    (attempts : ℕ)
    → 1 ≤ attempts
    → attempts < max_upload_attempts
    → upload_backoff attempts ≡ capped (minute * 2 ^ (attempts - 1))
unfolding upload_backoff
upload_backoff-capped attempts h lt = ground (arith, double_delay-capped (attempts - 1) minute)

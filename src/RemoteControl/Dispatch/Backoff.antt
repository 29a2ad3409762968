-- ===== src/RemoteControl/Dispatch/Backoff.antt =====
-- apps/devices/remote_control.py: proofs on `_retry_delay`.
use native.Mathlib.Nat.{pow-suc}
use novena_hub.Prelude.{ℕ, suc, ◌-◌, ◌*◌, ◌^◌, ◌≡◌, min, arith, seconds}
use novena_hub.RemoteControl.Dispatch.{Settings, retry_delay}

double_base : (b n : ℕ) → b * 2 ^ (suc (suc n) - 1) ≡ 2 * (b * 2 ^ (suc n - 1))
double_base b n =
    let above : suc (suc n) - 1 ≡ suc n = omega arith in
    let here : suc n - 1 ≡ n = omega arith in rw (above, here, pow-suc 2 n) (omega arith)

min_double : (m x y : ℕ) → y ≡ 2 * x → seconds (min m y) ≡ min (seconds m) (2 * seconds (min m x))
min_double m x y e = omega arith

-- The delay after the first attempt is the base, capped by the maximum; each further attempt doubles
-- the delay, up to the maximum.
pub retry_delay_doubles :
    (s : Settings) (n : ℕ)
    → (retry_delay s 1 ≡ seconds (min s.retry_max_seconds s.retry_base_seconds))
      × (retry_delay s (suc (suc n))
          ≡ min (seconds s.retry_max_seconds) (2 * retry_delay s (suc n)))
unfolding retry_delay
retry_delay_doubles s n =
    (omega arith, min_double s.retry_max_seconds _ _ (double_base s.retry_base_seconds n))

-- ===== src/Duration/RoundTrip.antt =====
-- What survives the way from a duration to a timeval and back, in the periods that the clock and
-- the tests use.
use native.Mathlib.Nat.{mul-one}
use rabbitmq_cxx.Base.{◌≡◌, ap, arith}
use rabbitmq_cxx.Base.Int.{
  ℤ, ◌+ℤ◌, ◌-ℤ◌, scale, tdiv, signed, signed-cases, scale-signed, tdiv-signed, add-signed,
}
use rabbitmq_cxx.Duration.Exact.{time_value-signed, timeval_of}
use rabbitmq_cxx.Duration.{seconds, microseconds, nanoseconds, time_value, duration_value}

-- Microseconds come back unchanged.
pub duration_value-time_value_us :
    (d : ℤ) → duration_value microseconds (time_value microseconds d) ≡ d
unfolding time_value duration_value scale tdiv ◌+ℤ◌ ◌-ℤ◌
duration_value-time_value_us d = ground arith

-- So do seconds.
pub duration_value-time_value_s : (d : ℤ) → duration_value seconds (time_value seconds d) ≡ d
unfolding time_value duration_value scale tdiv ◌+ℤ◌ ◌-ℤ◌
duration_value-time_value_s d = ground arith

-- Nanoseconds that go through a timeval and back lose what is below a microsecond, towards zero.
pub duration_value-time_value_ns :
    (d : ℤ) → duration_value nanoseconds (time_value nanoseconds d) ≡ scale (tdiv d 1000) 1000
unfolding duration_value timeval_of
duration_value-time_value_ns d =
    let (b, n, e) = signed-cases d in
    rw (e, time_value-signed nanoseconds b n)
      (simp (mul-one, scale-signed, tdiv-signed, add-signed) (ap (signed b) (omega arith)))

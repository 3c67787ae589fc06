-- ===== src/Duration.antt =====
-- timeValue and durationValue of include/rmqcxx/util.hpp, over std::chrono durations with a signed
-- integral count. A period is a fraction of a second; counts do not overflow.
pub mod Exact
pub mod RoundTrip
pub mod Overflow
use rabbitmq_cxx.Base.{ℕ, ◌+◌, ◌*◌, ◌<◌}
use rabbitmq_cxx.Base.Int.{ℤ, ◌+ℤ◌, ◌-ℤ◌, scale, tdiv}
use rabbitmq_cxx.Amqp.{Timeval}

-- std::ratio
pub record Period : Type 0 where
  pub num : ℕ
  pub den : ℕ

abbrev pub seconds : Period
seconds = record { num = 1; den = 1 }

abbrev pub microseconds : Period
microseconds = record { num = 1; den = 1000000 }

abbrev pub nanoseconds : Period
nanoseconds = record { num = 1; den = 1000000000 }

-- std::chrono::duration_cast from the period `p` to the period `q`.
unfoldable pub duration_cast : Period → Period → ℤ → ℤ
duration_cast p q d = tdiv (scale d (p.num * q.den)) (p.den * q.num)

-- `duration - seconds`, in the common type of both, which counts in 1 / p.den seconds.
unfoldable pub minus_seconds : Period → ℤ → ℤ → ℤ
minus_seconds p d s = scale d p.num -ℤ scale s p.den

-- The period of that common type.
abbrev pub common : Period → Period
common p = record { num = 1; den = p.den }

-- timeValue
unfoldable pub time_value : Period → ℤ → Timeval
unfolding duration_cast minus_seconds
time_value p d =
    let s = duration_cast p seconds d in
    record { tv_sec = s; tv_usec = duration_cast (common p) microseconds (minus_seconds p d s) }

-- durationValue
unfoldable pub duration_value : Period → Timeval → ℤ
unfolding duration_cast
duration_value q tv = duration_cast seconds q tv.tv_sec +ℤ duration_cast microseconds q tv.tv_usec

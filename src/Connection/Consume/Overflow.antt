-- ===== src/Connection/Consume/Overflow.antt =====
-- Where the 64-bit arithmetic of std::chrono overflows in the deadlines of
-- include/rmqcxx/Connection.hpp.
use rabbitmq_cxx.Base.{◌≡◌, refl, arith}
use rabbitmq_cxx.Base.Int.{ℤ, pos, ◌+ℤ◌, ◌-ℤ◌, ◌≤ℤ◌, max_ℤ, int_laws, -ℤ_parts}
use rabbitmq_cxx.Amqp.{Timeval}
use rabbitmq_cxx.Duration.Overflow.{Fits}
use rabbitmq_cxx.Duration.{nanoseconds, time_value}
use rabbitmq_cxx.Connection.Consume.{time_left}
use rabbitmq_cxx.Connection.Consume.Deadline.{timeout_of, time_left-adds_elapsed}
use rabbitmq_cxx.Connection.Consume.Loop.{next_timeout}

-- When the clock is not negative and goes forward, and the timeout of the last round is not negative, the
-- time since the start, what it leaves of the timeout, and the next timeout all fit into 64 bits.
pub next_timeout-Fits :
    (start now timeout : ℤ)
    → pos 0 ≤ℤ start
    → start ≤ℤ now
    → pos 0 ≤ℤ timeout
    → Fits now
    → Fits timeout
    → Fits (now -ℤ start) × Fits (timeout -ℤ (now -ℤ start)) × Fits (next_timeout start now timeout)
unfolding next_timeout max_ℤ
next_timeout-Fits start now timeout s0 forward t0 fn ft =
    ground (arith, -ℤ_parts now start, -ℤ_parts timeout (now -ℤ start))

too_large : (z : ℤ) → pos 9223372036854775808 ≤ℤ z → ¬ Fits z
too_large z big f = ground (arith, f, big)

signs : (i s n : ℤ) → i +ℤ (n -ℤ s) ≡ i -ℤ (s -ℤ n)
signs i s n = omega int_laws

-- What consumeImpl computes for its second wait, `initial - spent` with `start - now` for the time spent,
-- overflows as soon as the timeout and the time spent add up to 2 ^ 63 nanoseconds; with
-- `now - start` it would not.
pub time_left-overflows :
    (tv : Timeval) (start now : ℤ)
    → pos 0 ≤ℤ start
    → start ≤ℤ now
    → pos 0 ≤ℤ timeout_of tv
    → Fits now
    → Fits (timeout_of tv)
    → pos 9223372036854775808 ≤ℤ timeout_of tv +ℤ (now -ℤ start)
    → (time_left tv start now ≡ time_value nanoseconds (timeout_of tv -ℤ (start -ℤ now)))
      × ¬ Fits (timeout_of tv -ℤ (start -ℤ now))
      × Fits (timeout_of tv -ℤ (now -ℤ start))
time_left-overflows tv start now s0 forward t0 fn ft big =
    let sum : timeout_of tv +ℤ (now -ℤ start) ≡ timeout_of tv -ℤ (start -ℤ now) =
      signs (timeout_of tv) start now in
    (
      rw (time_left-adds_elapsed tv start now t0 forward, sum) refl,
      rw (← sum) (too_large (timeout_of tv +ℤ (now -ℤ start)) big),
      ground (arith, -ℤ_parts now start, -ℤ_parts (timeout_of tv) (now -ℤ start)),
    )

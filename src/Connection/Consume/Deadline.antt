-- ===== src/Connection/Consume/Deadline.antt =====
-- The time that consumeImpl of include/rmqcxx/Connection.hpp leaves for its second wait.
use rabbitmq_cxx.Base.{◌≡◌, true, false, arith}
use rabbitmq_cxx.Base.Int.{ℤ, pos, ◌+ℤ◌, ◌-ℤ◌, ◌≤ℤ◌, ◌<ℤ◌, ltb_ℤ, int_laws}
use rabbitmq_cxx.Amqp.{Timeval}
use rabbitmq_cxx.Duration.{microseconds, nanoseconds, duration_cast, time_value, duration_value}
use rabbitmq_cxx.Connection.Consume.{time_left}

-- The timeout that a timeval stands for, in nanoseconds.
abbrev pub timeout_of : Timeval → ℤ
timeout_of tv = duration_cast microseconds nanoseconds (duration_value microseconds tv)

not_back : (a b : ℤ) → a ≤ℤ b → ltb_ℤ b a ≡ false
not_back a b h = ground arith

back_test : (a b : ℤ) → a <ℤ b → ltb_ℤ a b ≡ true
back_test a b h = ground arith

spent_le : (i s n : ℤ) → pos 0 ≤ℤ i → s ≤ℤ n → s -ℤ n ≤ℤ i
spent_le i s n p q = omega int_laws

sub-sub : (i s n : ℤ) → i -ℤ (s -ℤ n) ≡ i +ℤ (n -ℤ s)
sub-sub i s n = omega int_laws

-- With a timeout that is not negative, and a clock that has not gone back, the second wait gets the
-- whole timeout once more and the time already spent on top of it.
pub time_left-adds_elapsed :
    (tv : Timeval) (start now : ℤ)
    → pos 0 ≤ℤ timeout_of tv
    → start ≤ℤ now
    → time_left tv start now ≡ time_value nanoseconds (timeout_of tv +ℤ (now -ℤ start))
unfolding time_left
time_left-adds_elapsed tv start now nonneg forward = rw (
  not_back start now forward,
  not_back (start -ℤ now) (timeout_of tv) (spent_le (timeout_of tv) start now nonneg forward),
  sub-sub (timeout_of tv) start now,
)

-- A clock that has gone back leaves no time.
pub time_left-back :
    (tv : Timeval) (start now : ℤ)
    → now <ℤ start
    → time_left tv start now ≡ record { tv_sec = pos 0; tv_usec = pos 0 }
unfolding time_left
time_left-back tv start now back = rw (back_test now start back)

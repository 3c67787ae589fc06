-- ===== src/Connection/Consume/Loop.antt =====
-- consumeEnvelope, consumeReturnedMessage and consumeAcknowledge of
-- include/rmqcxx/Connection.hpp: they consume until their callback was called, the timed ones until
-- the time is up too. A loop takes fuel for its rounds, and is `none` when that runs out.
pub mod Shrinking
pub mod Once
pub mod Rounds
pub mod Ends
pub mod Lost
use rabbitmq_cxx.Base.{ℕ, zero, suc, Bool, true, false, not, ◌&&◌, Option, none, some}
use rabbitmq_cxx.Base.Int.{ℤ, pos, ◌-ℤ◌, ltb_ℤ, max_ℤ}
use rabbitmq_cxx.Amqp.{clock_now}
use rabbitmq_cxx.Effect.{Effect, pure, ◌>>=◌, perform, choose}
use rabbitmq_cxx.Duration.{Period, nanoseconds, duration_cast}
use rabbitmq_cxx.Connection.{Connection}
use rabbitmq_cxx.Connection.Consume.{Closures, consume_for, consume}
use rabbitmq_cxx.Connection.Consume.Callers.{only_envelope, only_returned, only_acknowledge}
use rabbitmq_cxx.Base.{if◌then◌else◌}

-- The timeout of a round: zero if the clock has gone back behind the start, and else what the last
-- round was given, less the time since the start.
unfoldable pub next_timeout : ℤ → ℤ → ℤ → ℤ
next_timeout start now timeout =
    if ltb_ℤ now start then pos 0 else max_ℤ (timeout -ℤ (now -ℤ start)) (pos 0)

-- do { ... } while (r && !done); return r;
unfoldable pub timed_loop : ℕ → Connection → Closures → ℤ → ℤ → Effect (Option Bool)
timed_loop zero c hs start timeout = pure none
timed_loop (suc fuel) c hs start timeout = do
  now ← perform clock_now
  r ← consume_for c hs nanoseconds (next_timeout start now timeout)
  choose (r.result && not r.flagged) (timed_loop fuel c hs start (next_timeout start now timeout))
      (pure (some r.result))

-- do { ... } while (!done);
unfoldable pub blocking_loop : ℕ → Connection → Closures → Effect (Option (Unit {0}))
blocking_loop zero c hs = pure none
blocking_loop (suc fuel) c hs = do
  r ← consume c hs
  choose r.flagged (pure (some tt)) (blocking_loop fuel c hs)

unfoldable pub consume_timed : ℕ → Connection → Closures → Period → ℤ → Effect (Option Bool)
consume_timed fuel c hs p timeout = do
  start ← perform clock_now
  timed_loop fuel c hs start (duration_cast p nanoseconds timeout)

unfoldable pub consume_envelope_for : ℕ → Connection → Period → ℤ → Effect (Option Bool)
consume_envelope_for fuel c p timeout = consume_timed fuel c only_envelope p timeout

unfoldable pub consume_envelope : ℕ → Connection → Effect (Option (Unit {0}))
consume_envelope fuel c = blocking_loop fuel c only_envelope

unfoldable pub consume_returned_message_for : ℕ → Connection → Period → ℤ → Effect (Option Bool)
consume_returned_message_for fuel c p timeout = consume_timed fuel c only_returned p timeout

unfoldable pub consume_returned_message : ℕ → Connection → Effect (Option (Unit {0}))
consume_returned_message fuel c = blocking_loop fuel c only_returned

unfoldable pub consume_acknowledge_for : ℕ → Connection → Period → ℤ → Effect (Option Bool)
consume_acknowledge_for fuel c p timeout = consume_timed fuel c only_acknowledge p timeout

unfoldable pub consume_acknowledge : ℕ → Connection → Effect (Option (Unit {0}))
consume_acknowledge fuel c = blocking_loop fuel c only_acknowledge

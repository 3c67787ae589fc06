-- ===== src/Connection/Consume/Loop/Lost.antt =====
-- The timed loop of include/rmqcxx/Connection.hpp when the connection is lost.
use rabbitmq_cxx.Base.{
  ℕ, suc, ◌+◌, ◌≤◌, ◌<◌, ◌≡◌, ◌≢◌, refl, not, ◌&&◌, ◌++◌, Option, none, some, ◌∷◌, arith,
}
use rabbitmq_cxx.Base.Int.{ℤ}
use rabbitmq_cxx.Base.Text.{text}
use rabbitmq_cxx.Amqp.{
  Trace, Library, Status, Reply, ReplyType, RawEnvelope, Timeval, clock_now, consume_message,
}
use rabbitmq_cxx.Exceptions.{Exception, socket_exception}
use rabbitmq_cxx.Effect.{done, throws, pure, throw, ◌>>=◌, perform, notify, choose, defer}
use rabbitmq_cxx.Effect.Calls.{count}
use rabbitmq_cxx.Effect.Writes.{anything, Writes-choose, Writes-pure, count-bind}
use rabbitmq_cxx.Duration.{Period, nanoseconds, duration_cast, time_value}
use rabbitmq_cxx.AmqpStruct.{AmqpStruct}
use rabbitmq_cxx.Connection.{Connection}
use rabbitmq_cxx.Connection.Consume.{
  Closures, switch_error, switch_consumed, receive, consume_impl, consume_for,
}
use rabbitmq_cxx.Connection.Consume.Cleanup.{destruct_envelope-Returns}
use rabbitmq_cxx.Connection.Consume.Counting.{LeavesAll}
use rabbitmq_cxx.Connection.Consume.Writes.{AllWrite, timed_loop-Writes}
use rabbitmq_cxx.Connection.Consume.Writes.Anything.{anything-Utters}
use rabbitmq_cxx.Connection.Consume.Loop.{next_timeout, timed_loop, consume_timed}
use rabbitmq_cxx.Connection.Consume.Loop.Ends.{is_consume, Stops, round-Adds, stopped-ends}

-- From the n-th call on, amqp_consume_message reports AMQP_STATUS_SOCKET_ERROR.
pub record IsLost (lib : Library) (n : ℕ) : Type 0 where
  pub type :
      (h : Trace) (s : ℕ) (tv : Option Timeval)
      → n ≤ count is_consume h
      → (lib.answer h (consume_message s tv)).0.reply_type ≡ ReplyType.library_exception
  pub error :
      (h : Trace) (s : ℕ) (tv : Option Timeval)
      → n ≤ count is_consume h
      → (lib.answer h (consume_message s tv)).0.library_error ≡ Status.socket_error

-- What consuming throws then.
abbrev pub socket_error : Connection → Exception
socket_error c = socket_exception 0 Status.ok (c.context ++ text "Consumer: Socket Error!")

module _ (lib : Library) (n : ℕ) (lost : IsLost lib n) (c : Connection) (hs : Closures) where
  lost-switch :
      (tv : Option Timeval) (start : ℤ) (e : AmqpStruct RawEnvelope) (r : Reply) (h : Trace)
      → r.reply_type ≡ ReplyType.library_exception
      → r.library_error ≡ Status.socket_error
      → (switch_consumed c hs tv start e r r.reply_type lib h).0 ≡ throws (socket_error c)
  unfolding switch_consumed switch_error defer throw
  lost-switch tv start e r h et ee =
      let (u, q) = (destruct_envelope-Returns e).at lib h in rw (et, ee, q) refl

  consume_for-throws :
      (p : Period) (d : ℤ) (h : Trace)
      → n ≤ count is_consume h
      → (consume_for c hs p d lib h).0 ≡ throws (socket_error c)
  unfolding consume_for consume_impl receive defer notify ◌>>=◌ perform count
  consume_for-throws p d h le =
      let tv : Option Timeval = some (time_value p d) in
      rw
        (lost-switch tv (lib.answer h clock_now) _
          (lib.answer (clock_now ∷ h) (consume_message c.state tv)).0 _
          (lost.type (clock_now ∷ h) c.state tv le) (lost.error (clock_now ∷ h) c.state tv le))
        refl

  lost-Stops :
      (p : Period) (d : ℤ) (h : Trace)
      → n ≤ count is_consume h
      → Stops (consume_for c hs p d lib h).0
  lost-Stops p d h le = rw (consume_for-throws p d h le) tt

  -- When the connection is lost, the loop is left by the exception at once.
  pub consume_timed-throws :
      (fuel : ℕ) (p : Period) (timeout : ℤ) (h : Trace)
      → n ≤ count is_consume h
      → (consume_timed (suc fuel) c hs p timeout lib h).0 ≡ throws (socket_error c)
  unfolding consume_timed timed_loop ◌>>=◌ perform count
  consume_timed-throws fuel p timeout h le =
      rw (consume_for-throws nanoseconds _ (clock_now ∷ clock_now ∷ h) le) refl

  module _ (leaves : LeavesAll is_consume hs) where
    pub consume_timed-stops :
        (fuel : ℕ) (p : Period) (timeout : ℤ) (h : Trace)
        → n < suc fuel + count is_consume h
        → (consume_timed (suc fuel) c hs p timeout lib h).0 ≢ done none
    consume_timed-stops = stopped-ends hs leaves lib n c lost-Stops

module _ (c : Connection) (hs : Closures) (leaves : LeavesAll is_consume hs)
    (write : AllWrite anything hs) where
  -- The loop waits for a message at least once.
  pub consume_timed-waits :
      (fuel : ℕ) (p : Period) (timeout : ℤ) (lib : Library) (h : Trace)
      → count is_consume h < count is_consume (consume_timed (suc fuel) c hs p timeout lib h).1
  unfolding consume_timed timed_loop ◌>>=◌ perform count
  consume_timed-waits fuel p timeout lib h =
      let start : ℤ = lib.answer h clock_now in
      let left : ℤ =
        next_timeout start (lib.answer (clock_now ∷ h) clock_now)
          (duration_cast p nanoseconds timeout) in
      let m = consume_for c hs nanoseconds left in
      let more =
        count-bind is_consume m
          (λ r.
            choose (r.result && not r.flagged) (timed_loop fuel c hs start left)
              (pure (some r.result)))
          (λ r.
            Writes-choose _ _ _
              (timed_loop-Writes anything anything-Utters c hs write fuel start left)
              (Writes-pure _))
          lib (clock_now ∷ clock_now ∷ h) in
      let added = (round-Adds hs leaves c nanoseconds left).at lib (clock_now ∷ clock_now ∷ h) in
      omega (arith, more, added)

-- ===== src/Connection/Consume.antt =====
-- consumeImpl and the methods that consume in include/rmqcxx/Connection.hpp. The clock counts
-- nanoseconds. A callback is whatever code the closure of the source runs; its `Delivery` says how
-- it ended. It gets the envelope or message by an rvalue reference: if it moved that on to an owner
-- that outlives the call (`keeps`), nothing is left to destroy here.
pub mod Callers
pub mod Cleanup
pub mod Counting
pub mod Reports
pub mod Envelopes
pub mod Messages
pub mod Deadline
pub mod Overflow
pub mod Writes
pub mod Keeps
pub mod Loop
use rabbitmq_cxx.Base.{ℕ, Bool, true, false, ◌++◌, Option, none, some, ◌==◌, if◌then◌else◌}
use rabbitmq_cxx.Base.Int.{ℤ, pos, ◌-ℤ◌, ltb_ℤ}
use rabbitmq_cxx.Base.Text.{text, to_string_ℤ}
use rabbitmq_cxx.Amqp.{
  Status, ReplyType, FrameType, Method, Reply, Frame, Timeval, RawMessage, RawEnvelope, Ack, Return,
  consume_message, simple_wait_frame_noblock, read_message, maybe_release_buffers, method_name,
  clock_now, Library, Trace,
}
use rabbitmq_cxx.Exceptions.{
  Exception, socket_exception, rpc_exception, frame_status_exception, frame_exception,
  new_channel_close, new_connection_close,
}
use rabbitmq_cxx.Effect.{
  Effect, Outcome, pure, throw, ◌>>=◌, ◌>>◌, notify, perform, choose, defer, try_catch,
}
use rabbitmq_cxx.Duration.{
  Period, microseconds, nanoseconds, duration_cast, time_value, duration_value,
}
use rabbitmq_cxx.AmqpStruct
use rabbitmq_cxx.AmqpStruct.{AmqpStruct, destruct_message, destruct_envelope}
use rabbitmq_cxx.Connection.{Connection, process_reply}

-- `flagged` is set by closures that also write the local `done` of their caller.
pub record Delivery : Type 0 where
  pub raises : Option Exception
  pub keeps : Bool
  pub flagged : Bool

-- Code that makes calls and reports an exception in its result.
abbrev pub Callback : Type 0
Callback = Library → Trace → Delivery × Trace

unfoldable pub run : Callback → Effect Delivery
run k lib h = let r = k lib h in (Outcome.done r.0, r.1)

pub record Closures : Type 0 where
  pub envelope : RawEnvelope → Callback
  pub returned : RawMessage → Return → Callback
  pub acknowledge : Ack → Callback

-- The result of consumeImpl, and what has become of `done`.
pub record Consumed : Type 0 where
  pub result : Bool
  pub flagged : Bool

abbrev pub timed_out : Consumed
timed_out = record { result = false; flagged = false }

-- `callback(...); return true;` after the callback has ended.
unfoldable pub finish : Delivery → Effect Consumed
finish d = elim d.raises [
  | none ↦ pure (record { result = true; flagged = d.flagged })
  | some x ↦ throw x
]

-- The time left for the second wait. The source computes `start - now`.
unfoldable pub time_left : Timeval → ℤ → ℤ → Timeval
time_left tv start now =
    let initial = duration_cast microseconds nanoseconds (duration_value microseconds tv) in
    let spent = start -ℤ now in
    let none_left : Timeval = record { tv_sec = pos 0; tv_usec = pos 0 } in
    if ltb_ℤ now start
    then none_left
    else if ltb_ℤ initial spent
    then none_left
    else time_value nanoseconds (initial -ℤ spent)

unfoldable pub adjust : Option Timeval → ℤ → Effect (Option Timeval)
adjust none start = pure none
adjust (some tv) start = do now ← perform clock_now; pure (some (time_left tv start now))

module _ (c : Connection) (handlers : Closures) where
  -- The message that follows a basic.return. It is destroyed when reading it fails, and else with
  -- the ReturnedMessage that took it over.
  unfoldable pub returned_message : Frame → Return → Effect Consumed
  returned_message frame method = do
    got ← perform (read_message c.state frame.channel)
    let message = AmqpStruct.new got.1
    try_catch (process_reply (c.context ++ text " Consumer (return method): ") got.0)
        (λ e. do destruct_message message; throw e)
    d ← run (handlers.returned message.memory method)
    destruct_message (record message { moved = d.keeps })
    finish d

  -- The switch on the method of a frame.
  unfoldable pub switch_method : Reply → Frame → Method → Effect Consumed
  switch_method reply frame (Method.basic_ack ack) = do d ← run (handlers.acknowledge ack); finish d
  switch_method reply frame (Method.basic_return method) = returned_message frame method
  switch_method reply frame (Method.channel_close decoded) = throw (
      new_channel_close frame.channel decoded
        (c.context ++ text "Consumer: Channel close received!"))
  switch_method reply frame (Method.connection_close decoded) =
      throw
        (new_connection_close decoded (c.context ++ text "Consumer: Connection close received!"))
  switch_method reply frame (Method.other n) = do
    name ← perform (method_name frame.payload)
    throw (
        frame_exception reply frame
          (c.context ++ (text "Consumer: Received unhandled method: " ++ name)))

  unfoldable pub switch_frame : Reply → Frame → FrameType → Effect Consumed
  switch_frame reply frame FrameType.method = switch_method reply frame frame.payload
  switch_frame reply frame (FrameType.other n) =
      throw
        (frame_exception reply frame (c.context ++ text "Consumer: Received unhandled frame type!"))

  -- The switch on the status of the wait for a frame.
  unfoldable pub unhandled_status : Reply → Status → Effect Consumed
  unhandled_status reply status = throw (
      frame_status_exception reply status
        (c.context ++ text "Consumer: Received unhandled status when waiting for frame"))

  unfoldable pub switch_wait : Reply → Frame → Status → Effect Consumed
  switch_wait reply frame Status.ok = switch_frame reply frame frame.frame_type
  switch_wait reply frame Status.timeout = pure timed_out
  switch_wait reply frame Status.unexpected_state = unhandled_status reply Status.unexpected_state
  switch_wait reply frame Status.socket_error = unhandled_status reply Status.socket_error
  switch_wait reply frame (Status.other n) = unhandled_status reply (Status.other n)

  unfoldable pub wait_frame : Option Timeval → ℤ → Reply → Effect Consumed
  wait_frame tv start reply = do
    tv' ← adjust tv start
    got ← perform (simple_wait_frame_noblock c.state tv')
    switch_wait reply got.1 got.0

  unfoldable pub unhandled_error : Reply → ℤ → Effect Consumed
  unhandled_error reply n = throw (
      rpc_exception reply (
        c.context
        ++ (text "Consumer: Received an unhandled library exception, library_error: "
            ++ to_string_ℤ n)))

  -- The switch on the library's error. AMQP_STATUS_OK is 0.
  unfoldable pub switch_error : Option Timeval → ℤ → Reply → Status → Effect Consumed
  switch_error tv start reply Status.unexpected_state = wait_frame tv start reply
  switch_error tv start reply Status.timeout = pure timed_out
  switch_error tv start reply Status.socket_error =
      throw (socket_exception 0 Status.ok (c.context ++ text "Consumer: Socket Error!"))
  switch_error tv start reply Status.ok = unhandled_error reply (pos 0)
  switch_error tv start reply (Status.other n) = unhandled_error reply n

  unfoldable pub unhandled_reply : Reply → Effect Consumed
  unhandled_reply reply =
      throw (rpc_exception reply (c.context ++ text "Consumer: Received an unhandled RPC reply!"))

  -- A message was consumed. Channel 0 is no channel.
  unfoldable pub deliver : AmqpStruct RawEnvelope → Effect Consumed
  deliver envelope =
      choose (envelope.memory.channel == 0) (do destruct_envelope envelope; pure timed_out)
        do
          d ← run (handlers.envelope envelope.memory)
          destruct_envelope (record envelope { moved = d.keeps })
          finish d

  -- The switch on the type of the reply. The envelope is destroyed when the scope is left.
  unfoldable pub switch_consumed :
      Option Timeval → ℤ → AmqpStruct RawEnvelope → Reply → ReplyType → Effect Consumed
  switch_consumed tv start envelope reply ReplyType.normal = deliver envelope
  switch_consumed tv start envelope reply ReplyType.library_exception =
      defer (destruct_envelope envelope) (switch_error tv start reply reply.library_error)
  switch_consumed tv start envelope reply ReplyType.none =
      defer (destruct_envelope envelope) (unhandled_reply reply)
  switch_consumed tv start envelope reply ReplyType.server_exception =
      defer (destruct_envelope envelope) (unhandled_reply reply)
  switch_consumed tv start envelope reply (ReplyType.other n) =
      defer (destruct_envelope envelope) (unhandled_reply reply)

  unfoldable pub receive : Option Timeval → Effect Consumed
  receive tv = do
    start ← perform clock_now
    got ← perform (consume_message c.state tv)
    switch_consumed tv start (AmqpStruct.new got.1) got.0 got.0.reply_type

  -- consumeImpl
  unfoldable pub consume_impl : Option Timeval → Effect Consumed
  consume_impl tv = defer (notify (maybe_release_buffers c.state)) (receive tv)

-- consume with a timeout, and without one
unfoldable pub consume_for : Connection → Closures → Period → ℤ → Effect Consumed
consume_for c handlers p timeout = consume_impl c handlers (some (time_value p timeout))

unfoldable pub consume : Connection → Closures → Effect Consumed
consume c handlers = consume_impl c handlers none

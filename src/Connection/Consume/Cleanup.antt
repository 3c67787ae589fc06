-- ===== src/Connection/Consume/Cleanup.antt =====
-- How consumeImpl of include/rmqcxx/Connection.hpp ends, on each path through its switches.
use rabbitmq_cxx.Base.{◌≡◌, Option, none, some, ◌∷◌, arith}
use rabbitmq_cxx.Base.Int.{ℤ}
use rabbitmq_cxx.Amqp.{
  Trace, Library, Status, ReplyType, FrameType, Method, Reply, Frame, Return, Timeval, RawEnvelope,
  RawMessage, maybe_release_buffers,
}
use rabbitmq_cxx.Exceptions.{Exception}
use rabbitmq_cxx.Effect.{notify, defer}
use rabbitmq_cxx.Effect.Survives.{Survives, Returns, survives_rules}
use rabbitmq_cxx.AmqpStruct.{AmqpStruct, destruct_message, destruct_envelope}
use rabbitmq_cxx.Connection.{Connection}
use rabbitmq_cxx.Connection.Replies.{process_reply-Survives}
use rabbitmq_cxx.Connection.Consume.{
  Delivery, Callback, Closures, run, finish, adjust, returned_message, switch_method, switch_frame,
  switch_wait, unhandled_status, wait_frame, unhandled_error, switch_error, unhandled_reply,
  deliver, switch_consumed, receive, consume_impl,
}

run-Survives : (k : Callback) → Survives (run k)
unfolding run
run-Survives k = record { at = λ lib h e. cc }

finish-Survives : (d : Delivery) → Survives (finish d)
unfolding finish
finish-Survives d = finish_cases d.raises
  where
    finish_cases : (r : Option Exception) → Survives (finish (record d { raises = r }))
    finish_cases none = search survives_rules
    finish_cases (some n) = search survives_rules

pub destruct_message-Returns : (m : AmqpStruct RawMessage) → Returns (destruct_message m)
unfolding destruct_message
destruct_message-Returns m = search survives_rules

destruct_message-Survives : (m : AmqpStruct RawMessage) → Survives (destruct_message m)
unfolding destruct_message
destruct_message-Survives m = search survives_rules

pub destruct_envelope-Returns : (e : AmqpStruct RawEnvelope) → Returns (destruct_envelope e)
unfolding destruct_envelope
destruct_envelope-Returns e = search survives_rules

pub destruct_envelope-Survives : (e : AmqpStruct RawEnvelope) → Survives (destruct_envelope e)
unfolding destruct_envelope
destruct_envelope-Survives e = search survives_rules

pub adjust-Survives : (tv : Option Timeval) (start : ℤ) → Survives (adjust tv start)
unfolding adjust
adjust-Survives none start = search survives_rules
adjust-Survives (some tv) start = search survives_rules

ruleset parts = (
  survives_rules, run-Survives, finish-Survives, destruct_message-Survives,
  destruct_envelope-Survives, destruct_envelope-Returns, adjust-Survives, process_reply-Survives,
)

module _ (c : Connection) (hs : Closures) where
  returned_message-Survives : (f : Frame) (m : Return) → Survives (returned_message c hs f m)
  unfolding returned_message
  returned_message-Survives f m = search parts depth 7

  switch_method-Survives :
      (r : Reply) (f : Frame) (m : Method) → Survives (switch_method c hs r f m)
  unfolding switch_method
  switch_method-Survives r f (Method.basic_return m) = returned_message-Survives f m
  switch_method-Survives r f _ = search parts

  switch_frame-Survives :
      (r : Reply) (f : Frame) (t : FrameType) → Survives (switch_frame c hs r f t)
  unfolding switch_frame
  switch_frame-Survives r f FrameType.method = switch_method-Survives r f f.payload
  switch_frame-Survives r f (FrameType.other n) = search parts

  switch_wait-Survives : (r : Reply) (f : Frame) (s : Status) → Survives (switch_wait c hs r f s)
  unfolding switch_wait unhandled_status
  switch_wait-Survives r f Status.ok = switch_frame-Survives r f f.frame_type
  switch_wait-Survives r f _ = search parts

  wait_frame-Survives :
      (tv : Option Timeval) (start : ℤ) (r : Reply) → Survives (wait_frame c hs tv start r)
  unfolding wait_frame
  wait_frame-Survives tv start r = search (parts, switch_wait-Survives)

  pub switch_error-Survives :
      (tv : Option Timeval) (start : ℤ) (r : Reply) (s : Status)
      → Survives (switch_error c hs tv start r s)
  unfolding switch_error unhandled_error
  switch_error-Survives tv start r Status.unexpected_state = wait_frame-Survives tv start r
  switch_error-Survives tv start r _ = search parts

  pub unhandled_reply-Survives : (r : Reply) → Survives (unhandled_reply c hs r)
  unfolding unhandled_reply
  unhandled_reply-Survives r = search survives_rules

  deliver-Survives : (e : AmqpStruct RawEnvelope) → Survives (deliver c hs e)
  unfolding deliver
  deliver-Survives e = search parts depth 7

  switch_consumed-Survives :
      (tv : Option Timeval) (start : ℤ) (e : AmqpStruct RawEnvelope) (r : Reply) (t : ReplyType)
      → Survives (switch_consumed c hs tv start e r t)
  unfolding switch_consumed unhandled_reply
  switch_consumed-Survives tv start e r ReplyType.normal = deliver-Survives e
  switch_consumed-Survives tv start e r ReplyType.library_exception =
      search (parts, switch_error-Survives)
  switch_consumed-Survives tv start e r _ = search parts

  receive-Survives : (tv : Option Timeval) → Survives (receive c hs tv)
  unfolding receive
  receive-Survives tv = search (parts, switch_consumed-Survives)

  -- Consuming never ends the program, whatever the library answers and the callbacks throw.
  pub consume_impl-Survives : (tv : Option Timeval) → Survives (consume_impl c hs tv)
  unfolding consume_impl
  consume_impl-Survives tv = search (parts, receive-Survives)

  -- consumeImpl ends as the code that it guards, with the result or with the exception, and its
  -- last call is the release of the buffers.
  pub consume_impl-releases_last :
      (tv : Option Timeval) (lib : Library) (h : Trace)
      → consume_impl c hs tv lib h
        ≡ ((receive c hs tv lib h).0, maybe_release_buffers c.state ∷ (receive c hs tv lib h).1)
  unfolding consume_impl defer notify
  consume_impl-releases_last tv lib h = ground (arith, (receive-Survives tv).at lib h)

-- ===== src/Connection/Consume/Writes.antt =====
-- What consumeImpl and the timed loops of include/rmqcxx/Connection.hpp call, as words of a language that
-- their own calls and the calls of a delivery are in.
pub mod Anything
use rabbitmq_cxx.Base.{◌≡◌, ℕ, zero, suc, refl, true, Bytes, [], ◌∷◌, Option, none, some}
use rabbitmq_cxx.Base.Int.{ℤ}
use rabbitmq_cxx.Effect.{pure, throw, ◌>>=◌, ◌>>◌, perform, notify}
use rabbitmq_cxx.Amqp.{
  Library, Trace, clock_now, consume_message, simple_wait_frame_noblock, read_message, method_name,
  maybe_release_buffers, destroy_message, destroy_envelope, Status, ReplyType, FrameType, Method,
  Reply, Frame, Return, Ack, Timeval, RawMessage, RawEnvelope, on_envelope,
}
use rabbitmq_cxx.Exceptions.{Exception}
use rabbitmq_cxx.Effect.Writes.{
  Language, anything, Writes, Writes-anything, Writes-pure, Writes-throw, Writes-choose,
  Writes-defer, Writes-try_catch, Writes-bind, Writes-perform, Writes-notify,
}
use rabbitmq_cxx.Duration.{Period}
use rabbitmq_cxx.AmqpStruct.{AmqpStruct, destruct_envelope, destruct_message}
use rabbitmq_cxx.Connection.Writes.{Replies, anything-Replies, process_reply-Writes}
use rabbitmq_cxx.Connection.{Connection, process_reply}
use rabbitmq_cxx.Connection.Consume.{
  Delivery, Closures, run, finish, adjust, returned_message, switch_method, switch_frame,
  switch_wait, unhandled_status, wait_frame, unhandled_error, switch_error, unhandled_reply,
  deliver, switch_consumed, receive, consume_impl, consume_for,
}
use rabbitmq_cxx.Connection.Consume.Callers.{only_envelope, call_envelope, ignore}
use rabbitmq_cxx.Connection.Consume.Loop.{timed_loop, consume_timed, consume_envelope_for}

-- A language with the calls that consuming makes itself.
pub record Utters (K : Language) : Type 0 where
  pub clock : K.IsWord (clock_now ∷ [])
  pub consume : (s : ℕ) (tv : Option Timeval) → K.IsWord (consume_message s tv ∷ [])
  pub wait : (s : ℕ) (tv : Option Timeval) → K.IsWord (simple_wait_frame_noblock s tv ∷ [])
  pub read : (s n : ℕ) → K.IsWord (read_message s n ∷ [])
  pub replies : Replies K
  pub release : (s : ℕ) → K.IsWord (maybe_release_buffers s ∷ [])
  pub message : (m : RawMessage) → K.IsWord (destroy_message m ∷ [])
  pub envelope : (e : RawEnvelope) → K.IsWord (destroy_envelope e ∷ [])

-- Callbacks whose calls are words, with the destruction of what is delivered.
pub record AllWrite (K : Language) (hs : Closures) : Type 0 where
  pub envelope :
      (e : AmqpStruct RawEnvelope)
      → Writes K do
        d ← run (hs.envelope e.memory)
        destruct_envelope (record e { moved = d.keeps })
        finish d
  pub returned :
      (m : AmqpStruct RawMessage) (r : Return)
      → Writes K do
        d ← run (hs.returned m.memory r)
        destruct_message (record m { moved = d.keeps })
        finish d
  pub acknowledge : (a : Ack) → Writes K (do d ← run (hs.acknowledge a); finish d)

module _ (K : Language) (utters : Utters K) where
  clock_now-Writes : Writes K (perform clock_now)
  clock_now-Writes = Writes-perform clock_now (utters.clock)

  consume_message-Writes : (s : ℕ) (tv : Option Timeval) → Writes K (perform (consume_message s tv))
  consume_message-Writes s tv = Writes-perform (consume_message s tv) (utters.consume s tv)

  wait_frame_noblock-Writes :
      (s : ℕ) (tv : Option Timeval) → Writes K (perform (simple_wait_frame_noblock s tv))
  wait_frame_noblock-Writes s tv =
      Writes-perform (simple_wait_frame_noblock s tv) (utters.wait s tv)

  read_message-Writes : (s n : ℕ) → Writes K (perform (read_message s n))
  read_message-Writes s n = Writes-perform (read_message s n) (utters.read s n)

  method_name-Writes : (m : Method) → Writes K (perform (method_name m))
  method_name-Writes m = Writes-perform (method_name m) (utters.replies.name m)

  release-Writes : (s : ℕ) → Writes K (notify (maybe_release_buffers s))
  release-Writes s = Writes-notify (maybe_release_buffers s) (utters.release s)

  destroy_message-Writes : (m : RawMessage) → Writes K (notify (destroy_message m))
  destroy_message-Writes m = Writes-notify (destroy_message m) (utters.message m)

  destroy_envelope-Writes : (e : RawEnvelope) → Writes K (notify (destroy_envelope e))
  destroy_envelope-Writes e = Writes-notify (destroy_envelope e) (utters.envelope e)

  utters_reply-Writes : (context : Bytes) (r : Reply) → Writes K (process_reply context r)
  utters_reply-Writes = process_reply-Writes K utters.replies

  ruleset said = (
    Writes-pure, Writes-throw, Writes-choose, Writes-defer, Writes-try_catch, Writes-bind,
    clock_now-Writes, consume_message-Writes, wait_frame_noblock-Writes, read_message-Writes,
    method_name-Writes, release-Writes, destroy_message-Writes, destroy_envelope-Writes,
  )

  pub finish-Writes : (d : Delivery) → Writes K (finish d)
  unfolding finish
  finish-Writes d = go d.raises
    where
      go : (r : Option Exception) → Writes K (finish (record d { raises = r }))
      go none = Writes-pure _
      go (some n) = Writes-throw _

  destruct_message-Writes : (m : AmqpStruct RawMessage) → Writes K (destruct_message m)
  unfolding destruct_message
  destruct_message-Writes m = search said

  destruct_envelope-Writes : (e : AmqpStruct RawEnvelope) → Writes K (destruct_envelope e)
  unfolding destruct_envelope
  destruct_envelope-Writes e = search said

  adjust-Writes : (tv : Option Timeval) (start : ℤ) → Writes K (adjust tv start)
  unfolding adjust
  adjust-Writes none start = search said
  adjust-Writes (some tv) start = search said

  ruleset parts = (
    said, utters_reply-Writes, finish-Writes, destruct_message-Writes, destruct_envelope-Writes,
    adjust-Writes,
  )

  module _ (c : Connection) (hs : Closures) (tell : AllWrite K hs) where
    returned_message-Writes : (f : Frame) (m : Return) → Writes K (returned_message c hs f m)
    unfolding returned_message
    returned_message-Writes f m = search (parts, tell.returned) depth 8

    switch_method-Writes :
        (r : Reply) (f : Frame) (m : Method) → Writes K (switch_method c hs r f m)
    unfolding switch_method
    switch_method-Writes r f (Method.basic_return m) = returned_message-Writes f m
    switch_method-Writes r f _ = search (parts, tell.acknowledge)

    switch_frame-Writes :
        (r : Reply) (f : Frame) (t : FrameType) → Writes K (switch_frame c hs r f t)
    unfolding switch_frame
    switch_frame-Writes r f FrameType.method = switch_method-Writes r f f.payload
    switch_frame-Writes r f (FrameType.other n) = Writes-throw _

    switch_wait-Writes : (r : Reply) (f : Frame) (s : Status) → Writes K (switch_wait c hs r f s)
    unfolding switch_wait unhandled_status
    switch_wait-Writes r f Status.ok = switch_frame-Writes r f f.frame_type
    switch_wait-Writes r f _ = search said

    switch_error-Writes :
        (tv : Option Timeval) (start : ℤ) (r : Reply) (s : Status)
        → Writes K (switch_error c hs tv start r s)
    unfolding switch_error unhandled_error wait_frame
    switch_error-Writes tv start r Status.unexpected_state = search (parts, switch_wait-Writes)
    switch_error-Writes tv start r _ = search said

    deliver-Writes : (e : AmqpStruct RawEnvelope) → Writes K (deliver c hs e)
    unfolding deliver
    deliver-Writes e = search (parts, tell.envelope) depth 8

    switch_consumed-Writes :
        (tv : Option Timeval) (start : ℤ) (e : AmqpStruct RawEnvelope) (r : Reply) (t : ReplyType)
        → Writes K (switch_consumed c hs tv start e r t)
    unfolding switch_consumed unhandled_reply
    switch_consumed-Writes tv start e r ReplyType.normal = deliver-Writes e
    switch_consumed-Writes tv start e r ReplyType.library_exception =
        search (parts, switch_error-Writes)
    switch_consumed-Writes tv start e r _ = search parts

    consume_impl-Writes : (tv : Option Timeval) → Writes K (consume_impl c hs tv)
    unfolding consume_impl receive
    consume_impl-Writes tv = search (parts, switch_consumed-Writes) depth 8

    pub timed_loop-Writes :
        (fuel : ℕ) (start timeout : ℤ) → Writes K (timed_loop fuel c hs start timeout)
    unfolding timed_loop consume_for
    timed_loop-Writes zero start timeout = Writes-pure none
    timed_loop-Writes (suc fuel) start timeout =
        search (said, consume_impl-Writes, timed_loop-Writes fuel) depth 8

    pub consume_timed-Writes :
        (fuel : ℕ) (q : Period) (timeout : ℤ) → Writes K (consume_timed fuel c hs q timeout)
    unfolding consume_timed
    consume_timed-Writes fuel q timeout = search (said, timed_loop-Writes)

  -- Without the callback, nothing is said.
  ignore-Writes : Writes K (run ignore)
  unfolding run
  ignore-Writes = record { at = λ lib h. ([], refl, K.nil) }

  pub ignore_envelope-Writes :
      (e : AmqpStruct RawEnvelope)
      → Writes K do d ← run ignore; destruct_envelope (record e { moved = d.keeps }); finish d
  ignore_envelope-Writes e = search (parts, ignore-Writes) depth 8

  pub ignore_returned-Writes :
      (m : AmqpStruct RawMessage)
      → Writes K do d ← run ignore; destruct_message (record m { moved = d.keeps }); finish d
  ignore_returned-Writes m = search (parts, ignore-Writes) depth 8

  pub ignore_acknowledge-Writes : Writes K (do d ← run ignore; finish d)
  ignore_acknowledge-Writes = search (parts, ignore-Writes) depth 8

  module _ (callback : (e : RawEnvelope) → K.IsWord (on_envelope e ∷ [])) where
    call_envelope-Writes : (e : RawEnvelope) → Writes K (run (call_envelope true e))
    unfolding run
    call_envelope-Writes e = record { at = λ lib h. (on_envelope e ∷ [], refl, callback e) }

    only_envelope-AllWrite : AllWrite K only_envelope
    only_envelope-AllWrite = record {
      envelope = λ e. search (parts, call_envelope-Writes) depth 8;
      returned = λ m r. ignore_returned-Writes m;
      acknowledge = λ a. ignore_acknowledge-Writes;
    }

    pub consume_envelope_for-Writes :
        (fuel : ℕ) (c : Connection) (q : Period) (timeout : ℤ)
        → Writes K (consume_envelope_for fuel c q timeout)
    unfolding consume_envelope_for
    consume_envelope_for-Writes fuel c q timeout =
        consume_timed-Writes c only_envelope only_envelope-AllWrite fuel q timeout

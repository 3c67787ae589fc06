-- ===== src/Connection/Consume/Reports/Consuming.antt =====
-- The report of consumeImpl in include/rmqcxx/Connection.hpp, on each path through its switches.
use rabbitmq_cxx.Base.{◌≡◌, Bool, false, Option}
use rabbitmq_cxx.Base.Int.{ℤ}
use rabbitmq_cxx.Amqp.{
  Call, Status, ReplyType, FrameType, Method, Reply, Frame, Return, Timeval, RawEnvelope, clock_now,
  consume_message, simple_wait_frame_noblock, read_message, method_name, maybe_release_buffers,
}
use rabbitmq_cxx.Effect.{perform}
use rabbitmq_cxx.Effect.Calls.{
  Adds, adds_rules, Adds-notify, Adds-perform, Adds-throw, Adds-try_catch, Adds-bind,
}
use rabbitmq_cxx.Effect.Survives.{
  Survives-perform, Returns-notify, Survives-Returns, Survives-try_catch, Survives-bind,
  Survives-throw,
}
use rabbitmq_cxx.AmqpStruct.{AmqpStruct, destruct_envelope}
use rabbitmq_cxx.Connection.{Connection}
use rabbitmq_cxx.Connection.Replies.{process_reply-Survives}
use rabbitmq_cxx.Connection.Consume.{
  Closures, Consumed, timed_out, returned_message, switch_method, switch_frame, switch_wait,
  unhandled_status, wait_frame, unhandled_error, switch_error, unhandled_reply, deliver,
  switch_consumed, receive, consume_impl,
}
use rabbitmq_cxx.Connection.Consume.Cleanup.{
  destruct_envelope-Returns, destruct_message-Returns, adjust-Survives,
}
use rabbitmq_cxx.Connection.Consume.Counting.{destruct_message-Adds, adjust-Adds, read-Adds}
use rabbitmq_cxx.Connection.Consume.Reports.{
  Reports, AllTell, IsOutside, Reports-throw, Reports-timed_out, Reports-choose, Reports-bind,
  Reports-defer, Reports-run, Reports-run_last,
}

module _ (p : Call → Bool) (w : Consumed → Bool) (outside : IsOutside p)
    (unreported : w timed_out ≡ false) where
  destruct_envelope-Adds : (e : AmqpStruct RawEnvelope) → Adds p 0 (destruct_envelope e)
  unfolding destruct_envelope
  destruct_envelope-Adds e = search (adds_rules, outside.destroy)

  module _ (c : Connection) (hs : Closures) (tell : AllTell p w hs) where
    returned_message-Reports : (f : Frame) (m : Return) → Reports p w (returned_message c hs f m)
    unfolding returned_message
    returned_message-Reports f m =
        Reports-bind (perform (read_message c.state f.channel)) _
          (Adds-perform (read_message c.state f.channel) (outside.apart.read c.state f.channel))
          (Survives-perform (read_message c.state f.channel))
          λ got.
            Reports-bind _ _
              (Adds-try_catch _ _ (read-Adds p outside.apart _ got.0)
                λ e. Adds-bind _ _ (destruct_message-Adds p outside.apart _) λ u. Adds-throw e)
              (Survives-try_catch _ _ (process_reply-Survives _ got.0) λ e.
                Survives-bind _ _ (Survives-Returns _ (destruct_message-Returns _))
                  λ u. Survives-throw e)
              λ u.
                Reports-run _ _ (tell.returned _ m) (λ d. destruct_message-Adds p outside.apart _)
                  (λ d. destruct_message-Returns _)

    switch_method-Reports :
        (r : Reply) (f : Frame) (m : Method) → Reports p w (switch_method c hs r f m)
    unfolding switch_method
    switch_method-Reports r f (Method.basic_ack a) = Reports-run_last _ (tell.acknowledge a)
    switch_method-Reports r f (Method.basic_return m) = returned_message-Reports f m
    switch_method-Reports r f (Method.channel_close d) = Reports-throw _
    switch_method-Reports r f (Method.connection_close d) = Reports-throw _
    switch_method-Reports r f (Method.other n) =
        Reports-bind (perform (method_name f.payload)) _
          (Adds-perform (method_name f.payload) (outside.apart.description.name f.payload))
          (Survives-perform (method_name f.payload)) λ name. Reports-throw _

    switch_frame-Reports :
        (r : Reply) (f : Frame) (t : FrameType) → Reports p w (switch_frame c hs r f t)
    unfolding switch_frame
    switch_frame-Reports r f FrameType.method = switch_method-Reports r f f.payload
    switch_frame-Reports r f (FrameType.other n) = Reports-throw _

    switch_wait-Reports :
        (r : Reply) (f : Frame) (s : Status) → Reports p w (switch_wait c hs r f s)
    unfolding switch_wait unhandled_status
    switch_wait-Reports r f Status.ok = switch_frame-Reports r f f.frame_type
    switch_wait-Reports r f Status.timeout = Reports-timed_out unreported
    switch_wait-Reports r f _ = Reports-throw _

    wait_frame-Reports :
        (tv : Option Timeval) (start : ℤ) (r : Reply) → Reports p w (wait_frame c hs tv start r)
    unfolding wait_frame
    wait_frame-Reports tv start r =
        Reports-bind _ _ (adjust-Adds p outside.apart tv start) (adjust-Survives tv start) λ tv'.
          Reports-bind (perform (simple_wait_frame_noblock c.state tv')) _
            (Adds-perform (simple_wait_frame_noblock c.state tv') (outside.apart.wait c.state tv'))
            (Survives-perform (simple_wait_frame_noblock c.state tv'))
            λ got. switch_wait-Reports r got.1 got.0

    switch_error-Reports :
        (tv : Option Timeval) (start : ℤ) (r : Reply) (s : Status)
        → Reports p w (switch_error c hs tv start r s)
    unfolding switch_error unhandled_error
    switch_error-Reports tv start r Status.unexpected_state = wait_frame-Reports tv start r
    switch_error-Reports tv start r Status.timeout = Reports-timed_out unreported
    switch_error-Reports tv start r _ = Reports-throw _

    deliver-Reports : (e : AmqpStruct RawEnvelope) → Reports p w (deliver c hs e)
    unfolding deliver
    deliver-Reports e =
        Reports-choose _ _ _
          (Reports-bind _ _ (destruct_envelope-Adds e)
            (Survives-Returns _ (destruct_envelope-Returns e)) λ u. Reports-timed_out unreported)
          (Reports-run _ _ (tell.envelope e.memory) (λ d. destruct_envelope-Adds _)
            (λ d. destruct_envelope-Returns _))

    switch_consumed-Reports :
        (tv : Option Timeval) (start : ℤ) (e : AmqpStruct RawEnvelope) (r : Reply) (t : ReplyType)
        → Reports p w (switch_consumed c hs tv start e r t)
    unfolding switch_consumed unhandled_reply
    switch_consumed-Reports tv start e r ReplyType.normal = deliver-Reports e
    switch_consumed-Reports tv start e r ReplyType.library_exception =
        Reports-defer _ _ (destruct_envelope-Adds e) (destruct_envelope-Returns e)
          (switch_error-Reports tv start r r.library_error)
    switch_consumed-Reports tv start e r _ =
        Reports-defer _ _ (destruct_envelope-Adds e) (destruct_envelope-Returns e) (Reports-throw _)

    receive-Reports : (tv : Option Timeval) → Reports p w (receive c hs tv)
    unfolding receive
    receive-Reports tv =
        Reports-bind (perform clock_now) _ (Adds-perform clock_now outside.apart.clock)
          (Survives-perform clock_now)
          λ start.
            Reports-bind (perform (consume_message c.state tv)) _
              (Adds-perform (consume_message c.state tv) (outside.consume c.state tv))
              (Survives-perform (consume_message c.state tv))
              λ got. switch_consumed-Reports tv start _ got.0 got.0.reply_type

    -- consumeImpl reports truly.
    pub consume_impl-Reports : (tv : Option Timeval) → Reports p w (consume_impl c hs tv)
    unfolding consume_impl
    consume_impl-Reports tv =
        Reports-defer _ _ (Adds-notify (maybe_release_buffers c.state) (outside.release c.state))
          (Returns-notify (maybe_release_buffers c.state)) (receive-Reports tv)

-- ===== src/Connection/Consume/Keeps.antt =====
-- What consumeImpl and the timed loops of include/rmqcxx/Connection.hpp keep of an account that their calls
-- keep.
use rabbitmq_cxx.Base.{ℕ, zero, suc, Bytes, ◌∷◌, Option, none, some}
use rabbitmq_cxx.Base.Int.{ℤ}
use rabbitmq_cxx.Amqp.{
  Call, Library, Trace, Timeval, Status, ReplyType, FrameType, Method, Reply, Frame, Return, Ack,
  clock_now, simple_wait_frame_noblock, method_name, error_string2,
}
use rabbitmq_cxx.Exceptions.{Exception}
use rabbitmq_cxx.Effect.{perform}
use rabbitmq_cxx.Effect.Keeps.{Account, Keeps, keeps_rules, Keeps-pure, Keeps-throw, Keeps-perform}
use rabbitmq_cxx.Duration.{Period}
use rabbitmq_cxx.Connection.{
  Connection, process_reply, switch_reply, server_exception, unhandled_response,
}
use rabbitmq_cxx.Connection.Consume.{
  Delivery, Closures, run, finish, adjust, returned_message, switch_method, switch_frame,
  switch_wait, unhandled_status, wait_frame, unhandled_error, switch_error, consume_impl,
  consume_for,
}
use rabbitmq_cxx.Connection.Consume.Loop.{timed_loop, consume_timed}

abbrev pub IsKept : Account → Call → Type 0
IsKept P c = (lib : Library) (h : Trace) → P lib h → P lib (c ∷ h)

-- An account that these calls keep.
pub record IsCalm (P : Account) : Type 0 where
  pub clock : IsKept P clock_now
  pub wait : (s : ℕ) (tv : Option Timeval) → IsKept P (simple_wait_frame_noblock s tv)
  pub name : (m : Method) → IsKept P (method_name m)
  pub description : (s : Status) → IsKept P (error_string2 s)

module _ (P : Account) (calm : IsCalm P) where
  clock_now-Keeps : Keeps P (perform clock_now)
  clock_now-Keeps = Keeps-perform clock_now calm.clock

  wait_frame_noblock-Keeps :
      (s : ℕ) (tv : Option Timeval) → Keeps P (perform (simple_wait_frame_noblock s tv))
  wait_frame_noblock-Keeps s tv = Keeps-perform (simple_wait_frame_noblock s tv) (calm.wait s tv)

  method_name-Keeps : (m : Method) → Keeps P (perform (method_name m))
  method_name-Keeps m = Keeps-perform (method_name m) (calm.name m)

  error_string2-Keeps : (t : Status) → Keeps P (perform (error_string2 t))
  error_string2-Keeps t = Keeps-perform (error_string2 t) (calm.description t)

  ruleset kept = (
    keeps_rules, clock_now-Keeps, wait_frame_noblock-Keeps, method_name-Keeps, error_string2-Keeps,
  )

  unhandled_response-Keeps : (context : Bytes) (r : Reply) → Keeps P (unhandled_response context r)
  unfolding unhandled_response
  unhandled_response-Keeps context r = search kept

  server_exception-Keeps :
      (context : Bytes) (r : Reply) (m : Method) → Keeps P (server_exception context r m)
  unfolding server_exception
  server_exception-Keeps context r (Method.connection_close d) = Keeps-throw _
  server_exception-Keeps context r (Method.channel_close d) = Keeps-throw _
  server_exception-Keeps context r _ = unhandled_response-Keeps context r

  pub switch_reply-Keeps :
      (context : Bytes) (r : Reply) (t : ReplyType) → Keeps P (switch_reply context r t)
  unfolding switch_reply
  switch_reply-Keeps context r ReplyType.server_exception = server_exception-Keeps context r r.reply
  switch_reply-Keeps context r _ = search kept

  pub process_reply-Keeps : (context : Bytes) (r : Reply) → Keeps P (process_reply context r)
  unfolding process_reply
  process_reply-Keeps context r = switch_reply-Keeps context r r.reply_type

  pub finish-Keeps : (d : Delivery) → Keeps P (finish d)
  unfolding finish
  finish-Keeps d = go d.raises
    where
      go : (r : Option Exception) → Keeps P (finish (record d { raises = r }))
      go none = Keeps-pure _
      go (some n) = Keeps-throw _

  adjust-Keeps : (tv : Option Timeval) (start : ℤ) → Keeps P (adjust tv start)
  unfolding adjust
  adjust-Keeps none start = search kept
  adjust-Keeps (some tv) start = search kept

  module _ (c : Connection) (hs : Closures)
      (returning : (f : Frame) (m : Return) → Keeps P (returned_message c hs f m))
      (acknowledge : (a : Ack) → Keeps P (run (hs.acknowledge a))) where
    switch_method-Keeps : (r : Reply) (f : Frame) (m : Method) → Keeps P (switch_method c hs r f m)
    unfolding switch_method
    switch_method-Keeps r f (Method.basic_return m) = returning f m
    switch_method-Keeps r f _ = search (kept, finish-Keeps, acknowledge)

    switch_frame-Keeps : (r : Reply) (f : Frame) (t : FrameType) → Keeps P (switch_frame c hs r f t)
    unfolding switch_frame
    switch_frame-Keeps r f FrameType.method = switch_method-Keeps r f f.payload
    switch_frame-Keeps r f (FrameType.other n) = Keeps-throw _

    switch_wait-Keeps : (r : Reply) (f : Frame) (s : Status) → Keeps P (switch_wait c hs r f s)
    unfolding switch_wait unhandled_status
    switch_wait-Keeps r f Status.ok = switch_frame-Keeps r f f.frame_type
    switch_wait-Keeps r f _ = search kept

    pub switch_error-Keeps :
        (tv : Option Timeval) (start : ℤ) (r : Reply) (s : Status)
        → Keeps P (switch_error c hs tv start r s)
    unfolding switch_error unhandled_error wait_frame
    switch_error-Keeps tv start r Status.unexpected_state =
        search (kept, adjust-Keeps, switch_wait-Keeps)
    switch_error-Keeps tv start r _ = search kept

  -- The timed loops, from consumeImpl.
  module _ (c : Connection) (hs : Closures)
      (consuming : (tv : Option Timeval) → Keeps P (consume_impl c hs tv)) where
    timed_loop-Keeps : (fuel : ℕ) (start timeout : ℤ) → Keeps P (timed_loop fuel c hs start timeout)
    unfolding timed_loop consume_for
    timed_loop-Keeps zero start timeout = Keeps-pure none
    timed_loop-Keeps (suc fuel) start timeout =
        search (kept, consuming, timed_loop-Keeps fuel) depth 8

    pub consume_timed-Keeps :
        (fuel : ℕ) (q : Period) (timeout : ℤ) → Keeps P (consume_timed fuel c hs q timeout)
    unfolding consume_timed
    consume_timed-Keeps fuel q timeout = search (kept, timed_loop-Keeps)

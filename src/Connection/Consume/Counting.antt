-- ===== src/Connection/Consume/Counting.antt =====
-- Calls that the switches of consumeImpl in include/rmqcxx/Connection.hpp do not make by themselves.
use rabbitmq_cxx.Base.{ℕ, ◌≡◌, Bool, false, List, Option, none, some, arith}
use rabbitmq_cxx.Base.Int.{ℤ}
use rabbitmq_cxx.Amqp.{
  Call, Status, FrameType, Method, Reply, Frame, Return, Timeval, RawMessage, RawEnvelope, Ack,
  clock_now, simple_wait_frame_noblock, read_message, destroy_message,
}
use rabbitmq_cxx.Effect.{pure, throw}
use rabbitmq_cxx.Effect.Calls.{Adds, adds_rules}
use rabbitmq_cxx.AmqpStruct.{AmqpStruct, destruct_message}
use rabbitmq_cxx.Connection.{Connection, process_reply}
use rabbitmq_cxx.Connection.Replies.{IsOther, process_reply-Adds}
use rabbitmq_cxx.Connection.Consume.{
  Delivery, Closures, run, finish, adjust, returned_message, switch_method, switch_frame,
  switch_wait, unhandled_status, wait_frame, unhandled_error, switch_error,
}

-- A test that none of these calls passes.
pub record IsApart (p : Call → Bool) : Type 0 where
  pub description : IsOther p
  pub clock : p clock_now ≡ false
  pub wait : (s : ℕ) (tv : Option Timeval) → p (simple_wait_frame_noblock s tv) ≡ false
  pub read : (s n : ℕ) → p (read_message s n) ≡ false
  pub message : (m : RawMessage) → p (destroy_message m) ≡ false

-- Callbacks for frames that make no such call either.
pub record LeavesOut (p : Call → Bool) (hs : Closures) : Type 0 where
  pub returned : (m : RawMessage) (r : Return) → Adds p 0 (run (hs.returned m r))
  pub acknowledge : (a : Ack) → Adds p 0 (run (hs.acknowledge a))

-- And for envelopes.
pub record LeavesAll (p : Call → Bool) (hs : Closures) : Type 0 where
  pub envelope : (e : RawEnvelope) → Adds p 0 (run (hs.envelope e))
  pub frames : LeavesOut p hs

module _ (p : Call → Bool) (apart : IsApart p) where
  pub finish-Adds : (d : Delivery) → Adds p 0 (finish d)
  unfolding finish pure throw
  finish-Adds d = record { at = λ lib h. ground arith }

  pub destruct_message-Adds : (m : AmqpStruct RawMessage) → Adds p 0 (destruct_message m)
  unfolding destruct_message
  destruct_message-Adds m = search (adds_rules, apart.clock, apart.message)

  pub adjust-Adds : (tv : Option Timeval) (start : ℤ) → Adds p 0 (adjust tv start)
  unfolding adjust
  adjust-Adds none start = search adds_rules
  adjust-Adds (some tv) start = search (adds_rules, apart.clock, apart.message)

  pub read-Adds : (context : List ℕ) (reply : Reply) → Adds p 0 (process_reply context reply)
  read-Adds context reply = process_reply-Adds p apart.description context reply

  module _ (c : Connection) (hs : Closures) (leaves : LeavesOut p hs) where
    returned_message-Adds : (f : Frame) (m : Return) → Adds p 0 (returned_message c hs f m)
    unfolding returned_message
    returned_message-Adds f m =
        search
          (adds_rules, finish-Adds, destruct_message-Adds, read-Adds, apart.read, leaves.returned)
          depth 7

    switch_method-Adds : (r : Reply) (f : Frame) (m : Method) → Adds p 0 (switch_method c hs r f m)
    unfolding switch_method
    switch_method-Adds r f (Method.basic_return m) = returned_message-Adds f m
    switch_method-Adds r f _ =
        search (adds_rules, finish-Adds, apart.description.name, leaves.acknowledge)

    switch_frame-Adds : (r : Reply) (f : Frame) (t : FrameType) → Adds p 0 (switch_frame c hs r f t)
    unfolding switch_frame
    switch_frame-Adds r f FrameType.method = switch_method-Adds r f f.payload
    switch_frame-Adds r f (FrameType.other n) = search adds_rules

    switch_wait-Adds : (r : Reply) (f : Frame) (s : Status) → Adds p 0 (switch_wait c hs r f s)
    unfolding switch_wait unhandled_status
    switch_wait-Adds r f Status.ok = switch_frame-Adds r f f.frame_type
    switch_wait-Adds r f _ = search adds_rules

    wait_frame-Adds :
        (tv : Option Timeval) (start : ℤ) (r : Reply) → Adds p 0 (wait_frame c hs tv start r)
    unfolding wait_frame
    wait_frame-Adds tv start r = search (adds_rules, adjust-Adds, apart.wait, switch_wait-Adds)

    pub switch_error-Adds :
        (tv : Option Timeval) (start : ℤ) (r : Reply) (s : Status)
        → Adds p 0 (switch_error c hs tv start r s)
    unfolding switch_error unhandled_error
    switch_error-Adds tv start r Status.unexpected_state = wait_frame-Adds tv start r
    switch_error-Adds tv start r _ = search adds_rules

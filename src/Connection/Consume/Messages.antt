-- ===== src/Connection/Consume/Messages.antt =====
-- The life of the message that follows a basic.return in include/rmqcxx/Connection.hpp.
use rabbitmq_cxx.Base.{◌+◌, ◌≡◌, refl, Bool, true, false, Option, none, some, arith}
use rabbitmq_cxx.Base.Int.{ℤ}
use rabbitmq_cxx.Amqp.{
  Call, Trace, Library, Status, ReplyType, FrameType, Method, Reply, Frame, Return, Ack, Timeval,
  RawMessage, RawEnvelope, clock_now, consume_message, simple_wait_frame_noblock, read_message,
  destroy_message, method_name, maybe_release_buffers,
}
use rabbitmq_cxx.Effect.{Effect, perform, notify, ◌>>=◌, ◌>>◌, choose}
use rabbitmq_cxx.Effect.Calls.{
  Adds, count, adds_rules, Adds-notify, Adds-notify_one, Adds-perform, Adds-perform_one, Adds-bind,
  Adds-try_catch, Adds-throw,
}
use rabbitmq_cxx.Effect.Pays.{Adds-bind_paid, Adds-bind_known, Adds-bind_last, Pays-try_catch}
use rabbitmq_cxx.Effect.Balance.{
  Balances, Balances-Adds, Balances-throw, Balances-pure, Balances-bind, Balances-defer,
  Balances-choose, balances_rules,
}
use rabbitmq_cxx.Effect.Survives.{
  Returns-perform, Survives-try_catch, Survives-bind, Survives-Returns, Survives-throw,
}
use rabbitmq_cxx.AmqpStruct
use rabbitmq_cxx.AmqpStruct.{AmqpStruct, destruct_message, destruct_envelope}
use rabbitmq_cxx.Connection.{Connection}
use rabbitmq_cxx.Connection.Replies.{IsOther, process_reply-Adds, process_reply-Survives}
use rabbitmq_cxx.Connection.Consume.{
  Delivery, Closures, run, finish, adjust, returned_message, switch_method, switch_frame,
  switch_wait, unhandled_status, wait_frame, unhandled_error, switch_error, unhandled_reply,
  deliver, switch_consumed, receive, consume_impl,
}
use rabbitmq_cxx.Connection.Consume.Cleanup.{destruct_message-Returns}

abbrev pub is_read_message : Call → Bool
is_read_message (read_message s n) = true
is_read_message _ = false

abbrev pub is_destroy_message : Call → Bool
is_destroy_message (destroy_message m) = true
is_destroy_message _ = false

reads-IsOther : IsOther is_read_message
reads-IsOther = record { description = λ s. refl; name = λ m. refl }

destroys-IsOther : IsOther is_destroy_message
destroys-IsOther = record { description = λ s. refl; name = λ m. refl }

-- Callbacks that neither read nor destroy messages themselves, and leave theirs to consumeImpl.
pub record LeavesMessages (hs : Closures) : Type 0 where
  pub envelope :
      (e : RawEnvelope)
      → Adds is_read_message 0 (run (hs.envelope e))
        × Adds is_destroy_message 0 (run (hs.envelope e))
  pub returned :
      (m : RawMessage) (r : Return)
      → Adds is_read_message 0 (run (hs.returned m r))
        × Adds is_destroy_message 0 (run (hs.returned m r))
  pub acknowledge :
      (a : Ack)
      → Adds is_read_message 0 (run (hs.acknowledge a))
        × Adds is_destroy_message 0 (run (hs.acknowledge a))
  pub keeps :
      (m : RawMessage) (r : Return) (lib : Library) (h : Trace)
      → (hs.returned m r lib h).0.keeps ≡ false

finish-Adds : (p : Call → Bool) (d : Delivery) → Adds p 0 (finish d)
unfolding finish rabbitmq_cxx.Effect.pure rabbitmq_cxx.Effect.throw
finish-Adds p d = record { at = λ lib h. ground arith }

new_message-destroyed :
    (m : RawMessage) → Adds is_destroy_message 1 (destruct_message (AmqpStruct.new m))
unfolding destruct_message AmqpStruct.new choose
new_message-destroyed m = Adds-notify_one _ refl

destruct_message-reads : (m : AmqpStruct RawMessage) → Adds is_read_message 0 (destruct_message m)
unfolding destruct_message
destruct_message-reads m = search (adds_rules, refl)

-- The calls of the library that are neither.
quiet :
    (k : Call)
    → is_destroy_message k ≡ false
    → is_read_message k ≡ false
    → Balances is_destroy_message is_read_message (perform k)
quiet k d r = Balances-Adds _ (Adds-perform k d) (Adds-perform k r)

destruct_envelope-Balances :
    (e : AmqpStruct RawEnvelope) → Balances is_destroy_message is_read_message (destruct_envelope e)
unfolding destruct_envelope
destruct_envelope-Balances e =
    Balances-Adds {n = 0} _ (search (adds_rules, refl)) (search (adds_rules, refl))

adjust-Balances :
    (tv : Option Timeval) (start : ℤ)
    → Balances is_destroy_message is_read_message (adjust tv start)
unfolding adjust
adjust-Balances none start = Balances-pure _
adjust-Balances (some tv) start =
    Balances-bind _ _ (quiet clock_now refl refl) λ now. Balances-pure _

module _ (c : Connection) (hs : Closures) (leaves : LeavesMessages hs) where
  delivered-Balances :
      (k : rabbitmq_cxx.Connection.Consume.Callback)
      → Adds is_read_message 0 (run k) × Adds is_destroy_message 0 (run k)
      → Balances is_destroy_message is_read_message (run k)
  delivered-Balances k a = Balances-Adds _ a.1 a.0

  -- The message is destroyed when reading it fails, and else after the callback.
  returned_message-Balances :
      (f : Frame) (m : Return)
      → Balances is_destroy_message is_read_message (returned_message c hs f m)
  unfolding returned_message AmqpStruct.new
  returned_message-Balances f m =
      Balances-Adds _
        (Adds-bind_last (perform (read_message c.state f.channel)) _
          (Adds-perform (read_message c.state f.channel) refl)
          (Returns-perform (read_message c.state f.channel))
          λ got.
            Adds-bind_paid (λ u. Unit {0}) _ _
              (Pays-try_catch _ _ (process_reply-Adds is_destroy_message destroys-IsOther _ got.0)
                (destruct_message-Returns (AmqpStruct.new got.1)) (new_message-destroyed got.1))
              (Survives-try_catch _ _ (process_reply-Survives _ got.0) λ e.
                Survives-bind _ _ (Survives-Returns _ (destruct_message-Returns _))
                  λ u. Survives-throw e)
              (λ l t u e. tt)
              λ u e.
                Adds-bind_known (λ d. d.keeps ≡ false) _ _ (leaves.returned got.1 m).1
                  (unfold run in λ lib h. (_, refl, leaves.keeps got.1 m lib h))
                  λ d k.
                    Adds-bind _ _ (rw k (new_message-destroyed got.1))
                      λ v. finish-Adds is_destroy_message d)
        (Adds-bind (perform (read_message c.state f.channel)) _
          (Adds-perform_one (read_message c.state f.channel) refl)
          λ got.
            Adds-bind _ _
              (Adds-try_catch _ _ (process_reply-Adds is_read_message reads-IsOther _ got.0)
                λ e. Adds-bind _ _ (destruct_message-reads _) λ u. Adds-throw e)
              λ u.
                Adds-bind _ _ (leaves.returned got.1 m).0
                  λ d. Adds-bind _ _ (destruct_message-reads _) λ v. finish-Adds is_read_message d)

  finish-Balances : (d : Delivery) → Balances is_destroy_message is_read_message (finish d)
  finish-Balances d =
      Balances-Adds _ (finish-Adds is_destroy_message d) (finish-Adds is_read_message d)

  switch_method-Balances :
      (r : Reply) (f : Frame) (m : Method)
      → Balances is_destroy_message is_read_message (switch_method c hs r f m)
  unfolding switch_method
  switch_method-Balances r f (Method.basic_ack a) =
      Balances-bind _ _ (delivered-Balances _ (leaves.acknowledge a)) finish-Balances
  switch_method-Balances r f (Method.basic_return m) = returned_message-Balances f m
  switch_method-Balances r f (Method.channel_close d) = Balances-throw _
  switch_method-Balances r f (Method.connection_close d) = Balances-throw _
  switch_method-Balances r f (Method.other n) =
      Balances-bind _ _ (quiet (method_name f.payload) refl refl) λ name. Balances-throw _

  switch_frame-Balances :
      (r : Reply) (f : Frame) (t : FrameType)
      → Balances is_destroy_message is_read_message (switch_frame c hs r f t)
  unfolding switch_frame
  switch_frame-Balances r f FrameType.method = switch_method-Balances r f f.payload
  switch_frame-Balances r f (FrameType.other n) = Balances-throw _

  switch_wait-Balances :
      (r : Reply) (f : Frame) (s : Status)
      → Balances is_destroy_message is_read_message (switch_wait c hs r f s)
  unfolding switch_wait unhandled_status
  switch_wait-Balances r f Status.ok = switch_frame-Balances r f f.frame_type
  switch_wait-Balances r f _ = search balances_rules

  switch_error-Balances :
      (tv : Option Timeval) (start : ℤ) (r : Reply) (s : Status)
      → Balances is_destroy_message is_read_message (switch_error c hs tv start r s)
  unfolding switch_error unhandled_error wait_frame
  switch_error-Balances tv start r Status.unexpected_state =
      Balances-bind _ _ (adjust-Balances tv start) λ tv'.
        Balances-bind _ _ (quiet (simple_wait_frame_noblock c.state tv') refl refl)
          λ got. switch_wait-Balances r got.1 got.0
  switch_error-Balances tv start r _ = search balances_rules

  deliver-Balances :
      (e : AmqpStruct RawEnvelope) → Balances is_destroy_message is_read_message (deliver c hs e)
  unfolding deliver
  deliver-Balances e =
      Balances-choose _ _ _ (Balances-bind _ _ (destruct_envelope-Balances e) λ u. Balances-pure _)
        (Balances-bind _ _ (delivered-Balances _ (leaves.envelope e.memory))
          λ d. Balances-bind _ _ (destruct_envelope-Balances _) λ u. finish-Balances d)

  switch_consumed-Balances :
      (tv : Option Timeval) (start : ℤ) (e : AmqpStruct RawEnvelope) (r : Reply) (t : ReplyType)
      → Balances is_destroy_message is_read_message (switch_consumed c hs tv start e r t)
  unfolding switch_consumed unhandled_reply
  switch_consumed-Balances tv start e r ReplyType.normal = deliver-Balances e
  switch_consumed-Balances tv start e r ReplyType.library_exception =
      Balances-defer _ _ (destruct_envelope-Balances e)
        (switch_error-Balances tv start r r.library_error)
  switch_consumed-Balances tv start e r _ =
      Balances-defer _ _ (destruct_envelope-Balances e) (Balances-throw _)

  -- With callbacks that leave the message to it, consumeImpl destroys as many messages as it reads,
  -- whatever the library answers and however it ends.
  pub consume_impl-destroys_messages :
      (tv : Option Timeval) (lib : Library) (h : Trace)
      → let t = (consume_impl c hs tv lib h).1 in
        count is_destroy_message t + count is_read_message h
        ≡ count is_read_message t + count is_destroy_message h
  unfolding consume_impl receive
  consume_impl-destroys_messages tv = Balances.at (
      Balances-defer _ _
        (Balances-Adds _ (Adds-notify (maybe_release_buffers c.state) refl)
          (Adds-notify (maybe_release_buffers c.state) refl))
        (Balances-bind _ _ (quiet clock_now refl refl) λ start.
          Balances-bind _ _ (quiet (consume_message c.state tv) refl refl)
            λ got. switch_consumed-Balances tv start _ got.0 got.0.reply_type))

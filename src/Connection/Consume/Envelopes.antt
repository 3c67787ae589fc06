-- ===== src/Connection/Consume/Envelopes.antt =====
-- The life of the envelope that consumeImpl of include/rmqcxx/Connection.hpp declares.
use rabbitmq_cxx.Base.{◌+◌, ◌≡◌, refl, Bool, true, false, Option, ◌==◌}
use rabbitmq_cxx.Base.Int.{ℤ}
use rabbitmq_cxx.Amqp.{
  Call, Trace, Library, ReplyType, Reply, Return, Timeval, RawEnvelope, RawMessage, Ack,
  destroy_envelope, clock_now, consume_message,
}
use rabbitmq_cxx.Effect.{perform, choose}
use rabbitmq_cxx.Effect.Calls.{
  Adds, count, adds_rules, Adds-defer, Adds-defer_none, Adds-notify_one, Adds-notify, Adds-perform,
  Adds-choose, Adds-bind, Adds-pure,
}
use rabbitmq_cxx.Effect.Pays.{Adds-bind_last, Adds-bind_known}
use rabbitmq_cxx.Effect.Survives.{Returns-perform}
use rabbitmq_cxx.AmqpStruct
use rabbitmq_cxx.AmqpStruct.{AmqpStruct, destruct_message, destruct_envelope}
use rabbitmq_cxx.Connection.{Connection}
use rabbitmq_cxx.Connection.Replies.{IsOther}
use rabbitmq_cxx.Connection.Consume.{
  Closures, run, unhandled_reply, deliver, switch_consumed, receive, consume_impl,
}
use rabbitmq_cxx.Connection.Consume.Counting.{IsApart, LeavesOut, finish-Adds, switch_error-Adds}
use rabbitmq_cxx.Connection.Consume.Cleanup.{switch_error-Survives, unhandled_reply-Survives}

abbrev pub is_destroy_envelope : Call → Bool
is_destroy_envelope (destroy_envelope e) = true
is_destroy_envelope _ = false

other : IsOther is_destroy_envelope
other = record { description = λ s. refl; name = λ m. refl }

-- Callbacks that leave the destruction of the envelope to consumeImpl: they neither destroy an
-- envelope themselves nor move theirs on to another owner.
pub record LeavesEnvelopes (hs : Closures) : Type 0 where
  pub envelope : (e : RawEnvelope) → Adds is_destroy_envelope 0 (run (hs.envelope e))
  pub returned : (m : RawMessage) (r : Return) → Adds is_destroy_envelope 0 (run (hs.returned m r))
  pub acknowledge : (a : Ack) → Adds is_destroy_envelope 0 (run (hs.acknowledge a))
  pub keeps : (e : RawEnvelope) (lib : Library) (h : Trace) → (hs.envelope e lib h).0.keeps ≡ false

apart : IsApart is_destroy_envelope
apart = record {
  description = other;
  clock = refl;
  wait = λ s tv. refl;
  read = λ s n. refl;
  message = λ m. refl;
}

quiet : (k : Call) → is_destroy_envelope k ≡ false → Adds is_destroy_envelope 0 (perform k)
quiet k e = Adds-perform k e

module _ (c : Connection) (hs : Closures) (leaves : LeavesEnvelopes hs) where
  frames : LeavesOut is_destroy_envelope hs
  frames = record { returned = leaves.returned; acknowledge = leaves.acknowledge }

  new_envelope-destroyed :
      (e : RawEnvelope) → Adds is_destroy_envelope 1 (destruct_envelope (AmqpStruct.new e))
  unfolding destruct_envelope AmqpStruct.new choose
  new_envelope-destroyed e = Adds-notify_one _ refl

  deliver-Adds : (e : RawEnvelope) → Adds is_destroy_envelope 1 (deliver c hs (AmqpStruct.new e))
  unfolding deliver AmqpStruct.new
  deliver-Adds e =
      Adds-choose (e.channel == 0) _ _
        (λ _. Adds-bind _ _ (new_envelope-destroyed e) (λ u. Adds-pure _))
        (λ _.
          Adds-bind_known (λ d. d.keeps ≡ false) _ _ (leaves.envelope e)
            (unfold run in λ lib h. (_, refl, leaves.keeps e lib h))
            λ d k.
              Adds-bind _ _ (rw k (new_envelope-destroyed e))
                (λ u. finish-Adds is_destroy_envelope apart d))

  switch_consumed-Adds :
      (tv : Option Timeval) (start : ℤ) (e : RawEnvelope) (r : Reply) (t : ReplyType)
      → Adds is_destroy_envelope 1 (switch_consumed c hs tv start (AmqpStruct.new e) r t)
  unfolding switch_consumed unhandled_reply
  switch_consumed-Adds tv start e r ReplyType.normal = deliver-Adds e
  switch_consumed-Adds tv start e r ReplyType.library_exception =
      Adds-defer _ _ (new_envelope-destroyed e)
        (switch_error-Adds is_destroy_envelope apart c hs frames tv start r r.library_error)
        (switch_error-Survives c hs tv start r r.library_error)
  switch_consumed-Adds tv start e r _ =
      Adds-defer _ _ (new_envelope-destroyed e) (search adds_rules)
        (unhandled_reply-Survives c hs r)

  receive-Adds : (tv : Option Timeval) → Adds is_destroy_envelope 1 (receive c hs tv)
  unfolding receive
  receive-Adds tv =
      Adds-bind_last (perform clock_now) _ (quiet clock_now refl) (Returns-perform clock_now)
        λ start.
          Adds-bind_last (perform (consume_message c.state tv)) _
            (quiet (consume_message c.state tv) refl) (Returns-perform (consume_message c.state tv))
            λ got. switch_consumed-Adds tv start got.1 got.0 got.0.reply_type

  -- With callbacks that leave the envelope to it, consumeImpl destroys exactly one envelope,
  -- whatever the library answers and however it ends.
  pub consume_impl-destroys_envelope :
      (tv : Option Timeval) (lib : Library) (h : Trace)
      → count is_destroy_envelope (consume_impl c hs tv lib h).1 ≡ count is_destroy_envelope h + 1
  unfolding consume_impl
  consume_impl-destroys_envelope tv lib h =
      (Adds-defer_none _ _ (Adds-notify _ refl) (receive-Adds tv)).at lib h

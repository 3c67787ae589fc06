-- ===== src/Queue/Released.antt =====
-- The results of the RPCs of include/rmqcxx/Queue.hpp, which the library keeps in memory of the
-- channel.
use rabbitmq_cxx.Base.{◌≡◌, refl, Bool, true, Bytes, ◌∷◌}
use rabbitmq_cxx.Amqp.{
  Call, Trace, Library, Entries, get_rpc_reply, maybe_release_buffers_on_channel, basic_consume,
  queue_delete, load_consumer_tag, load_message_count,
}
use rabbitmq_cxx.Effect.{done, perform, ◌>>=◌}
use rabbitmq_cxx.Connection.Replies.{is_normal}
use rabbitmq_cxx.Channel.Rpc.{channel_rpc-normal}
use rabbitmq_cxx.Queue
use rabbitmq_cxx.Queue.{Queue}

-- The calls of an RPC with a normal reply, the newest first.
abbrev pub after_rpc : Queue → Call → Trace → Trace
after_rpc q k h =
    maybe_release_buffers_on_channel q.channel.connection.state q.channel.channel
    ∷ get_rpc_reply q.channel.connection.state
    ∷ k
    ∷ h

abbrev pub NormalReply : Library → Trace → Queue → Call → Type 0
NormalReply lib h q k =
    is_normal (lib.answer (k ∷ h) (get_rpc_reply q.channel.connection.state)).reply_type ≡ true

module _ (q : Queue) (lib : Library) (h : Trace) where
  -- With a normal reply, `consume` returns the tag that it reads through the result of the call,
  -- and reads it right after the channel's buffers were released.
  pub consume_lem :
      (tag : Bytes) (no_local no_ack exclusive : Bool) (arguments : Entries)
      → let k =
          basic_consume q.channel.connection.state q.channel.channel q.name tag no_local no_ack
            exclusive arguments in
        NormalReply lib h q k
        → Queue.consume q tag no_local no_ack exclusive arguments lib h ≡ (
          done (lib.answer (after_rpc q k h) (load_consumer_tag (lib.answer h k))),
          load_consumer_tag (lib.answer h k) ∷ after_rpc q k h,
        )
  unfolding Queue.consume Queue.rpc ◌>>=◌
  consume_lem tag no_local no_ack exclusive arguments n = rw (
      channel_rpc-normal q.channel q.context
        (λ s ch. perform (basic_consume s ch q.name tag no_local no_ack exclusive arguments)) lib h
        _ _ refl n)

  -- The same of `remove`, with the number of messages that it returns.
  pub remove_lem :
      (if_unused if_empty : Bool)
      → let k =
          queue_delete q.channel.connection.state q.channel.channel q.name if_unused if_empty in
        NormalReply lib h q k
        → Queue.remove q if_unused if_empty lib h ≡ (
          done (lib.answer (after_rpc q k h) (load_message_count (lib.answer h k))),
          load_message_count (lib.answer h k) ∷ after_rpc q k h,
        )
  unfolding Queue.remove Queue.rpc ◌>>=◌
  remove_lem if_unused if_empty n = rw (
      channel_rpc-normal q.channel q.context
        (λ s ch. perform (queue_delete s ch q.name if_unused if_empty)) lib h _ _ refl n)

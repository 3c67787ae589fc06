-- ===== src/Queue.antt =====
-- include/rmqcxx/Queue.hpp. A result of the library is a pointer into its buffers, which is read
-- after the RPC is over.
pub mod Released
pub mod Arguments
use rabbitmq_cxx.Base.{ℕ, Bool, Bytes, ◌++◌}
use rabbitmq_cxx.Base.Text.{text}
use rabbitmq_cxx.Amqp.{
  Entries, queue_declare, queue_bind, queue_unbind, basic_consume, queue_delete, queue_purge,
  load_message_count, load_consumer_tag,
}
use rabbitmq_cxx.Effect.{Effect, pure, ◌>>=◌, ◌>>◌, perform}
use rabbitmq_cxx.Channel
use rabbitmq_cxx.Channel.{Channel}

pub record Queue : Type 0 where
  pub channel : Channel
  pub name : Bytes
  pub context : Bytes

-- Queue(Channel& channel, std::string name)
unfoldable pub construct : Channel → Bytes → Queue
construct channel name = record {
  channel = channel;
  name = name;
  context = text "Queue(" ++ (name ++ text "): ");
}

-- rpc: the method gets the connection's pointer, the channel's number and the queue's name.
unfoldable pub rpc : {A : Type 0} → Queue → (ℕ → ℕ → Bytes → Effect A) → Effect A
rpc q f = Channel.rpc q.channel q.context (λ s ch. f s ch q.name)

-- The result is a pointer to what the broker says of the queue.
unfoldable pub declare : Queue → Bool → Bool → Bool → Bool → Entries → Effect ℕ
declare q passive durable exclusive auto_delete arguments =
    rpc q (λ s ch name.
      perform (queue_declare s ch name passive durable exclusive auto_delete arguments))

unfoldable pub bind : Queue → Bytes → Bytes → Entries → Effect (Unit {0})
bind q exchange routing_key arguments = do
  rpc q (λ s ch name. perform (queue_bind s ch name exchange routing_key arguments))
  pure tt

unfoldable pub unbind : Queue → Bytes → Bytes → Entries → Effect (Unit {0})
unbind q exchange routing_key arguments = do
  rpc q (λ s ch name. perform (queue_unbind s ch name exchange routing_key arguments))
  pure tt

-- consume
unfoldable pub consume : Queue → Bytes → Bool → Bool → Bool → Entries → Effect Bytes
consume q consumer_tag no_local no_ack exclusive arguments = do
  reply ← rpc q (λ s ch name.
      perform (basic_consume s ch name consumer_tag no_local no_ack exclusive arguments))
  perform (load_consumer_tag reply)

unfoldable pub remove : Queue → Bool → Bool → Effect ℕ
remove q if_unused if_empty = do
  reply ← rpc q (λ s ch name. perform (queue_delete s ch name if_unused if_empty))
  perform (load_message_count reply)

unfoldable pub purge : Queue → Effect ℕ
purge q = do
  reply ← rpc q (λ s ch name. perform (queue_purge s ch name))
  perform (load_message_count reply)

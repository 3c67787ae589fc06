-- ===== src/Channel.antt =====
-- include/rmqcxx/Channel.hpp.
pub mod Rpc
pub mod Lifecycle
use rabbitmq_cxx.Base.{ℕ, Bool, true, false, Bytes, ◌++◌, if◌then◌else◌}
use rabbitmq_cxx.Base.Text.{text, to_string}
use rabbitmq_cxx.Amqp.{
  Status, channel_open, channel_close, basic_ack, basic_nack, basic_qos, channel_flow,
  basic_recover, basic_publish, load_active, maybe_release_buffers_on_channel,
}
use rabbitmq_cxx.Exceptions.{Exception, channel_exception}
use rabbitmq_cxx.Effect.{
  Effect, pure, throw, ◌>>=◌, ◌>>◌, notify, perform, choose, defer, try_catch,
}
use rabbitmq_cxx.Connection
use rabbitmq_cxx.Connection.{Connection, reply_success, is_ok, rpc_public}

pub record Channel : Type 0 where
  pub connection : Connection
  pub channel : ℕ
  pub context : Bytes
  pub moved : Bool

-- The members of a channel object before the body of its constructor.
unfoldable pub initial : Connection → ℕ → Channel
initial connection channel = record {
  connection = connection;
  channel = channel;
  context = text "Channel(" ++ (to_string channel ++ text "): ");
  moved = false;
}

-- Channel(Connection& connection, amqp_channel_t channel)
unfoldable pub construct : Connection → ℕ → Effect Channel
construct connection channel = do
  Connection.rpc connection true (initial connection channel).context
      (λ s. perform (channel_open s channel))
  pure (initial connection channel)

-- ~Channel
unfoldable pub destruct : Channel → Effect (Unit {0})
destruct c = choose c.moved (pure tt) (
    try_catch (do rpc_public c.connection (λ s. perform (channel_close s c.channel)); pure tt)
      (λ e. pure tt))

-- Channel(Channel&& other): the new object, and what `other` is left as.
unfoldable pub move_construct : Channel → Channel × Channel
move_construct other = (record other { moved = false }, record other { moved = true })

-- The private `rpc`: what the RPC left in the channel's buffers is released when it is over. The
-- method gets the connection's pointer and the channel's number.
unfoldable pub rpc : {A : Type 0} → Channel → Bytes → (ℕ → ℕ → Effect A) → Effect A
rpc c context f =
    defer (notify (maybe_release_buffers_on_channel c.connection.state c.channel))
      (Connection.rpc c.connection false (c.context ++ context) (λ s. f s c.channel))

-- The public `rpc`.
unfoldable pub rpc_own : {A : Type 0} → Channel → (ℕ → ℕ → Effect A) → Effect A
rpc_own c f = rpc c c.context f

unfoldable pub ack : Channel → ℕ → Bool → Effect ℕ
ack c tag multiple = rpc_own c (λ s ch. perform (basic_ack s ch tag multiple))

unfoldable pub nack : Channel → ℕ → Bool → Bool → Effect ℕ
nack c tag multiple requeue = rpc_own c (λ s ch. perform (basic_nack s ch tag multiple requeue))

unfoldable pub qos : Channel → ℕ → Bool → ℕ → Effect (Unit {0})
qos c prefetch_count per_channel prefetch_size = do
  rpc_own c (λ s ch. perform (basic_qos s ch prefetch_size prefetch_count per_channel))
  pure tt

-- The result is read through the pointer that the RPC returned.
unfoldable pub flow : Channel → Bool → Effect Bool
flow c active = do
  reply ← rpc_own c (λ s ch. perform (channel_flow s ch active))
  perform (load_active reply)

unfoldable pub recover : Channel → Bool → Effect (Unit {0})
recover c requeue = do rpc_own c (λ s ch. perform (basic_recover s ch requeue)); pure tt

unfoldable pub bool_text : Bool → Bytes
bool_text b = if b then text "true" else text "false"

unfoldable pub publish_failure : Channel → Bytes → Bytes → Bool → Bool → Bytes → Bytes
publish_failure c exchange routing_key mandatory immediate body =
    c.context
    ++ (text "Failed to publish message to exchange: "
        ++ (exchange
            ++ (text " with routingKey: "
                ++ (routing_key
                    ++ (text " mandatory: "
                        ++ (bool_text mandatory
                            ++ (text " immediate: "
                                ++ (bool_text immediate
                                    ++ (text " properties: "
                                        ++ (text "<not serialized>"
                                            ++ (text " body: " ++ body)))))))))))

-- The basic properties are a pointer that is passed on.
unfoldable pub publish : Channel → Bytes → Bytes → Bool → Bool → Bytes → ℕ → Effect (Unit {0})
publish c exchange routing_key mandatory immediate body properties = do
  status ← rpc_own c (λ s ch.
      perform (basic_publish s ch exchange routing_key mandatory immediate properties body))
  choose (is_ok status) (pure tt) (
      throw (
        channel_exception c.channel
          (publish_failure c exchange routing_key mandatory immediate body)))

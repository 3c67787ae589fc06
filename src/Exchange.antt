-- ===== src/Exchange.antt =====
-- include/rmqcxx/Exchange.hpp. Its `rpc` is declared noexcept, unlike that of a queue.
pub mod Failure
pub mod Arguments
use rabbitmq_cxx.Base.{ℕ, Bool, true, false, Bytes, ◌++◌}
use rabbitmq_cxx.Base.Text.{text}
use rabbitmq_cxx.Amqp.{Entries, exchange_declare, exchange_bind, exchange_unbind, exchange_delete}
use rabbitmq_cxx.Effect.{Effect, pure, ◌>>=◌, ◌>>◌, perform, no_throw}
use rabbitmq_cxx.Channel
use rabbitmq_cxx.Channel.{Channel}

pub record Exchange : Type 0 where
  pub channel : Channel
  pub name : Bytes
  pub context : Bytes
  pub moved : Bool

-- Exchange(Channel& channel, std::string name)
unfoldable pub construct : Channel → Bytes → Exchange
construct channel name = record {
  channel = channel;
  name = name;
  context = text "Exchange(" ++ (name ++ text "): ");
  moved = false;
}

-- rpc: the method gets the connection's pointer, the channel's number and the exchange's name.
unfoldable pub rpc : {A : Type 0} → Exchange → (ℕ → ℕ → Bytes → Effect A) → Effect A
rpc e f = no_throw (Channel.rpc e.channel e.context (λ s ch. f s ch e.name))

unfoldable pub declare : Exchange → Bytes → Bool → Bool → Bool → Entries → Effect (Unit {0})
declare e type passive durable auto_delete arguments = do
  rpc e (λ s ch name.
      perform (exchange_declare s ch name type passive durable auto_delete false arguments))
  pure tt

unfoldable pub bind : Exchange → Bytes → Bytes → Entries → Effect (Unit {0})
bind e src routing_key arguments = do
  rpc e (λ s ch name. perform (exchange_bind s ch name src routing_key arguments))
  pure tt

unfoldable pub unbind : Exchange → Bytes → Bytes → Entries → Effect (Unit {0})
unbind e src routing_key arguments = do
  rpc e (λ s ch name. perform (exchange_unbind s ch name src routing_key arguments))
  pure tt

unfoldable pub remove : Exchange → Bool → Effect (Unit {0})
remove e if_unused = do rpc e (λ s ch name. perform (exchange_delete s ch name if_unused)); pure tt

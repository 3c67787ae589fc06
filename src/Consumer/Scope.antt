-- ===== src/Consumer/Scope.antt =====
-- What the worker of examples/advconsumer.cpp does with a connection, as statements over the classes
-- of the headers: the block of `start` that is guarded by its handler. `rounds` is what the worker
-- sees in its inner loop, which `run_` ends: in each round, the front of the queue of tags, if any.
-- Fuel is for the rounds of consumeEnvelope, and the block is `none` when it runs out.
pub mod Kinds
pub mod Beside
pub mod Survives
pub mod Cleanup
pub mod Ends
pub mod Arrivals
pub mod Acks
pub mod Rounds
pub mod Refines
pub mod Sent
pub mod Others
pub mod Halves
pub mod Runs
pub mod Joining
pub mod Quiet
pub mod Execution
use rabbitmq_cxx.Base.{ℕ, Bool, true, false, Bytes, List, [], ◌∷◌, Option, none, some}
use rabbitmq_cxx.Base.Int.{pos}
use rabbitmq_cxx.Amqp.{Entries, SaslMethod}
use rabbitmq_cxx.Effect.{Effect, pure, ◌>>=◌, ◌>>◌, defer}
use rabbitmq_cxx.Duration.{seconds}
use rabbitmq_cxx.Connection
use rabbitmq_cxx.Connection.{Connection, Options, plain_options}
use rabbitmq_cxx.Connection.Consume.Loop.{consume_envelope_for}
use rabbitmq_cxx.Channel
use rabbitmq_cxx.Channel.{Channel, ack}
use rabbitmq_cxx.Queue

-- The members of Consumer that its constructor sets.
pub record Settings : Type 0 where
  pub host : Bytes
  pub port : ℕ
  pub vhost : Bytes
  pub username : Bytes
  pub password : Bytes
  pub queues_to_consume : List Bytes

-- Connection connection(host_, port_, username_, password_, vhost_, 0, 131072, 1, seconds(1))
unfoldable pub options : Settings → Options
options s =
    plain_options
      (record {
        address = s.host;
        port = s.port;
        vhost = s.vhost;
        max_channels = 0;
        max_frame_size = 131072;
        heartbeat = 1;
        connect_period = seconds;
        connect_timeout = pos 1;
        handshake_period = seconds;
        handshake_timeout = none;
        properties = none;
        sasl_method = SaslMethod.plain;
        args = [];
      })
      s.username s.password

-- for (const auto& x : queuesToConsume_) { ... }
unfoldable pub subscribe : Channel → Entries → List Bytes → Effect (Unit {0})
subscribe channel arg [] = pure tt
subscribe channel arg (x ∷ xs) = do
  Queue.consume (Queue.construct channel x) [] false false false arg
  subscribe channel arg xs

-- if (!ackQueue_.empty()) { channel.ack(ackQueue_.front(), false); ... }
unfoldable pub acknowledge_front : Channel → Option ℕ → Effect (Unit {0})
acknowledge_front channel none = pure tt
acknowledge_front channel (some id) = do ack channel id false; pure tt

unfoldable pub go_on : Option Bool → Effect (Option (Unit {0})) → Effect (Option (Unit {0}))
go_on none rest = pure none
go_on (some r) rest = rest

-- while (run_) { ... }
unfoldable pub poll : ℕ → Connection → Channel → List (Option ℕ) → Effect (Option (Unit {0}))
poll fuel connection channel [] = pure (some tt)
poll fuel connection channel (front ∷ rounds) = do
  r ← consume_envelope_for fuel connection seconds (pos 0)
  go_on r do acknowledge_front channel front; poll fuel connection channel rounds

-- From the declaration of the channel to the end of the block.
unfoldable pub use_channel :
    ℕ → Settings → Entries → List (Option ℕ) → Connection → Effect (Option (Unit {0}))
use_channel fuel s arg rounds connection = do
  channel ← Channel.construct connection 1
  defer (Channel.destruct channel)
      do subscribe channel arg s.queues_to_consume; poll fuel connection channel rounds

-- The block. Its objects are destroyed in the reverse order, also by an exception.
unfoldable pub session : ℕ → Settings → Entries → List (Option ℕ) → Effect (Option (Unit {0}))
session fuel s arg rounds = do
  connection ← Connection.construct (options s)
  defer (Connection.destruct connection) (use_channel fuel s arg rounds connection)

-- ===== src/Examples/Consumer.antt =====
-- examples/consumer.cpp. `arg` is what the C library reads of the entry that `main` makes of two
-- literals.
pub mod Protocol
pub mod Account
use rabbitmq_cxx.Base.{ℕ, Bool, true, false, Bytes, List, [], ◌∷◌, ◌++◌, Option, none, some, ◌==◌}
use rabbitmq_cxx.Base.Int.{pos}
use rabbitmq_cxx.Base.Text.{text, to_string}
use rabbitmq_cxx.Amqp.{
  RawEnvelope, Entries, no_entries, SaslMethod, print, load_queue, load_message_count,
  load_consumer_count,
}
use rabbitmq_cxx.Effect.{Effect, pure, ◌>>=◌, ◌>>◌, notify, perform, choose, defer}
use rabbitmq_cxx.Duration.{seconds}
use rabbitmq_cxx.Connection
use rabbitmq_cxx.Connection.{Connection, Options, plain_options}
use rabbitmq_cxx.Connection.Consume.{Closures}
use rabbitmq_cxx.Connection.Consume.Callers.{envelopes_to, statements}
use rabbitmq_cxx.Connection.Consume.Loop.{consume_timed}
use rabbitmq_cxx.Channel
use rabbitmq_cxx.Channel.{Channel, ack}
use rabbitmq_cxx.Queue
use rabbitmq_cxx.Queue.{Queue}
use rabbitmq_cxx.Exchange
use rabbitmq_cxx.Exchange.{Exchange}
use rabbitmq_cxx.Examples.{attempt, forever}

-- The callback: [&channel] (Envelope envelope) { ... }
unfoldable pub received : Channel → RawEnvelope → Effect (Unit {0})
received channel envelope = do
  notify (print (text "Received: " ++ envelope.message.body))
  r ← ack channel envelope.delivery_tag false
  choose (r == 0) (pure tt) (notify (print (text "Failed to acknowledge envelope!")))

abbrev pub closures : Channel → Closures
closures channel = envelopes_to (λ e. statements (received channel e))

-- The loop of main, `n` rounds of it. Fuel is for the rounds within consumeEnvelope.
unfoldable pub listen : ℕ → ℕ → Connection → Channel → Effect (Option (Unit {0}))
listen n fuel connection channel =
    forever n
      (attempt (text "timeout") (consume_timed fuel connection (closures channel) seconds (pos 1)))

-- Connection connection("172.17.0.2", 5672, "guest", "guest", "consumer-test", 0, 131072, 1, seconds(1))
unfoldable pub options : Options
options =
    plain_options
      (record {
        address = text "172.17.0.2";
        port = 5672;
        vhost = text "consumer-test";
        max_channels = 0;
        max_frame_size = 131072;
        heartbeat = 1;
        connect_period = seconds;
        connect_timeout = pos 1;
        handshake_period = seconds;
        handshake_timeout = none;
        properties = none;
        sasl_method = SaslMethod.plain;
        args = [];
      })
      (text "guest") (text "guest")

-- Declaring, up to the loop.
unfoldable pub prepare : Channel → Entries → Effect (Unit {0})
prepare channel arg = do
  let queue = Queue.construct channel (text "queue0")
  Exchange.declare (Exchange.construct channel (text "exchange0")) (text "topic") false false true
      no_entries
  notify (print (text "declared exchange"))
  declared ← Queue.declare queue false true false false arg
  name ← perform (load_queue declared)
  messages ← perform (load_message_count declared)
  consumers ← perform (load_consumer_count declared)
  notify (
      print (
        text "Declared queue: "
        ++ (name
            ++ (text " message count: "
                ++ (to_string messages ++ (text " consumer count" ++ to_string consumers))))))
  tag ← Queue.consume queue [] false false false no_entries
  notify (print tag)
  Queue.bind queue (text "exchange0") (text "#") no_entries

unfoldable pub use_channel : ℕ → ℕ → Entries → Connection → Effect (Option (Unit {0}))
use_channel n fuel arg connection = do
  channel ← Channel.construct connection 1
  defer (Channel.destruct channel) do prepare channel arg; listen n fuel connection channel

-- main. An exception that leaves it ends the program; whether the objects are destroyed before is up to
-- the implementation, and here they are.
unfoldable pub main : ℕ → ℕ → Entries → Effect (Option (Unit {0}))
main n fuel arg = do
  connection ← Connection.construct options
  defer (Connection.destruct connection) (use_channel n fuel arg connection)

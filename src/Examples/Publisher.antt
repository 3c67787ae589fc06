-- ===== src/Examples/Publisher.antt =====
-- examples/publisher.cpp.
pub mod Protocol
pub mod Account
use rabbitmq_cxx.Base.{ℕ, Bool, true, false, Bytes, List, [], ◌∷◌, ◌++◌, Option, none}
use rabbitmq_cxx.Base.Int.{pos}
use rabbitmq_cxx.Base.Text.{text, to_string}
use rabbitmq_cxx.Amqp.{RawMessage, Return, no_entries, SaslMethod, print}
use rabbitmq_cxx.Effect.{Effect, ◌>>=◌, ◌>>◌, notify, defer}
use rabbitmq_cxx.Duration.{seconds}
use rabbitmq_cxx.Connection
use rabbitmq_cxx.Connection.{Connection, Options, plain_options}
use rabbitmq_cxx.Connection.Consume.{Closures}
use rabbitmq_cxx.Connection.Consume.Callers.{returned_to, statements}
use rabbitmq_cxx.Connection.Consume.Loop.{consume_timed}
use rabbitmq_cxx.Channel
use rabbitmq_cxx.Channel.{Channel, publish}
use rabbitmq_cxx.Exchange
use rabbitmq_cxx.Exchange.{Exchange}
use rabbitmq_cxx.Examples.{attempt, forever}

unfoldable pub described : RawMessage → Return → Bytes
described message method =
    text "returned: "
    ++ (message.body
        ++ (text " code: "
            ++ (to_string method.reply_code
                ++ (text " reply_text: "
                    ++ (method.reply_text
                        ++ (text " exchange: "
                            ++ (method.exchange
                                ++ (text " routing_key: " ++ method.routing_key))))))))

-- The callback: [] (ReturnedMessage returnedMessage) { ... }
unfoldable pub returned : RawMessage → Return → Effect (Unit {0})
returned message method = notify (print (described message method))

abbrev pub closures : Closures
closures = returned_to (λ m r. statements (returned m r))

-- The loop of main, `n` rounds of it. Fuel is for the rounds within consumeReturnedMessage.
unfoldable pub listen : ℕ → ℕ → Connection → Effect (Option (Unit {0}))
listen n fuel connection =
    forever n
      (attempt (text "consume timeout") (consume_timed fuel connection closures seconds (pos 1)))

-- Connection connection("172.17.0.2", 5672, "guest", "guest", "/", 0, 131072, 1, seconds(1))
unfoldable pub options : Options
options =
    plain_options
      (record {
        address = text "172.17.0.2";
        port = 5672;
        vhost = text "/";
        max_channels = 0;
        max_frame_size = 131072;
        heartbeat = 1;
        connect_period = seconds;
        connect_timeout = pos 1;
        handshake_period = seconds;
        handshake_timeout = none;
        properties = none;
        sasl_method = SaslMethod.plain;
        args = [];
      })
      (text "guest") (text "guest")

-- Declaring and publishing, up to the loop.
unfoldable pub prepare : Channel → Effect (Unit {0})
prepare channel = do
  let exchange = Exchange.construct channel (text "publish_exchange")
  Exchange.declare exchange (text "topic") false false false no_entries
  publish channel exchange.name (text "nokey") true false (text "body") 0

unfoldable pub use_channel : ℕ → ℕ → Connection → Effect (Option (Unit {0}))
use_channel n fuel connection = do
  channel ← Channel.construct connection 1
  defer (Channel.destruct channel) do prepare channel; listen n fuel connection

-- main. An exception that leaves it ends the program; whether the objects are destroyed before is up to
-- the implementation, and here they are.
unfoldable pub main : ℕ → ℕ → Effect (Option (Unit {0}))
main n fuel = do
  connection ← Connection.construct options
  defer (Connection.destruct connection) (use_channel n fuel connection)

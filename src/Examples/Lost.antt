-- ===== src/Examples/Lost.antt =====
-- The programs of examples/consumer.cpp and examples/publisher.cpp when the connection is lost.
use rabbitmq_cxx.Base.{Bool, false, ℕ, suc, ◌≤◌, ◌≢◌, refl, none, arith}
use rabbitmq_cxx.Base.Int.{pos}
use rabbitmq_cxx.Base.Text.{text}
use rabbitmq_cxx.Amqp.{Call, Trace, Library, Entries, RawEnvelope, basic_ack}
use rabbitmq_cxx.Effect.{Effect, done}
use rabbitmq_cxx.Effect.Calls.{
  Adds, Adds-pure, Adds-bind, Adds-choose, Adds-defer_none, Adds-notify, Adds-perform,
}
use rabbitmq_cxx.Effect.Finishes.{Finishes, Finishes-bind, Finishes-defer}
use rabbitmq_cxx.Duration.{seconds}
use rabbitmq_cxx.Connection
use rabbitmq_cxx.Connection.{Connection}
use rabbitmq_cxx.Connection.Lifecycle.{conclude-Adds}
use rabbitmq_cxx.Connection.Consume.{run}
use rabbitmq_cxx.Connection.Consume.Callers.{statements, set_done}
use rabbitmq_cxx.Connection.Consume.Counting.{LeavesAll}
use rabbitmq_cxx.Connection.Consume.Loop.Rounds.{ignore-Adds}
use rabbitmq_cxx.Connection.Consume.Loop.Ends.{is_consume, is_consume-IsApart}
use rabbitmq_cxx.Connection.Consume.Loop.Lost.{IsLost}
use rabbitmq_cxx.Channel
use rabbitmq_cxx.Channel.{Channel, rpc_own, ack}
use rabbitmq_cxx.Examples.Ends.{forever-ends}
use rabbitmq_cxx.Examples.Consumer
use rabbitmq_cxx.Examples.Consumer.{received}
use rabbitmq_cxx.Examples.Publisher
use rabbitmq_cxx.Examples.Publisher.{returned}

statements-Adds :
    (p : Call → Bool) (m : Effect (Unit {0}))
    → Adds p 0 m
    → Adds p 0 (run (set_done (statements m)))
unfolding run
statements-Adds p m a = record { at = a.at }

ack-Adds : (ch : Channel) (tag : ℕ) → Adds is_consume 0 (ack ch tag false)
unfolding ack rpc_own Channel.rpc Connection.rpc
ack-Adds ch tag = Adds-defer_none _ _ (Adds-notify _ refl) (
    Adds-defer_none _ _
      (conclude-Adds is_consume is_consume-IsApart.description ch.connection false _ refl refl)
      (Adds-perform (basic_ack ch.connection.state ch.channel tag false) refl))

pub received-Adds : (ch : Channel) (e : RawEnvelope) → Adds is_consume 0 (received ch e)
unfolding received
received-Adds ch e = Adds-bind _ _ (Adds-notify _ refl) λ u.
    Adds-bind _ _ (ack-Adds ch e.delivery_tag)
      λ r. Adds-choose _ _ _ (λ q. Adds-pure tt) λ q. Adds-notify _ refl

consumer-LeavesAll : (ch : Channel) → LeavesAll is_consume (Consumer.closures ch)
consumer-LeavesAll ch = record {
  envelope = λ e. statements-Adds is_consume _ (received-Adds ch e);
  frames = record {
    returned = λ m r. ignore-Adds is_consume;
    acknowledge = λ a. ignore-Adds is_consume;
  };
}

publisher-LeavesAll : LeavesAll is_consume Publisher.closures
unfolding returned
publisher-LeavesAll = record {
  envelope = λ e. ignore-Adds is_consume;
  frames = record {
    returned = λ m r. statements-Adds is_consume _ (Adds-notify _ refl);
    acknowledge = λ a. ignore-Adds is_consume;
  };
}

module _ (lib : Library) (n k fuel : ℕ) (lost : IsLost lib n) (rounds : n ≤ k)
    (enough : n ≤ fuel) where
  consumer-Finishes :
      (c : Connection) (ch : Channel) → Finishes lib (Consumer.listen (suc k) (suc fuel) c ch)
  unfolding Consumer.listen
  consumer-Finishes c ch h =
      forever-ends lib n lost c (Consumer.closures ch) (consumer-LeavesAll ch)
        (Consumer.Protocol.closures-AllWrite ch) (text "timeout") seconds (pos 1) fuel enough k h
        (omega (arith, rounds))

  publisher-Finishes : (c : Connection) → Finishes lib (Publisher.listen (suc k) (suc fuel) c)
  unfolding Publisher.listen
  publisher-Finishes c h =
      forever-ends lib n lost c Publisher.closures publisher-LeavesAll
        Publisher.Protocol.closures-AllWrite (text "consume timeout") seconds (pos 1) fuel enough k
        h (omega (arith, rounds))

  -- If the connection is lost from the `n`-th call of amqp_consume_message on, both programs come to
  -- their end, within one round more than `n` of their loops, and of the loops in these rounds.
  pub mains-end :
      (arg : Entries) (h : Trace)
      → ((Consumer.main (suc k) (suc fuel) arg lib h).0 ≢ done none)
        × ((Publisher.main (suc k) (suc fuel) lib h).0 ≢ done none)
  unfolding Consumer.main Consumer.use_channel Publisher.main Publisher.use_channel
  mains-end arg h = (
    Finishes-bind lib (Connection.construct Consumer.options) _
        (λ c. Finishes-defer lib _ _ (
          Finishes-bind lib (Channel.construct c 1) _ λ ch.
            Finishes-defer lib _ _
              (Finishes-bind lib (Consumer.prepare ch arg) _ λ u. consumer-Finishes c ch)))
        h,
    Finishes-bind lib (Connection.construct Publisher.options) _
        (λ c. Finishes-defer lib _ _ (
          Finishes-bind lib (Channel.construct c 1) _ λ ch.
            Finishes-defer lib _ _
              (Finishes-bind lib (Publisher.prepare ch) _ λ u. publisher-Finishes c)))
        h,
  )

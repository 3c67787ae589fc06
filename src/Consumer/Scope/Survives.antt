-- ===== src/Consumer/Scope/Survives.antt =====
-- How the block of the worker in examples/advconsumer.cpp ends: never by std::terminate.
use rabbitmq_cxx.Base.{ℕ, Bool, false, Bytes, List, [], ◌∷◌, Option, none, some}
use rabbitmq_cxx.Base.Int.{pos}
use rabbitmq_cxx.Amqp.{Entries, channel_open, basic_consume, basic_ack, load_consumer_tag}
use rabbitmq_cxx.Effect.{Effect, perform, ◌>>◌}
use rabbitmq_cxx.Effect.Survives.{
  Survives, Survives-bind, Survives-defer, Survives-pure, Survives-perform, Returns, survives_rules,
  Returns-perform,
}
use rabbitmq_cxx.Connection.{Connection}
use rabbitmq_cxx.Connection.Replies.{rpc-Survives}
use rabbitmq_cxx.Connection.Lifecycle.{destruct-Returns, construct-Survives}
use rabbitmq_cxx.Connection.Consume.Loop.Rounds.{consume_timed-Survives}
use rabbitmq_cxx.Connection.Consume.Callers.{only_envelope}
use rabbitmq_cxx.Connection.Consume.Loop.{consume_envelope_for}
use rabbitmq_cxx.Duration.{seconds}
use rabbitmq_cxx.Channel
use rabbitmq_cxx.Channel.{Channel, rpc_own, ack}
use rabbitmq_cxx.Channel.Lifecycle.{destruct_channel-Returns}
use rabbitmq_cxx.Queue
use rabbitmq_cxx.Queue.{Queue}
use rabbitmq_cxx.Consumer.Scope.{
  Settings, options, subscribe, acknowledge_front, go_on, poll, use_channel, session,
}

channel_rpc-Survives :
    {A : Type 0} (c : Channel) (context : Bytes) (f : ℕ → ℕ → Effect A)
    → Returns (f c.connection.state c.channel)
    → Survives (Channel.rpc c context f)
unfolding Channel.rpc
channel_rpc-Survives c context f r =
    search (survives_rules, rpc-Survives c.connection false _ (λ s. f s c.channel) r)

pub channel_construct-Survives : (c : Connection) (n : ℕ) → Survives (Channel.construct c n)
unfolding Channel.construct
channel_construct-Survives c n =
    search (survives_rules, rpc-Survives, Returns-perform (channel_open c.state n))

consume-Survives :
    (q : Queue) (tag : Bytes) (no_local no_ack exclusive : Bool) (arg : Entries)
    → Survives (Queue.consume q tag no_local no_ack exclusive arg)
unfolding Queue.consume Queue.rpc
consume-Survives q tag no_local no_ack exclusive arg =
    Survives-bind _ _
      (channel_rpc-Survives q.channel q.context
        (λ s ch. perform (basic_consume s ch q.name tag no_local no_ack exclusive arg))
        (Returns-perform (
          basic_consume q.channel.connection.state q.channel.channel q.name tag no_local no_ack
            exclusive arg)))
      λ r. Survives-perform (load_consumer_tag r)

subscribe-Survives :
    (ch : Channel) (arg : Entries) (xs : List Bytes) → Survives (subscribe ch arg xs)
unfolding subscribe
subscribe-Survives ch arg [] = search survives_rules
subscribe-Survives ch arg (x ∷ xs) =
    Survives-bind _ _ (consume-Survives _ _ _ _ _ arg) λ t. subscribe-Survives ch arg xs

pub acknowledge_front-Survives :
    (ch : Channel) (front : Option ℕ) → Survives (acknowledge_front ch front)
unfolding acknowledge_front ack rpc_own
acknowledge_front-Survives ch none = search survives_rules
acknowledge_front-Survives ch (some id) =
    Survives-bind _ _
      (channel_rpc-Survives ch ch.context (λ s n. perform (basic_ack s n id false))
        (Returns-perform (basic_ack ch.connection.state ch.channel id false)))
      λ r. Survives-pure tt

go_on-Survives :
    (r : Option Bool) (rest : Effect (Option (Unit {0}))) → Survives rest → Survives (go_on r rest)
unfolding go_on
go_on-Survives none rest a = search survives_rules
go_on-Survives (some r) rest a = a

poll-Survives :
    (fuel : ℕ) (c : Connection) (ch : Channel) (rounds : List (Option ℕ))
    → Survives (poll fuel c ch rounds)
unfolding poll consume_envelope_for
poll-Survives fuel c ch [] = search survives_rules
poll-Survives fuel c ch (front ∷ rounds) =
    Survives-bind _ _ (consume_timed-Survives fuel c only_envelope seconds (pos 0)) λ r.
      go_on-Survives r _ (
        Survives-bind _ _ (acknowledge_front-Survives ch front) λ u. poll-Survives fuel c ch rounds)

pub body-Survives :
    (ch : Channel) (fuel : ℕ) (s : Settings) (arg : Entries) (rounds : List (Option ℕ))
    (c : Connection)
    → Survives (do subscribe ch arg s.queues_to_consume; poll fuel c ch rounds)
body-Survives ch fuel s arg rounds c =
    Survives-bind _ _ (subscribe-Survives ch arg s.queues_to_consume)
      λ u. poll-Survives fuel c ch rounds

-- The block with the channel does not end the program.
pub use_channel-Survives :
    (fuel : ℕ) (s : Settings) (arg : Entries) (rounds : List (Option ℕ)) (c : Connection)
    → Survives (use_channel fuel s arg rounds c)
unfolding use_channel
use_channel-Survives fuel s arg rounds c =
    Survives-bind _ _ (channel_construct-Survives c 1)
      λ ch. Survives-defer _ _ (destruct_channel-Returns ch) (body-Survives ch fuel s arg rounds c)

-- The block never ends the program, whatever the library answers: it is left at its end, or by an
-- exception that its handler catches.
pub session-Survives :
    (fuel : ℕ) (s : Settings) (arg : Entries) (rounds : List (Option ℕ))
    → Survives (session fuel s arg rounds)
unfolding session
session-Survives fuel s arg rounds =
    Survives-bind _ _ (construct-Survives (options s))
      λ c. Survives-defer _ _ (destruct-Returns c) (use_channel-Survives fuel s arg rounds c)

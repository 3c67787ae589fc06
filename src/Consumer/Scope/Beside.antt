-- ===== src/Consumer/Scope/Beside.antt =====
-- Calls that the worker of examples/advconsumer.cpp does not make while it has a channel.
use rabbitmq_cxx.Base.{ℕ, ◌≡◌, Bool, true, false, Bytes, List, [], ◌∷◌, Option, none, some}
use rabbitmq_cxx.Base.Int.{pos}
use rabbitmq_cxx.Amqp.{
  Call, Entries, RawEnvelope, channel_open, channel_close, basic_consume, basic_ack,
  load_consumer_tag, on_envelope,
}
use rabbitmq_cxx.Effect.{Effect, perform, ◌>>◌}
use rabbitmq_cxx.Effect.Calls.{
  Adds, adds_rules, Adds-bind, Adds-defer_none, Adds-notify, Adds-perform, Adds-try_catch,
  Adds-pure, Adds-choose,
}
use rabbitmq_cxx.Connection
use rabbitmq_cxx.Connection.{Connection, rpc_public}
use rabbitmq_cxx.Connection.Lifecycle.{conclude-Adds}
use rabbitmq_cxx.Connection.Consume.Callers.{only_envelope}
use rabbitmq_cxx.Connection.Consume.Loop.{consume_envelope_for}
use rabbitmq_cxx.Connection.Consume.Loop.Rounds.{consume_timed-Adds, only_envelope-LeavesAll}
use rabbitmq_cxx.Duration.{seconds}
use rabbitmq_cxx.Channel
use rabbitmq_cxx.Channel.{Channel, rpc_own, ack}
use rabbitmq_cxx.Queue
use rabbitmq_cxx.Queue.{Queue}
use rabbitmq_cxx.Consumer.Scope.{Settings, subscribe, acknowledge_front, go_on, poll, use_channel}
use rabbitmq_cxx.Consumer.Scope.Kinds.{IsAround, IsBeside}

module _ (p : Call → Bool) (around : IsAround p) where
  connection_rpc-Adds :
      {A : Type 0} (c : Connection) (release : Bool) (context : Bytes) (f : ℕ → Effect A)
      → Adds p 0 (f c.state)
      → Adds p 0 (Connection.rpc c release context f)
  unfolding Connection.rpc
  connection_rpc-Adds c release context f a =
      Adds-defer_none _ _
        (conclude-Adds p around.apart.description c release context (around.reply c.state)
          (around.release c.state))
        a

  channel_rpc-Adds :
      {A : Type 0} (c : Channel) (context : Bytes) (f : ℕ → ℕ → Effect A)
      → Adds p 0 (f c.connection.state c.channel)
      → Adds p 0 (Channel.rpc c context f)
  unfolding Channel.rpc
  channel_rpc-Adds c context f a =
      Adds-defer_none _ _ (Adds-notify _ (around.release_channel c.connection.state c.channel))
        (connection_rpc-Adds c.connection false _ (λ s. f s c.channel) a)

  pub construct-Adds : (c : Connection) (n : ℕ) → Adds p 0 (Channel.construct c n)
  unfolding Channel.construct
  construct-Adds c n =
      Adds-bind _ _
        (connection_rpc-Adds c true _ _
          (Adds-perform (channel_open c.state n) (around.opening c.state n)))
        λ r. Adds-pure _

  consume-Adds :
      (q : Queue) (tag : Bytes) (no_local no_ack exclusive : Bool) (arg : Entries)
      → Adds p 0 (Queue.consume q tag no_local no_ack exclusive arg)
  unfolding Queue.consume Queue.rpc
  consume-Adds q tag no_local no_ack exclusive arg =
      Adds-bind _ _
        (channel_rpc-Adds q.channel q.context
          (λ s ch. perform (basic_consume s ch q.name tag no_local no_ack exclusive arg))
          (Adds-perform
            (basic_consume q.channel.connection.state q.channel.channel q.name tag no_local no_ack
              exclusive arg)
            (around.subscribe _ _ _ _ _ _ _ _)))
        λ r. Adds-perform (load_consumer_tag r) (around.tag r)

  pub subscribe-Adds :
      (ch : Channel) (arg : Entries) (xs : List Bytes) → Adds p 0 (subscribe ch arg xs)
  unfolding subscribe
  subscribe-Adds ch arg [] = Adds-pure tt
  subscribe-Adds ch arg (x ∷ xs) =
      Adds-bind _ _ (consume-Adds _ _ _ _ _ arg) λ t. subscribe-Adds ch arg xs

  -- The channel's destructor, if closing is no such call either.
  pub destruct_channel-Adds :
      ((s n : ℕ) → p (channel_close s n) ≡ false) → (ch : Channel) → Adds p 0 (Channel.destruct ch)
  unfolding Channel.destruct rpc_public
  destruct_channel-Adds closing ch =
      Adds-choose _ _ _ (λ m. Adds-pure tt)
        λ m.
          Adds-try_catch _ _
            (Adds-bind _ _
              (connection_rpc-Adds ch.connection true _ _ (
                Adds-perform (channel_close ch.connection.state ch.channel)
                  (closing ch.connection.state ch.channel)))
              λ r. Adds-pure tt)
            λ e. Adds-pure tt

module _ (p : Call → Bool) (beside : IsBeside p) where
  pub acknowledge_front-Adds :
      (ch : Channel) (front : Option ℕ) → Adds p 0 (acknowledge_front ch front)
  unfolding acknowledge_front ack rpc_own
  acknowledge_front-Adds ch none = search adds_rules
  acknowledge_front-Adds ch (some id) =
      Adds-bind _ _
        (channel_rpc-Adds p beside.around ch ch.context (λ s n. perform (basic_ack s n id false))
          (Adds-perform (basic_ack ch.connection.state ch.channel id false)
            (beside.acknowledge _ _ _ _)))
        λ r. Adds-pure tt

  go_on-Adds :
      (r : Option Bool) (rest : Effect (Option (Unit {0})))
      → Adds p 0 rest
      → Adds p 0 (go_on r rest)
  unfolding go_on
  go_on-Adds none rest a = Adds-pure none
  go_on-Adds (some r) rest a = a

-- The same with the worker's callback.
module _ (p : Call → Bool) (beside : IsBeside p)
    (callback : (e : RawEnvelope) → p (on_envelope e) ≡ false) where
  poll-Adds :
      (fuel : ℕ) (c : Connection) (ch : Channel) (rounds : List (Option ℕ))
      → Adds p 0 (poll fuel c ch rounds)
  unfolding poll consume_envelope_for
  poll-Adds fuel c ch [] = Adds-pure _
  poll-Adds fuel c ch (front ∷ rounds) =
      Adds-bind _ _
        (consume_timed-Adds p beside.around.apart beside.around.envelope beside.around.release
          only_envelope (only_envelope-LeavesAll p callback) beside.around.message c fuel seconds
          (pos 0))
        λ r.
          go_on-Adds p beside r _ (
            Adds-bind _ _ (acknowledge_front-Adds p beside ch front)
              λ u. poll-Adds fuel c ch rounds)

  pub body-Adds :
      (ch : Channel) (fuel : ℕ) (s : Settings) (arg : Entries) (rounds : List (Option ℕ))
      (c : Connection)
      → Adds p 0 (do subscribe ch arg s.queues_to_consume; poll fuel c ch rounds)
  body-Adds ch fuel s arg rounds c =
      Adds-bind _ _ (subscribe-Adds p beside.around ch arg s.queues_to_consume)
        λ u. poll-Adds fuel c ch rounds

  pub use_channel-Adds :
      ((s n : ℕ) → p (channel_close s n) ≡ false)
      → (fuel : ℕ) (s : Settings) (arg : Entries) (rounds : List (Option ℕ)) (c : Connection)
      → Adds p 0 (use_channel fuel s arg rounds c)
  unfolding use_channel
  use_channel-Adds closing fuel s arg rounds c =
      Adds-bind _ _ (construct-Adds p beside.around c 1) λ ch.
        Adds-defer_none _ _ (destruct_channel-Adds p beside.around closing ch)
          (body-Adds ch fuel s arg rounds c)

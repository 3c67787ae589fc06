-- ===== src/Consumer/Scope/Halves.antt =====
-- The two halves of a round of the worker's inner loop in examples/advconsumer.cpp, when they end.
use rabbitmq_cxx.Base.{none, ℕ, ◌+◌, ◌≤◌, ◌≡◌, Bool, true, false, [], ◌++◌, Option, some, arith}
use rabbitmq_cxx.Base.Int.{pos}
use rabbitmq_cxx.Amqp.{Call, Trace, Library}
use rabbitmq_cxx.Effect.{Outcome, done}
use rabbitmq_cxx.Effect.Calls.{count}
use rabbitmq_cxx.Effect.Writes.{count-append}
use rabbitmq_cxx.Duration.{seconds}
use rabbitmq_cxx.Connection.{Connection}
use rabbitmq_cxx.Connection.Consume.Loop.{consume_envelope_for}
use rabbitmq_cxx.Connection.Consume.Loop.Once.{CallsOnce, consume_envelope_for-CallsOnce}
use rabbitmq_cxx.Connection.Consume.Reports.Callbacks.{is_on_envelope}
use rabbitmq_cxx.Channel.{Channel}
use rabbitmq_cxx.Consumer.Scope.{acknowledge_front}
use rabbitmq_cxx.Consumer.Scope.Arrivals.{
  messages_of, IsBrief, messages_of-none, messages_of-IsBrief,
}
use rabbitmq_cxx.Consumer.Scope.Acks.{
  asked, is_basic_ack, is_ack_of, Acks, is_basic_ack-Acks, is_ack_of-Acks,
}
use rabbitmq_cxx.Consumer.Scope.Sent.{acks_in, ids, acks_in-none, acks_in-ids}
use rabbitmq_cxx.Consumer.Scope.Beside.{acknowledge_front-Adds}
use rabbitmq_cxx.Consumer.Scope.Kinds.{is_on_envelope-IsBeside}

module _ (fuel : ℕ) (c : Connection) (ch : Channel) (lib : Library) where
  pub consumed-once :
      (b : Bool) (d h : Trace)
      → consume_envelope_for fuel c seconds (pos 0) lib h ≡ (done (some b), d ++ h)
      → count is_on_envelope d ≤ 1
  consumed-once b d h e =
      let once = consume_envelope_for-CallsOnce fuel c lib h seconds (pos 0) in go b (rw e at once)
    where
      go :
          (x : Bool)
          → CallsOnce (done (some x)) (count is_on_envelope h) (count is_on_envelope (d ++ h))
          → count is_on_envelope d ≤ 1
      go true n = omega (arith, n, count-append is_on_envelope d h)
      go false n = omega (arith, n, count-append is_on_envelope d h)

  pub consumed-IsBrief :
      (session : ℕ) (b : Bool) (d h : Trace)
      → consume_envelope_for fuel c seconds (pos 0) lib h ≡ (done (some b), d ++ h)
      → IsBrief session (messages_of session d)
  consumed-IsBrief session b d h e = messages_of-IsBrief session d (consumed-once b d h e)

  pub consumed-none :
      (o : Outcome (Option Bool)) (d h : Trace)
      → consume_envelope_for fuel c seconds (pos 0) lib h ≡ (o, d ++ h)
      → acks_in d ≡ []
  consumed-none o d h e =
      let adds = ((is_basic_ack-Acks ch none).consume fuel c).at lib h in
      let n : count is_basic_ack (d ++ h) ≡ count is_basic_ack h + 0 = (rw e at adds) in
      acks_in-none d (omega (arith, n, count-append is_basic_ack d h))

module _ (ch : Channel) (lib : Library) where
  pub acked-none :
      (session : ℕ) (front : Option ℕ) (d h : Trace)
      → acknowledge_front ch front lib h ≡ (done tt, d ++ h)
      → messages_of session d ≡ []
  acked-none session front d h e =
      let adds =
        (acknowledge_front-Adds is_on_envelope is_on_envelope-IsBeside ch front).at lib h in
      let n : count is_on_envelope (d ++ h) ≡ count is_on_envelope h + 0 = (rw e at adds) in
      messages_of-none session d (omega (arith, n, count-append is_on_envelope d h))

  pub acked-ids :
      (front : Option ℕ) (d h : Trace)
      → acknowledge_front ch front lib h ≡ (done tt, d ++ h)
      → acks_in d ≡ ids front
  acked-ids front d h e =
      acks_in-ids ch front d (one is_basic_ack (is_basic_ack-Acks ch front))
        (one (is_ack_of ch front) (is_ack_of-Acks ch front))
    where
      one : (p : Call → Bool) → Acks p ch front → count p d ≡ asked front
      one p asks =
          let adds = asks.acknowledge.at lib h in
          let n : count p (d ++ h) ≡ count p h + asked front = (rw e at adds) in
          omega (arith, n, count-append p d h)

-- ===== src/Consumer/Scope/Ends.antt =====
-- The fuel that is enough for the block of the worker in examples/advconsumer.cpp.
use rabbitmq_cxx.Base.{ℕ, suc, ◌≤◌, ◌≢◌, refl, Bool, List, [], ◌∷◌, Option, none, some, arith}
use rabbitmq_cxx.Base.Int.{pos}
use rabbitmq_cxx.Amqp.{Trace, Library, Entries}
use rabbitmq_cxx.Effect.{Effect, Outcome, done, throws, terminated, pure, ◌>>=◌, continue}
use rabbitmq_cxx.Effect.Finishes.{Finishes, Finishes-bind, Finishes-defer}
use rabbitmq_cxx.Duration.{seconds}
use rabbitmq_cxx.Connection
use rabbitmq_cxx.Connection.{Connection}
use rabbitmq_cxx.Connection.Consume.Loop.{consume_envelope_for}
use rabbitmq_cxx.Connection.Consume.Loop.Ends.{DriesUp, consume_envelope_for-ends}
use rabbitmq_cxx.Channel
use rabbitmq_cxx.Channel.{Channel}
use rabbitmq_cxx.Consumer.Scope.{
  Settings, options, subscribe, acknowledge_front, go_on, poll, use_channel, session,
}

module _ (lib : Library) (n fuel : ℕ) (dry : DriesUp lib n) (enough : n ≤ fuel) where
  poll_round :
      (c : Connection) (rest : Effect (Option (Unit {0})))
      → Finishes lib rest
      → Finishes lib (consume_envelope_for (suc fuel) c seconds (pos 0) >>= λ r. go_on r rest)
  unfolding ◌>>=◌ go_on
  poll_round c rest finishes h =
      let r = consume_envelope_for (suc fuel) c seconds (pos 0) lib h in
      go r.0 r.1
        (consume_envelope_for-ends fuel c seconds (pos 0) lib n h dry (omega (arith, enough)))
    where
      go :
          (o : Outcome (Option Bool)) (t : Trace)
          → o ≢ done none
          → (continue o (λ r. go_on r rest) lib t).0 ≢ done none
      go (done none) t e = absurd (e refl)
      go (done (some b)) t e = finishes t
      go (throws x) t e = λ q. cc
      go terminated t e = λ q. cc

  poll-Finishes :
      (c : Connection) (ch : Channel) (rounds : List (Option ℕ))
      → Finishes lib (poll (suc fuel) c ch rounds)
  unfolding poll pure
  poll-Finishes c ch [] = λ h e. cc
  poll-Finishes c ch (front ∷ rounds) =
      poll_round c _
        (Finishes-bind lib (acknowledge_front ch front) _ λ u. poll-Finishes c ch rounds)

  -- If nothing arrives any more from the `n`-th call of amqp_consume_message on, a fuel above `n` is
  -- enough for the block, whatever the number of rounds that the worker makes.
  pub session-ends :
      (s : Settings) (arg : Entries) (rounds : List (Option ℕ)) (h : Trace)
      → (session (suc fuel) s arg rounds lib h).0 ≢ done none
  unfolding session use_channel
  session-ends s arg rounds = Finishes-bind lib (Connection.construct (options s)) _ λ c.
      Finishes-defer lib _ _ (
        Finishes-bind lib (Channel.construct c 1) _ λ ch. Finishes-defer lib _ _ (
          Finishes-bind lib (subscribe ch arg s.queues_to_consume) _
            λ u. poll-Finishes c ch rounds))

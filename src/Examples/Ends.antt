-- ===== src/Examples/Ends.antt =====
-- How the loops of examples/consumer.cpp and examples/publisher.cpp end: when the connection is lost.
use rabbitmq_cxx.Base.{
  ℕ, zero, suc, ◌+◌, ◌≤◌, ◌<◌, ◌≡◌, ◌≢◌, refl, Bool, true, false, Bytes, Option, none, some, arith,
}
use rabbitmq_cxx.Base.Int.{ℤ}
use rabbitmq_cxx.Amqp.{Trace, Library, Status}
use rabbitmq_cxx.Exceptions.{foreign, socket_exception}
use rabbitmq_cxx.Effect.{
  Effect, Outcome, done, throws, terminated, pure, throw, ◌>>=◌, notify, try_catch, continue,
  handle,
}
use rabbitmq_cxx.Effect.Calls.{count}
use rabbitmq_cxx.Effect.Writes.{anything, count-bind, count-try_catch}
use rabbitmq_cxx.Duration.{Period}
use rabbitmq_cxx.Connection.{Connection}
use rabbitmq_cxx.Connection.Consume.{Closures}
use rabbitmq_cxx.Connection.Consume.Counting.{LeavesAll}
use rabbitmq_cxx.Connection.Consume.Writes.{AllWrite}
use rabbitmq_cxx.Connection.Consume.Loop.{consume_timed}
use rabbitmq_cxx.Connection.Consume.Loop.Ends.{is_consume}
use rabbitmq_cxx.Connection.Consume.Loop.Lost.{
  IsLost, consume_timed-throws, consume_timed-stops, consume_timed-waits,
}
use rabbitmq_cxx.Examples.{report, give_up, attempt, again, forever}
use rabbitmq_cxx.Examples.Rounds.{report-Writes, give_up-Writes}

module _ (line : Bytes) (consuming : Effect (Option Bool)) (lib : Library) (h : Trace) where
  -- A round has fuel if the method that consumes has.
  attempt-stops : (consuming lib h).0 ≢ done none → (attempt line consuming lib h).0 ≢ done none
  unfolding attempt report give_up try_catch ◌>>=◌ pure throw notify
  attempt-stops n = go (consuming lib h).0 (consuming lib h).1 n
    where
      go :
          (o : Outcome (Option Bool)) (t : Trace)
          → o ≢ done none
          → let r = continue o (report line) lib t in (handle r.0 give_up lib r.1).0 ≢ done none
      go (done none) t n = absurd (n refl)
      go (done (some true)) t n = λ e. cc
      go (done (some false)) t n = λ e. cc
      go (throws (foreign x)) t n = λ e. cc
      go (throws _) t n = λ e. cc
      go terminated t n = λ e. cc

  -- A socket error is caught, and is the last of it.
  attempt-gives_up :
      (s : ℕ) (t : Status) (l : Bytes)
      → (consuming lib h).0 ≡ throws (socket_exception s t l)
      → (attempt line consuming lib h).0 ≡ done (some false)
  unfolding attempt report give_up try_catch ◌>>=◌ pure throw notify
  attempt-gives_up s t l e = rw e refl

  attempt-waits :
      count is_consume (consuming lib h).1 ≤ count is_consume (attempt line consuming lib h).1
  unfolding attempt
  attempt-waits =
      let one =
        count-bind is_consume consuming (report line) (report-Writes anything line tt (λ l. tt)) lib
          h in
      let two =
        count-try_catch is_consume (consuming >>= report line) give_up
          (give_up-Writes anything line tt (λ l. tt)) lib h in
      omega (arith, one, two)

module _ (lib : Library) (n : ℕ) (lost : IsLost lib n) (c : Connection) (hs : Closures)
    (leaves : LeavesAll is_consume hs) (write : AllWrite anything hs) (line : Bytes) (q : Period)
    (timeout : ℤ) (fuel : ℕ) (enough : n ≤ fuel) where
  abbrev round : Effect (Option Bool)
  round = attempt line (consume_timed (suc fuel) c hs q timeout)

  after_round :
      (rest : Effect (Option (Unit {0}))) (h : Trace)
      → ((t : Trace) → count is_consume h < count is_consume t → (rest lib t).0 ≢ done none)
      → ((round >>= λ r. again r rest) lib h).0 ≢ done none
  unfolding ◌>>=◌ again pure
  after_round rest h ends =
      go (round lib h).0 (round lib h).1
        (attempt-stops line _ lib h
          (consume_timed-stops lib n lost c hs leaves fuel q timeout h (omega (arith, enough))))
        (let waits = consume_timed-waits c hs leaves write fuel q timeout lib h in
          omega (arith, waits, attempt-waits line (consume_timed (suc fuel) c hs q timeout) lib h))
    where
      go :
          (o : Outcome (Option Bool)) (t : Trace)
          → o ≢ done none
          → count is_consume h < count is_consume t
          → (continue o (λ r. again r rest) lib t).0 ≢ done none
      go (done none) t s m = absurd (s refl)
      go (done (some true)) t s m = ends t m
      go (done (some false)) t s m = λ e. cc
      go (throws x) t s m = λ e. cc
      go terminated t s m = λ e. cc

  last_round :
      (rest : Effect (Option (Unit {0}))) (h : Trace)
      → (round lib h).0 ≡ done (some false)
      → ((round >>= λ r. again r rest) lib h).0 ≢ done none
  unfolding ◌>>=◌ again pure
  last_round rest h e = rw e λ q. cc

  pub forever-ends :
      (k : ℕ) (h : Trace)
      → n < suc k + count is_consume h
      → (forever (suc k) round lib h).0 ≢ done none
  unfolding forever
  forever-ends zero h lt = last_round (forever zero round) h (
      attempt-gives_up line _ lib h 0 Status.ok _
        (consume_timed-throws lib n lost c hs fuel q timeout h (omega (arith, lt))))
  forever-ends (suc k) h lt =
      after_round (forever (suc k) round) h λ t more. forever-ends k t (omega (arith, lt, more))

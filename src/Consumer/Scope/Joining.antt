-- ===== src/Consumer/Scope/Joining.antt =====
-- The block of the worker in examples/advconsumer.cpp, cut where other threads can come in between:
-- joining the broker, the two halves of a round, and closing.
use rabbitmq_cxx.Base.{ℕ, ◌≡◌, ap, Bool, List, [], ◌∷◌, Option, none, some}
use rabbitmq_cxx.Base.Int.{pos}
use rabbitmq_cxx.Amqp.{Trace, Library, Entries}
use rabbitmq_cxx.Exceptions.{Exception}
use rabbitmq_cxx.Effect.{Effect, done, throws, pure, ◌>>=◌, ◌>>◌, defer}
use rabbitmq_cxx.Effect.Guard.{
  guard, guard-done, guard-throws, Same, Same-refl, Same-sym, Same-trans, Same-defer, Same-bind,
  Same-assoc, Same-pure, Same-cut,
}
use rabbitmq_cxx.Duration.{seconds}
use rabbitmq_cxx.Connection
use rabbitmq_cxx.Connection.{Connection}
use rabbitmq_cxx.Connection.Consume.Loop.{consume_envelope_for}
use rabbitmq_cxx.Channel
use rabbitmq_cxx.Channel.{Channel}
use rabbitmq_cxx.Consumer.Scope.{
  Settings, options, subscribe, acknowledge_front, go_on, poll, use_channel, session,
}

-- A statement while there are a connection and a channel: an exception destroys both.
unfoldable pub within : {A : Type 0} → Connection → Channel → Effect A → Effect A
within connection channel m =
    guard (Connection.destruct connection) (guard (Channel.destruct channel) m)

-- The end of the scope, with a result.
unfoldable pub closing : {A : Type 0} → Connection → Channel → A → Effect A
closing connection channel a =
    defer (Connection.destruct connection) (defer (Channel.destruct channel) (pure a))

-- From the try to the inner loop.
unfoldable pub joining : Settings → Entries → Effect (Connection × Channel)
joining s arg = do
  connection ← Connection.construct (options s)
  channel ← guard (Connection.destruct connection) (Channel.construct connection 1)
  within connection channel (subscribe channel arg s.queues_to_consume)
  pure (connection, channel)

unfoldable pub proceed :
    Connection → Channel → Option Bool → Effect (Option (Unit {0})) → Effect (Option (Unit {0}))
proceed connection channel none rest = closing connection channel none
proceed connection channel (some r) rest = rest

-- The inner loop, to the end of the scope.
unfoldable pub turns : ℕ → Connection → Channel → List (Option ℕ) → Effect (Option (Unit {0}))
turns fuel connection channel [] = closing connection channel (some tt)
turns fuel connection channel (front ∷ rounds) = do
  r ← within connection channel (consume_envelope_for fuel connection seconds (pos 0))
  proceed connection channel r do
    within connection channel (acknowledge_front channel front)
    turns fuel connection channel rounds

-- What a statement is left with, from what it is left with within the scope.
module _ {A : Type 0} (c : Connection) (ch : Channel) (m : Effect A) (lib : Library)
    (h : Trace) where
  pub within-done : (a : A) (t : Trace) → within c ch m lib h ≡ (done a, t) → m lib h ≡ (done a, t)
  unfolding within
  within-done a t e = guard-done _ m lib h a t (guard-done _ _ lib h a t e)

  pub within-throws :
      (x : Exception) (t : Trace) → within c ch m lib h ≡ (throws x, t) → (m lib h).0 ≡ throws x
  unfolding within
  within-throws x t e =
      let r = guard (Channel.destruct ch) m lib h in
      let q : r.0 ≡ throws x = guard-throws _ _ lib h x t e in
      guard-throws _ m lib h x r.1 (ap (λ o. (o, r.1)) q)

-- A scope with both objects, and its first statement cut off.
abbrev in_scope : {A : Type 0} → Connection → Channel → Effect A → Effect A
in_scope c ch m = defer (Connection.destruct c) (defer (Channel.destruct ch) m)

module _ (c : Connection) (ch : Channel) where
  in_scope-cut :
      {A B : Type 0} (m : Effect A) (f : A → Effect B)
      → Same (in_scope c ch (m >>= f)) (within c ch m >>= λ a. in_scope c ch (f a))
  unfolding within
  in_scope-cut m f =
      Same-trans _ _ _ (Same-defer _ _ _ (Same-cut (Channel.destruct ch) m f))
        (Same-cut (Connection.destruct c) (guard (Channel.destruct ch) m) _)

  half :
      (front : Option ℕ) (r : Option Bool) (m k : Effect (Option (Unit {0})))
      → Same (in_scope c ch m) k
      → Same
          (in_scope c ch (go_on r (acknowledge_front ch front >> m)))
          (proceed c ch r (within c ch (acknowledge_front ch front) >> k))
  unfolding go_on proceed closing
  half front none m k p = Same-refl _
  half front (some b) m k p =
      Same-trans _ _ _ (in_scope-cut (acknowledge_front ch front) _) (Same-bind _ _ _ λ u. p)

  poll-turns :
      (fuel : ℕ) (rounds : List (Option ℕ))
      → Same (in_scope c ch (poll fuel c ch rounds)) (turns fuel c ch rounds)
  unfolding poll turns closing
  poll-turns fuel [] = Same-refl _
  poll-turns fuel (front ∷ rounds) =
      Same-trans _ _ _ (in_scope-cut (consume_envelope_for fuel c seconds (pos 0)) _)
        (Same-bind _ _ _ λ r. half front r _ _ (poll-turns fuel rounds))

-- What follows `joining` follows its last statement.
joining-bind :
    {A : Type 0} (s : Settings) (arg : Entries) (k : Connection × Channel → Effect A)
    → Same (joining s arg >>= k) do
      c ← Connection.construct (options s)
      ch ← guard (Connection.destruct c) (Channel.construct c 1)
      within c ch (subscribe ch arg s.queues_to_consume)
      k (c, ch)
unfolding joining
joining-bind s arg k = Same-trans _ _ _ (Same-assoc (Connection.construct (options s)) _ k) (
    Same-bind _ _ _ λ c.
      Same-trans _ _ _ (Same-assoc (guard (Connection.destruct c) (Channel.construct c 1)) _ k) (
        Same-bind _ _ _ λ ch.
          Same-trans _ _ _ (Same-assoc (within c ch (subscribe ch arg s.queues_to_consume)) _ k)
            (Same-bind _ _ _ λ u. Same-pure (c, ch) k)))

-- The block of the worker does the same as its parts one after the other, whatever the library answers:
-- joining, then for each round consuming and acknowledging, then closing, where each part destroys
-- what there is when an exception leaves it.
session-turns :
    (fuel : ℕ) (s : Settings) (arg : Entries) (rounds : List (Option ℕ))
    → Same (session fuel s arg rounds) (joining s arg >>= λ p. turns fuel p.0 p.1 rounds)
unfolding session use_channel joining
session-turns fuel s arg rounds =
    Same-trans _ _ _
      (Same-bind _ _ _ λ c.
        Same-trans _ _ _ (Same-cut (Connection.destruct c) (Channel.construct c 1) _) (
          Same-bind _ _ _ λ ch.
            Same-trans _ _ _ (in_scope-cut c ch (subscribe ch arg s.queues_to_consume) _)
              (Same-bind _ _ _ λ u. poll-turns c ch fuel rounds)))
      (Same-sym _ _ (joining-bind s arg _))

-- ===== src/Consumer/Scope/Rounds.antt =====
-- What one round of the worker's inner loop in examples/advconsumer.cpp calls: the callback at most once,
-- and basic.ack for the tag in front.
use rabbitmq_cxx.Base.{
  ℕ, ◌+◌, ◌≤◌, ◌≡◌, ◌≢◌, ◌⊎◌, inl, inr, refl, Bool, true, false, List, [], ◌∷◌, Option, none, some,
  arith, if◌then◌else◌,
}
use rabbitmq_cxx.Base.Int.{pos}
use rabbitmq_cxx.Amqp.{Call, Trace, Library, basic_ack}
use rabbitmq_cxx.Exceptions.{Exception, foreign}
use rabbitmq_cxx.Effect.{Effect, Outcome, done, throws, terminated, pure, ◌>>=◌, continue}
use rabbitmq_cxx.Effect.Calls.{count}
use rabbitmq_cxx.Effect.Writes.{
  anything, Writes, Writes-pure, Writes-bind, Writes-perform, Writes-defer, Writes-notify,
}
use rabbitmq_cxx.Duration.{seconds}
use rabbitmq_cxx.Connection
use rabbitmq_cxx.Connection.{Connection, conclude}
use rabbitmq_cxx.Connection.Writes.{anything-Replies, conclude-Writes}
use rabbitmq_cxx.Connection.Consume.Writes.{consume_envelope_for-Writes}
use rabbitmq_cxx.Connection.Consume.Writes.Anything.{anything-Utters}
use rabbitmq_cxx.Connection.Consume.Loop.{consume_envelope_for}
use rabbitmq_cxx.Connection.Consume.Loop.Once.{CallsOnce, consume_envelope_for-CallsOnce}
use rabbitmq_cxx.Connection.Consume.Reports.{Threw}
use rabbitmq_cxx.Connection.Consume.Reports.Callbacks.{is_on_envelope}
use rabbitmq_cxx.Channel
use rabbitmq_cxx.Channel.{Channel, rpc_own, ack}
use rabbitmq_cxx.Consumer.Scope.{acknowledge_front, go_on, poll}
use rabbitmq_cxx.Consumer.Scope.Acks.{asked, Acks}
use rabbitmq_cxx.Consumer.Scope.Beside.{acknowledge_front-Adds}
use rabbitmq_cxx.Consumer.Scope.Kinds.{is_on_envelope-IsBeside}
use rabbitmq_cxx.Consumer.Scope.Survives.{acknowledge_front-Survives}

pub acknowledge_front-Writes :
    (ch : Channel) (front : Option ℕ) → Writes anything (acknowledge_front ch front)
unfolding acknowledge_front ack rpc_own Channel.rpc Connection.rpc
acknowledge_front-Writes ch none = Writes-pure tt
acknowledge_front-Writes ch (some id) =
    Writes-bind _ _
      (Writes-defer _ _ (Writes-notify _ tt) (
        Writes-defer _ _ (conclude-Writes anything anything-Replies ch.connection false _ tt tt)
          (Writes-perform (basic_ack ch.connection.state ch.channel id false) tt)))
      λ r. Writes-pure tt

go_on-Writes :
    (r : Option Bool) (rest : Effect (Option (Unit {0})))
    → Writes anything rest
    → Writes anything (go_on r rest)
unfolding go_on
go_on-Writes none rest g = Writes-pure _
go_on-Writes (some r) rest g = g

pub poll-Writes :
    (fuel : ℕ) (c : Connection) (ch : Channel) (rounds : List (Option ℕ))
    → Writes anything (poll fuel c ch rounds)
unfolding poll
poll-Writes fuel c ch [] = Writes-pure _
poll-Writes fuel c ch (front ∷ rounds) =
    Writes-bind _ _
      (consume_envelope_for-Writes anything anything-Utters (λ e. tt) fuel c seconds (pos 0))
      λ r.
        go_on-Writes r _
          (Writes-bind _ _ (acknowledge_front-Writes ch front) λ u. poll-Writes fuel c ch rounds)

-- The numbers of calls of the callback before and after, and of acknowledgements, by the outcome of a
-- round with such a front. With an exception of the library after the callback, there was a front.
abbrev pub RoundFits : Option ℕ → Outcome (Option (Unit {0})) → ℕ → ℕ → ℕ → ℕ → Type 0
RoundFits front (done none) a b x y = Unit
RoundFits front (done (some u)) a b x y = (a ≤ b) × (b ≤ a + 1) × (y ≡ x + asked front)
RoundFits front (throws (foreign n)) a b x y = Unit
RoundFits front (throws _) a b x y = (b ≡ a) ⊎ ((b ≡ a + 1) × (front ≢ none))
RoundFits front terminated a b x y = ⊥

RoundFits-throws :
    (front : Option ℕ) (e : Exception) (a b x y : ℕ)
    → (b ≡ a) ⊎ ((b ≡ a + 1) × (front ≢ none))
    → RoundFits front (throws e) a b x y
RoundFits-throws front (foreign n) a b x y p = tt
RoundFits-throws front _ a b x y p = p

RoundFits-Threw :
    (front : Option ℕ) (e : Exception) (a b x y : ℕ)
    → Threw e a b
    → RoundFits front (throws e) a b x y
RoundFits-Threw front (foreign n) a b x y p = tt
RoundFits-Threw front _ a b x y p = inl p

pub acknowledge_none :
    (ch : Channel) (lib : Library) (h : Trace) → (acknowledge_front ch none lib h).0 ≡ done tt
unfolding acknowledge_front pure
acknowledge_none ch lib h = refl

thrown :
    (e : Exception) (b : Bool) (front : Option ℕ) (a n : ℕ)
    → n ≡ a + (if b then 1 else 0)
    → (front ≡ none → ◌≡◌ {A = Outcome (Unit {0})} (throws e) (done tt))
    → (n ≡ a) ⊎ ((n ≡ a + 1) × (front ≢ none))
thrown e true none a n p quiet = let q = quiet refl in cc
thrown e true (some id) a n p quiet = inr (p, λ q. cc)
thrown e false front a n p quiet = inl (omega (arith, p))

module _ (p : Call → Bool) (ch : Channel) (front : Option ℕ) (asks : Acks p ch front) where
  -- The second half of a round, when the callback was called as `b` tells.
  after_consume-Fits :
      (lib : Library) (b : Bool) (a x : ℕ) (t : Trace)
      → count is_on_envelope t ≡ a + (if b then 1 else 0)
      → count p t ≡ x
      → let r = (acknowledge_front ch front >>= λ u. pure (some u)) lib t in
        RoundFits front r.0 a (count is_on_envelope r.1) x (count p r.1)
  unfolding ◌>>=◌ pure
  after_consume-Fits lib b a x t called q =
      go (acknowledge_front ch front lib t).0 (acknowledge_front ch front lib t).1
        ((acknowledge_front-Survives ch front).at lib t)
        ((acknowledge_front-Adds is_on_envelope is_on_envelope-IsBeside ch front).at lib t)
        (asks.acknowledge.at lib t) λ e. rw e (acknowledge_none ch lib t)
    where
      go :
          (o : Outcome (Unit {0})) (t' : Trace)
          → o ≢ terminated
          → count is_on_envelope t' ≡ count is_on_envelope t + 0
          → count p t' ≡ count p t + asked front
          → (front ≡ none → o ≡ done tt)
          → let r = continue o (λ (u : Unit {0}). pure (some u)) lib t' in
            RoundFits front r.0 a (count is_on_envelope r.1) x (count p r.1)
      go (done u) t' alive m n quiet = ground (arith, m, n, called, q)
      go (throws e) t' alive m n quiet =
          RoundFits-throws front e _ _ _ _ (thrown e b front _ _ (omega (arith, m, called)) quiet)
      go terminated t' alive m n quiet = alive refl

  pub round-Fits :
      (fuel : ℕ) (c : Connection) (lib : Library) (h : Trace)
      → let r = poll fuel c ch (front ∷ []) lib h in
        RoundFits front r.0
          (count is_on_envelope h)
          (count is_on_envelope r.1)
          (count p h)
          (count p r.1)
  unfolding poll ◌>>=◌ pure go_on
  round-Fits fuel c lib h =
      go (consume_envelope_for fuel c seconds (pos 0) lib h).0
        (consume_envelope_for fuel c seconds (pos 0) lib h).1
        (consume_envelope_for-CallsOnce fuel c lib h seconds (pos 0))
        ((asks.consume fuel c).at lib h)
    where
      go :
          (o : Outcome (Option Bool)) (t : Trace)
          → CallsOnce o (count is_on_envelope h) (count is_on_envelope t)
          → count p t ≡ count p h + 0
          → let r =
              continue o (λ b. go_on b (acknowledge_front ch front >>= λ u. pure (some u))) lib t in
            RoundFits front r.0
              (count is_on_envelope h)
              (count is_on_envelope r.1)
              (count p h)
              (count p r.1)
      go (done none) t calls n = tt
      go (done (some true)) t calls n = after_consume-Fits lib true _ _ t calls (omega (arith, n))
      go (done (some false)) t calls n =
          after_consume-Fits lib false _ _ t (omega (arith, calls)) (omega (arith, n))
      go (throws e) t calls n = RoundFits-Threw front e _ _ _ _ calls
      go terminated t calls n = calls

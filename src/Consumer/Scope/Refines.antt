-- ===== src/Consumer/Scope/Refines.antt =====
-- One round of the worker's inner loop in examples/advconsumer.cpp, made of the calls of the headers, is a
-- sequence of the worker's steps.
use mathlib.Core.Path.{subst, sym}
use mathlib.Core.List.{append-nil}
use rabbitmq_cxx.Base.{
  ℕ, ◌+◌, ◌≡◌, ◌≢◌, ◌⊎◌, inl, inr, refl, Bool, true, false, List, [], ◌∷◌, ◌++◌, map, Option, none,
  some, arith,
}
use rabbitmq_cxx.Amqp.{Trace, Library}
use rabbitmq_cxx.Exceptions.{foreign}
use rabbitmq_cxx.Effect.{Outcome, done, throws, terminated}
use rabbitmq_cxx.Effect.Calls.{count}
use rabbitmq_cxx.Effect.Writes.{count-append}
use rabbitmq_cxx.Connection.{Connection}
use rabbitmq_cxx.Connection.Consume.Reports.Callbacks.{is_on_envelope}
use rabbitmq_cxx.Channel.{Channel}
use rabbitmq_cxx.Consumer.{Tag, Message, Worker, Sent, System}
use rabbitmq_cxx.Consumer.Steps.{Steps-trans, Step, Steps, here, next}
use rabbitmq_cxx.Consumer.Scope.{poll}
use rabbitmq_cxx.Consumer.Scope.Arrivals.{
  messages_of, IsBrief, messages_of-none, messages_of-IsBrief,
}
use rabbitmq_cxx.Consumer.Scope.Rounds.{RoundFits, poll-Writes, round-Fits}
use rabbitmq_cxx.Consumer.Scope.Acks.{
  is_basic_ack, is_ack_of, asked, is_basic_ack-Acks, is_ack_of-Acks,
}

-- ackQueue_.front(), if it is not empty
abbrev pub front_of : List Tag → Option ℕ
front_of [] = none
front_of (t ∷ ts) = some t.id

abbrev pub rest_of : List Tag → List Tag
rest_of [] = []
rest_of (t ∷ ts) = ts

abbrev pub sent_of : ℕ → List Tag → List Sent
sent_of session [] = []
sent_of session (t ∷ ts) = (record { session = session; tag = t }) ∷ []

-- The states after consumeEnvelope with such messages, after the acknowledgement, and in the
-- handler of exceptions.
abbrev pub after_poll : System → List Message → System
after_poll s new = record s {
  worker = Worker.polled;
  delivered = map (λ (m : Message). m.tag) new ++ s.delivered;
  consumer = record s.consumer { messages = s.consumer.messages ++ new };
}

abbrev pub after_ack : System → System
after_ack s = record s {
  worker = Worker.inner;
  ack_mtx = false;
  consumer = record s.consumer { ack_queue = rest_of s.consumer.ack_queue };
  acknowledged = sent_of s.session s.consumer.ack_queue ++ s.acknowledged;
}

abbrev pub after_failure : System → List Message → System
after_failure s new = record (after_poll s new) { worker = Worker.failed; ack_mtx = false }

-- What the steps do, by the outcome of the round, with the messages and the numbers of acknowledgements
-- that its calls make, of all tags and of the one in front. The handler catches what is of the library.
abbrev pub Follows : System → List Message → ℕ → ℕ → Outcome (Option (Unit {0})) → Type 0
Follows s new k own (done none) = Unit
Follows s new k own (done (some u)) =
    Steps s (after_ack (after_poll s new))
    × (k ≡ asked (front_of s.consumer.ack_queue))
    × (own ≡ asked (front_of s.consumer.ack_queue))
Follows s new k own (throws (foreign n)) = Unit
Follows s new k own (throws _) = Steps s (after_failure s new)
Follows s new k own terminated = ⊥

module _ (s : System) (inner : s.worker ≡ Worker.inner) (run : s.consumer.run ≡ true) where
  pub polls : (new : List Message) → IsBrief s.session new → Steps s (after_poll s new)
  polls new (inl e) =
      subst (λ (ms : List Message). Steps s (after_poll s ms)) (sym e)
        (subst
          (λ (ms : List Message).
            Steps s
              (record s { worker = Worker.polled; consumer = record s.consumer { messages = ms } }))
          (sym (append-nil s.consumer.messages))
          (next (next here (Step.poll inner run)) (Step.timeout refl)))
  polls new (inr (m, e, q)) =
      subst (λ (ms : List Message). Steps s (after_poll s ms)) (sym e)
        (next (next (next here (Step.poll inner run)) (Step.envelope m refl q))
          (Step.emplace m refl))

  poll_breaks : (new : List Message) → new ≡ [] → s.ack_mtx ≡ false → Steps s (after_failure s new)
  poll_breaks new e quiet =
      subst (λ (ms : List Message). Steps s (after_failure s ms)) (sym e)
        (subst
          (λ (ms : List Message). Steps s (record s {
            worker = Worker.failed;
            ack_mtx = false;
            consumer = record s.consumer { messages = ms };
          }))
          (sym (append-nil s.consumer.messages))
          (subst (λ (b : Bool). Steps s (record s { worker = Worker.failed; ack_mtx = b })) quiet
            (next (next here (Step.poll inner run)) (Step.poll_fails refl))))

pub acks : (s : System) → s.worker ≡ Worker.polled → s.ack_mtx ≡ false → Steps s (after_ack s)
acks s at_lock quiet = go s.consumer.ack_queue refl
  where
    locked : System
    locked = record s { worker = Worker.acking; ack_mtx = true }

    lock : Steps s locked
    lock = next here (Step.lock_acks at_lock quiet)

    go :
        (q : List Tag)
        → s.consumer.ack_queue ≡ q
        → Steps s (record s {
          worker = Worker.inner;
          ack_mtx = false;
          consumer = record s.consumer { ack_queue = rest_of q };
          acknowledged = sent_of s.session q ++ s.acknowledged;
        })
    go [] e =
        subst
          (λ (q : List Tag). Steps s (record s {
            worker = Worker.inner;
            ack_mtx = false;
            consumer = record s.consumer { ack_queue = q };
          }))
          e (next lock (Step.ack_none refl e))
    go (t ∷ ts) e = next lock (Step.ack_front t ts refl e)

pub ack_breaks :
    (s : System)
    → s.worker ≡ Worker.polled
    → s.ack_mtx ≡ false
    → front_of s.consumer.ack_queue ≢ none
    → Steps s (record s { worker = Worker.failed; ack_mtx = false })
ack_breaks s at_lock quiet some_front = go s.consumer.ack_queue refl
  where
    go :
        (q : List Tag)
        → s.consumer.ack_queue ≡ q
        → Steps s (record s { worker = Worker.failed; ack_mtx = false })
    go [] e = absurd (some_front (rw e refl))
    go (t ∷ ts) e = next (next here (Step.lock_acks at_lock quiet)) (Step.ack_fails t ts refl e)

module _ (s : System) (inner : s.worker ≡ Worker.inner) (run : s.consumer.run ≡ true)
    (quiet : s.ack_mtx ≡ false) where
  breaks :
      (a b : ℕ) (d : Trace)
      → (b ≡ a) ⊎ ((b ≡ a + 1) × (front_of s.consumer.ack_queue ≢ none))
      → b ≡ count is_on_envelope d + a
      → Steps s (after_failure s (messages_of s.session d))
  breaks a b d (inl p) q =
      poll_breaks s inner run _ (messages_of-none s.session d (omega (arith, p, q))) quiet
  breaks a b d (inr (p, some_front)) q =
      let brief = messages_of-IsBrief s.session d (omega (arith, p, q)) in
      Steps-trans (polls s inner run _ brief) (ack_breaks _ refl quiet some_front)

  follows :
      (d : Trace) (o : Outcome (Option (Unit {0}))) (a b x y x' y' k own : ℕ)
      → RoundFits (front_of s.consumer.ack_queue) o a b x y
      → RoundFits (front_of s.consumer.ack_queue) o a b x' y'
      → b ≡ count is_on_envelope d + a
      → y ≡ k + x
      → y' ≡ own + x'
      → Follows s (messages_of s.session d) k own o
  follows d (done none) a b x y x' y' k own fits fits' p q q' = tt
  follows d (done (some u)) a b x y x' y' k own (le, ge, n) (le', ge', n') p q q' = (
    Steps-trans (polls s inner run _ (messages_of-IsBrief s.session d (omega (arith, ge, p))))
        (acks _ refl quiet),
    omega (arith, n, q),
    omega (arith, n', q'),
  )
  follows d (throws (foreign n)) a b x y x' y' k own fits fits' p q q' = tt
  follows d (throws _) a b x y x' y' k own fits fits' p q q' = breaks a b d fits p
  follows d terminated a b x y x' y' k own fits fits' p q q' = fits

  -- A round of the worker's inner loop follows the steps of the worker. If it ends, they lead from
  -- the test of the loop back to it, with the messages of the calls of the callback behind those in
  -- the queue, and without the tag in front; one acknowledgement is sent, of that tag alone and on
  -- the channel, and none without a tag. If an exception of the library leaves it, they lead to
  -- the handler, with the messages, and the tags as they were. It never ends the program.
  pub poll-Follows :
      (fuel : ℕ) (c : Connection) (ch : Channel) (lib : Library) (h : Trace)
      → let front = front_of s.consumer.ack_queue in
        let r = poll fuel c ch (front ∷ []) lib h in
        (d : Trace) × (r.1 ≡ d ++ h)
        × Follows s
            (messages_of s.session d)
            (count is_basic_ack d)
            (count (is_ack_of ch front) d)
            r.0
  poll-Follows fuel c ch lib h =
      let front = front_of s.consumer.ack_queue in
      let (d, e, w) = (poll-Writes fuel c ch (front ∷ [])).at lib h in
      (
        d,
        e,
        follows d _ _ _ _ _ _ _ _ _
            (round-Fits is_basic_ack ch front (is_basic_ack-Acks ch front) fuel c lib h)
            (round-Fits (is_ack_of ch front) ch front (is_ack_of-Acks ch front) fuel c lib h)
            (rw e (count-append is_on_envelope d h)) (rw e (count-append is_basic_ack d h))
            (rw e (count-append (is_ack_of ch front) d h)),
      )

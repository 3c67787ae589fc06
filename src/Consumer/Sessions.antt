-- ===== src/Consumer/Sessions.antt =====
-- Which session the queues of examples/advconsumer.cpp belong to. The handler of exceptions clears both
-- queues, for the tags of a lost connection mean nothing to the next one.
use rabbitmq_cxx.Base.{ℕ, suc, ◌≡◌, refl, Bool, true, false, List, [], ◌∷◌, ◌++◌}
use mathlib.Core.Path.{subst}
use rabbitmq_cxx.Consumer.{Tag, Message, Consumer, Worker, Thread, System, receive, pop_message}
use rabbitmq_cxx.Consumer.Steps.{Step, Steps, here, next, Reachable}

abbrev pub AllOf : ℕ → List Message → Type 0
AllOf n [] = Unit {0}
AllOf n (m ∷ ms) = (m.tag.session ≡ n) × AllOf n ms

-- What the queue of messages may hold, by where the worker stands, in which session, and whether the
-- program still runs. Only between an exception and the clearing may it hold old messages.
abbrev pub Current : Worker → ℕ → Bool → List Message → Type 0
Current Worker.failed n run ms = Unit {0}
Current Worker.clearing_messages n run ms = Unit {0}
Current Worker.cleared n run ms = ms ≡ []
Current Worker.clearing_acks n run ms = ms ≡ []
Current Worker.connecting n run ms = ms ≡ []
Current Worker.outer n run ms = AllOf n ms × (run ≡ true → ms ≡ [])
Current (Worker.delivering m) n run ms = AllOf n ms × (m.tag.session ≡ n)
Current Worker.inner n run ms = AllOf n ms
Current Worker.polling n run ms = AllOf n ms
Current Worker.polled n run ms = AllOf n ms
Current Worker.acking n run ms = AllOf n ms
Current Worker.finished n run ms = AllOf n ms

abbrev pub IsCurrent : System → Type 0
IsCurrent s = Current s.worker s.session s.consumer.run s.consumer.messages

AllOf-one :
    (n : ℕ) (ms : List Message) (m : Message)
    → AllOf n ms
    → m.tag.session ≡ n
    → AllOf n (ms ++ m ∷ [])
AllOf-one n [] m a e = (e, tt)
AllOf-one n (x ∷ ms) m a e = (a.0, AllOf-one n ms m a.1 e)

AllOf-none : (n : ℕ) (ms : List Message) → ms ≡ [] → AllOf n ms
AllOf-none n ms e = rw e tt

-- Taking the first message away keeps the queue as it should be.
tail-Current :
    (w : Worker) (n : ℕ) (run : Bool) (m : Message) (ms : List Message)
    → Current w n run (m ∷ ms)
    → Current w n run ms
tail-Current Worker.failed n run m ms c = tt
tail-Current Worker.clearing_messages n run m ms c = tt
tail-Current Worker.cleared n run m ms c = cc
tail-Current Worker.clearing_acks n run m ms c = cc
tail-Current Worker.connecting n run m ms c = cc
tail-Current Worker.outer n run m ms c = (c.0.1, λ r. let e = c.1 r in cc)
tail-Current (Worker.delivering x) n run m ms c = (c.0.1, c.1)
tail-Current Worker.inner n run m ms c = c.1
tail-Current Worker.polling n run m ms c = c.1
tail-Current Worker.polled n run m ms c = c.1
tail-Current Worker.acking n run m ms c = c.1
tail-Current Worker.finished n run m ms c = c.1

receive-Current :
    (w : Worker) (n : ℕ) (c : Consumer)
    → Current w n c.run c.messages
    → Current w n (receive c).1.run (receive c).1.messages
receive-Current w n c i = go c.messages i
  where
    go :
        (ms : List Message)
        → Current w n c.run ms
        → Current w n
            (pop_message (record c { messages = ms }) ms).1.run
            (pop_message (record c { messages = ms }) ms).1.messages
    go [] i = i
    go (m ∷ ms) i = tail-Current w n c.run m ms i

halt-Current :
    (w : Worker) (n : ℕ) (run : Bool) (ms : List Message)
    → Current w n run ms
    → Current w n false ms
halt-Current Worker.outer n run ms c = (c.0, λ r. cc)
halt-Current Worker.failed n run ms c = c
halt-Current Worker.clearing_messages n run ms c = c
halt-Current Worker.cleared n run ms c = c
halt-Current Worker.clearing_acks n run ms c = c
halt-Current Worker.connecting n run ms c = c
halt-Current (Worker.delivering m) n run ms c = c
halt-Current Worker.inner n run ms c = c
halt-Current Worker.polling n run ms c = c
halt-Current Worker.polled n run ms c = c
halt-Current Worker.acking n run ms c = c
halt-Current Worker.finished n run ms c = c

-- What is known where the worker stands.
at :
    (s : System) {w : Worker}
    → s.worker ≡ w
    → IsCurrent s
    → Current w s.session s.consumer.run s.consumer.messages
at s e i = subst (λ (x : Worker). Current x s.session s.consumer.run s.consumer.messages) e i

pub Step-IsCurrent : {s t : System} → Step s t → IsCurrent s → IsCurrent t
Step-IsCurrent {s} (Step.take_message ls rs e) i = receive-Current s.worker s.session s.consumer i
Step-IsCurrent (Step.lock_receive ls rs e u) i = i
Step-IsCurrent (Step.lock_acknowledge ls rs t e u) i = i
Step-IsCurrent (Step.hand_back ls rs t e) i = i
Step-IsCurrent (Step.give_up ls rs e) i = i
Step-IsCurrent {s} Step.halt i = halt-Current s.worker _ s.consumer.run _ i
Step-IsCurrent {s} (Step.enter w r) i = (at s w i).1 r
Step-IsCurrent {s} (Step.leave w r) i = (at s w i).0
Step-IsCurrent {s} (Step.connect w) i = AllOf-none _ s.consumer.messages (at s w i)
Step-IsCurrent (Step.connect_fails w) i = tt
Step-IsCurrent {s} (Step.poll w r) i = at s w i
Step-IsCurrent {s} (Step.quit w r) i = (at s w i, λ on. cc)
Step-IsCurrent {s} (Step.timeout w) i = at s w i
Step-IsCurrent (Step.poll_fails w) i = tt
Step-IsCurrent {s} (Step.envelope m w e) i = (at s w i, e)
Step-IsCurrent {s} (Step.emplace m w) i =
    AllOf-one _ s.consumer.messages m (at s w i).0 (at s w i).1
Step-IsCurrent {s} (Step.lock_acks w u) i = at s w i
Step-IsCurrent {s} (Step.ack_none w q) i = at s w i
Step-IsCurrent {s} (Step.ack_front t ts w q) i = at s w i
Step-IsCurrent (Step.ack_fails t ts w q) i = tt
Step-IsCurrent (Step.lock_clear w u) i = tt
Step-IsCurrent (Step.clear_messages w) i = refl
Step-IsCurrent {s} (Step.lock_clear_acks w u) i = at s w i
Step-IsCurrent {s} (Step.clear_acks w) i =
    (AllOf-none _ s.consumer.messages (at s w i), λ on. at s w i)

-- In every reachable state, all messages in the queue are of the current session, unless an exception
-- was caught and they are about to be cleared; then the queue is empty until the next session begins.
pub Reachable-IsCurrent : (n : ℕ) {s : System} → Reachable n s → IsCurrent s
Reachable-IsCurrent n here = (tt, λ on. refl)
Reachable-IsCurrent n (next r st) = Step-IsCurrent st (Reachable-IsCurrent n r)

-- Not so the tags: whenever the worker polls, a thread works on a message, and the mutexes are free,
-- the connection may fail, the thread hand its tag back afterwards, and the worker acknowledge it in
-- the session after the one that is current now.
pub stale_acknowledge :
    (s : System) (ls rs : List Thread) (t : Tag)
    → s.worker ≡ Worker.polling
    → s.consumer.run ≡ true
    → s.threads ≡ ls ++ Thread.working t ∷ rs
    → s.message_mtx ≡ false
    → s.ack_mtx ≡ false
    → (u : System) × Steps s u
      × (u.acknowledged ≡ (record { session = suc s.session; tag = t }) ∷ s.acknowledged)
stale_acknowledge s ls rs t polling run held messages acks = (
  _,
  next
      (next
        (next
          (next
            (next
              (next
                (next
                  (next
                    (next
                      (next
                        (next
                          (next (next here (Step.poll_fails polling))
                            (Step.lock_clear refl messages))
                          (Step.clear_messages refl))
                        (Step.lock_clear_acks refl acks))
                      (Step.clear_acks refl))
                    (Step.lock_acknowledge ls rs t held refl))
                  (Step.hand_back ls rs t refl))
                (Step.enter refl run))
              (Step.connect refl))
            (Step.poll refl run))
          (Step.timeout refl))
        (Step.lock_acks refl refl))
      (Step.ack_front t [] refl refl),
  refl,
)

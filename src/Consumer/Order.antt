-- ===== src/Consumer/Order.antt =====
-- The order in which the processing threads of examples/advconsumer.cpp get the messages.
use rabbitmq_cxx.Base.{ℕ, ◌≡◌, refl, List, [], ◌∷◌, ◌++◌, map}
use mathlib.Core.List.{Sublistᴰ, reverse_aux}
use mathlib.Core.Path.{subst}
use rabbitmq_cxx.Consumer.{Tag, Message, Consumer, Worker, System, receive, pop_message, tag_of}
use rabbitmq_cxx.Consumer.Steps.{Step, here, next, Reachable}

-- The message that the worker has not put into the queue yet.
abbrev pub in_worker : Worker → List Tag
in_worker (Worker.delivering m) = m.tag ∷ []
in_worker _ = []

-- What waits in the queue, the newest first, on top of what was taken from it.
abbrev pub waiting : List Message → List Tag → List Tag
waiting ms taken = reverse_aux (map (λ (m : Message). m.tag) ms) taken

-- `waiting` is in the order of arrival: what arrived, with some of it left out.
abbrev pub InOrder : System → Type 0
InOrder s = Sublistᴰ (in_worker s.worker ++ waiting s.consumer.messages s.taken) s.delivered

tail-Sublistᴰ : {t : Tag} {xs ys : List Tag} → Sublistᴰ (t ∷ xs) ys → Sublistᴰ xs ys
tail-Sublistᴰ (Sublistᴰ.cons s) = Sublistᴰ.cons (tail-Sublistᴰ s)
tail-Sublistᴰ (Sublistᴰ.cons-cons e s) = Sublistᴰ.cons s

waiting-Sublistᴰ :
    (ms : List Message) (taken ys : List Tag) → Sublistᴰ (waiting ms taken) ys → Sublistᴰ taken ys
waiting-Sublistᴰ [] taken ys s = s
waiting-Sublistᴰ (m ∷ ms) taken ys s = tail-Sublistᴰ (waiting-Sublistᴰ ms (m.tag ∷ taken) ys s)

waiting-back :
    (ms : List Message) (m : Message) (taken : List Tag)
    → waiting (ms ++ m ∷ []) taken ≡ m.tag ∷ waiting ms taken
waiting-back [] m taken = refl
waiting-back (x ∷ ms) m taken = waiting-back ms m (x.tag ∷ taken)

pub receive-waiting :
    (c : Consumer) (taken : List Tag)
    → waiting (receive c).1.messages (tag_of (receive c).0 ++ taken) ≡ waiting c.messages taken
receive-waiting c taken = go c.messages
  where
    go :
        (ms : List Message)
        → let r = pop_message (record c { messages = ms }) ms in
          waiting r.1.messages (tag_of r.0 ++ taken) ≡ waiting ms taken
    go [] = refl
    go (m ∷ ms) = refl

-- What is known where the worker stands.
at :
    (s : System) {w : Worker}
    → s.worker ≡ w
    → InOrder s
    → Sublistᴰ (in_worker w ++ waiting s.consumer.messages s.taken) s.delivered
at s e i =
    subst
      (λ (x : Worker). Sublistᴰ (in_worker x ++ waiting s.consumer.messages s.taken) s.delivered) e
      i

Step-InOrder : {s t : System} → Step s t → InOrder s → InOrder t
Step-InOrder {s} (Step.take_message ls rs e) i = rw (receive-waiting s.consumer s.taken) i
Step-InOrder (Step.lock_receive ls rs e u) i = i
Step-InOrder (Step.lock_acknowledge ls rs t e u) i = i
Step-InOrder (Step.hand_back ls rs t e) i = i
Step-InOrder (Step.give_up ls rs e) i = i
Step-InOrder Step.halt i = i
Step-InOrder {s} (Step.enter w r) i = at s w i
Step-InOrder {s} (Step.leave w r) i = at s w i
Step-InOrder {s} (Step.connect w) i = at s w i
Step-InOrder {s} (Step.connect_fails w) i = at s w i
Step-InOrder {s} (Step.poll w r) i = at s w i
Step-InOrder {s} (Step.quit w r) i = at s w i
Step-InOrder {s} (Step.timeout w) i = at s w i
Step-InOrder {s} (Step.poll_fails w) i = at s w i
Step-InOrder {s} (Step.envelope m w e) i = Sublistᴰ.cons-cons refl (at s w i)
Step-InOrder {s} (Step.emplace m w) i = rw (waiting-back s.consumer.messages m s.taken) (at s w i)
Step-InOrder {s} (Step.lock_acks w u) i = at s w i
Step-InOrder {s} (Step.ack_none w q) i = at s w i
Step-InOrder {s} (Step.ack_front t ts w q) i = at s w i
Step-InOrder {s} (Step.ack_fails t ts w q) i = at s w i
Step-InOrder {s} (Step.lock_clear w u) i = at s w i
Step-InOrder {s} (Step.clear_messages w) i =
    waiting-Sublistᴰ s.consumer.messages s.taken s.delivered (at s w i)
Step-InOrder {s} (Step.lock_clear_acks w u) i = at s w i
Step-InOrder {s} (Step.clear_acks w) i = at s w i

-- In every reachable state, what the processing threads took, followed by what waits for them, is what
-- arrived in the order in which it arrived, with at most some messages left out.
pub Reachable-InOrder : (n : ℕ) {s : System} → Reachable n s → InOrder s
Reachable-InOrder n here = Sublistᴰ.slnil
Reachable-InOrder n (next r st) = Step-InOrder st (Reachable-InOrder n r)

-- ===== src/Consumer/Accounts.antt =====
-- Where the tags that arrived are, in the program of examples/advconsumer.cpp.
use rabbitmq_cxx.Base.{ℕ, zero, suc, ◌+◌, ◌≡◌, refl, ◌&&◌, List, [], ◌∷◌, ◌++◌, map, ◌==◌, arith}
use rabbitmq_cxx.Consumer.{
  Tag, Message, Consumer, Worker, Thread, Sent, System, received, receive, pop_message,
}
use rabbitmq_cxx.Consumer.Steps.{Step, here, next, Reachable, all_idle, init}
use rabbitmq_cxx.Consumer.Locks.{total, move, flag}

abbrev pub same : Tag → Tag → ℕ
same d t = flag (d.session == t.session && d.id == t.id)

unfoldable pub tally : Tag → List Tag → ℕ
tally d [] = 0
tally d (t ∷ ts) = same d t + tally d ts

tally-append : (d : Tag) (xs ys : List Tag) → tally d (xs ++ ys) ≡ tally d xs + tally d ys
unfolding tally
tally-append d [] ys = omega arith
tally-append d (x ∷ xs) ys = omega (arith, tally-append d xs ys)

abbrev pub tags : List Message → List Tag
tags ms = map (λ (m : Message). m.tag) ms

abbrev pub sent_tags : List Sent → List Tag
sent_tags ss = map (λ (x : Sent). x.tag) ss

-- The tags with the worker and with a processing thread.
abbrev pub in_worker : Tag → Worker → ℕ
in_worker d (Worker.delivering m) = same d m.tag
in_worker d _ = 0

abbrev pub holds : Tag → Thread → ℕ
holds d (Thread.working t) = same d t
holds d (Thread.acknowledging t) = same d t
holds d _ = 0

abbrev pub everywhere : Tag → System → ℕ
everywhere d s =
    in_worker d s.worker
    + tally d (tags s.consumer.messages)
    + total (holds d) s.threads
    + tally d s.consumer.ack_queue
    + tally d (sent_tags s.acknowledged)
    + tally d s.dropped

-- Each tag is as often somewhere as it arrived.
abbrev pub Accounted : Tag → System → Type 0
Accounted d s = tally d s.delivered ≡ everywhere d s

module _ (d : Tag) where
  total-all_idle : (n : ℕ) → total (holds d) (all_idle n) ≡ 0
  unfolding total
  total-all_idle zero = refl
  total-all_idle (suc n) = omega (arith, total-all_idle n)

  tally-one : (ts : List Tag) (t : Tag) → tally d (ts ++ t ∷ []) ≡ tally d ts + same d t
  unfolding tally
  tally-one ts t = omega (arith, tally-append d ts (t ∷ []))

  tags-one :
      (ms : List Message) (m : Message)
      → tally d (tags (ms ++ m ∷ [])) ≡ tally d (tags ms) + same d m.tag
  unfolding tally
  tags-one [] m = omega arith
  tags-one (x ∷ ms) m = omega (arith, tags-one ms m)

  -- What receive takes off the queue is with the thread.
  taken :
      (c : Consumer)
      → (tally d (tags c.messages)
          ≡ holds d (received (receive c).0) + tally d (tags (receive c).1.messages))
        × ((receive c).1.ack_queue ≡ c.ack_queue)
  unfolding tally
  taken c = go c.messages
    where
      go :
          (ms : List Message)
          → (tally d (tags ms)
              ≡ holds d (received (pop_message (record c { messages = ms }) ms).0)
                + tally d (tags (pop_message (record c { messages = ms }) ms).1.messages))
            × ((pop_message (record c { messages = ms }) ms).1.ack_queue ≡ c.ack_queue)
      go [] = (refl, refl)
      go (m ∷ ms) = (refl, refl)

  init-Accounted : (n : ℕ) → Accounted d (init n)
  unfolding tally
  init-Accounted n = omega (arith, total-all_idle n)

  pub Step-Accounted : {s t : System} → Step s t → Accounted d s → Accounted d t
  unfolding tally
  Step-Accounted {s} (Step.take_message ls rs e) i = ground (
    arith,
    i,
    taken s.consumer,
    move (holds d) s.threads ls rs Thread.receiving (received (receive s.consumer).0) e,
  )
  Step-Accounted {s} (Step.lock_receive ls rs e u) i =
      ground (arith, i, move (holds d) s.threads ls rs Thread.idle Thread.receiving e)
  Step-Accounted {s} (Step.lock_acknowledge ls rs t e u) i =
      ground
        (arith, i, move (holds d) s.threads ls rs (Thread.working t) (Thread.acknowledging t) e)
  Step-Accounted {s} (Step.hand_back ls rs t e) i = ground (
    arith,
    i,
    tally-one s.consumer.ack_queue t,
    move (holds d) s.threads ls rs (Thread.acknowledging t) Thread.idle e,
  )
  Step-Accounted {s} (Step.give_up ls rs e) i =
      ground (arith, i, move (holds d) s.threads ls rs Thread.idle Thread.over e)
  Step-Accounted Step.halt i = i
  Step-Accounted (Step.enter w r) i = ground (arith, i)
  Step-Accounted (Step.leave w r) i = ground (arith, i)
  Step-Accounted (Step.connect w) i = ground (arith, i)
  Step-Accounted (Step.connect_fails w) i = ground (arith, i)
  Step-Accounted (Step.poll w r) i = ground (arith, i)
  Step-Accounted (Step.quit w r) i = ground (arith, i)
  Step-Accounted (Step.timeout w) i = ground (arith, i)
  Step-Accounted (Step.poll_fails w) i = ground (arith, i)
  Step-Accounted (Step.envelope m w e) i = ground (arith, i)
  Step-Accounted {s} (Step.emplace m w) i = ground (arith, i, tags-one s.consumer.messages m)
  Step-Accounted (Step.lock_acks w u) i = ground (arith, i)
  Step-Accounted (Step.ack_none w q) i = ground (arith, i)
  Step-Accounted (Step.ack_front t ts w q) i = ground (arith, i)
  Step-Accounted (Step.ack_fails t ts w q) i = ground (arith, i)
  Step-Accounted (Step.lock_clear w u) i = ground (arith, i)
  Step-Accounted {s} (Step.clear_messages w) i =
      ground (arith, i, tally-append d (tags s.consumer.messages) s.dropped)
  Step-Accounted (Step.lock_clear_acks w u) i = ground (arith, i)
  Step-Accounted {s} (Step.clear_acks w) i =
      ground (arith, i, tally-append d s.consumer.ack_queue s.dropped)

-- In every reachable state each tag is as often with a thread, in one of the queues, acknowledged or
-- dropped as it arrived: none disappears, and none is there twice that arrived once.
pub Reachable-Accounted : (d : Tag) (n : ℕ) {s : System} → Reachable n s → Accounted d s
Reachable-Accounted d n here = init-Accounted d n
Reachable-Accounted d n (next r st) = Step-Accounted d st (Reachable-Accounted d n r)

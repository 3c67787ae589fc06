-- ===== src/Consumer/Locks.antt =====
-- The mutexes of examples/advconsumer.cpp, and who stands behind them.
use rabbitmq_cxx.Base.{ℕ, zero, suc, ◌+◌, ◌≡◌, refl, Bool, true, false, List, [], ◌∷◌, ◌++◌, arith}
use rabbitmq_cxx.Consumer.{Tag, Message, Consumer, Worker, Thread, System, received, receive}
use rabbitmq_cxx.Consumer.Steps.{here, next, Reachable, Step, here, next, Reachable, all_idle, init}

abbrev pub flag : Bool → ℕ
flag true = 1
flag false = 0

-- Behind the mutex of the messages, and behind that of the tags.
abbrev pub worker_clears : Worker → ℕ
worker_clears Worker.clearing_messages = 1
worker_clears _ = 0

abbrev pub worker_acks : Worker → ℕ
worker_acks Worker.acking = 1
worker_acks Worker.clearing_acks = 1
worker_acks _ = 0

abbrev pub thread_receives : Thread → ℕ
thread_receives Thread.receiving = 1
thread_receives _ = 0

abbrev pub thread_acks : Thread → ℕ
thread_acks (Thread.acknowledging t) = 1
thread_acks _ = 0

unfoldable pub total : (Thread → ℕ) → List Thread → ℕ
total w [] = 0
total w (p ∷ ps) = w p + total w ps

pub total-split :
    (w : Thread → ℕ) (ls rs : List Thread) (p : Thread)
    → total w (ls ++ p ∷ rs) ≡ total w ls + w p + total w rs
unfolding total
total-split w [] rs p = omega arith
total-split w (l ∷ ls) rs p = omega (arith, total-split w ls rs p)

-- Each mutex is locked exactly as often as threads stand behind it.
pub record Locks (s : System) : Type 0 where
  pub messages : flag s.message_mtx ≡ worker_clears s.worker + total thread_receives s.threads
  pub acks : flag s.ack_mtx ≡ worker_acks s.worker + total thread_acks s.threads

total-all_idle : (w : Thread → ℕ) (n : ℕ) → w Thread.idle ≡ 0 → total w (all_idle n) ≡ 0
unfolding total
total-all_idle w zero e = refl
total-all_idle w (suc n) e = omega (arith, total-all_idle w n e)

pub init-Locks : (n : ℕ) → Locks (init n)
init-Locks n = record {
  messages = omega (arith, total-all_idle thread_receives n refl);
  acks = omega (arith, total-all_idle thread_acks n refl);
}

-- One thread moves on, and nobody else.
pub move :
    (w : Thread → ℕ) (ps ls rs : List Thread) (p q : Thread)
    → ps ≡ ls ++ p ∷ rs
    → total w (ls ++ q ∷ rs) + w p ≡ total w ps + w q
move w ps ls rs p q e = rw e (omega (arith, total-split w ls rs p, total-split w ls rs q))

received-none :
    (c : Consumer)
    → (thread_receives (received (receive c).0) ≡ 0) × (thread_acks (received (receive c).0) ≡ 0)
received-none c = go c.messages
  where
    go :
        (ms : List Message)
        → (thread_receives (received (rabbitmq_cxx.Consumer.pop_message c ms).0) ≡ 0)
          × (thread_acks (received (rabbitmq_cxx.Consumer.pop_message c ms).0) ≡ 0)
    go [] = (refl, refl)
    go (m ∷ ms) = (refl, refl)

pub Step-Locks : {s t : System} → Step s t → Locks s → Locks t
Step-Locks {s} (Step.take_message ls rs e) i = record {
  messages = ground (
    arith,
    i.messages,
    received-none s.consumer,
    move thread_receives s.threads ls rs Thread.receiving (received (receive s.consumer).0) e,
  );
  acks = ground (
    arith,
    i.acks,
    received-none s.consumer,
    move thread_acks s.threads ls rs Thread.receiving (received (receive s.consumer).0) e,
  );
}
Step-Locks {s} (Step.lock_receive ls rs e u) i = record {
  messages =
      ground
        (arith, i.messages, move thread_receives s.threads ls rs Thread.idle Thread.receiving e);
  acks = ground (arith, i.acks, move thread_acks s.threads ls rs Thread.idle Thread.receiving e);
}
Step-Locks {s} (Step.lock_acknowledge ls rs t e u) i = record {
  messages = ground (
    arith,
    i.messages,
    move thread_receives s.threads ls rs (Thread.working t) (Thread.acknowledging t) e,
  );
  acks = ground (
    arith,
    i.acks,
    move thread_acks s.threads ls rs (Thread.working t) (Thread.acknowledging t) e,
  );
}
Step-Locks {s} (Step.hand_back ls rs t e) i = record {
  messages = ground (
    arith,
    i.messages,
    move thread_receives s.threads ls rs (Thread.acknowledging t) Thread.idle e,
  );
  acks =
      ground
        (arith, i.acks, move thread_acks s.threads ls rs (Thread.acknowledging t) Thread.idle e);
}
Step-Locks {s} (Step.give_up ls rs e) i = record {
  messages =
      ground (arith, i.messages, move thread_receives s.threads ls rs Thread.idle Thread.over e);
  acks = ground (arith, i.acks, move thread_acks s.threads ls rs Thread.idle Thread.over e);
}
Step-Locks (Step.enter w r) i = ground (arith, i.messages, i.acks)
Step-Locks (Step.leave w r) i = ground (arith, i.messages, i.acks)
Step-Locks (Step.connect w) i = ground (arith, i.messages, i.acks)
Step-Locks (Step.connect_fails w) i = ground (arith, i.messages, i.acks)
Step-Locks (Step.poll w r) i = ground (arith, i.messages, i.acks)
Step-Locks (Step.quit w r) i = ground (arith, i.messages, i.acks)
Step-Locks (Step.timeout w) i = ground (arith, i.messages, i.acks)
Step-Locks (Step.poll_fails w) i = ground (arith, i.messages, i.acks)
Step-Locks (Step.envelope m w e) i = ground (arith, i.messages, i.acks)
Step-Locks (Step.emplace m w) i = ground (arith, i.messages, i.acks)
Step-Locks (Step.lock_acks w u) i = ground (arith, i.messages, i.acks)
Step-Locks (Step.ack_none w q) i = ground (arith, i.messages, i.acks)
Step-Locks (Step.ack_front t ts w q) i = ground (arith, i.messages, i.acks)
Step-Locks (Step.ack_fails t ts w q) i = ground (arith, i.messages, i.acks)
Step-Locks (Step.lock_clear w u) i = ground (arith, i.messages, i.acks)
Step-Locks (Step.clear_messages w) i = ground (arith, i.messages, i.acks)
Step-Locks (Step.lock_clear_acks w u) i = ground (arith, i.messages, i.acks)
Step-Locks (Step.clear_acks w) i = ground (arith, i.messages, i.acks)
Step-Locks Step.halt i = ground (arith, i.messages, i.acks)

-- In every reachable state, each mutex is locked exactly when a thread stands behind it.
pub Reachable-Locks : (n : ℕ) {s : System} → Reachable n s → Locks s
Reachable-Locks n here = init-Locks n
Reachable-Locks n (next r st) = Step-Locks st (Reachable-Locks n r)

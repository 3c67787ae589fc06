-- ===== src/Consumer/Steps.antt =====
-- The steps of the threads of examples/advconsumer.cpp. A step is what a thread does between two points
-- where others can come in between; the broker chooses what arrives and what fails.
use rabbitmq_cxx.Base.{ℕ, suc, ◌≡◌, true, false, List, [], ◌∷◌, ◌++◌, map}
use rabbitmq_cxx.Consumer.{
  Tag, Message, start, stop, receive, acknowledge, Worker, Thread, System, received, tag_of,
}

pub data Step (s : System) : System → Type 0 where
  enter :
      s.worker ≡ Worker.outer
      → s.consumer.run ≡ true
      → Step s (record s { worker = Worker.connecting })
  leave :
      s.worker ≡ Worker.outer
      → s.consumer.run ≡ false
      → Step s (record s { worker = Worker.finished })
  connect :
      s.worker ≡ Worker.connecting
      → Step s (record s { worker = Worker.inner; session = suc s.session })
  connect_fails : s.worker ≡ Worker.connecting → Step s (record s { worker = Worker.failed })
  poll :
      s.worker ≡ Worker.inner
      → s.consumer.run ≡ true
      → Step s (record s { worker = Worker.polling })
  quit :
      s.worker ≡ Worker.inner → s.consumer.run ≡ false → Step s (record s { worker = Worker.outer })
  timeout : s.worker ≡ Worker.polling → Step s (record s { worker = Worker.polled })
  poll_fails : s.worker ≡ Worker.polling → Step s (record s { worker = Worker.failed })
  envelope :
      (m : Message)
      → s.worker ≡ Worker.polling
      → m.tag.session ≡ s.session
      → Step s (record s { worker = Worker.delivering m; delivered = m.tag ∷ s.delivered })
  -- messages_.emplace, under no mutex
  emplace :
      (m : Message)
      → s.worker ≡ Worker.delivering m
      → Step s (record s {
        worker = Worker.polled;
        consumer = record s.consumer { messages = s.consumer.messages ++ m ∷ [] };
      })
  lock_acks :
      s.worker ≡ Worker.polled
      → s.ack_mtx ≡ false
      → Step s (record s { worker = Worker.acking; ack_mtx = true })
  ack_none :
      s.worker ≡ Worker.acking
      → s.consumer.ack_queue ≡ []
      → Step s (record s { worker = Worker.inner; ack_mtx = false })
  ack_front :
      (t : Tag) (ts : List Tag)
      → s.worker ≡ Worker.acking
      → s.consumer.ack_queue ≡ t ∷ ts
      → Step s (record s {
        worker = Worker.inner;
        ack_mtx = false;
        consumer = record s.consumer { ack_queue = ts };
        acknowledged = (record { session = s.session; tag = t }) ∷ s.acknowledged;
      })
  -- channel.ack throws: the mutex is released, and nothing popped
  ack_fails :
      (t : Tag) (ts : List Tag)
      → s.worker ≡ Worker.acking
      → s.consumer.ack_queue ≡ t ∷ ts
      → Step s (record s { worker = Worker.failed; ack_mtx = false })
  lock_clear :
      s.worker ≡ Worker.failed
      → s.message_mtx ≡ false
      → Step s (record s { worker = Worker.clearing_messages; message_mtx = true })
  clear_messages :
      s.worker ≡ Worker.clearing_messages
      → Step s (record s {
        worker = Worker.cleared;
        message_mtx = false;
        consumer = record s.consumer { messages = [] };
        dropped = map (λ (m : Message). m.tag) s.consumer.messages ++ s.dropped;
      })
  lock_clear_acks :
      s.worker ≡ Worker.cleared
      → s.ack_mtx ≡ false
      → Step s (record s { worker = Worker.clearing_acks; ack_mtx = true })
  clear_acks :
      s.worker ≡ Worker.clearing_acks
      → Step s (record s {
        worker = Worker.outer;
        ack_mtx = false;
        consumer = record s.consumer { ack_queue = [] };
        dropped = s.consumer.ack_queue ++ s.dropped;
      })
  -- receive of a processing thread
  lock_receive :
      (ls rs : List Thread)
      → s.threads ≡ ls ++ Thread.idle ∷ rs
      → s.message_mtx ≡ false
      → Step s (record s { threads = ls ++ Thread.receiving ∷ rs; message_mtx = true })
  take_message :
      (ls rs : List Thread)
      → s.threads ≡ ls ++ Thread.receiving ∷ rs
      → Step s (record s {
        threads = ls ++ received (receive s.consumer).0 ∷ rs;
        message_mtx = false;
        consumer = (receive s.consumer).1;
        taken = tag_of (receive s.consumer).0 ++ s.taken;
      })
  -- acknowledge of a processing thread
  lock_acknowledge :
      (ls rs : List Thread) (t : Tag)
      → s.threads ≡ ls ++ Thread.working t ∷ rs
      → s.ack_mtx ≡ false
      → Step s (record s { threads = ls ++ Thread.acknowledging t ∷ rs; ack_mtx = true })
  hand_back :
      (ls rs : List Thread) (t : Tag)
      → s.threads ≡ ls ++ Thread.acknowledging t ∷ rs
      → Step s (record s {
        threads = ls ++ Thread.idle ∷ rs;
        ack_mtx = false;
        consumer = acknowledge t s.consumer;
      })
  -- it was idle for too long
  give_up :
      (ls rs : List Thread)
      → s.threads ≡ ls ++ Thread.idle ∷ rs
      → Step s (record s { threads = ls ++ Thread.over ∷ rs })
  halt : Step s (record s { consumer = stop s.consumer })

abbrev pub all_idle : ℕ → List Thread
all_idle ℕ.zero = []
all_idle (suc n) = Thread.idle ∷ all_idle n

-- main, with a number of processing threads
abbrev pub init : ℕ → System
init n = record {
  consumer = start (record { run = false; messages = []; ack_queue = [] });
  message_mtx = false;
  ack_mtx = false;
  worker = Worker.outer;
  threads = all_idle n;
  session = 0;
  delivered = [];
  taken = [];
  acknowledged = [];
  dropped = [];
}

pub data Steps (s : System) : System → Type 0 where
  here : Steps s s
  next : {t u : System} → Steps s t → Step t u → Steps s u

-- Reachable with a number of processing threads.
abbrev pub Reachable : ℕ → System → Type 0
Reachable n s = Steps (init n) s

pub Steps-trans : {s t u : System} → Steps s t → Steps t u → Steps s u
Steps-trans a here = a
Steps-trans a (next b st) = next (Steps-trans a b) st

-- ===== src/Tests/Threads.antt =====
-- The theorems on the consumer with threads at concrete inputs.
use rabbitmq_cxx.Base.{◌≡◌, refl, [], ◌∷◌, true, ◌++◌}
use rabbitmq_cxx.Consumer.{Tag, Message, Worker, Thread, Sent, System}
use rabbitmq_cxx.Consumer.Steps.{Step, Steps, here, next, Reachable, init}
use rabbitmq_cxx.Consumer.Race.{messages_race}
use rabbitmq_cxx.Consumer.Progress.{stopped_finishes}
use rabbitmq_cxx.Consumer.Accounts.{Accounted, Reachable-Accounted}
use rabbitmq_cxx.Consumer.Order.{InOrder, Reachable-InOrder}
use rabbitmq_cxx.Consumer.Sessions.{IsCurrent, Reachable-IsCurrent, stale_acknowledge}

abbrev letter : Message
letter = record { tag = record { session = 1; id = 5 }; body = [] }

-- A message that arrived is with the one thread, and the worker polls.
abbrev busy : System
busy = record (init 1) {
  worker = Worker.polling;
  session = 1;
  threads = Thread.working letter.tag ∷ [];
  delivered = letter.tag ∷ [];
  taken = letter.tag ∷ [];
}

busy-Reachable : Reachable 1 busy
busy-Reachable =
    next
      (next
        (next
          (next
            (next
              (next
                (next
                  (next (next (next here (Step.enter refl refl)) (Step.connect refl))
                    (Step.poll refl refl))
                  (Step.envelope letter refl refl))
                (Step.emplace letter refl))
              (Step.lock_receive [] [] refl refl))
            (Step.take_message [] [] refl))
          (Step.lock_acks refl refl))
        (Step.ack_none refl refl))
      (Step.poll refl refl)

messages_race_example :
    (s : System) × (t : System) × Reachable 3 s
    × Step s t
    × (s.message_mtx ≡ true)
    × (s.threads ≡ Thread.receiving ∷ Thread.idle ∷ Thread.idle ∷ [])
    × (t.consumer.messages ≡ s.consumer.messages ++ letter ∷ [])
    × (t.message_mtx ≡ true)
    × (t.threads ≡ Thread.receiving ∷ Thread.idle ∷ Thread.idle ∷ [])
messages_race_example = messages_race 2 5 []

abbrev stopped : System
stopped = record busy { consumer = rabbitmq_cxx.Consumer.stop busy.consumer }

stopped_finishes_example : (t : System) × Steps stopped t × (t.worker ≡ Worker.finished)
stopped_finishes_example = stopped_finishes 1 stopped (next busy-Reachable Step.halt) refl

Reachable-Accounted_example : Accounted letter.tag busy
Reachable-Accounted_example = Reachable-Accounted letter.tag 1 busy-Reachable

Reachable-IsCurrent_example : IsCurrent busy
Reachable-IsCurrent_example = Reachable-IsCurrent 1 busy-Reachable

stale_acknowledge_example :
    (u : System) × Steps busy u × (u.acknowledged ≡ (record { session = 2; tag = letter.tag }) ∷ [])
stale_acknowledge_example = stale_acknowledge busy [] [] letter.tag refl refl refl refl refl

Reachable-InOrder_example : InOrder busy
Reachable-InOrder_example = Reachable-InOrder 1 busy-Reachable

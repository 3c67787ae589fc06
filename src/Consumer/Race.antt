-- ===== src/Consumer/Race.antt =====
-- What the threads of examples/advconsumer.cpp can and cannot do at once.
use rabbitmq_cxx.Base.{ℕ, suc, ◌+◌, ◌≤◌, ◌≡◌, refl, Bool, true, false, [], ◌∷◌, ◌++◌, Bytes, arith}
use rabbitmq_cxx.Consumer.{Message, Thread, System}
use rabbitmq_cxx.Consumer.Steps.{Step, here, next, Reachable, all_idle}
use rabbitmq_cxx.Consumer.Locks.{flag, worker_acks, thread_acks, total, Reachable-Locks}

flag-le : (b : Bool) → flag b ≤ 1
flag-le true = omega arith
flag-le false = omega arith

-- Of all the threads, the worker included, at most one uses the queue of tags at a time.
pub acks_exclusive :
    (n : ℕ) {s : System} → Reachable n s → worker_acks s.worker + total thread_acks s.threads ≤ 1
acks_exclusive n {s} r = omega (arith, (Reachable-Locks n r).acks, flag-le s.ack_mtx)

-- For any number of processing threads but none, and any message, a state is reachable in which a thread
-- has locked the mutex of the queue of messages and stands behind it, and in which the worker can
-- still write the message to the queue: its next step adds it, with the thread where it was and the
-- mutex as locked as before.
pub messages_race :
    (n id : ℕ) (body : Bytes)
    → let m : Message = record { tag = record { session = 1; id = id }; body = body } in
      (s : System) × (t : System) × Reachable (suc n) s
      × Step s t
      × (s.message_mtx ≡ true)
      × (s.threads ≡ Thread.receiving ∷ all_idle n)
      × (t.consumer.messages ≡ s.consumer.messages ++ m ∷ [])
      × (t.message_mtx ≡ true)
      × (t.threads ≡ Thread.receiving ∷ all_idle n)
messages_race n id body =
    let m : Message = record { tag = record { session = 1; id = id }; body = body } in
    (
      _,
      _,
      next
          (next
            (next (next (next here (Step.enter refl refl)) (Step.connect refl))
              (Step.poll refl refl))
            (Step.envelope m refl refl))
          (Step.lock_receive [] (all_idle n) refl refl),
      Step.emplace m refl,
      refl,
      refl,
      refl,
      refl,
      refl,
    )

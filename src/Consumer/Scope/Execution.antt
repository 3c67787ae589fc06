-- ===== src/Consumer/Scope/Execution.antt =====
-- The whole program of examples/advconsumer.cpp, over all connections that its worker makes: the worker
-- makes the calls of the headers, and catches exceptions of the library, and the other threads take
-- their steps in between. Where an exception is caught, the objects of the scope are destroyed and the
-- exception is reported in one go.
pub mod Tells
pub mod Follows
use mathlib.Core.List.{Sublistᴰ, append_assoc}
use rabbitmq_cxx.Base.{
  ℕ, suc, ◌+◌, ◌≤◌, ◌≡◌, ◌≢◌, ◌⊎◌, inl, inr, refl, ◌∙◌, Bool, true, false, List, [], ◌∷◌, ◌++◌, map,
  Option, none, some, arith,
}
use rabbitmq_cxx.Base.Int.{pos}
use rabbitmq_cxx.Amqp.{Call, Trace, Library, Entries, print_error}
use rabbitmq_cxx.Exceptions.{Exception, foreign, what}
use rabbitmq_cxx.Effect.{Outcome, done, throws}
use rabbitmq_cxx.Duration.{seconds}
use rabbitmq_cxx.Connection.{Connection}
use rabbitmq_cxx.Connection.Consume.Loop.{consume_envelope_for}
use rabbitmq_cxx.Channel.{Channel}
use rabbitmq_cxx.Consumer.{Worker, System}
use rabbitmq_cxx.Consumer.Steps.{Step, init, Reachable}
use rabbitmq_cxx.Consumer.Scope.{Settings, acknowledge_front}
use rabbitmq_cxx.Consumer.Scope.Arrivals.{messages_of, arrivals_in, ids_of}
use rabbitmq_cxx.Consumer.Scope.Joining.{joining, within, closing}
use rabbitmq_cxx.Consumer.Scope.Others.{sent_ids}
use rabbitmq_cxx.Consumer.Scope.Refines.{front_of, after_poll, after_ack}
use rabbitmq_cxx.Consumer.Scope.Sent.{acks_in}

-- What the handler catches.
abbrev pub IsCaught : Exception → Type 0
IsCaught (foreign n) = ⊥
IsCaught _ = Unit

-- Where the worker makes no calls of the headers.
abbrev pub IsInternal : Worker → Type 0
IsInternal Worker.outer = Unit
IsInternal Worker.failed = Unit
IsInternal Worker.clearing_messages = Unit
IsInternal Worker.cleared = Unit
IsInternal Worker.clearing_acks = Unit
IsInternal _ = ⊥

-- A step of another thread, or of the worker without calls of the headers.
abbrev pub IsQuiet : System → System → Type 0
IsQuiet s t = (t.worker ≡ s.worker) ⊎ IsInternal s.worker

-- The calls with what the handler writes: cerr << ex.what() << endl
abbrev pub reported : Exception → Trace → Trace
reported e h = print_error (what e) ∷ h

module _ (fuel : ℕ) (settings : Settings) (arg : Entries) (lib : Library) (n : ℕ) where
  -- The states, the connection and the channel that there are, and the calls made so far, from the
  -- beginning of the program with `n` processing threads.
  pub data Executes : System → Option (Connection × Channel) → Trace → Type 0 where
    begin : Executes (init n) none []
    quiet :
        {s t : System} {a : Option (Connection × Channel)} {h : Trace}
        → Executes s a h
        → Step s t
        → IsQuiet s t
        → Executes t a h
    joined :
        {s : System} {h : Trace} (c : Connection) (ch : Channel) (d : Trace)
        → Executes s none h
        → s.worker ≡ Worker.connecting
        → joining settings arg lib h ≡ (done (c, ch), d ++ h)
        → Executes
            (record s { worker = Worker.inner; session = suc s.session })
            (some (c, ch))
            (d ++ h)
    join_failed :
        {s : System} {h : Trace} (e : Exception) (d : Trace)
        → Executes s none h
        → s.worker ≡ Worker.connecting
        → joining settings arg lib h ≡ (throws e, d ++ h)
        → IsCaught e
        → Executes (record s { worker = Worker.failed }) none (reported e (d ++ h))
    consumed :
        {s : System} {h : Trace} (c : Connection) (ch : Channel) (b : Bool) (d : Trace)
        → Executes s (some (c, ch)) h
        → s.worker ≡ Worker.inner
        → s.consumer.run ≡ true
        → within c ch (consume_envelope_for fuel c seconds (pos 0)) lib h ≡ (done (some b), d ++ h)
        → Executes (after_poll s (messages_of s.session d)) (some (c, ch)) (d ++ h)
    consume_failed :
        {s : System} {h : Trace} (c : Connection) (ch : Channel) (e : Exception) (d : Trace)
        → Executes s (some (c, ch)) h
        → s.worker ≡ Worker.inner
        → s.consumer.run ≡ true
        → within c ch (consume_envelope_for fuel c seconds (pos 0)) lib h ≡ (throws e, d ++ h)
        → IsCaught e
        → Executes (record s { worker = Worker.failed }) none (reported e (d ++ h))
    acked :
        {s : System} {h : Trace} (c : Connection) (ch : Channel) (d : Trace)
        → Executes s (some (c, ch)) h
        → s.worker ≡ Worker.polled
        → s.ack_mtx ≡ false
        → within c ch (acknowledge_front ch (front_of s.consumer.ack_queue)) lib h
          ≡ (done tt, d ++ h)
        → Executes (after_ack s) (some (c, ch)) (d ++ h)
    ack_failed :
        {s : System} {h : Trace} (c : Connection) (ch : Channel) (e : Exception) (d : Trace)
        → Executes s (some (c, ch)) h
        → s.worker ≡ Worker.polled
        → s.ack_mtx ≡ false
        → within c ch (acknowledge_front ch (front_of s.consumer.ack_queue)) lib h
          ≡ (throws e, d ++ h)
        → IsCaught e
        → Executes (record s { worker = Worker.failed; ack_mtx = false }) none (reported e (d ++ h))
    closed :
        {s : System} {h : Trace} (c : Connection) (ch : Channel) (d : Trace)
        → Executes s (some (c, ch)) h
        → s.worker ≡ Worker.inner
        → s.consumer.run ≡ false
        → closing c ch tt lib h ≡ (done tt, d ++ h)
        → Executes (record s { worker = Worker.outer }) none (d ++ h)

-- ===== src/Consumer/Scope/Runs.antt =====
-- The worker of examples/advconsumer.cpp and the processing threads together, for as long as one
-- connection lasts and no exception is caught: the worker makes the calls of the headers, and the other
-- threads take their steps.
use mathlib.Core.List.{append-nil, append_assoc}
use rabbitmq_cxx.Base.{ℕ, ◌≡◌, refl, ◌∙◌, Bool, true, false, [], ◌++◌, some}
use rabbitmq_cxx.Base.Int.{pos}
use mathlib.Core.Path.{sym}
use rabbitmq_cxx.Amqp.{Trace, Library}
use rabbitmq_cxx.Effect.{done}
use rabbitmq_cxx.Duration.{seconds}
use rabbitmq_cxx.Connection.{Connection}
use rabbitmq_cxx.Connection.Consume.Loop.{consume_envelope_for}
use rabbitmq_cxx.Channel.{Channel}
use rabbitmq_cxx.Consumer.{Worker, System}
use rabbitmq_cxx.Consumer.Order.{waiting}
use rabbitmq_cxx.Consumer.Steps.{Steps, Steps-trans, here, next}
use rabbitmq_cxx.Consumer.Scope.{acknowledge_front}
use rabbitmq_cxx.Consumer.Scope.Arrivals.{messages_of, messages_of-append}
use rabbitmq_cxx.Consumer.Scope.Sent.{acks_in, ids, acks_in-append}
use rabbitmq_cxx.Consumer.Scope.Others.{waiting-append, sent_ids, sent_ids-ack, IsOther, others}
use rabbitmq_cxx.Consumer.Scope.Halves.{consumed-IsBrief, consumed-none, acked-none, acked-ids}
use rabbitmq_cxx.Consumer.Scope.Refines.{front_of, after_poll, after_ack, polls, acks}

module _ (fuel : ℕ) (c : Connection) (ch : Channel) (lib : Library) (s₀ : System) (h₀ : Trace) where
  -- The states and the calls made so far, from a state and calls on. Between consumeEnvelope and the
  -- acknowledgement, and between rounds, other threads can come in.
  pub data Runs : System → Trace → Type 0 where
    begin : Runs s₀ h₀
    other : {s t : System} {h : Trace} → Runs s h → IsOther s t → Runs t h
    consumed :
        {s : System} {h : Trace} (b : Bool) (d : Trace)
        → Runs s h
        → s.worker ≡ Worker.inner
        → s.consumer.run ≡ true
        → consume_envelope_for fuel c seconds (pos 0) lib h ≡ (done (some b), d ++ h)
        → Runs (after_poll s (messages_of s.session d)) (d ++ h)
    acked :
        {s : System} {h : Trace} (d : Trace)
        → Runs s h
        → s.worker ≡ Worker.polled
        → s.ack_mtx ≡ false
        → acknowledge_front ch (front_of s.consumer.ack_queue) lib h ≡ (done tt, d ++ h)
        → Runs (after_ack s) (d ++ h)

  -- The calls since the beginning, with what they handed over and acknowledged.
  abbrev pub Told : System → Trace → Type 0
  Told s h =
      (d : Trace) × (h ≡ d ++ h₀)
      × (waiting s.consumer.messages s.taken
          ≡ waiting (messages_of s₀.session d) (waiting s₀.consumer.messages s₀.taken))
      × (sent_ids s ≡ acks_in d ++ sent_ids s₀)

  -- What is known along the way.
  record Follows (s : System) (h : Trace) : Type 0 where
    steps : Steps s₀ s
    session : s.session ≡ s₀.session
    calls : Told s h

  Runs-Follows : {s : System} {h : Trace} → Runs s h → Follows s h
  Runs-Follows begin = record {
    steps = here;
    session = refl;
    calls = ([], refl, unfold messages_of in refl, unfold acks_in in refl);
  }
  Runs-Follows (other r (st, same)) =
      let f = Runs-Follows r in
      let (d, e, w, a) = f.calls in
      let (n, m, k) = others st same in
      record { steps = next f.steps st; session = n ∙ f.session; calls = (d, e, m ∙ w, k ∙ a) }
  Runs-Follows (consumed {s} {h} b d r w on e) =
      let f = Runs-Follows r in
      let (d', e', same, a) = f.calls in
      record {
        steps =
            Steps-trans f.steps (polls s w on _ (consumed-IsBrief fuel c ch lib s.session b d h e));
        session = f.session;
        calls = (
          d ++ d',
          rw (e', append_assoc d d' h₀) refl,
          rw
              (
                f.session,
                messages_of-append s₀.session d d',
                waiting-append s.consumer.messages (messages_of s₀.session d) s.taken,
                waiting-append (messages_of s₀.session d') (messages_of s₀.session d)
                    (waiting s₀.consumer.messages s₀.taken),
                same,
              )
              refl,
          rw (acks_in-append d d', consumed-none fuel c ch lib _ d h e) a,
        );
      }
  Runs-Follows (acked {s} {h} d r w free e) =
      let f = Runs-Follows r in
      let (d', e', same, a) = f.calls in
      let front = front_of s.consumer.ack_queue in
      record {
        steps = Steps-trans f.steps (acks s w free);
        session = f.session;
        calls = (
          d ++ d',
          rw (e', append_assoc d d' h₀) refl,
          rw
              (
                messages_of-append s₀.session d d',
                acked-none ch lib s₀.session _ d h e,
                append-nil (messages_of s₀.session d'),
              )
              same,
          rw (acks_in-append d d', acked-ids ch lib front d h e, sent_ids-ack s, a)
              (sym (append_assoc (ids front) (acks_in d') (sent_ids s₀))),
        );
      }

  -- While no exception is caught, and other threads come in between the worker's calls of the headers
  -- as they like, the worker and these threads follow the steps of the program. What the processing
  -- threads take, followed by what waits for them, is what it was, followed by the messages of
  -- exactly the envelopes that the callback is called with, in the order of these calls; and the tags
  -- that count as acknowledged are those that were, followed by those of the calls of basic.ack, in
  -- their order.
  pub Runs-waiting : {s : System} {h : Trace} → Runs s h → Steps s₀ s × Told s h
  Runs-waiting r = let f = Runs-Follows r in (f.steps, f.calls)

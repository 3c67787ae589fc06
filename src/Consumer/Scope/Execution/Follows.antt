-- ===== src/Consumer/Scope/Execution/Follows.antt =====
-- The whole program of examples/advconsumer.cpp, in calls of the headers, against its steps.
use mathlib.Core.List.{map-append}
use rabbitmq_cxx.Base.{ℕ, ◌+◌, Bool, ◌≡◌, ◌≢◌, refl, ◌∙◌, ◌++◌, Option, none, some, arith}
use rabbitmq_cxx.Base.Int.{pos}
use rabbitmq_cxx.Amqp.{Call, Trace, Library, Entries}
use rabbitmq_cxx.Exceptions.{Exception, foreign}
use rabbitmq_cxx.Effect.{Outcome, done, throws}
use rabbitmq_cxx.Effect.Calls.{count, Adds}
use rabbitmq_cxx.Duration.{seconds}
use rabbitmq_cxx.Connection.{Connection}
use rabbitmq_cxx.Connection.Consume.Loop.{consume_envelope_for}
use rabbitmq_cxx.Connection.Consume.Loop.Once.{consume_envelope_for-CallsOnce}
use rabbitmq_cxx.Connection.Consume.Reports.{Threw}
use rabbitmq_cxx.Connection.Consume.Reports.Callbacks.{is_on_envelope}
use rabbitmq_cxx.Channel.{Channel}
use rabbitmq_cxx.Consumer.{Tag, System}
use rabbitmq_cxx.Consumer.Steps.{Step, here, next, Steps-trans, Reachable}
use rabbitmq_cxx.Consumer.Scope.{Settings, acknowledge_front}
use rabbitmq_cxx.Consumer.Scope.Acks.{is_basic_ack, asked, is_basic_ack-Acks}
use rabbitmq_cxx.Consumer.Scope.Arrivals.{
  messages_of, arrivals_in-append, tags_of, messages_of-arrivals,
}
use rabbitmq_cxx.Consumer.Scope.Beside.{acknowledge_front-Adds}
use rabbitmq_cxx.Consumer.Scope.Kinds.{is_on_envelope-IsBeside}
use rabbitmq_cxx.Consumer.Scope.Execution.{
  IsCaught, Executes, begin, quiet, joined, join_failed, consumed, consume_failed, acked,
  ack_failed, closed,
}
use rabbitmq_cxx.Consumer.Scope.Halves.{consumed-once, consumed-IsBrief, acked-ids}
use rabbitmq_cxx.Consumer.Scope.Joining.{joining, closing, within, within-done, within-throws}
use rabbitmq_cxx.Consumer.Scope.Others.{sent_ids-ack}
use rabbitmq_cxx.Consumer.Scope.Quiet.{
  IsAway, is_on_envelope-IsAway, is_basic_ack-IsAway, joining-Adds, closing-Adds, count-within,
  within-Adds,
}
use rabbitmq_cxx.Consumer.Scope.Refines.{front_of, after_poll, after_ack, polls, acks, ack_breaks}
use rabbitmq_cxx.Consumer.Scope.Rounds.{acknowledge_none}
use rabbitmq_cxx.Consumer.Scope.Sent.{ids, acks_in-append}
use rabbitmq_cxx.Consumer.Scope.Execution.Tells.{
  Tells, calm, silent, sent_before, bound, unseen, refused, bound_acked, start_tells, asked-le,
  both-Sublistᴰ,
}

Threw-caught : (e : Exception) (a b : ℕ) → IsCaught e → Threw e a b → b ≡ a + 0
Threw-caught (foreign n) a b caught t = absurd caught
Threw-caught _ a b caught t = omega (arith, t)

module _ (fuel : ℕ) (lib : Library) (c : Connection) (ch : Channel) where
  failed-none :
      (e : Exception) (d h : Trace)
      → IsCaught e
      → within c ch (consume_envelope_for fuel c seconds (pos 0)) lib h ≡ (throws e, d ++ h)
      → count is_on_envelope (d ++ h) ≡ count is_on_envelope h + 0
  failed-none e d h caught q =
      let m = consume_envelope_for fuel c seconds (pos 0) in
      let calls = consume_envelope_for-CallsOnce fuel c lib h seconds (pos 0) in
      let threw : Threw e (count is_on_envelope h) (count is_on_envelope (m lib h).1) =
        (rw (within-throws c ch m lib h e (d ++ h) q) at calls) in
      let same = count-within is_on_envelope is_on_envelope-IsAway c ch m lib h in
      let same' : count is_on_envelope (d ++ h) ≡ count is_on_envelope (m lib h).1 =
        (rw q at same) in
      same' ∙ Threw-caught e _ _ caught threw

  -- The acknowledgement, with what it adds to a count.
  acked-adds :
      (p : Call → Bool) (k : ℕ) (o : Outcome (Unit {0})) (front : Option ℕ) (d h : Trace)
      → IsAway p
      → Adds p k (acknowledge_front ch front)
      → within c ch (acknowledge_front ch front) lib h ≡ (o, d ++ h)
      → count p (d ++ h) ≡ count p h + k
  acked-adds p k o front d h away a q =
      let adds = (within-Adds p away c ch _ a).at lib h in (rw q at adds)

  consumed-silent :
      (o : Outcome (Option Bool)) (d h : Trace)
      → within c ch (consume_envelope_for fuel c seconds (pos 0)) lib h ≡ (o, d ++ h)
      → count is_basic_ack (d ++ h) ≡ count is_basic_ack h + 0
  consumed-silent o d h q =
      let adds =
        (within-Adds is_basic_ack is_basic_ack-IsAway c ch _
            ((is_basic_ack-Acks ch none).consume fuel c)).at
          lib h in
      (rw q at adds)

  front-some :
      (e : Exception) (front : Option ℕ) (d h : Trace)
      → within c ch (acknowledge_front ch front) lib h ≡ (throws e, d ++ h)
      → front ≢ none
  front-some e front d h q no_front =
      let threw = within-throws c ch (acknowledge_front ch front) lib h e (d ++ h) q in
      let threw' : (acknowledge_front ch none lib h).0 ≡ throws e = (rw no_front at threw) in
      let returned = acknowledge_none ch lib h in cc

away : (front : Option ℕ) (ch : Channel) → Adds is_on_envelope 0 (acknowledge_front ch front)
away front ch = acknowledge_front-Adds is_on_envelope is_on_envelope-IsBeside ch front

asks :
    (front : Option ℕ) (ch : Channel) → Adds is_basic_ack (asked front) (acknowledge_front ch front)
asks front ch = (is_basic_ack-Acks ch front).acknowledge

module _ (fuel : ℕ) (lib : Library) (c : Connection) (ch : Channel) (s : System) where
  consumed-tells :
      (b : Bool) (d h : Trace)
      → within c ch (consume_envelope_for fuel c seconds (pos 0)) lib h ≡ (done (some b), d ++ h)
      → Tells s h
      → Tells (after_poll s (messages_of s.session d)) (d ++ h)
  consumed-tells b d h e (arrived, sent, le) =
      let e' = within-done c ch _ lib h (some b) (d ++ h) e in
      (
        rw
            (
              map-append (λ (t : Tag). t.id) (tags_of (messages_of s.session d)) s.delivered,
              messages_of-arrivals s.session d (consumed-once fuel c ch lib b d h e'),
              arrivals_in-append d h,
              arrived,
            )
            refl,
        sent_before s d h sent,
        bound _ d h (consumed-silent fuel lib c ch _ d h e) le,
      )

  acked-tells :
      (d h : Trace)
      → within c ch (acknowledge_front ch (front_of s.consumer.ack_queue)) lib h ≡ (done tt, d ++ h)
      → Tells s h
      → Tells (after_ack s) (d ++ h)
  acked-tells d h e (arrived, sent, le) =
      let front = front_of s.consumer.ack_queue in
      let e' = within-done c ch _ lib h tt (d ++ h) e in
      (
        silent s d h
            (acked-adds fuel lib c ch _ 0 _ front d h is_on_envelope-IsAway (away front ch) e)
            arrived,
        rw (sent_ids-ack s, acks_in-append d h, acked-ids ch lib front d h e')
            (both-Sublistᴰ (ids front) sent),
        bound_acked s.session s.consumer.ack_queue s.acknowledged d h
            (acked-adds fuel lib c ch _ _ _ front d h is_basic_ack-IsAway (asks front ch) e) le,
      )

module _ (fuel : ℕ) (settings : Settings) (arg : Entries) (lib : Library) (n : ℕ) where
  joining-adds :
      (p : Call → Bool) (o : Outcome (Connection × Channel)) (d h : Trace)
      → IsAway p
      → joining settings arg lib h ≡ (o, d ++ h)
      → count p (d ++ h) ≡ count p h + 0
  joining-adds p o d h away q =
      let adds = (joining-Adds p away settings arg).at lib h in (rw q at adds)

  closing-adds :
      (p : Call → Bool) (c : Connection) (ch : Channel) (d h : Trace)
      → IsAway p
      → closing c ch tt lib h ≡ (done tt, d ++ h)
      → count p (d ++ h) ≡ count p h + 0
  closing-adds p c ch d h away q =
      let adds = (closing-Adds p away c ch tt).at lib h in (rw q at adds)

  -- However other threads come in between, and however many exceptions of the library the worker
  -- catches, the program follows the steps from its beginning. The tags that count as arrived are
  -- those of the envelopes that the callback is called with, in their order, over all connections.
  -- The tags that count as acknowledged are in the calls of basic.ack in their order, and there are at
  -- most as many more of these calls as exceptions that the handler reports.
  pub execution-follows :
      {s : System} {a : Option (Connection × Channel)} {h : Trace}
      → Executes fuel settings arg lib n s a h
      → Reachable n s × Tells s h
  execution-follows begin = (here, start_tells n)
  execution-follows (quiet r st q) =
      let (steps, tells) = execution-follows r in
      let (e, e') = calm st q in (next steps st, rw (e, e') tells)
  execution-follows (joined {s} {h} c ch d r w e) =
      let (steps, tells) = execution-follows r in
      (
        next steps (Step.connect w),
        unseen s d h (joining-adds is_on_envelope _ d h is_on_envelope-IsAway e)
            (joining-adds is_basic_ack _ d h is_basic_ack-IsAway e) tells,
      )
  execution-follows (join_failed {s} {h} x d r w e caught) =
      let (steps, tells) = execution-follows r in
      (
        next steps (Step.connect_fails w),
        refused s 0 x d h (joining-adds is_on_envelope _ d h is_on_envelope-IsAway e)
            (joining-adds is_basic_ack _ d h is_basic_ack-IsAway e) (omega arith) tells,
      )
  execution-follows (consumed {s} {h} c ch b d r w on e) =
      let (steps, tells) = execution-follows r in
      let e' = within-done c ch _ lib h (some b) (d ++ h) e in
      (
        Steps-trans steps (polls s w on _ (consumed-IsBrief fuel c ch lib s.session b d h e')),
        consumed-tells fuel lib c ch s b d h e tells,
      )
  execution-follows (consume_failed {s} {h} c ch x d r w on e caught) =
      let (steps, tells) = execution-follows r in
      (
        next (next steps (Step.poll w on)) (Step.poll_fails refl),
        refused s 0 x d h (failed-none fuel lib c ch x d h caught e)
            (consumed-silent fuel lib c ch _ d h e) (omega arith) tells,
      )
  execution-follows (acked {s} {h} c ch d r w free e) =
      let (steps, tells) = execution-follows r in
      (Steps-trans steps (acks s w free), acked-tells fuel lib c ch s d h e tells)
  execution-follows (ack_failed {s} {h} c ch x d r w free e caught) =
      let (steps, tells) = execution-follows r in
      let front = front_of s.consumer.ack_queue in
      (
        Steps-trans steps (ack_breaks s w free (front-some fuel lib c ch x front d h e)),
        refused s _ x d h
            (acked-adds fuel lib c ch _ 0 _ front d h is_on_envelope-IsAway (away front ch) e)
            (acked-adds fuel lib c ch _ _ _ front d h is_basic_ack-IsAway (asks front ch) e)
            (asked-le front) tells,
      )
  execution-follows (closed {s} {h} c ch d r w off e) =
      let (steps, tells) = execution-follows r in
      (
        next steps (Step.quit w off),
        unseen s d h (closing-adds is_on_envelope c ch d h is_on_envelope-IsAway e)
            (closing-adds is_basic_ack c ch d h is_basic_ack-IsAway e) tells,
      )

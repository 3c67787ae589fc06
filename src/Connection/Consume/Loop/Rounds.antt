-- ===== src/Connection/Consume/Loop/Rounds.antt =====
-- Calls of a round of the timed loops in include/rmqcxx/Connection.hpp, and of the whole loop.
use rabbitmq_cxx.Base.{ℕ, zero, suc, ◌≡◌, Bool, false, Option, none, arith}
use rabbitmq_cxx.Base.Int.{ℤ}
use rabbitmq_cxx.Amqp.{
  Call, Reply, ReplyType, RawEnvelope, RawMessage, Return, Ack, on_returned_message, on_acknowledge,
  Timeval, clock_now, consume_message, destroy_envelope, on_envelope, maybe_release_buffers,
}
use rabbitmq_cxx.Effect.{perform}
use rabbitmq_cxx.Effect.Calls.{
  Adds, count, adds_rules, Adds-bind, Adds-pure, Adds-perform, Adds-defer_none, Adds-notify,
  Adds-choose,
}
use rabbitmq_cxx.Effect.Pays.{Adds-bind_last}
use rabbitmq_cxx.Effect.Survives.{Survives, Returns-perform, survives_rules}
use rabbitmq_cxx.Duration.{Period}
use rabbitmq_cxx.AmqpStruct.{AmqpStruct, destruct_envelope}
use rabbitmq_cxx.Connection.{Connection}
use rabbitmq_cxx.Connection.Consume.{
  Closures, run, unhandled_reply, deliver, switch_consumed, receive, consume_impl, consume_for,
}
use rabbitmq_cxx.Connection.Consume.Callers.{only_envelope, only_returned, only_acknowledge, ignore}
use rabbitmq_cxx.Connection.Consume.Cleanup.{consume_impl-Survives}
use rabbitmq_cxx.Connection.Consume.Counting.{IsApart, LeavesAll, finish-Adds, switch_error-Adds}
use rabbitmq_cxx.Connection.Consume.Loop.{timed_loop, consume_timed}

module _ (p : Call → Bool) (apart : IsApart p)
    (destroyed : (e : RawEnvelope) → p (destroy_envelope e) ≡ false)
    (released : (s : ℕ) → p (maybe_release_buffers s) ≡ false) (hs : Closures)
    (leaves : LeavesAll p hs) where
  destruct_envelope-Adds : (e : AmqpStruct RawEnvelope) → Adds p 0 (destruct_envelope e)
  unfolding destruct_envelope
  destruct_envelope-Adds e = search (adds_rules, destroyed)

  module _ (c : Connection) where
    deliver-Adds : (e : AmqpStruct RawEnvelope) → Adds p 0 (deliver c hs e)
    unfolding deliver
    deliver-Adds e =
        Adds-choose _ _ _ (λ _. search (adds_rules, destruct_envelope-Adds))
          (λ _.
            Adds-bind _ _ (leaves.envelope e.memory)
              λ d. Adds-bind _ _ (destruct_envelope-Adds _) λ u. finish-Adds p apart d)

    switch_consumed-Adds :
        (tv : Option Timeval) (start : ℤ) (e : AmqpStruct RawEnvelope) (r : Reply) (t : ReplyType)
        → Adds p 0 (switch_consumed c hs tv start e r t)
    unfolding switch_consumed unhandled_reply
    switch_consumed-Adds tv start e r ReplyType.normal = deliver-Adds e
    switch_consumed-Adds tv start e r ReplyType.library_exception =
        Adds-defer_none _ _ (destruct_envelope-Adds e)
          (switch_error-Adds p apart c hs leaves.frames tv start r r.library_error)
    switch_consumed-Adds tv start e r _ =
        Adds-defer_none _ _ (destruct_envelope-Adds e) (search adds_rules)

  module _ {n : ℕ}
      (asked : (s : ℕ) (tv : Option Timeval) → Adds p n (perform (consume_message s tv)))
      (c : Connection) where
    receive-Adds : (tv : Option Timeval) → Adds p n (receive c hs tv)
    unfolding receive
    receive-Adds tv =
        Adds-bind_last (perform clock_now) _ (Adds-perform clock_now apart.clock)
          (Returns-perform clock_now)
          λ start.
            Adds-bind (perform (consume_message c.state tv)) _ (asked c.state tv)
              λ got. switch_consumed-Adds c tv start _ got.0 got.0.reply_type

    pub consume_for-Adds : (q : Period) (d : ℤ) → Adds p n (consume_for c hs q d)
    unfolding consume_for consume_impl
    consume_for-Adds q d =
        Adds-defer_none _ _ (Adds-notify (maybe_release_buffers c.state) (released c.state))
          (receive-Adds _)

  -- What no call of a round is, no call of the loop is.
  module _ (asked : (s : ℕ) (tv : Option Timeval) → p (consume_message s tv) ≡ false)
      (c : Connection) where
    round-Adds : (q : Period) (d : ℤ) → Adds p 0 (consume_for c hs q d)
    round-Adds = consume_for-Adds (λ s tv. Adds-perform (consume_message s tv) (asked s tv)) c

    timed_loop-Adds : (fuel : ℕ) (start timeout : ℤ) → Adds p 0 (timed_loop fuel c hs start timeout)
    unfolding timed_loop
    timed_loop-Adds zero start timeout = Adds-pure none
    timed_loop-Adds (suc fuel) start timeout =
        search (adds_rules, apart.clock, round-Adds, timed_loop-Adds fuel) depth 8

    pub consume_timed-Adds :
        (fuel : ℕ) (q : Period) (timeout : ℤ) → Adds p 0 (consume_timed fuel c hs q timeout)
    unfolding consume_timed
    consume_timed-Adds fuel q timeout = search (adds_rules, apart.clock, timed_loop-Adds)

timed_loop-Survives :
    (fuel : ℕ) (c : Connection) (hs : Closures) (start timeout : ℤ)
    → Survives (timed_loop fuel c hs start timeout)
unfolding timed_loop consume_for
timed_loop-Survives zero c hs start timeout = search survives_rules
timed_loop-Survives (suc fuel) c hs start timeout =
    search (survives_rules, consume_impl-Survives, timed_loop-Survives fuel c hs) depth 8

-- A timed loop does not end the program.
pub consume_timed-Survives :
    (fuel : ℕ) (c : Connection) (hs : Closures) (q : Period) (timeout : ℤ)
    → Survives (consume_timed fuel c hs q timeout)
unfolding consume_timed
consume_timed-Survives fuel c hs q timeout = search (survives_rules, timed_loop-Survives)

pub ignore-Adds : (p : Call → Bool) → Adds p 0 (run ignore)
unfolding run
ignore-Adds p = record { at = λ lib h. omega arith }

module _ (p : Call → Bool) where
  pub only_envelope-LeavesAll :
      ((e : RawEnvelope) → p (on_envelope e) ≡ false) → LeavesAll p only_envelope
  unfolding run count
  only_envelope-LeavesAll called = record {
    envelope = λ e. record { at = λ lib h. rw (called e) (omega arith) };
    frames = record { returned = λ m r. ignore-Adds p; acknowledge = λ a. ignore-Adds p };
  }

  pub only_returned-LeavesAll :
      ((m : RawMessage) (r : Return) → p (on_returned_message m r) ≡ false)
      → LeavesAll p only_returned
  unfolding run count
  only_returned-LeavesAll called = record {
    envelope = λ e. ignore-Adds p;
    frames = record {
      returned = λ m r. record { at = λ lib h. rw (called m r) (omega arith) };
      acknowledge = λ a. ignore-Adds p;
    };
  }

  pub only_acknowledge-LeavesAll :
      ((a : Ack) → p (on_acknowledge a) ≡ false) → LeavesAll p only_acknowledge
  unfolding run count
  only_acknowledge-LeavesAll called = record {
    envelope = λ e. ignore-Adds p;
    frames = record {
      returned = λ m r. ignore-Adds p;
      acknowledge = λ a. record { at = λ lib h. rw (called a) (omega arith) };
    };
  }

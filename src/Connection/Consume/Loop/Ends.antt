-- ===== src/Connection/Consume/Loop/Ends.antt =====
-- When the timed loop of include/rmqcxx/Connection.hpp ends, and the fuel that is enough for it.
use rabbitmq_cxx.Base.{
  ℕ, zero, suc, ◌+◌, ◌≤◌, ◌<◌, ◌≡◌, ◌≢◌, refl, Bool, true, false, not, ◌&&◌, Option, none, some,
  ◌∷◌, arith,
}
use rabbitmq_cxx.Base.Int.{ℤ}
use rabbitmq_cxx.Amqp.{
  Call, Trace, Library, Status, Reply, ReplyType, RawEnvelope, Timeval, clock_now, consume_message,
}
use rabbitmq_cxx.Effect.{
  Effect, Outcome, done, throws, terminated, pure, ◌>>=◌, perform, notify, choose, continue, defer,
}
use rabbitmq_cxx.Effect.Calls.{Adds, count, Adds-perform_one}
use rabbitmq_cxx.Duration.{Period, nanoseconds, duration_cast, time_value}
use rabbitmq_cxx.AmqpStruct.{AmqpStruct}
use rabbitmq_cxx.Connection.{Connection}
use rabbitmq_cxx.Connection.Consume.{
  Closures, Consumed, timed_out, switch_error, switch_consumed, receive, consume_impl, consume_for,
}
use rabbitmq_cxx.Connection.Consume.Callers.{only_envelope, only_returned, only_acknowledge}
use rabbitmq_cxx.Connection.Consume.Cleanup.{destruct_envelope-Returns}
use rabbitmq_cxx.Connection.Consume.Counting.{IsApart, LeavesAll}
use rabbitmq_cxx.Connection.Consume.Loop.Rounds.{
  consume_for-Adds, only_envelope-LeavesAll, only_returned-LeavesAll, only_acknowledge-LeavesAll,
}
use rabbitmq_cxx.Connection.Consume.Loop.{
  next_timeout, timed_loop, consume_timed, consume_envelope_for, consume_returned_message_for,
  consume_acknowledge_for,
}

abbrev pub is_consume : Call → Bool
is_consume (consume_message s tv) = true
is_consume _ = false

-- From the n-th call on, nothing arrives: amqp_consume_message reports AMQP_STATUS_TIMEOUT.
pub record DriesUp (lib : Library) (n : ℕ) : Type 0 where
  pub type :
      (h : Trace) (s : ℕ) (tv : Option Timeval)
      → n ≤ count is_consume h
      → (lib.answer h (consume_message s tv)).0.reply_type ≡ ReplyType.library_exception
  pub error :
      (h : Trace) (s : ℕ) (tv : Option Timeval)
      → n ≤ count is_consume h
      → (lib.answer h (consume_message s tv)).0.library_error ≡ Status.timeout

pub is_consume-IsApart : IsApart is_consume
is_consume-IsApart = record {
  description = record { description = λ s. refl; name = λ m. refl };
  clock = refl;
  wait = λ s tv. refl;
  read = λ s n. refl;
  message = λ m. refl;
}

-- An outcome after which there is no other round.
abbrev pub Stops : Outcome Consumed → Type 0
Stops (done r) = r.result && not r.flagged ≡ false
Stops _ = Unit

stop_ends :
    (rest : Effect (Option Bool)) (lib : Library) (o : Outcome Consumed) (t : Trace)
    → Stops o
    → let k = λ (r : Consumed). choose (r.result && not r.flagged) rest (pure (some r.result)) in
      (continue o k lib t).0 ≢ done none
unfolding choose pure
stop_ends rest lib (done r) t e = rw e λ q. cc
stop_ends rest lib (throws x) t e = λ q. cc
stop_ends rest lib terminated t e = λ q. cc

-- A round after which the rest ends as well.
round_ends :
    (rest : Effect (Option Bool)) (lib : Library) (o : Outcome Consumed) (t : Trace)
    → (rest lib t).0 ≢ done none
    → let k = λ (r : Consumed). choose (r.result && not r.flagged) rest (pure (some r.result)) in
      (continue o k lib t).0 ≢ done none
unfolding choose pure
round_ends rest lib (done r) t ends = go (r.result && not r.flagged)
  where
    go : (b : Bool) → (choose b rest (pure (some r.result)) lib t).0 ≢ done none
    go true = ends
    go false = λ q. cc
round_ends rest lib (throws x) t ends = λ q. cc
round_ends rest lib terminated t ends = λ q. cc

module _ (hs : Closures) (leaves : LeavesAll is_consume hs) where
  -- A round makes one call of amqp_consume_message.
  pub round-Adds : (c : Connection) (p : Period) (d : ℤ) → Adds is_consume 1 (consume_for c hs p d)
  round-Adds =
      consume_for-Adds is_consume is_consume-IsApart (λ e. refl) (λ s. refl) hs leaves
        (λ s tv. Adds-perform_one (consume_message s tv) refl)

  timed_out-switch :
      (c : Connection) (tv : Option Timeval) (start : ℤ) (e : AmqpStruct RawEnvelope) (r : Reply)
      (lib : Library) (h : Trace)
      → r.reply_type ≡ ReplyType.library_exception
      → r.library_error ≡ Status.timeout
      → (switch_consumed c hs tv start e r r.reply_type lib h).0 ≡ done timed_out
  unfolding switch_consumed switch_error defer pure
  timed_out-switch c tv start e r lib h et ee =
      let (u, q) = (destruct_envelope-Returns e).at lib h in rw (et, ee, q) refl

  timed_out-consume_for :
      (c : Connection) (p : Period) (d : ℤ) (lib : Library) (n : ℕ) (h : Trace)
      → DriesUp lib n
      → n ≤ count is_consume h
      → (consume_for c hs p d lib h).0 ≡ done timed_out
  unfolding consume_for consume_impl receive defer notify ◌>>=◌ perform count
  timed_out-consume_for c p d lib n h dry le =
      let tv : Option Timeval = some (time_value p d) in
      rw
        (timed_out-switch c tv (lib.answer h clock_now) _
          (lib.answer (clock_now ∷ h) (consume_message c.state tv)).0 lib _
          (dry.type (clock_now ∷ h) c.state tv le) (dry.error (clock_now ∷ h) c.state tv le))
        refl

  -- From the n-th call on, a round is the last one.
  module _ (lib : Library) (n : ℕ) (c : Connection)
      (stops : (p : Period) (d : ℤ) (h : Trace)
        → n ≤ count is_consume h
        → Stops (consume_for c hs p d lib h).0) where
    timed_loop-ends :
        (fuel : ℕ) (start timeout : ℤ) (h : Trace)
        → n < suc fuel + count is_consume h
        → (timed_loop (suc fuel) c hs start timeout lib h).0 ≢ done none
    unfolding timed_loop ◌>>=◌ perform count
    timed_loop-ends zero start timeout h lt =
        let left : ℤ = next_timeout start (lib.answer h clock_now) timeout in
        stop_ends _ lib (consume_for c hs nanoseconds left lib (clock_now ∷ h)).0 _
          (stops nanoseconds left (clock_now ∷ h) (omega arith))
    timed_loop-ends (suc fuel) start timeout h lt =
        let left : ℤ = next_timeout start (lib.answer h clock_now) timeout in
        let t : Trace = clock_now ∷ h in
        let added : count is_consume (consume_for c hs nanoseconds left lib t).1
            ≡ count is_consume h + 1 =
          (round-Adds c nanoseconds left).at lib t in
        round_ends _ lib (consume_for c hs nanoseconds left lib t).0 _
          (timed_loop-ends fuel start left _ (omega arith))

    pub stopped-ends :
        (fuel : ℕ) (p : Period) (timeout : ℤ) (h : Trace)
        → n < suc fuel + count is_consume h
        → (consume_timed (suc fuel) c hs p timeout lib h).0 ≢ done none
    unfolding consume_timed ◌>>=◌ perform count
    stopped-ends fuel p timeout h lt =
        timed_loop-ends fuel (lib.answer h clock_now) (duration_cast p nanoseconds timeout)
          (clock_now ∷ h) lt

  dry-Stops :
      (lib : Library) (n : ℕ) (c : Connection)
      → DriesUp lib n
      → (p : Period) (d : ℤ) (h : Trace) → n ≤ count is_consume h
      → Stops (consume_for c hs p d lib h).0
  dry-Stops lib n c dry p d h le = rw (timed_out-consume_for c p d lib n h dry le) refl

  consume_timed-ends :
      (fuel : ℕ) (c : Connection) (p : Period) (timeout : ℤ) (lib : Library) (n : ℕ) (h : Trace)
      → DriesUp lib n
      → n < suc fuel + count is_consume h
      → (consume_timed (suc fuel) c hs p timeout lib h).0 ≢ done none
  consume_timed-ends fuel c p timeout lib n h dry lt =
      stopped-ends lib n c (dry-Stops lib n c dry) fuel p timeout h lt

module _ (fuel : ℕ) (c : Connection) (p : Period) (timeout : ℤ) (lib : Library) (n : ℕ) (h : Trace)
    (dry : DriesUp lib n) (enough : n < suc fuel + count is_consume h) where
  -- If nothing arrives any more from some call on, a fuel of one round more than the calls up to
  -- there is enough: consumeEnvelope comes to its end, whatever its timeout and whatever the clock
  -- does.
  pub consume_envelope_for-ends : (consume_envelope_for (suc fuel) c p timeout lib h).0 ≢ done none
  unfolding consume_envelope_for
  consume_envelope_for-ends =
      consume_timed-ends only_envelope (only_envelope-LeavesAll is_consume (λ e. refl)) fuel c p
        timeout lib n h dry enough

  -- If nothing arrives any more from some call on, a fuel of one round more than the calls up to
  -- there is enough: the timed consumeEnvelope, consumeReturnedMessage and consumeAcknowledge come to
  -- their end, whatever the timeout and whatever the clock does.
  pub timed-ends :
      ((consume_envelope_for (suc fuel) c p timeout lib h).0 ≢ done none)
      × ((consume_returned_message_for (suc fuel) c p timeout lib h).0 ≢ done none)
      × ((consume_acknowledge_for (suc fuel) c p timeout lib h).0 ≢ done none)
  unfolding consume_returned_message_for consume_acknowledge_for
  timed-ends = (
    consume_envelope_for-ends,
    consume_timed-ends only_returned (only_returned-LeavesAll is_consume (λ m r. refl)) fuel c p
        timeout lib n h dry enough,
    consume_timed-ends only_acknowledge (only_acknowledge-LeavesAll is_consume (λ a. refl)) fuel c p
        timeout lib n h dry enough,
  )

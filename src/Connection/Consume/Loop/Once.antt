-- ===== src/Connection/Consume/Loop/Once.antt =====
-- How often the consume loops of include/rmqcxx/Connection.hpp call their callback.
use mathlib.Core.Path.{subst}
use rabbitmq_cxx.Base.{
  ℕ, zero, suc, ◌+◌, ◌≡◌, refl, Bool, true, false, not, ◌&&◌, Option, none, some, ◌∷◌, arith,
  if◌then◌else◌,
}
use rabbitmq_cxx.Base.Int.{ℤ}
use rabbitmq_cxx.Amqp.{Call, Trace, Library, Timeval, clock_now}
use rabbitmq_cxx.Effect.{
  Effect, Outcome, done, throws, terminated, pure, ◌>>=◌, perform, choose, continue,
}
use rabbitmq_cxx.Effect.Calls.{count}
use rabbitmq_cxx.Duration.{Period, nanoseconds, duration_cast, time_value}
use rabbitmq_cxx.Connection.{Connection}
use rabbitmq_cxx.Connection.Consume.{Closures, Consumed, consume_impl, consume_for, consume}
use rabbitmq_cxx.Connection.Consume.Callers.{only_envelope, only_returned, only_acknowledge}
use rabbitmq_cxx.Connection.Consume.Reports.{Threw, Fits, Reports}
use rabbitmq_cxx.Connection.Consume.Reports.Callbacks.{
  flag_of, is_on_envelope, is_on_returned_message, is_on_acknowledge, only_envelope-Reports,
  only_returned-Reports, only_acknowledge-Reports,
}
use rabbitmq_cxx.Connection.Consume.Loop.{
  next_timeout, timed_loop, blocking_loop, consume_timed, consume_envelope_for, consume_envelope,
  consume_returned_message_for, consume_returned_message, consume_acknowledge_for,
  consume_acknowledge,
}

-- The numbers of calls before and after, by the outcome: one with true, none with false or when the
-- fuel runs out, at most one with an exception of the client's, none with one of the library.
abbrev pub CallsOnce : Outcome (Option Bool) → ℕ → ℕ → Type 0
CallsOnce (done none) a b = b ≡ a
CallsOnce (done (some true)) a b = b ≡ a + 1
CallsOnce (done (some false)) a b = b ≡ a
CallsOnce (throws e) a b = Threw e a b
CallsOnce terminated a b = ⊥

-- The same of a loop that returns nothing.
abbrev pub CallsOne : Outcome (Option (Unit {0})) → ℕ → ℕ → Type 0
CallsOne (done none) a b = b ≡ a
CallsOne (done (some u)) a b = b ≡ a + 1
CallsOne (throws e) a b = Threw e a b
CallsOne terminated a b = ⊥

module _ (p : Call → Bool) (hs : Closures)
    (reports : (c : Connection) (tv : Option Timeval) → Reports p flag_of (consume_impl c hs tv))
    (clock : p clock_now ≡ false) where
  -- One round, whose rest calls once.
  round :
      (rest : Effect (Option Bool)) (lib : Library) (a : ℕ) (o : Outcome Consumed) (t : Trace)
      → ((h : Trace) → CallsOnce (rest lib h).0 (count p h) (count p (rest lib h).1))
      → Fits flag_of o a (count p t)
      → let k = λ (r : Consumed). choose (r.result && not r.flagged) rest (pure (some r.result)) in
        CallsOnce (continue o k lib t).0 a (count p (continue o k lib t).1)
  unfolding choose pure
  round rest lib a (done r) t once f = go r.result r.flagged f.0 f.1
    where
      go :
          (x y : Bool)
          → count p t ≡ a + (if y then 1 else 0)
          → (x ≡ false → y ≡ false)
          → let m = choose (x && not y) rest (pure (some x)) in
            CallsOnce (m lib t).0 a (count p (m lib t).1)
      go true true e u = e
      go true false e u =
          let same : count p t ≡ a = omega (arith, e) in
          subst (λ (n : ℕ). CallsOnce (rest lib t).0 n (count p (rest lib t).1)) same (once t)
      go false true e u = let x = u refl in cc
      go false false e u = omega (arith, e)
  round rest lib a (throws x) t once f = f
  round rest lib a terminated t once f = f

  timed_loop-CallsOnce :
      (fuel : ℕ) (c : Connection) (start timeout : ℤ) (lib : Library) (h : Trace)
      → let r = timed_loop fuel c hs start timeout lib h in CallsOnce r.0 (count p h) (count p r.1)
  unfolding timed_loop ◌>>=◌ perform pure count consume_for
  timed_loop-CallsOnce zero c start timeout lib h = refl
  timed_loop-CallsOnce (suc fuel) c start timeout lib h =
      let left : ℤ = next_timeout start (lib.answer h clock_now) timeout in
      let same : count p (clock_now ∷ h) ≡ count p h = rw clock refl in
      subst
        (λ (n : ℕ).
          let r = timed_loop (suc fuel) c hs start timeout lib h in CallsOnce r.0 n (count p r.1))
        same
        (round _ lib _ _ _ (timed_loop-CallsOnce fuel c start left lib)
          ((reports c (some (time_value nanoseconds left))).at lib (clock_now ∷ h)))

  consume_timed-CallsOnce :
      (fuel : ℕ) (c : Connection) (q : Period) (timeout : ℤ) (lib : Library) (h : Trace)
      → let r = consume_timed fuel c hs q timeout lib h in CallsOnce r.0 (count p h) (count p r.1)
  unfolding consume_timed ◌>>=◌ perform count
  consume_timed-CallsOnce fuel c q timeout lib h =
      let same : count p (clock_now ∷ h) ≡ count p h = rw clock refl in
      subst
        (λ (n : ℕ).
          let r = consume_timed fuel c hs q timeout lib h in CallsOnce r.0 n (count p r.1))
        same
        (timed_loop-CallsOnce fuel c (lib.answer h clock_now) (duration_cast q nanoseconds timeout)
          lib (clock_now ∷ h))

  blocking_round :
      (rest : Effect (Option (Unit {0}))) (lib : Library) (a : ℕ) (o : Outcome Consumed) (t : Trace)
      → ((h : Trace) → CallsOne (rest lib h).0 (count p h) (count p (rest lib h).1))
      → Fits flag_of o a (count p t)
      → let k = λ (r : Consumed). choose r.flagged (pure (some tt)) rest in
        CallsOne (continue o k lib t).0 a (count p (continue o k lib t).1)
  unfolding choose pure
  blocking_round rest lib a (done r) t once f = go r.flagged f.0
    where
      go :
          (y : Bool)
          → count p t ≡ a + (if y then 1 else 0)
          → let m = choose y (pure (some tt)) rest in CallsOne (m lib t).0 a (count p (m lib t).1)
      go true e = e
      go false e =
          let same : count p t ≡ a = omega (arith, e) in
          subst (λ (n : ℕ). CallsOne (rest lib t).0 n (count p (rest lib t).1)) same (once t)
  blocking_round rest lib a (throws x) t once f = f
  blocking_round rest lib a terminated t once f = f

  blocking_loop-CallsOne :
      (fuel : ℕ) (c : Connection) (lib : Library) (h : Trace)
      → let r = blocking_loop fuel c hs lib h in CallsOne r.0 (count p h) (count p r.1)
  unfolding blocking_loop ◌>>=◌ pure consume
  blocking_loop-CallsOne zero c lib h = refl
  blocking_loop-CallsOne (suc fuel) c lib h =
      blocking_round _ lib _ _ _ (blocking_loop-CallsOne fuel c lib) ((reports c none).at lib h)

module _ (fuel : ℕ) (c : Connection) (lib : Library) (h : Trace) where
  -- consumeEnvelope calls its callback exactly once if it returns true, not at all if it returns
  -- false or throws an exception of the library, and at most once if it throws one that comes from
  -- the callback. It never ends the program.
  pub consume_envelope_for-CallsOnce :
      (q : Period) (timeout : ℤ)
      → let r = consume_envelope_for fuel c q timeout lib h in
        CallsOnce r.0 (count is_on_envelope h) (count is_on_envelope r.1)
  unfolding consume_envelope_for
  consume_envelope_for-CallsOnce q timeout =
      consume_timed-CallsOnce is_on_envelope only_envelope only_envelope-Reports refl fuel c q
        timeout lib h

  -- With a timeout, each of consumeEnvelope, consumeReturnedMessage and consumeAcknowledge calls its
  -- callback exactly once if it returns true, not at all if it returns false or throws an exception
  -- of the library, and at most once if it throws one that comes from the callback. None of them
  -- ends the program.
  pub timed-CallsOnce :
      (q : Period) (timeout : ℤ)
      → let e = consume_envelope_for fuel c q timeout lib h in
        let r = consume_returned_message_for fuel c q timeout lib h in
        let a = consume_acknowledge_for fuel c q timeout lib h in
        CallsOnce e.0 (count is_on_envelope h) (count is_on_envelope e.1)
        × CallsOnce r.0 (count is_on_returned_message h) (count is_on_returned_message r.1)
        × CallsOnce a.0 (count is_on_acknowledge h) (count is_on_acknowledge a.1)
  unfolding consume_returned_message_for consume_acknowledge_for
  timed-CallsOnce q timeout = (
    consume_envelope_for-CallsOnce q timeout,
    consume_timed-CallsOnce is_on_returned_message only_returned only_returned-Reports refl fuel c q
        timeout lib h,
    consume_timed-CallsOnce is_on_acknowledge only_acknowledge only_acknowledge-Reports refl fuel c
        q timeout lib h,
  )

  -- Without a timeout, each of the three calls its callback exactly once if it returns, not at all
  -- before its fuel runs out or if it throws an exception of the library, and at most once if it
  -- throws one that comes from the callback. None of them ends the program.
  blocking-CallsOne :
      let e = consume_envelope fuel c lib h in
      let r = consume_returned_message fuel c lib h in
      let a = consume_acknowledge fuel c lib h in
      CallsOne e.0 (count is_on_envelope h) (count is_on_envelope e.1)
      × CallsOne r.0 (count is_on_returned_message h) (count is_on_returned_message r.1)
      × CallsOne a.0 (count is_on_acknowledge h) (count is_on_acknowledge a.1)
  unfolding consume_envelope consume_returned_message consume_acknowledge
  blocking-CallsOne = (
    blocking_loop-CallsOne is_on_envelope only_envelope only_envelope-Reports refl fuel c lib h,
    blocking_loop-CallsOne is_on_returned_message only_returned only_returned-Reports refl fuel c
        lib h,
    blocking_loop-CallsOne is_on_acknowledge only_acknowledge only_acknowledge-Reports refl fuel c
        lib h,
  )

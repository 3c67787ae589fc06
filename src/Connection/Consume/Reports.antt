-- ===== src/Connection/Consume/Reports.antt =====
-- How consumeImpl of include/rmqcxx/Connection.hpp reports what it called back: by its result, or by the
-- flag `done` of its caller, which only its callbacks set. `w` is the report that is looked at.
pub mod Consuming
pub mod Callbacks
use mathlib.Core.Path.{subst}
use rabbitmq_cxx.Base.{
  ℕ, ◌+◌, ◌≤◌, ◌≡◌, ◌≢◌, refl, Bool, true, false, Option, none, some, arith, if◌then◌else◌,
}
use rabbitmq_cxx.Base.Int.{ℤ}
use rabbitmq_cxx.Amqp.{
  Call, Trace, Library, Status, ReplyType, FrameType, Method, Reply, Frame, Return, Ack, Timeval,
  RawMessage, RawEnvelope, clock_now, consume_message, simple_wait_frame_noblock, read_message,
  method_name, maybe_release_buffers, destroy_envelope,
}
use rabbitmq_cxx.Exceptions.{Exception, foreign}
use rabbitmq_cxx.Effect.{
  Effect, Outcome, done, throws, terminated, pure, throw, ◌>>=◌, ◌>>◌, perform, choose, defer,
  continue, leave,
}
use rabbitmq_cxx.Effect.Calls.{
  Adds, count, adds_rules, Adds-notify, Adds-perform, Adds-throw, Adds-try_catch, Adds-bind,
}
use rabbitmq_cxx.Effect.Survives.{
  Survives, Returns, survives_rules, Survives-perform, Returns-notify, Survives-Returns,
  Survives-try_catch, Survives-bind, Survives-throw,
}
use rabbitmq_cxx.AmqpStruct.{AmqpStruct, destruct_envelope, destruct_message}
use rabbitmq_cxx.Connection.{Connection}
use rabbitmq_cxx.Connection.Replies.{process_reply-Survives}
use rabbitmq_cxx.Connection.Consume.{
  Delivery, Callback, Closures, Consumed, timed_out, run, finish, adjust, returned_message,
  switch_method, switch_frame, switch_wait, unhandled_status, wait_frame, unhandled_error,
  switch_error, unhandled_reply, deliver, switch_consumed, receive, consume_impl,
}
use rabbitmq_cxx.Connection.Consume.Cleanup.{
  destruct_envelope-Returns, destruct_message-Returns, adjust-Survives,
}
use rabbitmq_cxx.Connection.Consume.Counting.{
  IsApart, destruct_message-Adds, adjust-Adds, read-Adds,
}

-- The numbers of such calls before and after, when there was an exception: at most one with an exception
-- of the client's, and none with one of the library.
abbrev pub Threw : Exception → ℕ → ℕ → Type 0
Threw (foreign n) a b = (a ≤ b) × (b ≤ a + 1)
Threw _ a b = b ≡ a

-- By the outcome: one if it is reported, which only a true result goes with, and else none.
abbrev pub Fits : (Consumed → Bool) → Outcome Consumed → ℕ → ℕ → Type 0
Fits w (done r) a b = (b ≡ a + (if w r then 1 else 0)) × (r.result ≡ false → w r ≡ false)
Fits w (throws e) a b = Threw e a b
Fits w terminated a b = ⊥

pub record Reports (p : Call → Bool) (w : Consumed → Bool) (m : Effect Consumed) : Type 0 where
  pub at : (lib : Library) (h : Trace) → Fits w (m lib h).0 (count p h) (count p (m lib h).1)

-- A callback that was told on exactly if it made one such call.
abbrev pub called : (Consumed → Bool) → Delivery → Bool
called w d = w (record { result = true; flagged = d.flagged })

-- What is thrown, if anything is, is none of the library's exceptions.
abbrev pub IsForeign : Option Exception → Type 0
IsForeign (some (foreign n)) = Unit
IsForeign (some _) = ⊥
IsForeign none = Unit

pub record Tells (p : Call → Bool) (w : Consumed → Bool) (k : Callback) : Type 0 where
  pub at :
      (lib : Library) (h : Trace)
      → count p (k lib h).1 ≡ count p h + (if called w (k lib h).0 then 1 else 0)
  pub raises : (lib : Library) (h : Trace) → IsForeign (k lib h).0.raises

pub record AllTell (p : Call → Bool) (w : Consumed → Bool) (hs : Closures) : Type 0 where
  pub envelope : (e : RawEnvelope) → Tells p w (hs.envelope e)
  pub returned : (m : RawMessage) (r : Return) → Tells p w (hs.returned m r)
  pub acknowledge : (a : Ack) → Tells p w (hs.acknowledge a)

-- A test that no call passes which consumeImpl makes itself.
pub record IsOutside (p : Call → Bool) : Type 0 where
  pub apart : IsApart p
  pub destroy : (e : RawEnvelope) → p (destroy_envelope e) ≡ false
  pub consume : (s : ℕ) (tv : Option Timeval) → p (consume_message s tv) ≡ false
  pub release : (s : ℕ) → p (maybe_release_buffers s) ≡ false

pub Threw-none : (e : Exception) (a b : ℕ) → b ≡ a → Threw e a b
Threw-none (foreign n) a b q = (omega (arith, q), omega (arith, q))
Threw-none _ a b q = q

-- The end of a delivery, when the callback has been called.
finish-Fits :
    (p : Call → Bool) (w : Consumed → Bool) (d : Delivery) (lib : Library) (t : Trace) (a : ℕ)
    → count p t ≡ a + (if called w d then 1 else 0)
    → IsForeign d.raises
    → Fits w (finish d lib t).0 a (count p (finish d lib t).1)
unfolding finish
finish-Fits p w d lib t a e f = go d.raises f
  where
    go :
        (r : Option Exception)
        → IsForeign r
        → Fits w
            (finish (record d { raises = r }) lib t).0
            a
            (count p (finish (record d { raises = r }) lib t).1)
    go none f' = unfold pure in (e, λ q. cc)
    go (some (foreign n)) f' = unfold throw in ground arith
    go (some _) f' = absurd f'

module _ {p : Call → Bool} {w : Consumed → Bool} where
  pub Reports-throw : (x : Exception) → Reports p w (throw x)
  unfolding throw
  Reports-throw x = record { at = λ lib h. Threw-none x _ _ refl }

  pub Reports-timed_out : w timed_out ≡ false → Reports p w (pure timed_out)
  unfolding pure
  Reports-timed_out e = record { at = λ lib h. (rw e (omega arith), λ _. e) }

  pub Reports-choose :
      (b : Bool) (m k : Effect Consumed)
      → Reports p w m
      → Reports p w k
      → Reports p w (choose b m k)
  unfolding choose
  Reports-choose true m k rm rk = rm
  Reports-choose false m k rm rk = rk

  pub Reports-bind :
      {A : Type 0} (m : Effect A) (f : A → Effect Consumed)
      → Adds p 0 m
      → Survives m
      → ((a : A) → Reports p w (f a))
      → Reports p w (m >>= f)
  unfolding ◌>>=◌
  Reports-bind {A} m f am sm rf = record {
    at = λ lib h. go lib h (m lib h).0 (m lib h).1 (sm.at lib h) (am.at lib h);
  }
    where
      go :
          (lib : Library) (h : Trace) (o : Outcome A) (t : Trace)
          → o ≢ terminated
          → count p t ≡ count p h + 0
          → Fits w (continue o f lib t).0 (count p h) (count p (continue o f lib t).1)
      go lib h (done x) t alive e =
          let same : count p t ≡ count p h = omega (arith, e) in
          subst (λ (n : ℕ). Fits w (f x lib t).0 n (count p (f x lib t).1)) same ((rf x).at lib t)
      go lib h (throws x) t alive e = Threw-none x _ _ (omega (arith, e))
      go lib h terminated t alive e = alive refl

  pub Reports-defer :
      (g : Effect (Unit {0})) (m : Effect Consumed)
      → Adds p 0 g
      → Returns g
      → Reports p w m
      → Reports p w (defer g m)
  unfolding defer
  Reports-defer g m ag rg rm = record {
    at = λ lib h. go lib (count p h) (m lib h).0 (m lib h).1 (rm.at lib h);
  }
    where
      go :
          (lib : Library) (a : ℕ) (o : Outcome Consumed) (t : Trace)
          → Fits w o a (count p t)
          → Fits w (leave o g lib t).0 a (count p (leave o g lib t).1)
      go lib a (done r) t f =
          let (u, e) = rg.at lib t in rw e (omega (arith, f.0, ag.at lib t), f.1)
      go lib a (throws x) t f =
          let (u, e) = rg.at lib t in
          let same : count p t ≡ count p (g lib t).1 = omega (arith, ag.at lib t) in
          rw e (subst (λ (n : ℕ). Threw x a n) same f)
      go lib a terminated t f = f

  pub Reports-run :
      (k : Callback) (g : Delivery → Effect (Unit {0}))
      → Tells p w k
      → ((d : Delivery) → Adds p 0 (g d))
      → ((d : Delivery) → Returns (g d))
      → Reports p w (do d ← run k; g d; finish d)
  unfolding ◌>>=◌ run
  Reports-run k g tells ag rg = record {
    at = λ lib h.
        let d : Delivery = (k lib h).0 in
        let (u, q) = (rg d).at lib (k lib h).1 in
        rw q (
          finish-Fits p w d lib (g d lib (k lib h).1).1 _
            (omega (arith, tells.at lib h, (ag d).at lib (k lib h).1)) (tells.raises lib h));
  }

  pub Reports-run_last : (k : Callback) → Tells p w k → Reports p w (do d ← run k; finish d)
  unfolding ◌>>=◌ run
  Reports-run_last k tells = record {
    at = λ lib h.
        finish-Fits p w (k lib h).0 lib (k lib h).1 _ (tells.at lib h) (tells.raises lib h);
  }

-- ===== src/Connection/Consume/Loop/Shrinking.antt =====
-- The timeouts of the rounds of a timed loop.
use rabbitmq_cxx.Base.{ℕ, suc, ◌≡◌, refl, not, ◌&&◌, true, false, ◌∷◌, some, arith}
use rabbitmq_cxx.Base.Int.{ℤ, pos, ◌+ℤ◌, ◌-ℤ◌, ◌≤ℤ◌, ltb_ℤ, max_ℤ, int_laws, -ℤ_parts}
use rabbitmq_cxx.Amqp.{Trace, Library, clock_now}
use rabbitmq_cxx.Effect.{done, pure, ◌>>=◌, perform, choose}
use rabbitmq_cxx.Duration.{nanoseconds}
use rabbitmq_cxx.Connection.{Connection}
use rabbitmq_cxx.Connection.Consume.{Closures, consume_for}
use rabbitmq_cxx.Connection.Consume.Loop.{next_timeout, timed_loop}

test_false : (a b : ℤ) → a ≤ℤ b → ltb_ℤ b a ≡ false
test_false a b h = ground arith

-- After a round with a timeout that is not negative, the timeout of the next one is not negative
-- either, and no longer.
next_timeout_bounds :
    (start now timeout : ℤ)
    → pos 0 ≤ℤ timeout
    → (pos 0 ≤ℤ next_timeout start now timeout) × (next_timeout start now timeout ≤ℤ timeout)
unfolding next_timeout max_ℤ
next_timeout_bounds start now timeout nonneg =
    ground (arith, -ℤ_parts now start, -ℤ_parts timeout (now -ℤ start))

next_timeout_forward :
    (start now timeout : ℤ)
    → start ≤ℤ now
    → now -ℤ start ≤ℤ timeout
    → next_timeout start now timeout ≡ timeout -ℤ (now -ℤ start)
unfolding next_timeout max_ℤ
next_timeout_forward start now timeout p q =
    rw (test_false start now p, test_false (pos 0) (timeout -ℤ (now -ℤ start)) (omega int_laws))

shrinks_twice :
    (start first second timeout : ℤ)
    → start ≤ℤ first
    → first ≤ℤ second
    → (first -ℤ start) +ℤ (second -ℤ start) ≤ℤ timeout
    → next_timeout start second (next_timeout start first timeout)
      ≡ timeout -ℤ (second -ℤ start) -ℤ (first -ℤ start)
shrinks_twice start first second timeout p q r =
    rw (next_timeout_forward start first timeout p (omega int_laws)) (
      rw
        (next_timeout_forward start second (timeout -ℤ (first -ℤ start)) (omega int_laws)
          (omega int_laws))
        (omega int_laws))

module _ (c : Connection) (hs : Closures) (start timeout : ℤ) (lib : Library) (h t : Trace)
    (goes_on : consume_for c hs nanoseconds
        (next_timeout start (lib.answer h clock_now) timeout)
        lib
        (clock_now ∷ h)
      ≡ (done (record { result = true; flagged = false }), t)) where
  -- A round after which the loop goes on leaves its timeout to the rest of the loop.
  goes_on_with :
      (fuel : ℕ)
      → timed_loop (suc fuel) c hs start timeout lib h
        ≡ timed_loop fuel c hs start (next_timeout start (lib.answer h clock_now) timeout) lib t
  unfolding timed_loop ◌>>=◌ perform choose
  goes_on_with fuel = rw goes_on refl

  -- When the loop goes on after its first round, the clock goes forward, and there is time left, the
  -- second round of the loop consumes with the timeout that the first one had, less the time up to
  -- the beginning of the second, less the time up to the beginning of the first again, and leaves
  -- the same to the rest of the loop: the time before the first round is used up twice.
  pub two_rounds :
      (fuel : ℕ)
      → let first = lib.answer h clock_now in
        let second = lib.answer t clock_now in
        let left = timeout -ℤ (second -ℤ start) -ℤ (first -ℤ start) in
        start ≤ℤ first
        → first ≤ℤ second
        → (first -ℤ start) +ℤ (second -ℤ start) ≤ℤ timeout
        → timed_loop (suc (suc fuel)) c hs start timeout lib h
          ≡ (do
            r ← consume_for c hs nanoseconds left
            choose
                (r.result && not r.flagged)
                (timed_loop fuel c hs start left)
                (pure (some r.result)))
              lib
              (clock_now ∷ t)
  unfolding timed_loop ◌>>=◌ perform
  two_rounds fuel p q r =
      rw
        (
          goes_on_with (suc fuel),
          shrinks_twice start (lib.answer h clock_now) (lib.answer t clock_now) timeout p q r,
        )
        refl

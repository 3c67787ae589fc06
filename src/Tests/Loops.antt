-- ===== src/Tests/Loops.antt =====
-- The theorems on consuming at concrete inputs.
use rabbitmq_cxx.Base.{◌+◌, ◌≡◌, ◌≢◌, refl, none, some, true, false, not, ◌&&◌, [], ◌∷◌, arith}
use rabbitmq_cxx.Base.Int.{max_ℤ, pos, ◌≤ℤ◌, ◌+ℤ◌, ◌-ℤ◌, scale, tdiv}
use rabbitmq_cxx.Amqp.{Trace, Timeval, clock_now}
use rabbitmq_cxx.Effect.{done, pure, throw, ◌>>=◌, perform, notify, choose, defer, try_catch}
use rabbitmq_cxx.Effect.Calls.{Adds, count}
use rabbitmq_cxx.Duration.{seconds, nanoseconds, time_value, duration_cast, duration_value}
use rabbitmq_cxx.Duration.Overflow.{Fits as Fits64}
use rabbitmq_cxx.AmqpStruct.{new, destruct_message, destruct_envelope}
use rabbitmq_cxx.Connection.{process_reply, switch_reply}
use rabbitmq_cxx.Connection.Consume.{
  time_left, Closures, run, consume_impl, consume_for, receive, switch_consumed, switch_error,
  wait_frame, adjust, switch_wait, switch_frame, switch_method, returned_message, finish,
}
use rabbitmq_cxx.Connection.Consume.Callers.{all_callbacks, only_returned, only_envelope, ignore}
use rabbitmq_cxx.Connection.Consume.Deadline.{timeout_of}
use rabbitmq_cxx.Connection.Consume.Overflow.{next_timeout-Fits, time_left-overflows}
use rabbitmq_cxx.Connection.Consume.Messages.{
  is_read_message, is_destroy_message, LeavesMessages, consume_impl-destroys_messages,
}
use rabbitmq_cxx.Connection.Consume.Reports.{Fits}
use rabbitmq_cxx.Connection.Consume.Reports.Callbacks.{
  is_on_envelope, is_on_returned_message, is_on_acknowledge, is_callback, result_of,
  consume_impl-calls_one,
}
use rabbitmq_cxx.Connection.Consume.Loop.{
  next_timeout, timed_loop, consume_envelope_for, consume_returned_message_for,
  consume_acknowledge_for,
}
use rabbitmq_cxx.Connection.Consume.Loop.Shrinking.{two_rounds}
use rabbitmq_cxx.Connection.Consume.Loop.Once.{CallsOnce, timed-CallsOnce}
use rabbitmq_cxx.Connection.Consume.Loop.Ends.{DriesUp, timed-ends}
use rabbitmq_cxx.Tests.Samples.{nothing_left, library_with, connection, returning, ticking}

timed-CallsOnce_example :
    let e = consume_envelope_for 2 connection seconds (pos 1) returning [] in
    let r = consume_returned_message_for 2 connection seconds (pos 1) returning [] in
    let a = consume_acknowledge_for 2 connection seconds (pos 1) returning [] in
    CallsOnce e.0 0 (count is_on_envelope e.1)
    × CallsOnce r.0 0 (count is_on_returned_message r.1)
    × CallsOnce a.0 0 (count is_on_acknowledge a.1)
unfolding count
timed-CallsOnce_example = timed-CallsOnce 2 connection returning [] seconds (pos 1)

consume_impl-calls_one_example :
    let r = consume_impl connection all_callbacks none returning [] in
    Fits result_of r.0 0 (count is_callback r.1)
unfolding count
consume_impl-calls_one_example = consume_impl-calls_one connection none returning []

abbrev silent : Closures
silent = record only_returned { returned = λ m r. ignore }

ignore-reads : Adds is_read_message 0 (run ignore)
unfolding run
ignore-reads = record { at = λ lib h. omega arith }

ignore-destroys : Adds is_destroy_message 0 (run ignore)
unfolding run
ignore-destroys = record { at = λ lib h. omega arith }

silent-LeavesMessages : LeavesMessages silent
silent-LeavesMessages = record {
  envelope = λ e. (ignore-reads, ignore-destroys);
  returned = λ m r. (ignore-reads, ignore-destroys);
  acknowledge = λ a. (ignore-reads, ignore-destroys);
  keeps = λ m r lib h. refl;
}

consume_impl-destroys_messages_example :
    let t = (consume_impl connection silent none returning []).1 in
    count is_destroy_message t + count is_read_message []
    ≡ count is_read_message t + count is_destroy_message []
consume_impl-destroys_messages_example =
    consume_impl-destroys_messages connection silent silent-LeavesMessages none returning []

-- It does read a message.
read_one : count is_read_message (consume_impl connection silent none returning []).1 ≡ 1
unfolding consume_impl rabbitmq_cxx.Connection.Consume.receive count rabbitmq_cxx.Effect.defer
    rabbitmq_cxx.Effect.◌>>=◌ rabbitmq_cxx.Effect.perform rabbitmq_cxx.Effect.notify
    rabbitmq_cxx.Effect.pure rabbitmq_cxx.Effect.choose rabbitmq_cxx.Effect.try_catch
    rabbitmq_cxx.Connection.Consume.switch_consumed rabbitmq_cxx.Connection.Consume.switch_error
    rabbitmq_cxx.Connection.Consume.wait_frame rabbitmq_cxx.Connection.Consume.adjust
    rabbitmq_cxx.Connection.Consume.switch_wait rabbitmq_cxx.Connection.Consume.switch_frame
    rabbitmq_cxx.Connection.Consume.switch_method rabbitmq_cxx.Connection.Consume.returned_message
    rabbitmq_cxx.Connection.process_reply rabbitmq_cxx.Connection.switch_reply run
    rabbitmq_cxx.AmqpStruct.destruct_message rabbitmq_cxx.AmqpStruct.destruct_envelope
    rabbitmq_cxx.AmqpStruct.new rabbitmq_cxx.Connection.Consume.finish
read_one = refl

nothing_left-DriesUp : DriesUp (library_with nothing_left) 1
nothing_left-DriesUp = record { type = λ h s tv le. refl; error = λ h s tv le. refl }

timed-ends_example :
    ((consume_envelope_for 2 connection seconds (pos 1) (library_with nothing_left) []).0
      ≢ done none)
    × ((consume_returned_message_for 2 connection seconds (pos 1) (library_with nothing_left) []).0
        ≢ done none)
    × ((consume_acknowledge_for 2 connection seconds (pos 1) (library_with nothing_left) []).0
        ≢ done none)
unfolding count
timed-ends_example =
    timed-ends 1 connection seconds (pos 1) (library_with nothing_left) 1 [] nothing_left-DriesUp
      (omega arith)

next_timeout-Fits_example :
    Fits64 (pos 13 -ℤ pos 10)
    × Fits64 (pos 5 -ℤ (pos 13 -ℤ pos 10))
    × Fits64 (next_timeout (pos 10) (pos 13) (pos 5))
next_timeout-Fits_example =
    next_timeout-Fits (pos 10) (pos 13) (pos 5) (omega arith) (omega arith) (omega arith)
      (omega arith) (omega arith)

-- The longest timeout in whole microseconds, and a microsecond that has passed.
abbrev longest : Timeval
longest = record { tv_sec = pos 9223372036; tv_usec = pos 854775 }

longest-timeout_of : timeout_of longest ≡ pos 9223372036854775000
unfolding duration_cast duration_value scale tdiv ◌+ℤ◌
longest-timeout_of = refl

time_left-overflows_example :
    (time_left longest (pos 10) (pos 1010)
      ≡ time_value nanoseconds (timeout_of longest -ℤ (pos 10 -ℤ pos 1010)))
    × ¬ Fits64 (timeout_of longest -ℤ (pos 10 -ℤ pos 1010))
    × Fits64 (timeout_of longest -ℤ (pos 1010 -ℤ pos 10))
time_left-overflows_example =
    time_left-overflows longest (pos 10) (pos 1010) (omega arith) (omega arith)
      (rw longest-timeout_of (omega arith)) (omega arith) (rw longest-timeout_of (omega arith))
      (rw longest-timeout_of (unfold ◌+ℤ◌ ◌-ℤ◌ in omega arith))

-- The calls of the first round, which returns a message that is ignored.
abbrev first_round : Trace
first_round =
    (consume_for connection only_envelope nanoseconds (pos 94) ticking
      (clock_now ∷ clock_now ∷ clock_now ∷ clock_now ∷ [])).1

goes_on :
    consume_for connection only_envelope nanoseconds
      (next_timeout (pos 0) (pos 3) (pos 97))
      ticking
      (clock_now ∷ clock_now ∷ clock_now ∷ clock_now ∷ [])
    ≡ (done (record { result = true; flagged = false }), first_round)
unfolding next_timeout consume_for consume_impl receive switch_consumed switch_error wait_frame
    adjust switch_wait switch_frame switch_method returned_message finish run pure throw ◌>>=◌
    perform notify choose defer try_catch process_reply switch_reply destruct_message
    destruct_envelope new max_ℤ ◌-ℤ◌ ◌+ℤ◌
goes_on = refl

-- The time at which the second round begins.
second_time :
    (pos 3 ≤ℤ ticking.answer first_round clock_now)
    × ((pos 3 -ℤ pos 0) +ℤ (ticking.answer first_round clock_now -ℤ pos 0) ≤ℤ pos 97)
unfolding next_timeout consume_for consume_impl receive switch_consumed switch_error wait_frame
    adjust switch_wait switch_frame switch_method returned_message finish run pure throw ◌>>=◌
    perform notify choose defer try_catch process_reply switch_reply destruct_message
    destruct_envelope new max_ℤ ◌-ℤ◌ ◌+ℤ◌
second_time = (omega arith, omega arith)

two_rounds_example :
    timed_loop 4 connection only_envelope
      (pos 0)
      (pos 97)
      ticking
      (clock_now ∷ clock_now ∷ clock_now ∷ [])
    ≡ (do
      r ←
          consume_for connection only_envelope nanoseconds
            (pos 97 -ℤ (ticking.answer first_round clock_now -ℤ pos 0) -ℤ (pos 3 -ℤ pos 0))
      choose
          (r.result && not r.flagged)
          (timed_loop 2 connection only_envelope
            (pos 0)
            (pos 97 -ℤ (ticking.answer first_round clock_now -ℤ pos 0) -ℤ (pos 3 -ℤ pos 0)))
          (pure (some r.result)))
        ticking
        (clock_now ∷ first_round)
two_rounds_example =
    two_rounds connection only_envelope (pos 0) (pos 97) ticking
      (clock_now ∷ clock_now ∷ clock_now ∷ []) first_round goes_on 2 (omega arith) second_time.0
      second_time.1

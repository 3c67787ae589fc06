-- ===== src/Tests.antt =====
-- The theorems at concrete inputs.
mod Samples
mod Loops
mod Tables
mod Threads
mod Scopes
mod Programs
mod Execution
use rabbitmq_cxx.Base.{
  ℕ, ◌+◌, ◌*◌, ◌≤◌, ◌<◌, ◌≡◌, refl, true, false, Bytes, none, some, [], ◌∷◌, arith, if◌then◌else◌,
}
use rabbitmq_cxx.Base.Int.{pos, negsuc, pos_part, neg_part, ◌+ℤ◌, ◌-ℤ◌, ◌≤ℤ◌, scale, tdiv}
use rabbitmq_cxx.Amqp.{RawEnvelope, Call, Trace, Library, Entries, Timeval, Status}
use rabbitmq_cxx.Exceptions.{Exception, channel_exception}
use rabbitmq_cxx.Effect.{Effect, done, throws, terminated, perform, ◌>>=◌, ◌>>◌}
use rabbitmq_cxx.Effect.Calls.{Adds, count, Adds-perform}
use rabbitmq_cxx.Effect.Survives.{Returns, Survives}
use rabbitmq_cxx.Effect.Pays.{owed}
use rabbitmq_cxx.Duration.{
  seconds, minus_seconds, microseconds, nanoseconds, time_value, duration_value, duration_cast,
}
use rabbitmq_cxx.Duration.Exact.{time_value-IsNormal}
use rabbitmq_cxx.Duration.RoundTrip.{duration_value-time_value_ns}
use rabbitmq_cxx.AmqpStruct.{AmqpStruct, move_construct, move_assign, destruct_envelope}
use rabbitmq_cxx.AmqpStruct.Ownership.{destroy_both, move_assign_lem}
use rabbitmq_cxx.Connection
use rabbitmq_cxx.Connection.{
  construct, destruct, connect, rpc, is_ok, read_rpc_timeout, write_rpc_timeout,
}
use rabbitmq_cxx.Connection.Replies.{rpc-normal, rpc-throws}
use rabbitmq_cxx.Connection.Lifecycle.{is_destroy_connection, is_connection_close, destruct-Returns}
use rabbitmq_cxx.Connection.Ownership.{lifetime, lifetime-frees_once, connect-closes}
use rabbitmq_cxx.Connection.Timeout.{read_rpc_timeout-write_rpc_timeout}
use rabbitmq_cxx.Connection.Consume.{Closures, consume_impl, receive, time_left, run}
use rabbitmq_cxx.Connection.Consume.Callers.{only_envelope, ignore}
use rabbitmq_cxx.Connection.Consume.Cleanup.{consume_impl-releases_last}
use rabbitmq_cxx.Connection.Consume.Envelopes.{
  is_destroy_envelope, LeavesEnvelopes, consume_impl-destroys_envelope,
}
use rabbitmq_cxx.Connection.Consume.Deadline.{timeout_of, time_left-adds_elapsed}
use rabbitmq_cxx.Connection.Consume.Loop.{next_timeout}
use rabbitmq_cxx.Connection.Moves
use rabbitmq_cxx.Duration.Overflow.{Fits, time_value-Fits}
use rabbitmq_cxx.Channel
use rabbitmq_cxx.Channel.{publish, publish_failure}
use rabbitmq_cxx.Channel.Lifecycle.{
  is_channel_close, destroy_all, moves, moved_twice, moves-close_once, moved_twice-closes_twice,
}
use rabbitmq_cxx.Channel.Rpc.{channel_rpc-throws}
use rabbitmq_cxx.Queue
use rabbitmq_cxx.Queue.Released.{consume_lem, after_rpc}
use rabbitmq_cxx.Exchange
use rabbitmq_cxx.Exchange.Failure.{exchange_rpc_lem}
use Samples.{
  remembering, normal_reply, missing_reply, answer_with, library_with, connection, channel, queue,
  exchange, options,
}

lifetime-frees_once_example :
    count is_destroy_connection (lifetime options (library_with missing_reply) []).1 ≡ 1
unfolding count
lifetime-frees_once_example = lifetime-frees_once options (library_with missing_reply) []

ignore-Adds : Adds is_destroy_envelope 0 (run ignore)
unfolding run
ignore-Adds = record { at = λ lib h. omega arith }

only_envelope-LeavesEnvelopes : LeavesEnvelopes (record only_envelope { envelope = λ e. ignore })
only_envelope-LeavesEnvelopes = record {
  envelope = λ e. ignore-Adds;
  returned = λ m r. ignore-Adds;
  acknowledge = λ a. ignore-Adds;
  keeps = λ e lib h. refl;
}

consume_impl-destroys_envelope_example :
    count is_destroy_envelope
      (consume_impl connection
        (record only_envelope { envelope = λ e. ignore })
        none
        (library_with normal_reply)
        []).1
    ≡ 1
unfolding count
consume_impl-destroys_envelope_example =
    consume_impl-destroys_envelope connection (record only_envelope { envelope = λ e. ignore })
      only_envelope-LeavesEnvelopes none (library_with normal_reply) []

abbrev open_channel : Call
open_channel = Call.channel_open 7 1

rpc-normal_example :
    rpc connection true [] (λ s. perform (Call.channel_open s 1)) (library_with normal_reply) []
    ≡ (done 1, Call.maybe_release_buffers 7 ∷ Call.get_rpc_reply 7 ∷ open_channel ∷ [])
unfolding perform
rpc-normal_example =
    rpc-normal connection true [] (λ s. perform (Call.channel_open s 1)) (library_with normal_reply)
      [] 1 (open_channel ∷ []) refl refl

connect-closes_example :
    count is_connection_close (connect connection options 8 (library_with missing_reply) []).1
    ≡ count is_connection_close []
      + owed (connect connection options 8 (library_with missing_reply) []).0
connect-closes_example =
    connect-closes connection refl options 8 (library_with missing_reply) [] refl

consume_impl-releases_last_example :
    consume_impl connection only_envelope none (library_with normal_reply) [] ≡ (
      (receive connection only_envelope none (library_with normal_reply) []).0,
      Call.maybe_release_buffers 7
          ∷ (receive connection only_envelope none (library_with normal_reply) []).1,
    )
consume_impl-releases_last_example =
    consume_impl-releases_last connection only_envelope none (library_with normal_reply) []

abbrev second : Timeval
second = record { tv_sec = pos 1; tv_usec = pos 0 }

time_left-adds_elapsed_example :
    time_left second (pos 0) (pos 400000000)
    ≡ time_value nanoseconds (timeout_of second +ℤ (pos 400000000 -ℤ pos 0))
unfolding duration_cast duration_value scale tdiv ◌+ℤ◌
time_left-adds_elapsed_example =
    time_left-adds_elapsed second (pos 0) (pos 400000000) (omega arith) (omega arith)

abbrev opened : ℕ → ℕ → Effect ℕ
opened s ch = perform (Call.channel_open s ch)

exchange_rpc_lem_example :
    (Exchange.rpc exchange (λ s ch n. opened s ch) (library_with missing_reply) []).0 ≡ terminated
unfolding perform
exchange_rpc_lem_example =
    exchange_rpc_lem exchange (λ s ch n. opened s ch) (library_with missing_reply) [] 1
      (open_channel ∷ []) refl

abbrev consumed : Call
consumed = Call.basic_consume 7 1 queue.name [] false false false Entries.no_entries

consume_lem_example :
    Queue.consume queue [] false false false Entries.no_entries (library_with normal_reply) [] ≡ (
      done (b't' ∷ []),
      Call.load_consumer_tag 1
          ∷ Call.maybe_release_buffers_on_channel 7 1
          ∷ Call.get_rpc_reply 7
          ∷ consumed
          ∷ [],
    )
consume_lem_example =
    consume_lem queue (library_with normal_reply) [] [] false false false Entries.no_entries refl

moves-close_once_example : Adds is_channel_close 1 (destroy_all (moves 2 channel))
moves-close_once_example = moves-close_once 2 channel refl

moved_twice-closes_twice_example : Adds is_channel_close 2 (destroy_all (moved_twice channel))
moved_twice-closes_twice_example = moved_twice-closes_twice channel

abbrev held : ℕ → AmqpStruct RawEnvelope
held n = record {
  memory = record { channel = 1; delivery_tag = n; message = record { body = [] } };
  moved = false;
}

move_assign_lem_example :
    destroy_both (move_assign (held 4) (held 5)) (library_with normal_reply) []
    ≡ (done tt, Call.destroy_envelope (held 5).memory ∷ [])
move_assign_lem_example = move_assign_lem (held 4) (held 5) (library_with normal_reply) []

read_rpc_timeout-write_rpc_timeout_example :
    (write_rpc_timeout connection microseconds (pos 2500000)
        >> read_rpc_timeout connection microseconds)
      remembering []
    ≡ (
      done (some (pos 2500000)),
      Call.get_rpc_timeout 7 ∷ Call.set_rpc_timeout 7 (time_value microseconds (pos 2500000)) ∷ [],
    )
read_rpc_timeout-write_rpc_timeout_example =
    read_rpc_timeout-write_rpc_timeout connection (pos 2500000) remembering [] refl refl

moves-close_and_free_once_example :
    Adds is_connection_close 1 (Moves.destroy_all (Moves.moves 2 connection))
    × Adds is_destroy_connection 1 (Moves.destroy_all (Moves.moves 2 connection))
moves-close_and_free_once_example = Moves.moves-close_and_free_once 2 connection refl

time_value-Fits_example :
    let s = duration_cast nanoseconds seconds (negsuc 1999) in
    Fits s
    × Fits (scale s 1000000000)
    × Fits (minus_seconds nanoseconds (negsuc 1999) s)
    × Fits (time_value nanoseconds (negsuc 1999)).tv_usec
time_value-Fits_example = time_value-Fits (negsuc 1999) (omega arith)

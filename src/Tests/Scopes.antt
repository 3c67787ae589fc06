-- ===== src/Tests/Scopes.antt =====
-- The theorems on the worker's use of a connection at concrete inputs: one queue, and two rounds.
use rabbitmq_cxx.Base.{◌+◌, ◌++◌, true, false, ◌≡◌, ◌≢◌, refl, arith, [], ◌∷◌, none, some}
use rabbitmq_cxx.Amqp.{Call, Library, Trace, no_entries, destroy_connection}
use rabbitmq_cxx.Effect.Calls.{count}
use rabbitmq_cxx.Connection.Lifecycle.{is_destroy_connection}
use rabbitmq_cxx.Channel
use rabbitmq_cxx.Consumer.Scope.{session, use_channel}
use rabbitmq_cxx.Effect.Pays.{owed}
use rabbitmq_cxx.Channel.Lifecycle.{is_channel_close}
use rabbitmq_cxx.Consumer.Scope.Cleanup.{session-destroys_last, use_channel-closes}
use rabbitmq_cxx.AmqpStruct.{new, move_construct, destruct_envelope}
use rabbitmq_cxx.Base.Int.{pos}
use rabbitmq_cxx.Duration.{seconds}
use rabbitmq_cxx.Connection.Consume.{
  consume_for, consume_impl, receive, switch_consumed, deliver, finish, adjust, run,
}
use rabbitmq_cxx.Connection.Consume.Loop.{consume_envelope_for, consume_timed, timed_loop}
use rabbitmq_cxx.Consumer.{Thread, Worker, System}
use rabbitmq_cxx.Consumer.Steps.{Step, Steps, init}
use rabbitmq_cxx.Consumer.Scope.{acknowledge_front, poll}
use rabbitmq_cxx.Consumer.Scope.Arrivals.{messages_of}
use rabbitmq_cxx.Consumer.Scope.Acks.{is_basic_ack, is_ack_of}
use rabbitmq_cxx.Consumer.Scope.Refines.{Follows, after_poll, after_ack, poll-Follows}
use rabbitmq_cxx.Consumer.Scope.Runs.{Runs, Told, Runs-waiting}
use rabbitmq_cxx.Channel.{rpc_own, ack}
use rabbitmq_cxx.Connection
use rabbitmq_cxx.Connection.{conclude, process_reply, switch_reply}
use rabbitmq_cxx.Consumer.Scope.Ends.{session-ends}
use rabbitmq_cxx.Connection.Consume.Loop.Ends.{DriesUp}
use rabbitmq_cxx.Effect.{done, ◌>>=◌, perform, notify, pure, choose, defer, try_catch}
use rabbitmq_cxx.Tests.Samples.{
  quiet, connection, channel, library_with, normal_reply, missing_reply, settings, two_rounds,
}

session-destroys_last_example :
    (t : Trace) × ((session 4 settings no_entries two_rounds (library_with normal_reply) []).1
      ≡ destroy_connection 7 ∷ t)
    × (count is_destroy_connection t ≡ 0)
unfolding count
session-destroys_last_example =
    session-destroys_last 4 settings no_entries two_rounds (library_with normal_reply) [] refl

use_channel-closes_example :
    count is_channel_close
        (use_channel 4 settings no_entries two_rounds connection (library_with missing_reply) []).1
      + owed (Channel.construct connection 1 (library_with missing_reply) []).0
    ≡ count is_channel_close [] + 1
use_channel-closes_example =
    use_channel-closes 4 settings no_entries two_rounds connection (library_with missing_reply) []

quiet-DriesUp : DriesUp quiet 0
quiet-DriesUp = record { type = λ h s tv le. refl; error = λ h s tv le. refl }

session-ends_example : (session 1 settings no_entries two_rounds quiet []).0 ≢ done none
session-ends_example =
    session-ends quiet 0 0 quiet-DriesUp (omega arith) settings no_entries two_rounds []

-- The worker in its inner loop, with a message and two tags.
abbrev polling_worker : System
polling_worker = record (init 1) {
  consumer = record {
    run = true;
    messages = (record { tag = record { session = 1; id = 7 }; body = [] }) ∷ [];
    ack_queue = (record { session = 1; id = 5 }) ∷ (record { session = 1; id = 6 }) ∷ [];
  };
  worker = Worker.inner;
  session = 1;
}

poll-Follows_example :
    let r = poll 4 connection channel (some 5 ∷ []) (library_with normal_reply) [] in
    (d : Trace) × (r.1 ≡ d ++ [])
    × Follows polling_worker
        (messages_of 1 d)
        (count is_basic_ack d)
        (count (is_ack_of channel (some 5)) d)
        r.0
poll-Follows_example =
    poll-Follows polling_worker refl refl refl 4 connection channel (library_with normal_reply) []

abbrev answering : Library
answering = library_with normal_reply

-- The calls of one consumeEnvelope.
abbrev consuming : Trace
consuming = (consume_envelope_for 4 connection seconds (pos 0) answering []).1

consumes :
    consume_envelope_for 4 connection seconds (pos 0) answering []
    ≡ (done (some true), consuming ++ [])
unfolding consume_envelope_for consume_timed timed_loop consume_for consume_impl receive
    switch_consumed deliver finish adjust run new move_construct destruct_envelope ◌>>=◌ perform
    notify pure choose defer try_catch
consumes = refl

-- The calls of the acknowledgement after it, the newest first.
abbrev acknowledging : Trace
acknowledging =
    Call.maybe_release_buffers_on_channel 7 1
    ∷ Call.get_rpc_reply 7
    ∷ Call.basic_ack 7 1 5 false
    ∷ []

acknowledges :
    acknowledge_front channel (some 5) answering (consuming ++ [])
    ≡ (done tt, acknowledging ++ (consuming ++ []))
unfolding acknowledge_front ack rpc_own Channel.rpc Connection.rpc conclude process_reply
    switch_reply ◌>>=◌ perform notify pure choose defer
acknowledges = refl

-- The worker after consumeEnvelope, with a processing thread at the queue of messages, and after the
-- acknowledgement.
abbrev consumed_worker : System
consumed_worker = record (after_poll polling_worker (messages_of 1 consuming)) {
  threads = Thread.receiving ∷ [];
  message_mtx = true;
}

consumed_worker-Runs :
    Runs 4 connection channel answering polling_worker []
      (after_ack consumed_worker)
      (acknowledging ++ (consuming ++ []))
consumed_worker-Runs =
    Runs.acked acknowledging
      (Runs.other (Runs.consumed true consuming Runs.begin refl refl consumes)
        (Step.lock_receive [] [] refl refl, refl))
      refl refl acknowledges

Runs-waiting_example :
    Steps polling_worker (after_ack consumed_worker)
    × Told 4 connection channel answering polling_worker []
        (after_ack consumed_worker)
        (acknowledging ++ (consuming ++ []))
Runs-waiting_example =
    Runs-waiting 4 connection channel answering polling_worker [] consumed_worker-Runs

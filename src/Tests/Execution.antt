-- ===== src/Tests/Execution.antt =====
-- The theorems on the whole worker of examples/advconsumer.cpp at concrete inputs.
use rabbitmq_cxx.Base.{◌≡◌, refl, true, [], ◌++◌, some, inr}
use rabbitmq_cxx.Base.Int.{pos}
use rabbitmq_cxx.Amqp.{Library, Trace, no_entries}
use rabbitmq_cxx.Effect.{done, ◌>>=◌, perform, notify, pure, throw, choose, defer, try_catch}
use rabbitmq_cxx.Effect.Guard.{guard}
use rabbitmq_cxx.Duration.{seconds}
use rabbitmq_cxx.AmqpStruct.{new, move_construct, destruct_envelope}
use rabbitmq_cxx.Connection
use rabbitmq_cxx.Connection.{
  Connection, build, establish, connect, open_socket, set_handshake, send_login, log_in,
  plain_options, conclude, process_reply, switch_reply, is_ok,
}
use rabbitmq_cxx.Connection.Consume.{
  consume_for, consume_impl, receive, switch_consumed, deliver, finish, adjust, run,
}
use rabbitmq_cxx.Connection.Consume.Loop.{consume_envelope_for, consume_timed, timed_loop}
use rabbitmq_cxx.Channel
use rabbitmq_cxx.Channel.{Channel}
use rabbitmq_cxx.Queue
use rabbitmq_cxx.Consumer.{Worker, System}
use rabbitmq_cxx.Consumer.Steps.{Step, init, Reachable}
use rabbitmq_cxx.Consumer.Scope.{options, subscribe}
use rabbitmq_cxx.Consumer.Scope.Arrivals.{messages_of}
use rabbitmq_cxx.Consumer.Scope.Refines.{after_poll}
use rabbitmq_cxx.Consumer.Scope.Joining.{joining, within}
use rabbitmq_cxx.Consumer.Scope.Execution.{Executes}
use rabbitmq_cxx.Consumer.Scope.Execution.Tells.{Tells}
use rabbitmq_cxx.Consumer.Scope.Execution.Follows.{execution-follows}
use rabbitmq_cxx.Tests.Samples.{library_with, normal_reply, settings}

abbrev answering : Library
answering = library_with normal_reply

abbrev made : Connection
made = Connection.initial 7

abbrev opened : Channel
opened = Channel.initial made 1

abbrev joining_calls : Trace
joining_calls = (joining settings no_entries answering []).1

joins : joining settings no_entries answering [] ≡ (done (made, opened), joining_calls ++ [])
unfolding joining within guard Connection.construct build establish connect open_socket
    set_handshake send_login log_in options plain_options conclude process_reply switch_reply
    Connection.rpc Connection.initial Channel.initial Channel.construct Channel.rpc Queue.construct
    Queue.rpc Queue.consume subscribe ◌>>=◌ perform notify pure throw choose defer try_catch is_ok
joins = refl

-- The calls of one consumeEnvelope.
abbrev consuming : Trace
consuming = (consume_envelope_for 4 made seconds (pos 0) answering []).1

abbrev joined_worker : System
joined_worker = record (init 1) { worker = Worker.inner; session = 1 }

joined_worker-Executes :
    Executes 4 settings no_entries answering 1 joined_worker
      (some (made, opened))
      (joining_calls ++ [])
joined_worker-Executes =
    Executes.joined made opened joining_calls
      (Executes.quiet Executes.begin (Step.enter refl refl) (inr tt)) refl joins

consumes :
    within made opened (consume_envelope_for 4 made seconds (pos 0)) answering (joining_calls ++ [])
    ≡ (done (some true), consuming ++ (joining_calls ++ []))
unfolding within guard consume_envelope_for consume_timed timed_loop consume_for consume_impl
    receive switch_consumed deliver finish adjust run new move_construct destruct_envelope ◌>>=◌
    perform notify pure choose defer try_catch
consumes = refl

execution-follows_example :
    Reachable 1 (after_poll joined_worker (messages_of 1 consuming))
    × Tells
        (after_poll joined_worker (messages_of 1 consuming))
        (consuming ++ (joining_calls ++ []))
execution-follows_example =
    execution-follows 4 settings no_entries answering 1
      (Executes.consumed made opened true consuming joined_worker-Executes refl refl consumes)

-- ===== src/Examples/Publisher/Protocol.antt =====
-- What examples/publisher.cpp does with the messages that are returned to it, as far as it can be seen from
-- outside.
use rabbitmq_cxx.Base.{Bool, true, false, [], ◌∷◌, ◌++◌}
use rabbitmq_cxx.Base.Text.{text}
use rabbitmq_cxx.Amqp.{Call, Trace, RawMessage, Return, print, destroy_message}
use rabbitmq_cxx.Effect.{◌>>=◌, ◌>>◌, notify, choose}
use rabbitmq_cxx.Effect.Writes.{anything, Writes}
use rabbitmq_cxx.AmqpStruct.{AmqpStruct, destruct_message}
use rabbitmq_cxx.Connection.Consume.{Delivery, run, finish}
use rabbitmq_cxx.Connection.Consume.Writes.{
  AllWrite, ignore_envelope-Writes, ignore_acknowledge-Writes,
}
use rabbitmq_cxx.Connection.Consume.Writes.Anything.{finish-adds_nothing, anything-Utters}
use rabbitmq_cxx.Connection.Consume.Callers.{statements, set_done}
use rabbitmq_cxx.Examples.Publisher.{described, returned, closures}

-- The lines on std::cout, and the destruction of messages.
abbrev pub is_said : Call → Bool
is_said (print l) = true
is_said (destroy_message m) = true
is_said _ = false

pub data Block : Type 0 where
  -- nothing came in time
  missed : Block
  -- a message was returned and described
  handled : RawMessage → Return → Block
  -- a message could not be read
  dropped : RawMessage → Block

-- The calls of a block, the newest first.
abbrev pub block : Block → Trace
block missed = print (text "consume timeout") ∷ []
block (handled m method) = destroy_message m ∷ print (described m method) ∷ []
block (dropped m) = destroy_message m ∷ []

-- What consuming hands out is described, and destroyed when the callback is left.
deliver-Writes :
    (m : AmqpStruct RawMessage) (method : Return)
    → Writes anything do
      d ← run (set_done (statements (returned m.memory method)))
      destruct_message (record m { moved = d.keeps })
      finish d
unfolding run ◌>>=◌ destruct_message choose notify returned
deliver-Writes m method = record {
  at = λ lib h.
      let calls : Trace = destroy_message m.memory ∷ print (described m.memory method) ∷ [] in
      let r : Delivery = (set_done (statements (returned m.memory method)) lib h).0 in
      (calls, finish-adds_nothing r lib (calls ++ h), tt);
}

pub closures-AllWrite : AllWrite anything closures
closures-AllWrite = record {
  envelope = λ e. ignore_envelope-Writes anything anything-Utters e;
  returned = deliver-Writes;
  acknowledge = λ a. ignore_acknowledge-Writes anything anything-Utters;
}

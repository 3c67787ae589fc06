-- ===== src/ReturnedMessage.antt =====
-- include/rmqcxx/ReturnedMessage.hpp: a message that the broker sent back, and why.
use rabbitmq_cxx.Base.{◌≡◌, refl, false}
use rabbitmq_cxx.Amqp.{Trace, Library, RawMessage, Return}
use rabbitmq_cxx.Effect.{Effect, choose, notify, pure, ◌>>◌, ◌>>=◌}
use rabbitmq_cxx.AmqpStruct
use rabbitmq_cxx.AmqpStruct.{AmqpStruct, destruct_message}

pub record ReturnedMessage : Type 0 where
  pub message : AmqpStruct RawMessage
  pub method : Return

-- ReturnedMessage(Message message, amqp_basic_return_t method): the object, and what the argument is
-- left as. The parameter `message` is made by a move, and moved on to the member.
unfoldable pub construct :
    AmqpStruct RawMessage → Return → ReturnedMessage × AmqpStruct RawMessage × AmqpStruct RawMessage
construct argument method =
    let (parameter, gone) = AmqpStruct.move_construct argument in
    let (member, parameter_gone) = AmqpStruct.move_construct parameter in
    (record { message = member; method = method }, parameter_gone, gone)

-- ReturnedMessage(ReturnedMessage&&): the new object, and what the other is left as.
unfoldable pub move_construct : ReturnedMessage → ReturnedMessage × ReturnedMessage
move_construct other =
    let (m, gone) = AmqpStruct.move_construct other.message in
    (record { message = m; method = other.method }, record other { message = gone })

-- operator=(ReturnedMessage&&), for two objects
unfoldable pub move_assign : ReturnedMessage → ReturnedMessage → ReturnedMessage × ReturnedMessage
move_assign self other =
    let (m, gone) = AmqpStruct.move_assign self.message other.message in
    (record { message = m; method = other.method }, record other { message = gone })

-- ~ReturnedMessage
unfoldable pub destruct : ReturnedMessage → Effect (Unit {0})
destruct r = destruct_message r.message

-- A message that was not moved from, handed to the constructor, is destroyed once in all, with its
-- object, the parameter and the argument destroyed: as when it is destroyed itself. So it is when the
-- object is moved on.
pub construct-owns_once :
    (m : AmqpStruct RawMessage) (method : Return) (lib : Library) (h : Trace)
    → m.moved ≡ false
    → let (r, parameter, argument) = construct m method in
      let (r', rest) = move_construct r in
      ((destruct_message parameter >> (destruct r >> destruct_message argument)) lib h
        ≡ destruct_message m lib h)
      × ((destruct_message parameter
              >> (destruct rest >> (destruct r' >> destruct_message argument)))
            lib h
          ≡ destruct_message m lib h)
unfolding construct move_construct AmqpStruct.move_construct destruct destruct_message choose notify
    pure ◌>>=◌
construct-owns_once m method lib h own = (rw own refl, rw own refl)

-- ===== src/AmqpStruct.antt =====
-- include/rmqcxx/AMQPStruct.hpp, and the destructors of include/rmqcxx/Message.hpp and
-- include/rmqcxx/Envelope.hpp, which it is the base of. The C struct itself is a value: what its
-- pointers own is freed by the library's destroy call.
pub mod Ownership
use rabbitmq_cxx.Base.{Bool, true, false, Bytes}
use rabbitmq_cxx.Amqp.{RawMessage, RawEnvelope, destroy_message, destroy_envelope}
use rabbitmq_cxx.Effect.{Effect, pure, notify, choose}

pub record AmqpStruct (T : Type 0) : Type 0 where
  pub memory : T
  pub moved : Bool

-- explicit AMQPStruct(T memory)
unfoldable pub new : {T : Type 0} → T → AmqpStruct T
new memory = record { memory = memory; moved = false }

-- AMQPStruct(AMQPStruct&& other): the new object, and what `other` is left as.
unfoldable pub move_construct : {T : Type 0} → AmqpStruct T → AmqpStruct T × AmqpStruct T
move_construct other =
    (record { memory = other.memory; moved = false }, record other { moved = true })

-- operator=(AMQPStruct&& other): this object and `other`, two objects.
unfoldable pub move_assign :
    {T : Type 0} → AmqpStruct T → AmqpStruct T → AmqpStruct T × AmqpStruct T
move_assign self other =
    (record self { memory = other.memory; moved = false }, record other { moved = true })

-- ~Message
unfoldable pub destruct_message : AmqpStruct RawMessage → Effect (Unit {0})
destruct_message m = choose m.moved (pure tt) (notify (destroy_message m.memory))

-- ~Envelope
unfoldable pub destruct_envelope : AmqpStruct RawEnvelope → Effect (Unit {0})
destruct_envelope e = choose e.moved (pure tt) (notify (destroy_envelope e.memory))

-- Envelope::body
unfoldable pub body : AmqpStruct RawEnvelope → Bytes
body e = e.memory.message.body
